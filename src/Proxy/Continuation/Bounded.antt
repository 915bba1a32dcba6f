-- ===== src/Proxy/Continuation/Bounded.antt =====
-- That the continuation of a response ends, whatever the upstream answers, and what it ends with.
use hr.Prelude.{
  ℕ, zero, suc, ◌+◌, ◌≤◌, ◌≡◌, refl, ◌∙◌, ap, arith, ◌⊎◌, inl, inr, Bool, true, false, not, ◌&&◌,
  Option, none, some, List, ◌==◌, if◌then◌else◌, Option-cases, length, lit,
}
use mathlib.Core.Path.{subst}
use hr.Json.{Value, array, object, is_object}
use hr.Json.Edit.{index_set, values_of}
use hr.Result.{Result, ok, err}
use hr.Stats.{Stats}
use hr.Ccr.{CcrStore}
use hr.Proxy.Continuation.{
  CcrProvider, strip_ccr_tool_calls, extract_ccr_tool_calls, openai_choice_count,
  provider_tool_calls,
}
use hr.Proxy.Continuation.Stripped.{IsPure, strip_ccr_tool_calls-IsPure, IsStripped-IsPure}
use hr.Proxy.Continuation.Rounds.{
  max_ccr_continuation_rounds, Loop, Turn, leave, go_on, panics, Library, take_stripped, resolve,
  strip_loop, send_body, after_send, turn, rounds, start, run_ccr_continuation, is_nil, is_open_ai,
}

-- Stripping sends nothing, and changes the response only where it says so.
abbrev Strips : Loop → Loop → Type 0
Strips loop loop' =
    (loop'.sent ≡ loop.sent)
    × (loop'.changed ≡ false → (loop.changed ≡ false) × (loop'.current ≡ loop.current))

take_stripped-Strips : (o : Option Value) (loop : Loop) → Strips loop (take_stripped o loop)
unfolding take_stripped
take_stripped-Strips none loop = (refl, λ h. (h, refl))
take_stripped-Strips (some v) loop = (refl, λ h. absurd (cc))

-- A round sends one body at most, and leaves the response as it was unless it says so.
abbrev IsTurn : Value → List Value → Bool → Value → Turn → Type 0
IsTurn request_body sent changed current (leave loop') =
    (length loop'.sent ≤ suc (length sent))
    × (loop'.changed ≡ false → (changed ≡ false) × (loop'.current ≡ current))
IsTurn request_body sent changed current (go_on loop') =
    (length loop'.sent ≡ suc (length sent)) × (loop'.changed ≡ true)
IsTurn request_body sent changed current panics = is_object request_body ≡ false

abbrev IsTurnOf : Value → Loop → Turn → Type 0
IsTurnOf request_body loop = IsTurn request_body loop.sent loop.changed loop.current

after_send-IsTurn :
    (request_body body : Value) (answer : Result Value) (loop : Loop)
    → IsTurnOf request_body loop (after_send body answer loop)
unfolding after_send
after_send-IsTurn request_body body (err e) loop = (omega arith, λ h. (h, refl))
after_send-IsTurn request_body body (ok next) loop = (refl, refl)

index_set-none : (v w : Value) → index_set (lit "messages") v w ≡ none → is_object w ≡ false
unfolding index_set
index_set-none v (object m) h = cc
index_set-none v (array vs) h = refl
index_set-none v _ h = refl

module _ (send : List Value → Value → Result Value) where
  -- A loop that differs from `loop` in its messages and its counters is as good.
  send_body-IsTurn :
      (request_body v : Value) (loop : Loop) (o : Option Value)
      → index_set (lit "messages") v request_body ≡ o
      → IsTurnOf request_body loop (send_body send o loop)
  unfolding send_body
  send_body-IsTurn request_body v loop none h = index_set-none v request_body h
  send_body-IsTurn request_body v loop (some body) h =
      after_send-IsTurn request_body body (send loop.sent body) loop

pub if-intro {ℓ κ} :
    {A : Type ℓ} (P : A → Type κ) (t : Bool) (a b : A) → P a → P b → P (if t then a else b)
if-intro P true a b pa pb = pa
if-intro P false a b pa pb = pb

Turn-cases :
    (t : Turn) → ((l : Loop) × (t ≡ leave l)) ⊎ (((l : Loop) × (t ≡ go_on l)) ⊎ (t ≡ panics))
Turn-cases (leave l) = inl (l, refl)
Turn-cases (go_on l) = inr (inl (l, refl))
Turn-cases panics = inr (inr refl)

-- Behind the last stripping no call of the proxy's own stands beside a client's.
strip_loop-IsPure :
    (lib : Library) (provider : CcrProvider) (loop : Loop)
    → IsPure lib.from_str provider (strip_loop lib provider loop).current
unfolding take_stripped
strip_loop-IsPure lib provider loop =
    elim (Option-cases (strip_ccr_tool_calls lib.from_str provider loop.current)) [
      | inl e ↦ rw e (strip_ccr_tool_calls-IsPure lib.from_str provider loop.current e)
      | inr (stripped, e) ↦ rw e (IsStripped-IsPure lib.from_str provider loop.current stripped e)
    ]

module _ (lib : Library) (S : CcrStore) (s : S.State) (provider : CcrProvider) where
  strip-IsTurn :
      (request_body : Value) (loop : Loop)
      → IsTurnOf request_body loop (leave (strip_loop lib provider loop))
  strip-IsTurn request_body loop =
      let (sent, same) =
        take_stripped-Strips (strip_ccr_tool_calls lib.from_str provider loop.current) loop in
      (omega (arith, ap length sent), same)

  module _ (send : List Value → Value → Result Value) (request_body : Value) where
    turn-IsTurn :
        (loop : Loop) → IsTurnOf request_body loop (turn lib S s provider send request_body loop)
    unfolding turn resolve
    turn-IsTurn loop =
        let calls = extract_ccr_tool_calls lib.from_str provider loop.current in
        let resolved = resolve lib S s provider calls loop in
        let P = IsTurnOf request_body loop in
        if-intro P (is_nil calls) _ _ (omega arith, λ h. (h, refl))
          (if-intro P (is_open_ai provider && not (openai_choice_count loop.current == 1)) _ _
            (strip-IsTurn request_body loop)
            (if-intro P (not (length (provider_tool_calls provider loop.current) == length calls)) _
              _ (strip-IsTurn request_body loop)
              (send_body-IsTurn send request_body (array (values_of resolved.messages)) resolved _
                refl)))

    -- The response stays as it was unless the loop says so.
    abbrev Ends : Loop → Loop → Type 0
    Ends loop loop' =
        loop'.changed ≡ false
        → (loop.changed ≡ false)
          × (loop'.current ≡ loop.current)
          × (length loop'.sent ≤ suc (length loop.sent))

    -- With a body that is an object, the loop ends, and sends no more bodies than it has rounds.
    rounds-Ends :
        (left : ℕ) (loop : Loop)
        → is_object request_body ≡ true
        → (loop' : Loop) × (rounds lib S s provider send request_body left loop ≡ some loop')
          × (length loop'.sent ≤ left + length loop.sent)
          × Ends loop loop'
    unfolding rounds
    rounds-Ends zero loop h = (loop, refl, omega arith, λ k. (k, refl, omega arith))
    rounds-Ends (suc left) loop h =
        elim (Turn-cases (turn lib S s provider send request_body loop)) [
          | inl (loop', e) ↦
              let (sent, same) = subst (IsTurnOf request_body loop) e (turn-IsTurn loop) in
              (loop', rw e refl, omega arith, λ k. ((same k).0, (same k).1, sent))
          | inr (inl (loop', e)) ↦
              let (sent, changed) = subst (IsTurnOf request_body loop) e (turn-IsTurn loop) in
              let (end, runs, bound, ends) = rounds-Ends left loop' h in
              (end, rw e runs, omega arith, λ k. absurd (cc (changed, (ends k).0)))
          | inr (inr e) ↦
              let panicked = subst (IsTurnOf request_body loop) e (turn-IsTurn loop) in absurd (cc)
        ]

    -- For a request body that is an object, the continuation returns, whatever the upstream answers:
    -- it sends three bodies at most; where it reports no change, the response is the initial one
    -- and one body was sent at most; and the response has none of the proxy's own calls, or none but
    -- those.
    pub run_ccr_continuation_total :
        (initial : Value) (stats : Stats)
        → is_object request_body ≡ true
        → (loop : Loop) × (run_ccr_continuation lib S s provider send request_body initial stats
            ≡ some loop)
          × (length loop.sent ≤ 3)
          × (loop.changed ≡ false → (loop.current ≡ initial) × (length loop.sent ≤ 1))
          × IsPure lib.from_str provider loop.current
    unfolding run_ccr_continuation
    run_ccr_continuation_total initial stats h =
        let (end, runs, bound, ends) =
          rounds-Ends max_ccr_continuation_rounds
            (start lib S s provider send request_body initial stats) h in
        let (sent, same) =
          take_stripped-Strips (strip_ccr_tool_calls lib.from_str provider end.current) end in
        (
          strip_loop lib provider end,
          rw runs refl,
          omega (arith, ap length sent),
          λ k.
              let (unchanged, current) = same k in
              let (_, initially, once) = ends unchanged in
              (current ∙ initially, omega (arith, ap length sent)),
          strip_loop-IsPure lib provider end,
        )
