-- ===== src/Proxy/BatchResults/Matches.antt =====
-- That the lines of a batch's results come back one for one.
use hr.Prelude.{
  ℕ, ◌+◌, ◌≡◌, refl, true, false, not, ◌⊎◌, inl, inr, Option, none, some, List, [], ◌∷◌, All, lit,
  retain, Bool-cases, eq_text, Text,
}
use hr.Json.{Value, is_object, get_str}
use hr.Result.{Result}
use hr.Stats.{Stats}
use hr.Ccr.{CcrStore}
use hr.Proxy.Batches.{Contexts}
use hr.Proxy.Continuation.{anthropic, extract_ccr_tool_calls}
use hr.Proxy.Continuation.Rounds.{Library, Loop, is_nil}
use hr.Proxy.Continuation.Stripped.{IsPure}
use hr.Proxy.Continuation.Strip.{and_then-eq_some}
use hr.Proxy.Continuation.Bounded.{run_ccr_continuation_total}
use hr.Proxy.BatchResults.{
  lookup_context, Line, kept, put_message, is_blank, continued_line, continue_line, process_result,
  process_lines,
}

-- A line written for a line of the upstream: the line itself, where it was not continued, or its
-- result with the message replaced by one in which no call of the proxy's own stands beside others.
abbrev pub IsLineFor : Library → Text → Line → Type 0
IsLineFor lib line out =
    ((out.text ≡ line) × (out.processed ≡ false))
    ⊎ ((result message : Value) × (lib.from_str line ≡ some result)
        × (out.text ≡ lib.to_string (put_message message result))
        × IsPure lib.from_str anthropic message)

-- The lines that are not blank, and those written, in the same order.
abbrev pub Matches : Library → List Text → List Line → Type 0
Matches lib [] [] = Unit {0}
Matches lib (line ∷ rest) (out ∷ outs) = IsLineFor lib line out × Matches lib rest outs
Matches lib _ _ = ⊥

abbrev pub HasObject : Text × Value → Type 0
HasObject (_, params) = is_object params ≡ true

lookup_context-HasObject :
    (id : Text) (contexts : Contexts) (params : Value)
    → All HasObject contexts
    → lookup_context id contexts ≡ some params
    → is_object params ≡ true
unfolding lookup_context
lookup_context-HasObject id [] params all h = cc
lookup_context-HasObject id ((k, v) ∷ contexts) params all h = elim (Bool-cases (eq_text k id)) [
  | inl e ↦ let h' : some v ≡ some params = rw e at h in cc (h', all.0)
  | inr e ↦ lookup_context-HasObject id contexts params all.1 (rw e at h)
]

module _ (lib : Library) (S : CcrStore) (s : S.State) (contexts : Contexts)
    (objects : All HasObject contexts) where
  continued_line-IsLineFor :
      (line : Text) (result : Value) (loop : Loop)
      → lib.from_str line ≡ some result
      → IsPure lib.from_str anthropic loop.current
      → IsLineFor lib line (continued_line lib S s contexts line result loop)
  unfolding continued_line
  continued_line-IsLineFor line result loop parsed pure = elim (Bool-cases loop.changed) [
    | inl e ↦ rw e (inr (result, loop.current, parsed, refl, pure))
    | inr e ↦ rw e (inl (refl, refl))
  ]

  continue_line-IsLineFor :
      (send : List Value → Value → Result Value) (line : Text) (result : Value)
      (params message : Option Value) (stats : Stats)
      → lib.from_str line ≡ some result
      → ((p : Value) → params ≡ some p → is_object p ≡ true)
      → (out : Line) × (continue_line lib S s contexts send line result params message stats
          ≡ some out)
        × IsLineFor lib line out
  unfolding continue_line continued_line
  continue_line-IsLineFor send line result (some p) (some m) stats parsed object_params =
      elim (Bool-cases (is_nil (extract_ccr_tool_calls lib.from_str anthropic m))) [
        | inl e ↦ (kept line stats, rw e refl, inl (refl, refl))
        | inr e ↦
            let (loop, runs, bound, same, pure) =
              run_ccr_continuation_total lib S s anthropic send p m stats (object_params p refl) in
            (
              continued_line lib S s contexts line result loop,
              rw (e, runs) refl,
              continued_line-IsLineFor line result loop parsed pure,
            )
      ]
  continue_line-IsLineFor send line result none message stats parsed object_params =
      (kept line stats, refl, inl (refl, refl))
  continue_line-IsLineFor send line result (some p) none stats parsed object_params =
      (kept line stats, refl, inl (refl, refl))

  process_result-IsLineFor :
      (send : List Value → Value → Result Value) (line : Text) (o : Option Value) (stats : Stats)
      → lib.from_str line ≡ o
      → (out : Line) × (process_result lib S s contexts send line o stats ≡ some out)
        × IsLineFor lib line out
  unfolding process_result
  process_result-IsLineFor send line none stats h = (kept line stats, refl, inl (refl, refl))
  process_result-IsLineFor send line (some result) stats h =
      continue_line-IsLineFor send line result _ _ stats h (λ p found.
        let (id, _, looked) =
          and_then-eq_some (get_str (lit "custom_id") result) (λ id. lookup_context id contexts)
            found in
        lookup_context-HasObject id contexts p objects looked)

  -- Where the parameters of every context are an object, whatever the upstream answers, each line of
  -- a batch's results that is not blank is written once, in order: as it was, or with its
  -- message alone replaced by one in which no call of the proxy's own stands beside a client's.
  pub process_lines-Matches :
      (send : ℕ → List Value → Value → Result Value) (index : ℕ) (lines : List Text) (stats : Stats)
      → (outs : List Line) × (after : Stats) × (process_lines lib S s contexts send index lines
            stats
          ≡ some (outs, after))
        × Matches lib (retain (λ line. not (is_blank line)) lines) outs
  unfolding process_lines
  process_lines-Matches send index [] stats = ([], stats, refl, tt)
  process_lines-Matches send index (line ∷ rest) stats = elim (Bool-cases (is_blank line)) [
    | inl e ↦
        let (outs, after, runs, matches) = process_lines-Matches send index rest stats in
        (outs, after, rw e runs, rw e matches)
    | inr e ↦
        let (out, writes, is_line) =
          process_result-IsLineFor (send index) line (lib.from_str line) stats refl in
        let (outs, after, runs, matches) = process_lines-Matches send (index + 1) rest out.stats in
        (out ∷ outs, after, rw (e, writes, runs) refl, rw e (is_line, matches))
  ]
