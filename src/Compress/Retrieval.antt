-- ===== src/Compress/Retrieval.antt =====
-- Every marker that the loop over the slots leaves in the request can be expanded from the store.
use mathlib.Core.Path.{subst}
use hr.Prelude.{
  ◌≡◌, ◌≢◌, inl, inr, refl, sym, ap, ◌∙◌, Bool, Option, none, some, List, [], ◌∷◌, ◌++◌, append-nil,
  append_assoc, Bool-cases, eq_text, eq_text_iff, All, Text, Bytes,
}
use hr.Result.{Result, ok, err}
use hr.Stats.{Stats}
use hr.Splice.{Replacement}
use hr.Ccr.{CcrStore, CcrStoreLaws, content_hash}
use hr.Compress.{PlanSlot, Compressed, collect, compress_slot, compress_slots}
use hr.Compress.Content.{IsConsistent, NoCollision, put_stores}
use hr.Compress.Consistent.{put-IsConsistent}
use hr.Compress.Slots.{IsReplaced, compress_slot-IsReplaced, compress_slot-state}

module _ (sha256 : Bytes → Bytes) (S : CcrStore) (L : CcrStoreLaws S)
    (json_string : Text → Bytes) where
  put_keeps :
      (hash kept other original : Text) (s : S.State)
      → S.get hash s ≡ ok (some kept)
      → S.get hash (S.put other original s).1 ≡ ok (some kept)
  put_keeps hash kept other original s h = elim (Bool-cases (eq_text other hash)) [
    | inl same ↦
        subst (λ t. S.get hash (S.put t original s).1 ≡ ok (some kept))
          (sym ((eq_text_iff other hash).0 same)) (go (S.put hash original s).0 refl)
    | inr apart ↦
        let ne : other ≢ hash = λ e. cc (apart, (eq_text_iff other hash).1 e) in
        L.get_other other original hash s ne ∙ h
  ]
    where
      go :
          (r : Result Bool)
          → (S.put hash original s).0 ≡ r
          → S.get hash (S.put hash original s).1 ≡ ok (some kept)
      go (ok b) p = L.get_after_put hash original s (some kept) b h p
      go (err e) p = elim (L.get_after_failure hash original s (some kept) e h p) [
        | inl same ↦ same
        | inr done ↦ done
      ]

  compress_slot_keeps :
      (hash kept : Text) (slot : PlanSlot) (s : S.State) (stats : Stats)
      → S.get hash s ≡ ok (some kept)
      → S.get hash (compress_slot sha256 S json_string slot s stats).1 ≡ ok (some kept)
  compress_slot_keeps hash kept slot s stats h =
      elim (compress_slot-state sha256 S json_string slot s stats) [
        | inl e ↦ subst (λ t. S.get hash t ≡ ok (some kept)) (sym e) h
        | inr e ↦
            subst (λ t. S.get hash t ≡ ok (some kept)) (sym e) (put_keeps hash kept _ slot.text s h)
      ]

  compress_slots_keeps :
      (hash kept : Text) (slots : List PlanSlot) (c : Compressed) (s : S.State) (stats : Stats)
      → S.get hash s ≡ ok (some kept)
      → S.get hash (compress_slots sha256 S json_string slots c s stats).1 ≡ ok (some kept)
  unfolding compress_slots
  compress_slots_keeps hash kept [] c s stats h = h
  compress_slots_keeps hash kept (slot ∷ slots) c s stats h =
      compress_slots_keeps hash kept slots _ _ _ (compress_slot_keeps hash kept slot s stats h)

  compress_slot-IsConsistent :
      (slot : PlanSlot) (s : S.State) (stats : Stats)
      → IsConsistent sha256 S L s
      → IsConsistent sha256 S L (compress_slot sha256 S json_string slot s stats).1
  compress_slot-IsConsistent slot s stats c =
      elim (compress_slot-state sha256 S json_string slot s stats) [
        | inl e ↦ subst (IsConsistent sha256 S L) (sym e) c
        | inr e ↦
            subst (IsConsistent sha256 S L) (sym e) (put-IsConsistent sha256 S L slot.text s c)
      ]

  -- The replacements and their hashes belong to some of the slots, in order, each with the marker of
  -- its slot's text in the place of the slot, and that text can be read under the hash.
  pub data Retrievable (s : S.State) : List PlanSlot → List Replacement → List Text → Type 0 where
    finished : Retrievable s [] [] []
    left_alone :
        {slot : PlanSlot} {slots : List PlanSlot} {rs : List Replacement} {hashes : List Text}
        → Retrievable s slots rs hashes
        → Retrievable s (slot ∷ slots) rs hashes
    marked :
        {slot : PlanSlot} {slots : List PlanSlot} {rs : List Replacement} {hashes : List Text}
        {before after : S.State} {r : Replacement} {hash : Text}
        → IsReplaced sha256 S json_string slot before after r hash
        → S.get hash s ≡ ok (some slot.text)
        → Retrievable s slots rs hashes
        → Retrievable s (slot ∷ slots) (r ∷ rs) (hash ∷ hashes)

  -- What the loop adds to the collections.
  pub record Adds (slots : List PlanSlot) (c c' : Compressed) (s : S.State) : Type 0 where
    pub rs : List Replacement
    pub hs : List Text
    pub replacements_of : c'.replacements ≡ c.replacements ++ rs
    pub hashes_of : c'.hashes ≡ c.hashes ++ hs
    pub retrievable : Retrievable s slots rs hs

  stored_text :
      (slot : PlanSlot) (s s' : S.State) (r : Replacement) (hash : Text)
      → IsConsistent sha256 S L s
      → NoCollision sha256 S L slot.text
      → IsReplaced sha256 S json_string slot s s' r hash
      → S.get hash s' ≡ ok (some slot.text)
  stored_text slot s s' r hash c n i =
      let put_hash : S.put (content_hash sha256 slot.text) slot.text s ≡ (ok i.inserted, s') =
        subst (λ h. S.put h slot.text s ≡ (ok i.inserted, s')) i.hash_of i.accepted in
      subst (λ h. S.get h s' ≡ ok (some slot.text)) (sym i.hash_of)
        (subst (λ p. S.get (content_hash sha256 slot.text) p.1 ≡ ok (some slot.text)) put_hash
          (put_stores sha256 S L slot.text s i.inserted c n (ap (λ p. p.0) put_hash)))

  -- One round of the loop, from what the rounds behind it add.
  collect-Adds :
      (slot : PlanSlot) (slots : List PlanSlot) (c : Compressed) (s last : S.State) (stats : Stats)
      (found : Option (Replacement × Text)) (c' : Compressed)
      → (compress_slot sha256 S json_string slot s stats).0 ≡ found
      → ((hash kept : Text)
          → S.get hash (compress_slot sha256 S json_string slot s stats).1 ≡ ok (some kept)
          → S.get hash last ≡ ok (some kept))
      → IsConsistent sha256 S L s
      → NoCollision sha256 S L slot.text
      → Adds slots (collect slot found c) c' last
      → Adds (slot ∷ slots) c c' last
  unfolding collect
  collect-Adds slot slots c s last stats none c' e keeps g n a = record {
    rs = a.rs;
    hs = a.hs;
    replacements_of = a.replacements_of;
    hashes_of = a.hashes_of;
    retrievable = left_alone a.retrievable;
  }
  collect-Adds slot slots c s last stats (some (r, hash)) c' e keeps g n a =
      let i = compress_slot-IsReplaced sha256 S json_string slot s stats r hash e in
      record {
        rs = r ∷ a.rs;
        hs = hash ∷ a.hs;
        replacements_of = a.replacements_of ∙ append_assoc c.replacements (r ∷ []) a.rs;
        hashes_of = a.hashes_of ∙ append_assoc c.hashes (hash ∷ []) a.hs;
        retrievable =
            marked i (keeps hash slot.text (stored_text slot s _ r hash g n i)) a.retrievable;
      }

  -- From a consistent store with the laws, and where no text of a slot shares its hash with
  -- another text: the loop adds replacements and hashes of some of the slots, in order, and at its
  -- end the text that each marker replaced is in the store, under the hash of the marker.
  pub compress_slots-Adds :
      (slots : List PlanSlot) (c : Compressed) (s : S.State) (stats : Stats)
      → IsConsistent sha256 S L s
      → All (λ slot. NoCollision sha256 S L slot.text) slots
      → Adds slots c
          (compress_slots sha256 S json_string slots c s stats).0
          (compress_slots sha256 S json_string slots c s stats).1
  unfolding compress_slots
  compress_slots-Adds [] c s stats g n = record {
    rs = [];
    hs = [];
    replacements_of = sym (append-nil c.replacements);
    hashes_of = sym (append-nil c.hashes);
    retrievable = finished;
  }
  compress_slots-Adds (slot ∷ slots) c s stats g (n, ns) =
      let (found, s', stats') = compress_slot sha256 S json_string slot s stats in
      collect-Adds slot slots c s _ stats found _ refl
        (λ hash kept h. compress_slots_keeps hash kept slots _ s' stats' h) g n
        (compress_slots-Adds slots (collect slot found c) s' stats'
          (compress_slot-IsConsistent slot s stats g) ns)
