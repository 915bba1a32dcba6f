-- ===== src/Compress/Slots.antt =====
-- What the loop over the planned slots compresses.
use hr.Prelude.{
  ◌≤◌, ◌<◌, ◌≡◌, ◌⊎◌, inl, inr, refl, Bool, true, false, some, Bool-cases, arith, lit, Text, Bytes,
}
use hr.Prelude.Strings.{contains, byte_len}
use hr.Result.{Result, ok, err}
use hr.Stats.{Stats}
use hr.Tokens.{estimate_tokens}
use hr.Splice.{Replacement}
use hr.Ccr.{CcrStore, content_hash, marker_for_hash}
use hr.Compress.{PlanSlot, replace_slot, is_admitted, compress_slot}

module _ (sha256 : Bytes → Bytes) (S : CcrStore) (json_string : Text → Bytes) where
  -- A slot was replaced by the marker of its text, in its place, for fewer tokens, and the store
  -- took the text under the hash of the marker.
  pub record IsReplaced (slot : PlanSlot) (s s' : S.State) (r : Replacement) (hash : Text)
      : Type 0 where
    pub hash_of : hash ≡ content_hash sha256 slot.text
    pub start_of : r.start ≡ slot.start
    pub end_of : r.end ≡ slot.end
    pub bytes_of : r.bytes ≡ json_string (marker_for_hash hash)
    pub unmarked : contains (lit "<<ccr:") slot.text ≡ false
    pub large : slot.min_bytes ≤ byte_len slot.text
    pub shrinks : estimate_tokens (marker_for_hash hash) < estimate_tokens slot.text
    pub inserted : Bool
    pub accepted : S.put hash slot.text s ≡ (ok inserted, s')

  replace_slot-IsReplaced :
      (slot : PlanSlot) (s : S.State) (put : Result Bool × S.State) (stats : Stats)
      (r : Replacement) (hash : Text)
      → is_admitted sha256 S json_string slot ≡ true
      → S.put (content_hash sha256 slot.text) slot.text s ≡ put
      → (replace_slot sha256 S json_string slot put stats).0 ≡ some (r, hash)
      → IsReplaced slot s (replace_slot sha256 S json_string slot put stats).1 r hash
  unfolding replace_slot is_admitted
  replace_slot-IsReplaced slot s (ok inserted, s') stats r hash a p h =
      let same : hash ≡ content_hash sha256 slot.text = cc in
      record {
        hash_of = same;
        start_of = cc;
        end_of = cc;
        bytes_of = cc;
        unmarked = ground arith;
        large = ground arith;
        shrinks = rw same (ground arith);
        inserted = inserted;
        accepted = rw same p;
      }
  replace_slot-IsReplaced slot s (err e, s') stats r hash a p h = absurd (cc)

  -- Where `compress_slot` answers with a replacement, the slot had no marker in its text and at least
  -- its minimum of bytes; the replacement is the marker of the text's hash in the place of the slot,
  -- of fewer tokens than the text; and the store's `put` accepted the text under that hash.
  pub compress_slot-IsReplaced :
      (slot : PlanSlot) (s : S.State) (stats : Stats) (r : Replacement) (hash : Text)
      → (compress_slot sha256 S json_string slot s stats).0 ≡ some (r, hash)
      → IsReplaced slot s (compress_slot sha256 S json_string slot s stats).1 r hash
  unfolding compress_slot
  compress_slot-IsReplaced slot s stats r hash h =
      elim (Bool-cases (is_admitted sha256 S json_string slot)) [
        | inl gate ↦
            rw gate (replace_slot-IsReplaced slot s _ stats r hash gate refl (rw gate at h))
        | inr closed ↦ absurd (cc (rw closed at h))
      ]

  replace_slot-state :
      (slot : PlanSlot) (put : Result Bool × S.State) (stats : Stats)
      → (replace_slot sha256 S json_string slot put stats).1 ≡ put.1
  unfolding replace_slot
  replace_slot-state slot (ok inserted, s) stats = refl
  replace_slot-state slot (err e, s) stats = refl

  -- The store is as before, or what the `put` of the slot's text left.
  pub compress_slot-state :
      (slot : PlanSlot) (s : S.State) (stats : Stats)
      → ((compress_slot sha256 S json_string slot s stats).1 ≡ s)
        ⊎ ((compress_slot sha256 S json_string slot s stats).1
            ≡ (S.put (content_hash sha256 slot.text) slot.text s).1)
  unfolding compress_slot
  compress_slot-state slot s stats = elim (Bool-cases (is_admitted sha256 S json_string slot)) [
    | inl gate ↦ inr (rw gate (replace_slot-state slot _ stats))
    | inr closed ↦ inl (rw closed refl)
  ]
