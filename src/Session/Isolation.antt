-- ===== src/Session/Isolation.antt =====
-- Sessions do not see one another's floors.
use hr.Prelude.{ℕ, ◌≡◌, ◌≢◌, refl, ap, ◌∙◌, Option, none, some, List, inl, inr, arith, Bool-cases}
use hr.Session.Entries.{lookup-write, lookup-retain-write}
use hr.Session.{
  Key, eq_key_iff, PrefixState, Inner, lookup, write, is_live, cleaned_recently, maybe_cleanup,
  floor_of, frozen_message_count, update_from_response,
}

lookup-cleanup-write :
    (now : ℕ) (k j : Key) (s : PrefixState) (inner : Inner)
    → k ≢ j
    → lookup j (maybe_cleanup now (record inner { prefixes = write k s inner.prefixes })).prefixes
      ≡ lookup j (maybe_cleanup now inner).prefixes
unfolding maybe_cleanup
lookup-cleanup-write now k j s inner n =
    elim (Bool-cases (cleaned_recently now inner.last_cleanup)) [
      | inl recent ↦ rw recent (lookup-write k j s inner.prefixes ∙ ground (arith, eq_key_iff k j))
      | inr due ↦ rw due (lookup-retain-write (is_live now) k j s inner.prefixes n)
    ]

-- The answer is read off the entry alone.
floor_of-inner :
    (a b : Inner) (touched : ℕ) (j : Key) (o : Option PrefixState)
    → (floor_of a j touched o).0 ≡ (floor_of b j touched o).0
unfolding floor_of
floor_of-inner a b touched j none = refl
floor_of-inner a b touched j (some s) = ground arith

floor_of-lookup :
    (a b : Inner) (touched : ℕ) (j : Key)
    → lookup j a.prefixes ≡ lookup j b.prefixes
    → (floor_of a j touched (lookup j a.prefixes)).0
      ≡ (floor_of b j touched (lookup j b.prefixes)).0
floor_of-lookup a b touched j e =
    ap (λ o. (floor_of a j touched o).0) e ∙ floor_of-inner a b touched j (lookup j b.prefixes)

-- What the provider confirms for one session does not change the floor of another: that is at any
-- later time what it is behind the cleanup alone with which the update starts.
pub frozen-update_ne :
    (now touched now' touched' : ℕ) (key other : Key) (read written : ℕ) (estimates : List ℕ)
    (inner : Inner)
    → key ≢ other
    → (frozen_message_count now' touched' other
        (update_from_response now touched key read written estimates inner)).0
      ≡ (frozen_message_count now' touched' other (maybe_cleanup now inner)).0
unfolding frozen_message_count update_from_response
frozen-update_ne now touched now' touched' key other read written estimates inner n =
    floor_of-lookup _ _ touched' other
      (lookup-cleanup-write now' key other _ (maybe_cleanup now inner) n)
