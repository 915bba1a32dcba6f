-- ===== src/Ccr/Laws.antt =====
-- `SqliteStore` keeps what the clients of `CcrStore` rely on.
use hr.Prelude.{ℕ, ◌≡◌, ◌⊎◌, inl, inr, refl, ◌∙◌, Bool, Option, none, some, ◌==◌, Bool-cases, Text}
use hr.Result.{Result, ok, err}
use hr.Ccr.{CcrStoreLaws, kept_or}
use hr.Ccr.Sqlite.{Sqlite, SqliteLaws, State, row_of, after_insert, put, get, sqlite_store}

module _ (Q : Sqlite) (L : SqliteLaws Q) where
  -- What the statement behind an insertion leaves under every hash.
  get-after_insert :
      (hash other : Text) (s : State Q) (r : Result ℕ) (db : Q.Db)
      → Q.select_original other (after_insert Q hash s (r, db)).1.db ≡ Q.select_original other db
  unfolding after_insert
  get-after_insert hash other s (err e) db = refl
  get-after_insert hash other s (ok n) db = elim (Bool-cases (n == 0)) [
    | inl again ↦ rw again (L.seen_keeps s.now hash other db)
    | inr new ↦ rw new
  ]

  kept_by_insert :
      (hash original : Text) (s : State Q) (known : Option Text) (n : ℕ) (db : Q.Db)
      → Q.select_original hash s.db ≡ ok known
      → Q.insert_or_ignore (row_of Q hash original s.now) s.db ≡ (ok n, db)
      → Q.select_original hash db ≡ ok (some (kept_or original known))
  kept_by_insert hash original s none n db h e = (L.insert_absent _ _ _ n h e).1
  kept_by_insert hash original s (some kept) n db h e = (L.insert_present _ _ _ n kept h e).1

  module _ (hash original : Text) (s : State Q) (known : Option Text)
      (readable : Q.select_original hash s.db ≡ ok known) where
    get-put :
        (r : Result ℕ) (db : Q.Db) (b : Bool)
        → Q.insert_or_ignore (row_of Q hash original s.now) s.db ≡ (r, db)
        → (after_insert Q hash s (r, db)).0 ≡ ok b
        → get Q hash (after_insert Q hash s (r, db)).1 ≡ ok (some (kept_or original known))
    unfolding after_insert get
    get-put (err e) db b h p = cc
    get-put (ok n) db b h p =
        get-after_insert hash hash s (ok n) db
        ∙ kept_by_insert hash original s known n db readable h

    get_put_failure :
        (r : Result ℕ) (db : Q.Db) (e : Text)
        → Q.insert_or_ignore (row_of Q hash original s.now) s.db ≡ (r, db)
        → (after_insert Q hash s (r, db)).0 ≡ err e
        → (get Q hash (after_insert Q hash s (r, db)).1 ≡ ok known)
          ⊎ (get Q hash (after_insert Q hash s (r, db)).1 ≡ ok (some (kept_or original known)))
    unfolding after_insert get
    get_put_failure (err e') db e h p = inl (L.insert_failure _ _ _ e' h ∙ readable)
    get_put_failure (ok n) db e h p = inr (
        get-after_insert hash hash s (ok n) db
        ∙ kept_by_insert hash original s known n db readable h)

  -- Where the statements of SQLite are as `SqliteLaws` says, `put` and `get` of `SqliteStore` are
  -- as `CcrStoreLaws` says: the first original stored under a hash stays, no other hash is
  -- touched, and a failing `put` has stored its original or nothing.
  pub sqlite_store-CcrStoreLaws : CcrStoreLaws (sqlite_store Q)
  unfolding put get
  sqlite_store-CcrStoreLaws = record {
    get_after_put = λ hash original s known b h p. get-put hash original s known h _ _ b refl p;
    get_other = λ hash original other s n.
        let row = row_of Q hash original s.now in
        let (r, db) = Q.insert_or_ignore row s.db in
        get-after_insert hash other s r db ∙ L.insert_other row s.db other n;
    get_after_failure =
        λ hash original s known e h p. get_put_failure hash original s known h _ _ e refl p;
  }
