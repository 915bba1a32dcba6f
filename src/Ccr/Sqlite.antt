-- ===== src/Ccr/Sqlite.antt =====
-- src/ccr.rs: `SqliteStore`. SQLite is not part of the program: the connection's statements are the
-- fields of an argument, and what the program relies on are the named laws. A poisoned lock is an
-- error of the first statement. The database file and the schema are not modelled.
use hr.Prelude.{ℕ, ◌+◌, ◌≡◌, ◌≢◌, Bool, true, false, Option, none, some, ◌==◌, if◌then◌else◌, Text}
use hr.Prelude.Strings.{byte_len}
use hr.Result.{Result, ok, err}
use hr.Tokens.{estimate_tokens}
use hr.Ccr.{CcrStore}

-- A row of `ccr_entries`.
pub record Row : Type 0 where
  pub hash : Text
  pub original : Text
  pub bytes : ℕ
  pub tokens : ℕ
  pub created_at : ℕ
  pub last_seen_at : ℕ

-- The four statements. The first two answer with the number of rows changed.
pub record Sqlite : Type 1 where
  pub Db : Type 0
  pub insert_or_ignore : Row → Db → Result ℕ × Db
  pub set_last_seen : ℕ → Text → Db → Result ℕ × Db
  pub select_original : Text → Db → Result (Option Text)
  pub count_rows : Db → Result ℕ

-- A statement is atomic; `INSERT OR IGNORE` inserts a row exactly if its primary key is absent; an
-- `UPDATE` of `last_seen_at` changes no original.
pub record SqliteLaws (Q : Sqlite) : Type 0 where
  pub insert_absent :
      (row : Row) (db db' : Q.Db) (n : ℕ)
      → Q.select_original row.hash db ≡ ok none
      → Q.insert_or_ignore row db ≡ (ok n, db')
      → (n ≡ 1) × (Q.select_original row.hash db' ≡ ok (some row.original))
  pub insert_present :
      (row : Row) (db db' : Q.Db) (n : ℕ) (kept : Text)
      → Q.select_original row.hash db ≡ ok (some kept)
      → Q.insert_or_ignore row db ≡ (ok n, db')
      → (n ≡ 0) × (Q.select_original row.hash db' ≡ ok (some kept))
  pub insert_other :
      (row : Row) (db : Q.Db) (other : Text)
      → row.hash ≢ other
      → Q.select_original other (Q.insert_or_ignore row db).1 ≡ Q.select_original other db
  pub insert_failure :
      (row : Row) (db db' : Q.Db) (e : Text)
      → Q.insert_or_ignore row db ≡ (err e, db')
      → Q.select_original row.hash db' ≡ Q.select_original row.hash db
  pub insert_count :
      (row : Row) (db db' : Q.Db) (n c : ℕ)
      → Q.insert_or_ignore row db ≡ (ok n, db')
      → Q.count_rows db ≡ ok c
      → Q.count_rows db' ≡ ok (c + n)
  pub seen_keeps :
      (now : ℕ) (hash other : Text) (db : Q.Db)
      → Q.select_original other (Q.set_last_seen now hash db).1 ≡ Q.select_original other db
  pub seen_count :
      (now : ℕ) (hash : Text) (db : Q.Db)
      → Q.count_rows (Q.set_last_seen now hash db).1 ≡ Q.count_rows db

module _ (Q : Sqlite) where
  -- `unix_timestamp()` and the connection
  pub record State : Type 0 where
    pub now : ℕ
    pub db : Q.Db

  abbrev pub row_of : Text → Text → ℕ → Row
  row_of hash original now = record {
    hash = hash;
    original = original;
    bytes = byte_len original;
    tokens = estimate_tokens original;
    created_at = now;
    last_seen_at = now;
  }

  -- `changed > 0`, behind an `UPDATE` that did not fail
  unfoldable pub after_update : Result ℕ → Result Bool
  after_update (ok _) = ok false
  after_update (err e) = err e

  unfoldable pub after_insert : Text → State → Result ℕ × Q.Db → Result Bool × State
  unfolding after_update
  after_insert hash s (err e, db) = (err e, record s { db = db })
  after_insert hash s (ok changed, db) =
      if changed == 0
      then (let (r, db') = Q.set_last_seen s.now hash db in (after_update r, record s { db = db' }))
      else (ok true, record s { db = db })

  unfoldable pub put : Text → Text → State → Result Bool × State
  unfolding after_insert
  put hash original s = after_insert hash s (Q.insert_or_ignore (row_of hash original s.now) s.db)

  unfoldable pub get : Text → State → Result (Option Text)
  get hash s = Q.select_original hash s.db

  unfoldable pub count : State → Result ℕ
  count s = Q.count_rows s.db

  abbrev pub sqlite_store : CcrStore
  sqlite_store = record { State = State; put = put; get = get; count = count }
