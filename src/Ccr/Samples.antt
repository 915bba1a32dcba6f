-- ===== src/Ccr/Samples.antt =====
-- Concrete arguments: a database that is a list of rows, and a digest that tells one text from all
-- others.
use hr.Prelude.{
  ℕ, suc, ◌+◌, ◌≡◌, ◌≢◌, inl, inr, refl, sym, ap, ◌∙◌, Option, none, some, List, [], ◌∷◌,
  if◌then◌else◌, Bool-cases, arith, length, eq_text, eq_text_iff, eq_text_refl, Text,
}
use hr.Result.{Result, ok, err}
use hr.Ccr.{CcrStore, CcrStoreLaws}
use hr.Ccr.Sqlite.{Row, Sqlite, SqliteLaws, sqlite_store}
use hr.Ccr.Laws.{sqlite_store-CcrStoreLaws}

unfoldable pub original_in : Text → List Row → Option Text
original_in hash [] = none
original_in hash (row ∷ rows) =
    if eq_text row.hash hash then some row.original else original_in hash rows

unfoldable pub insert_absent_row : Row → Option Text → List Row → Result ℕ × List Row
insert_absent_row row none rows = (ok 1, row ∷ rows)
insert_absent_row row (some _) rows = (ok 0, rows)

unfoldable pub touch : ℕ → Text → List Row → List Row
touch now hash [] = []
touch now hash (row ∷ rows) =
    (if eq_text row.hash hash then record row { last_seen_at = now } else row) ∷ touch now hash rows

abbrev pub list_db : Sqlite
list_db = record {
  Db = List Row;
  insert_or_ignore = λ row rows. insert_absent_row row (original_in row.hash rows) rows;
  set_last_seen = λ now hash rows. (ok 1, touch now hash rows);
  select_original = λ hash rows. ok (original_in hash rows);
  count_rows = λ rows. ok (length rows);
}

original_in-touch :
    (now : ℕ) (hash other : Text) (rows : List Row)
    → original_in other (touch now hash rows) ≡ original_in other rows
unfolding original_in touch
original_in-touch now hash other [] = refl
original_in-touch now hash other (row ∷ rows) = elim (Bool-cases (eq_text row.hash hash)) [
  | inl same ↦ rw (same, original_in-touch now hash other rows) refl
  | inr apart ↦ rw (apart, original_in-touch now hash other rows) refl
]

length-touch :
    (now : ℕ) (hash : Text) (rows : List Row) → length (touch now hash rows) ≡ length rows
unfolding touch
length-touch now hash [] = refl
length-touch now hash (row ∷ rows) = ap suc (length-touch now hash rows)

other_row :
    (row : Row) (rows : List Row) (known : Option Text) (other : Text)
    → row.hash ≢ other
    → original_in other (insert_absent_row row known rows).1 ≡ original_in other rows
unfolding insert_absent_row original_in
other_row row rows (some kept) other n = refl
other_row row rows none other n = elim (Bool-cases (eq_text row.hash other)) [
  | inl same ↦ absurd (n ((eq_text_iff row.hash other).0 same))
  | inr apart ↦ rw apart refl
]

-- What an answer of the insertion says.
inserted_one :
    (row : Row) (rows rows' : List Row) (n : ℕ)
    → ◌≡◌ {A = Result ℕ × List Row} (insert_absent_row row none rows) (ok n, rows')
    → (n ≡ 1) × (rows' ≡ row ∷ rows)
unfolding insert_absent_row
inserted_one row rows rows' n h =
    let m : ◌≡◌ {A = Result ℕ} (ok 1) (ok n) = ap (λ p. p.0) h in (cc, sym (ap (λ p. p.1) h))

kept_all :
    (row : Row) (kept : Text) (rows rows' : List Row) (n : ℕ)
    → ◌≡◌ {A = Result ℕ × List Row} (insert_absent_row row (some kept) rows) (ok n, rows')
    → (n ≡ 0) × (rows' ≡ rows)
unfolding insert_absent_row
kept_all row kept rows rows' n h =
    let m : ◌≡◌ {A = Result ℕ} (ok 0) (ok n) = ap (λ p. p.0) h in (cc, sym (ap (λ p. p.1) h))

never_fails :
    (row : Row) (known : Option Text) (rows rows' : List Row) (e : Text)
    → ◌≢◌ {A = Result ℕ × List Row} (insert_absent_row row known rows) (err e, rows')
unfolding insert_absent_row
never_fails row none rows rows' e h =
    let m : ◌≡◌ {A = Result ℕ} (ok 1) (err e) = ap (λ p. p.0) h in cc
never_fails row (some kept) rows rows' e h =
    let m : ◌≡◌ {A = Result ℕ} (ok 0) (err e) = ap (λ p. p.0) h in cc

count_row :
    (row : Row) (rows rows' : List Row) (known : Option Text) (n : ℕ)
    → ◌≡◌ {A = Result ℕ × List Row} (insert_absent_row row known rows) (ok n, rows')
    → length rows' ≡ length rows + n
count_row row rows rows' none n h =
    let (one, same) = inserted_one row rows rows' n h in ap length same ∙ omega (arith, one)
count_row row rows rows' (some kept) n h =
    let (zero_rows, same) = kept_all row kept rows rows' n h in
    ap length same ∙ omega (arith, zero_rows)

original_in-first :
    (row : Row) (rows : List Row) → original_in row.hash (row ∷ rows) ≡ some row.original
unfolding original_in
original_in-first row rows = rw (eq_text_refl row.hash) refl

pub list_db-SqliteLaws : SqliteLaws list_db
list_db-SqliteLaws = record {
  insert_absent = λ row db db' n absent h.
      let a : original_in row.hash db ≡ none = cc in
      let (one, rows) = inserted_one row db db' n (rw a at h) in
      (one, ap (λ l. ok (original_in row.hash l)) rows ∙ ap ok (original_in-first row db));
  insert_present = λ row db db' n kept present h.
      let a : original_in row.hash db ≡ some kept = cc in
      let (none_new, rows) = kept_all row kept db db' n (rw a at h) in
      (none_new, ap (λ l. ok (original_in row.hash l)) rows ∙ present);
  insert_other = λ row db other n. ap ok (other_row row db (original_in row.hash db) other n);
  insert_failure = λ row db db' e h. absurd (never_fails row (original_in row.hash db) db db' e h);
  insert_count = λ row db db' n c h k.
      let a : length db ≡ c = cc in
      ap ok (count_row row db db' (original_in row.hash db) n h ∙ ap (λ m. m + n) a);
  seen_keeps = λ now hash other db. ap ok (original_in-touch now hash other db);
  seen_count = λ now hash db. ap ok (length-touch now hash db);
}

abbrev pub store : CcrStore
store = sqlite_store list_db

abbrev pub store-CcrStoreLaws : CcrStoreLaws store
store-CcrStoreLaws = sqlite_store-CcrStoreLaws list_db list_db-SqliteLaws
