-- ===== src/Manager/Sql.antt =====
-- What the repositories rely on and this repository does not hold: github.com/uptrace/bun over SQLite.
use conduit_bmc.Base.{if◌then◌else◌, Text, same, Result, ok, err, ℕ, ◌≡◌, Bool, List}

-- `sql.ErrNoRows`, and every other error.
pub data SqlError : Type 0 where
  no_rows sql_failed : SqlError

-- What a repository returns: the error "... not found", or the database's own.
pub data Fault : Type 0 where
  not_found database_error : Fault

abbrev pub repository_error {ℓ} : {A : Type ℓ} → Result SqlError A → Result Fault A
repository_error (ok a) = ok a
repository_error (err no_rows) = err not_found
repository_error (err sql_failed) = err database_error

-- The statements that the repositories run on one table. A statement that fails changes nothing.
-- `find` is a SELECT of one row by a column, `select` one of all rows that meet a condition, in
-- descending order of a column. INSERT, UPDATE and DELETE are given the primary key; `upsert` is an
-- INSERT with ON CONFLICT DO UPDATE and the row that it makes of the old and the new one.
pub record Engine : Type 1 where
  pub Table : Type 0 → Type 0
  pub find : {R : Type 0} → (R → Text) → Text → Table R → Result SqlError R
  pub select : {R : Type 0} → (R → Bool) → (R → ℕ) → Table R → Result SqlError (List R)
  pub insert : {R : Type 0} → (R → Text) → R → Table R → Result SqlError (Table R)
  pub update : {R : Type 0} → (R → Text) → R → Table R → Result SqlError (Table R)
  pub upsert : {R : Type 0} → (R → Text) → (R → R → R) → R → Table R → Result SqlError (Table R)
  pub delete : {R : Type 0} → (R → Text) → Text → Table R → Result SqlError (Table R)

-- The row behind a key after an upsert.
abbrev pub merged : {R : Type 0} → (R → R → R) → R → Result SqlError R → R
merged merge r (ok old) = merge old r
merged merge r (err x) = r

-- Look-ups by the primary key, and what a statement that succeeds does to later ones.
pub record IsLawful (e : Engine) : Type 1 where
  pub find_key :
      {R : Type 0} (key : R → Text) (k : Text) (t : e.Table R) (r : R)
      → e.find key k t ≡ ok r
      → key r ≡ k
  pub find-insert :
      {R : Type 0} (key : R → Text) (r : R) (t after : e.Table R) (k : Text)
      → e.insert key r t ≡ ok after
      → e.find key k after ≡ (if same (key r) k then ok r else e.find key k t)
  pub insert_duplicate :
      {R : Type 0} (key : R → Text) (r old : R) (t : e.Table R)
      → e.find key (key r) t ≡ ok old
      → e.insert key r t ≡ err sql_failed
  pub find-update :
      {R : Type 0} (key : R → Text) (r old : R) (t after : e.Table R) (k : Text)
      → e.find key (key r) t ≡ ok old
      → e.update key r t ≡ ok after
      → e.find key k after ≡ (if same (key r) k then ok r else e.find key k t)
  pub find-upsert :
      {R : Type 0} (key : R → Text) (merge : R → R → R) (r : R) (t after : e.Table R) (k : Text)
      → ((old new : R) → key (merge old new) ≡ key old)
      → e.upsert key merge r t ≡ ok after
      → e.find key k after
        ≡ (if same (key r) k then ok (merged merge r (e.find key k t)) else e.find key k t)
