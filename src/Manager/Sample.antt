-- ===== src/Manager/Sample.antt =====
-- Tables as lists of rows, which meet the laws of Manager/Sql, for runs.
use conduit_bmc.Base.{
  Result-cases, if◌then◌else◌, Text, same, same_iff, Result, ok, err, ◌≡◌, refl, ◌∙◌, inl, inr,
  Bool, List, [], ◌∷◌, arith,
}
use conduit_bmc.Manager.Sql.{Engine, IsLawful, SqlError, no_rows, sql_failed, merged}

module _ {R : Type 0} (key : R → Text) where
  unfoldable pub find_row : Text → List R → Result SqlError R
  find_row k [] = err no_rows
  find_row k (r ∷ t) = let rest = find_row k t in if same (key r) k then ok r else rest

  unfoldable pub insert_row : R → List R → Result SqlError (List R)
  unfolding find_row
  insert_row r t = elim (find_row (key r) t) [ ok old ↦ err sql_failed | err f ↦ ok (r ∷ t) ]

  unfoldable pub delete_row : Text → List R → List R
  delete_row k [] = []
  delete_row k (r ∷ t) = let rest = delete_row k t in if same (key r) k then rest else r ∷ rest

  unfoldable pub update_row : R → List R → Result SqlError (List R)
  unfolding find_row delete_row
  update_row r t = elim (find_row (key r) t) [
    | ok old ↦ ok (r ∷ delete_row (key r) t)
    | err f ↦ ok t
  ]

  unfoldable pub upsert_row : (R → R → R) → R → List R → Result SqlError (List R)
  unfolding find_row delete_row
  upsert_row merge r t = elim (find_row (key r) t) [
    | ok old ↦ ok (merge old r ∷ delete_row (key r) t)
    | err f ↦ ok (r ∷ t)
  ]

  pub keyed : (k : Text) (t : List R) (r : R) → find_row k t ≡ ok r → key r ≡ k
  unfolding find_row
  keyed k [] r h = cc
  keyed k (s ∷ t) r h = ground (arith, keyed k t r, same_iff (key s) k)

  pub inserted :
      (r : R) (t after : List R) (k : Text)
      → insert_row r t ≡ ok after
      → find_row k after ≡ (if same (key r) k then ok r else find_row k t)
  unfolding insert_row find_row
  inserted r t after k h = elim (Result-cases (find_row (key r) t)) [
    | inl (old, f) ↦ absurd (ground (arith, f, h))
    | inr (x, f) ↦ let made : after ≡ r ∷ t = ground (arith, f, h) in rw made refl
  ]

  pub duplicate :
      (r old : R) (t : List R) → find_row (key r) t ≡ ok old → insert_row r t ≡ err sql_failed
  unfolding insert_row
  duplicate r old t h = ground (arith, h)

  deleted :
      (j k : Text) (t : List R)
      → find_row k (delete_row j t) ≡ (if same j k then err no_rows else find_row k t)
  unfolding find_row delete_row
  deleted j k [] = ground arith
  deleted j k (s ∷ t) =
      ground (arith, deleted j k t, same_iff j k, same_iff (key s) j, same_iff (key s) k)

  pub updated :
      (r old : R) (t after : List R) (k : Text)
      → find_row (key r) t ≡ ok old
      → update_row r t ≡ ok after
      → find_row k after ≡ (if same (key r) k then ok r else find_row k t)
  unfolding update_row find_row
  updated r old t after k f h =
      let made : after ≡ r ∷ delete_row (key r) t = ground (arith, f, h) in
      rw made (ground (arith, deleted (key r) k t))

  pub upserted :
      (merge : R → R → R) (r : R) (t after : List R) (k : Text)
      → ((old new : R) → key (merge old new) ≡ key old)
      → upsert_row merge r t ≡ ok after
      → find_row k after
        ≡ (if same (key r) k then ok (merged merge r (find_row k t)) else find_row k t)
  unfolding upsert_row find_row
  upserted merge r t after k m h = elim (Result-cases (find_row (key r) t)) [
    | inl (old, f) ↦
        let made : after ≡ merge old r ∷ delete_row (key r) t = ground (arith, f, h) in
        let kept : key (merge old r) ≡ key r = m old r ∙ keyed (key r) t old f in
        rw made (ground (arith, deleted (key r) k t, kept, f, same_iff (key r) k))
    | inr (x, f) ↦
        let made : after ≡ r ∷ t = ground (arith, f, h) in
        rw made (ground (arith, f, same_iff (key r) k))
  ]

pub kept_rows : {R : Type 0} → (R → Bool) → List R → List R
kept_rows condition [] = []
kept_rows condition (r ∷ t) =
    let rest = kept_rows condition t in if condition r then r ∷ rest else rest

-- The rows are not sorted.
abbrev pub sample_engine : Engine
sample_engine = record {
  Table = λ R. List R;
  find = λ key k t. find_row key k t;
  select = λ condition order t. ok (kept_rows condition t);
  insert = λ key r t. insert_row key r t;
  update = λ key r t. update_row key r t;
  upsert = λ key merge r t. upsert_row key merge r t;
  delete = λ key k t. ok (delete_row key k t);
}

pub sample_engine-IsLawful : IsLawful sample_engine
sample_engine-IsLawful = record {
  find_key = λ key k t r h. keyed key k t r h;
  find-insert = λ key r t after k h. inserted key r t after k h;
  insert_duplicate = λ key r old t h. duplicate key r old t h;
  find-update = λ key r old t after k f h. updated key r old t after k f h;
  find-upsert = λ key merge r t after k m h. upserted key merge r t after k m h;
}
