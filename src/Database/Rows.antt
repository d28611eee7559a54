-- ===== src/Database/Rows.antt =====
-- Which rows the statements touch.
use dev_intel_platform.Base.{
  ◌≡◌, refl, Bool, true, false, List, [], ◌∷◌, ◌++◌, Option, none, some, inl, inr, Bool-cases,
  if◌then◌else◌,
}
use dev_intel_platform.Database.{find, insert_unless, insert_absent, upsert}

module _ {ℓ} {R : Type ℓ} where
  -- The rows that pass the test, in their order.
  unfoldable pub keep : (R → Bool) → List R → List R
  keep p [] = []
  keep p (r ∷ rs) = if p r then r ∷ keep p rs else keep p rs

  pub keep-append :
      (p : R → Bool) (new : R) (rs : List R) → p new ≡ false → keep p (rs ++ new ∷ []) ≡ keep p rs
  unfolding keep
  keep-append p new [] h = rw h
  keep-append p new (r ∷ rs) h = rw (keep-append p new rs h)

  keep-insert_unless :
      (p : R → Bool) (found : Option R) (new : R) (rs : List R)
      → p new ≡ false
      → keep p (insert_unless found new rs).1 ≡ keep p rs
  unfolding insert_unless
  keep-insert_unless p none new rs h = keep-append p new rs h
  keep-insert_unless p (some _) new rs h = refl

  pub keep-insert_absent :
      (p same : R → Bool) (new : R) (rs : List R)
      → p new ≡ false
      → keep p (insert_absent same new rs).1 ≡ keep p rs
  unfolding insert_absent
  keep-insert_absent p same new rs h = keep-insert_unless p (find same rs) new rs h

  -- An upsert leaves alone the rows of a test that neither the new row passes nor any row of its
  -- key, before or after.
  pub keep-upsert :
      (p same : R → Bool) (update : R → R) (new : R) (rs : List R)
      → p new ≡ false
      → ((r : R) → same r ≡ true → (p r ≡ false) × (p (update r) ≡ false))
      → keep p (upsert same update new rs).1 ≡ keep p rs
  unfolding keep upsert
  keep-upsert p same update new [] h k = rw h
  keep-upsert p same update new (r ∷ rs) h k = elim (Bool-cases (same r)) [
    | inl e ↦ rw (e, (k r e).0, (k r e).1)
    | inr e ↦ rw (e, keep-upsert p same update new rs h k)
  ]

-- Whether there is a value.
abbrev pub is_some {ℓ} : {A : Type ℓ} → Option A → Bool
is_some none = false
is_some (some a) = true

module _ {ℓ} {R : Type ℓ} (same : R → Bool) (new : R) (h : same new ≡ true) where
  found_appended : (rs : List R) → is_some (find same (rs ++ new ∷ [])) ≡ true
  unfolding find
  found_appended [] = rw h
  found_appended (r ∷ rs) = elim (Bool-cases (same r)) [
    | inl e ↦ rw e
    | inr e ↦ rw (e, found_appended rs)
  ]

  found_unless :
      (o : Option R) (rs : List R)
      → o ≡ find same rs
      → is_some (find same (insert_unless o new rs).1) ≡ true
  unfolding insert_unless
  found_unless none rs e = found_appended rs
  found_unless (some r) rs e = rw (← e)

  -- After the insertion a row of the key is there.
  pub found_inserted : (rs : List R) → is_some (find same (insert_absent same new rs).1) ≡ true
  unfolding insert_absent
  found_inserted rs = found_unless (find same rs) rs refl
