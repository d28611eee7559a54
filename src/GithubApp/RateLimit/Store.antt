-- ===== src/GithubApp/RateLimit/Store.antt =====
-- Every installation has its own budget.
use dev_intel_platform.Base.{
  ◌≡◌, refl, ◌∙◌, ap, Bool, true, false, [], ◌∷◌, arith, Bool-cases, inl, inr, if◌then◌else◌,
}
use dev_intel_platform.Base.Int.{ℤ, eqb_ℤ, eqb_ℤ-eq}
use dev_intel_platform.GithubApp.RateLimit.{Budget, Registry, budget_for, store_budget}

eqb_ℤ-trans : (i j k : ℤ) → eqb_ℤ j i ≡ true → eqb_ℤ j k ≡ eqb_ℤ i k
eqb_ℤ-trans i j k e = ap (λ n. eqb_ℤ n k) (eqb_ℤ-eq j i e)

eqb_ℤ-apart : (i j k : ℤ) → eqb_ℤ j i ≡ false → eqb_ℤ j k ≡ true → eqb_ℤ i k ≡ false
eqb_ℤ-apart i j k e f = ground arith

if_same : (t : Bool) (x y z : Budget) → (if t then x else y) ≡ (if t then x else if t then z else y)
if_same true x y z = refl
if_same false x y z = refl

same_key :
    (i k : ℤ) (reg : Registry) (t : Bool)
    → eqb_ℤ i k ≡ t
    → (if t then budget_for i reg else budget_for k reg) ≡ budget_for k reg
same_key i k reg true e = ap (λ n. budget_for n reg) (eqb_ℤ-eq i k e)
same_key i k reg false e = refl

pub budget_for-store_budget :
    (i k : ℤ) (b : Budget) (reg : Registry)
    → budget_for k (store_budget i b reg) ≡ (if eqb_ℤ i k then b else budget_for k reg)
unfolding budget_for store_budget
budget_for-store_budget i k b [] = refl
budget_for-store_budget i k b ((j, c) ∷ reg) = elim (Bool-cases (eqb_ℤ j i)) [
  | inl e ↦ rw (e, eqb_ℤ-trans i j k e) (if_same (eqb_ℤ i k) b (budget_for k reg) c)
  | inr e ↦ elim (Bool-cases (eqb_ℤ j k)) [
    | inl f ↦ rw (e, f, eqb_ℤ-apart i j k e f)
    | inr f ↦ rw (e, f, budget_for-store_budget i k b reg)
  ]
]

-- Storing the budget that is there changes none.
pub budget_for-same :
    (i k : ℤ) (reg : Registry)
    → budget_for k (store_budget i (budget_for i reg) reg) ≡ budget_for k reg
budget_for-same i k reg =
    budget_for-store_budget i k (budget_for i reg) reg ∙ same_key i k reg (eqb_ℤ i k) refl
