-- ===== src/Tenancy/Avoids.antt =====
-- Actions that never report a duplicate, one rule for each way to build one.
use dev_intel_platform.Base.{ℕ, String, ◌≡◌, refl, Bool, true, false, ◌==◌, if◌then◌else◌}
use dev_intel_platform.Base.Int.{ℤ}
use dev_intel_platform.Database.{Db}
use dev_intel_platform.Tenancy.{
  Call, done, refused, lost, Error, duplicate, row_security, Result, ok, err, World, Action, pure,
  raise, continue, ◌>>=◌, ◌>>◌, next_call, run_call, statement, scoped,
}

abbrev pub repeats : Error → Bool
repeats duplicate = true
repeats _ = false

abbrev pub reports_duplicate {ℓ} : {A : Type ℓ} → Result A → Bool
reports_duplicate (ok a) = false
reports_duplicate (err e) = repeats e

pub record Avoids {Bytes A : Type 0} (m : Action Bytes A) : Type 0 where
  pub at : (w : World Bytes) → reports_duplicate (m w).0 ≡ false

module _ {Bytes A : Type 0} where
  pub Avoids-pure : (a : A) → Avoids (pure {Bytes = Bytes} a)
  unfolding pure
  Avoids-pure a = record { at = λ w. refl }

  pub Avoids-raise : (e : Error) → repeats e ≡ false → Avoids {A = A} (raise {Bytes = Bytes} e)
  unfolding raise
  Avoids-raise e h = record { at = λ w. h }

  pub Avoids-if :
      (b : Bool) (m n : Action Bytes A) → Avoids m → Avoids n → Avoids (if b then m else n)
  Avoids-if true m n hm hn = hm
  Avoids-if false m n hm hn = hn

  run_call-Avoids :
      (f : ℕ → ℤ → Db Bytes → A × Db Bytes) (c : Call × World Bytes)
      → reports_duplicate (run_call f c).0 ≡ false
  unfolding run_call
  run_call-Avoids f (done, w) = refl
  run_call-Avoids f (refused, w) = refl
  run_call-Avoids f (lost, w) = refl

  pub Avoids-statement : (f : ℕ → ℤ → Db Bytes → A × Db Bytes) → Avoids (statement f)
  unfolding statement
  Avoids-statement f = record { at = λ w. run_call-Avoids f (next_call w) }

  pub Avoids-scoped :
      (session tenant : String) (f : ℕ → ℤ → Db Bytes → A × Db Bytes)
      → Avoids (scoped session tenant f)
  unfolding scoped
  Avoids-scoped session tenant f =
      Avoids-if (session == tenant) _ _ (Avoids-statement f) (Avoids-raise row_security refl)

module _ {Bytes A B : Type 0} where
  continue-Avoids :
      (r : Result A) (f : A → Action Bytes B) (w : World Bytes)
      → reports_duplicate r ≡ false
      → ((a : A) → Avoids (f a))
      → reports_duplicate (continue r f w).0 ≡ false
  unfolding continue
  continue-Avoids (ok a) f w h g = (g a).at w
  continue-Avoids (err e) f w h g = h

  pub Avoids-bind :
      (m : Action Bytes A) (f : A → Action Bytes B)
      → Avoids m
      → ((a : A) → Avoids (f a))
      → Avoids (m >>= f)
  unfolding ◌>>=◌
  Avoids-bind m f hm hf = record { at = λ w. continue-Avoids (m w).0 f (m w).1 (hm.at w) hf }

  pub Avoids-then :
      (m : Action Bytes A) (n : Action Bytes B) → Avoids m → Avoids n → Avoids (m >> n)
  unfolding ◌>>◌
  Avoids-then m n hm hn = Avoids-bind m (λ _. n) hm (λ _. hn)
