-- ===== src/Tenancy/Keeps.antt =====
-- Relations between the tables before and after an action, one rule for each way to build it.
use dev_intel_platform.Base.{ℕ, String, ◌≡◌, Bool, true, false, ◌==◌, if◌then◌else◌, subst, arith}
use dev_intel_platform.Base.Int.{ℤ}
use dev_intel_platform.Database.{Db}
use dev_intel_platform.Tenancy.{
  Call, done, refused, lost, Error, Result, ok, err, World, Action, pure, raise, continue, ◌>>=◌,
  ◌>>◌, next_call, run_call, statement, scoped, row_security,
}

-- A reflexive and transitive relation on the tables.
pub record Change (Bytes : Type 0) : Type 1 where
  pub rel : Db Bytes → Db Bytes → Type 0
  pub same : (d : Db Bytes) → rel d d
  pub trans : (a b c : Db Bytes) → rel a b → rel b c → rel a c

module _ {Bytes : Type 0} (R : Change Bytes) where
  -- `m` changes the tables by `R` only, whether it returns or fails.
  pub record Keeps {A : Type 0} (m : Action Bytes A) : Type 0 where
    pub at : (w : World Bytes) → R.rel w.db (m w).1.db

  -- The statement's function does.
  abbrev pub Stays : {A : Type 0} → (ℕ → ℤ → Db Bytes → A × Db Bytes) → Type 0
  Stays f = (id : ℕ) (now : ℤ) (db : Db Bytes) → R.rel db (f id now db).1

-- The fate of a call leaves the tables alone.
pub db-next_call : {Bytes : Type 0} (w : World Bytes) → (next_call w).1.db ≡ w.db
unfolding next_call
db-next_call w = ground arith

module _ {Bytes : Type 0} (R : Change Bytes) {A : Type 0} where
  pub Keeps-pure : (a : A) → Keeps R (pure a)
  unfolding pure
  Keeps-pure a = record { at = λ w. R.same w.db }

  pub Keeps-raise : (e : Error) → Keeps R (raise {A = A} e)
  unfolding raise
  Keeps-raise e = record { at = λ w. R.same w.db }

  pub Keeps-result : (f : World Bytes → Result A) → Keeps R (λ w. (f w, w))
  Keeps-result f = record { at = λ w. R.same w.db }

  pub Keeps-if :
      (b : Bool) (m n : Action Bytes A) → Keeps R m → Keeps R n → Keeps R (if b then m else n)
  Keeps-if true m n hm hn = hm
  Keeps-if false m n hm hn = hn

  run_call-Keeps :
      (f : ℕ → ℤ → Db Bytes → A × Db Bytes) (c : Call × World Bytes)
      → Stays R f
      → R.rel c.1.db (run_call f c).1.db
  unfolding run_call
  run_call-Keeps f (done, w) h = h w.fresh w.now w.db
  run_call-Keeps f (refused, w) h = R.same w.db
  run_call-Keeps f (lost, w) h = R.same w.db

  pub Keeps-statement : (f : ℕ → ℤ → Db Bytes → A × Db Bytes) → Stays R f → Keeps R (statement f)
  unfolding statement
  Keeps-statement f h = record {
    at = λ w.
        subst (λ d. R.rel d (run_call f (next_call w)).1.db) (db-next_call w)
          (run_call-Keeps f (next_call w) h);
  }

  pub Keeps-scoped :
      (session tenant : String) (f : ℕ → ℤ → Db Bytes → A × Db Bytes)
      → Stays R f
      → Keeps R (scoped session tenant f)
  unfolding scoped
  Keeps-scoped session tenant f h =
      Keeps-if (session == tenant) _ _ (Keeps-statement f h) (Keeps-raise row_security)

module _ {Bytes : Type 0} (R : Change Bytes) {A B : Type 0} where
  continue-Keeps :
      (r : Result A) (f : A → Action Bytes B) (w : World Bytes)
      → ((a : A) → Keeps R (f a))
      → R.rel w.db (continue r f w).1.db
  unfolding continue
  continue-Keeps (ok a) f w h = (h a).at w
  continue-Keeps (err e) f w h = R.same w.db

  pub Keeps-bind :
      (m : Action Bytes A) (f : A → Action Bytes B)
      → Keeps R m
      → ((a : A) → Keeps R (f a))
      → Keeps R (m >>= f)
  unfolding ◌>>=◌
  Keeps-bind m f hm hf = record {
    at = λ w. R.trans _ _ _ (hm.at w) (continue-Keeps (m w).0 f (m w).1 hf);
  }

  pub Keeps-then :
      (m : Action Bytes A) (n : Action Bytes B) → Keeps R m → Keeps R n → Keeps R (m >> n)
  unfolding ◌>>◌
  Keeps-then m n hm hn = Keeps-bind m (λ _. n) hm (λ _. hn)
