-- ===== src/Tenancy/Steps.antt =====
-- What an action that returned has done, one lemma for each way to build it.
use dev_intel_platform.Base.{
  subst, if◌then◌else◌, ℕ, String, ◌≡◌, refl, ◌∙◌, Bool, true, false, ◌==◌, arith,
}
use dev_intel_platform.Base.Int.{ℤ}
use dev_intel_platform.Database.{Db}
use dev_intel_platform.Tenancy.{
  unknown_installation, row_security, Call, done, refused, lost, Result, ok, err, World, Action,
  raise, continue, ◌>>=◌, next_call, run_call, statement, scoped, lookup_tenant, resolve_tenant,
}
use dev_intel_platform.Tenancy.Keeps.{db-next_call}
use dev_intel_platform.Tenancy.Keeps.{db-next_call, Keeps-bind, Keeps-statement, Keeps-result}
use dev_intel_platform.Tenancy.Atomic.{unchanged}

module _ {Bytes A B : Type 0} where
  -- `m` returned `a`, and the rest ran from where it stopped.
  pub record Bound (m : Action Bytes A) (f : A → Action Bytes B) (w : World Bytes) (b : B)
      : Type 0 where
    pub value : A
    pub first : (m w).0 ≡ ok value
    pub second : (f value (m w).1).0 ≡ ok b
    pub whole : (m >>= f) w ≡ f value (m w).1

  continue-ok :
      (f : A → Action Bytes B) (r : Result A) (w : World Bytes) (b : B)
      → (continue r f w).0 ≡ ok b
      → (a : A) × (r ≡ ok a) × ((f a w).0 ≡ ok b) × (continue r f w ≡ f a w)
  unfolding continue
  continue-ok f (ok a) w b h = (a, refl, h, refl)
  continue-ok f (err e) w b h = absurd (ground arith)

  pub >>=-ok :
      (m : Action Bytes A) (f : A → Action Bytes B) (w : World Bytes) (b : B)
      → ((m >>= f) w).0 ≡ ok b
      → Bound m f w b
  unfolding ◌>>=◌
  >>=-ok m f w b h =
      let s = continue-ok f (m w).0 (m w).1 b h in
      record { value = s.0; first = s.1; second = s.2; whole = s.3 }

module _ {Bytes A : Type 0} (f : ℕ → ℤ → Db Bytes → A × Db Bytes) where
  -- The statement ran on the tables, with some fresh identifier.
  pub record Ran (before : Db Bytes) (a : A) (after : Db Bytes) : Type 0 where
    pub fresh : ℕ
    pub now : ℤ
    pub answer : (f fresh now before).0 ≡ a
    pub left : after ≡ (f fresh now before).1

  run_call-ok :
      (c : Call × World Bytes) (a : A) → (run_call f c).0 ≡ ok a → Ran c.1.db a (run_call f c).1.db
  unfolding run_call
  run_call-ok (done, w) a h = record {
    fresh = w.fresh;
    now = w.now;
    answer = ground arith;
    left = refl;
  }
  run_call-ok (refused, w) a h = absurd (ground arith)
  run_call-ok (lost, w) a h = absurd (ground arith)

  pub statement-ok :
      (w : World Bytes) (a : A) → (statement f w).0 ≡ ok a → Ran w.db a (statement f w).1.db
  unfolding statement
  statement-ok w a h =
      subst (λ d. Ran d a (run_call f (next_call w)).1.db) (db-next_call w)
        (run_call-ok (next_call w) a h)

  gate-ok :
      (b : Bool) (w : World Bytes) (a : A)
      → ((if b then statement f else raise row_security) w).0 ≡ ok a
      → Ran w.db a ((if b then statement f else raise row_security) w).1.db
  unfolding raise
  gate-ok true w a h = statement-ok w a h
  gate-ok false w a h = absurd (ground arith)

  pub scoped-ok :
      (session tenant : String) (w : World Bytes) (a : A)
      → (scoped session tenant f w).0 ≡ ok a
      → Ran w.db a (scoped session tenant f w).1.db
  unfolding scoped
  scoped-ok session tenant w a = gate-ok (session == tenant) w a

-- The lookup of a tenant changes nothing, and answers by the row of the installation, or fails as
-- a call may.
pub db-resolve_tenant :
    {Bytes : Type 0} (id : ℤ) (w : World Bytes) → (resolve_tenant id w).1.db ≡ w.db
unfolding resolve_tenant
db-resolve_tenant {Bytes} id w =
    (Keeps-bind (unchanged Bytes) _ _ (Keeps-statement (unchanged Bytes) _ (λ _ _ db. refl))
        (λ found. Keeps-result (unchanged Bytes) (λ _. found))).at
      w

pub resolve_tenant-ok :
    {Bytes : Type 0} (id : ℤ) (w : World Bytes) (tenant : String)
    → (resolve_tenant id w).0 ≡ ok tenant
    → lookup_tenant id w.db ≡ ok tenant
unfolding resolve_tenant
resolve_tenant-ok {Bytes} id w tenant h =
    let look : ℕ → ℤ → Db Bytes → Result String × Db Bytes = λ _ _ db. (lookup_tenant id db, db) in
    let rest : Result String → Action Bytes String = λ found v. (found, v) in
    let b = >>=-ok (statement look) rest w tenant h in
    let r = statement-ok look w b.value b.first in r.answer ∙ b.second

resolve-unknown :
    {Bytes : Type 0} (id : ℤ) (c : Call × World Bytes)
    → let look : ℕ → ℤ → Db Bytes → Result String × Db Bytes =
        λ _ _ db. (lookup_tenant id db, db) in
      let t = run_call look c in
      (continue t.0 (λ (found : Result String) (v : World Bytes). (found, v)) t.1).0
        ≡ err unknown_installation
      → lookup_tenant id c.1.db ≡ err unknown_installation
unfolding run_call continue
resolve-unknown id (done, w) e = e
resolve-unknown id (refused, w) e = absurd (ground arith)
resolve-unknown id (lost, w) e = absurd (ground arith)

pub resolve_tenant-unknown :
    {Bytes : Type 0} (id : ℤ) (w : World Bytes)
    → (resolve_tenant id w).0 ≡ err unknown_installation
    → lookup_tenant id w.db ≡ err unknown_installation
unfolding resolve_tenant statement ◌>>=◌
resolve_tenant-unknown id w e =
    subst (λ (d : Db _). lookup_tenant id d ≡ err unknown_installation) (db-next_call w)
      (resolve-unknown id (next_call w) e)
