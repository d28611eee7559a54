-- ===== src/Tenancy/Atomic.antt =====
-- `WithTenant` is all or nothing.
use dev_intel_platform.Base.{◌≢◌, ◌⊎◌, inl, inr, refl, subst, String, ◌≡◌, sym, ◌∙◌, ap}
use dev_intel_platform.Database.{Db}
use dev_intel_platform.Tenancy.{
  statement, continue, with_tenant, ◌>>◌, transient, Call, done, refused, lost, Error, Result, ok,
  err, World, Action, next_call, commit_call, close,
}
use dev_intel_platform.Tenancy.Keeps.{Change, Keeps, Keeps-statement, db-next_call}

-- The tables stay as they are.
abbrev pub unchanged : (Bytes : Type 0) → Change Bytes
unchanged Bytes = record { rel = λ a b. b ≡ a; same = λ d. refl; trans = λ a b c p q. q ∙ p }

-- A statement that only answers.
pub db-probe :
    {Bytes B : Type 0} (b : B) (w : World Bytes) → (statement (λ _ _ db. (b, db)) w).1.db ≡ w.db
db-probe {Bytes} b w = (Keeps-statement (unchanged Bytes) _ (λ id now db. refl)).at w

module _ {Bytes A : Type 0} where
  -- `fn` succeeded with `a` from the tables `before`, and left the tables `after`.
  pub record Succeeded (fn : Action Bytes A) (before after : Db Bytes) (a : A) : Type 0 where
    pub start : World Bytes
    pub from_before : start.db ≡ before
    pub returned : (fn start).0 ≡ ok a
    pub left : (fn start).1.db ≡ after

  -- What an attempt came to: it failed and left the tables, or `fn` succeeded on them (and where
  -- the answer of the COMMIT was lost, the attempt still failed).
  pub data Attempt (fn : Action Bytes A) (before : Db Bytes) : Result A → Db Bytes → Type 0 where
    nothing : (e : Error) → Attempt fn before (err e) before
    all : (a : A) (after : Db Bytes) → Succeeded fn before after a → Attempt fn before (ok a) after
    unheard :
        (a : A) (e : Error) (after : Db Bytes)
        → Succeeded fn before after a
        → Attempt fn before (err e) after

  commit_call-Attempt :
      (fn : Action Bytes A) (before : Db Bytes) (a : A) (c : Call × World Bytes)
      → Succeeded fn before c.1.db a
      → Attempt fn before (commit_call before a c).0 (commit_call before a c).1.db
  unfolding commit_call
  commit_call-Attempt fn before a (done, w) h = all a w.db h
  commit_call-Attempt fn before a (refused, w) h = nothing transient
  commit_call-Attempt fn before a (lost, w) h = unheard a transient w.db h

  close-Attempt :
      (fn : Action Bytes A) (before : Db Bytes) (v : World Bytes) (r : Result A) (w : World Bytes)
      → v.db ≡ before
      → fn v ≡ (r, w)
      → Attempt fn before (close before (r, w)).0 (close before (r, w)).1.db
  unfolding close
  close-Attempt fn before v (err e) w b h = nothing e
  close-Attempt fn before v (ok a) w b h = commit_call-Attempt fn before a (next_call w) (record {
    start = v;
    from_before = b;
    returned = ap (λ (t : Result A × World Bytes). t.0) h;
    left = ap (λ (t : Result A × World Bytes). t.1.db) h ∙ sym (db-next_call w);
  })

  after_set :
      (fn : Action Bytes A) (before : Db Bytes) (r : Result (Unit {0})) (w : World Bytes)
      → w.db ≡ before
      → Attempt fn before
          (close before (continue r (λ _. fn) w)).0
          (close before (continue r (λ _. fn) w)).1.db
  unfolding continue close
  after_set fn before (err e) w b = nothing e
  after_set fn before (ok _) w b = close-Attempt fn before w (fn w).0 (fn w).1 b refl

  begun :
      (fn : Action Bytes A) (before : Db Bytes) (r : Result (Unit {0})) (w : World Bytes)
      → w.db ≡ before
      → let body : Unit → Action Bytes A =
          λ _ v. close v.db ((statement (λ _ _ db. (tt {0}, db)) >> fn) v) in
        Attempt fn before (continue r body w).0 (continue r body w).1.db
  unfolding continue ◌>>◌
  begun fn before (err e) w b = subst (λ d. Attempt fn before (err e) d) (sym b) (nothing e)
  begun fn before (ok _) w b =
      let set = statement (λ _ _ db. (tt {0}, db)) w in
      subst
        (λ d.
          Attempt fn d (close w.db (continue set.0 (λ _. fn) set.1)).0
            (close w.db (continue set.0 (λ _. fn) set.1)).1.db)
        b (after_set fn w.db set.0 set.1 (db-probe tt w))

  -- A transaction under a tenant is all or nothing: it failed and left the tables as they were, or
  -- its function succeeded on those tables and what it left is there. The latter may still be
  -- reported as a failure, where the answer of the COMMIT was lost.
  pub with_tenant-Attempt :
      (tenant : String) (fn : String → Action Bytes A) (w : World Bytes)
      → Attempt (fn tenant) w.db (with_tenant tenant fn w).0 (with_tenant tenant fn w).1.db
  unfolding with_tenant
  with_tenant-Attempt tenant fn w =
      let begin = statement (λ _ _ db. (tt {0}, db)) w in
      begun (fn tenant) w.db begin.0 begin.1 (db-probe tt w)

Succeeded-rel :
    {Bytes A : Type 0} (R : Change Bytes) (fn : Action Bytes A) (before after : Db Bytes) (a : A)
    → Keeps R fn
    → Succeeded fn before after a
    → R.rel before after
Succeeded-rel R fn before after a k s =
    subst (λ d. R.rel d after) s.from_before (subst (λ d. R.rel s.start.db d) s.left (k.at s.start))

-- What the function keeps, an attempt keeps.
pub Attempt-rel :
    {Bytes A : Type 0} (R : Change Bytes) (fn : Action Bytes A) (before : Db Bytes) {r : Result A}
    {after : Db Bytes}
    → Keeps R fn
    → Attempt fn before r after
    → R.rel before after
Attempt-rel R fn before k (nothing e) = R.same before
Attempt-rel R fn before k (all a after s) = Succeeded-rel R fn before after a k s
Attempt-rel R fn before k (unheard a e after s) = Succeeded-rel R fn before after a k s

-- Where the function cannot succeed on the tables, an attempt leaves them.
pub Attempt-stuck :
    {Bytes A : Type 0} (fn : Action Bytes A) (before : Db Bytes) {r : Result A} {after : Db Bytes}
    → ((v : World Bytes) (a : A) → v.db ≡ before → (fn v).0 ≢ ok a)
    → Attempt fn before r after
    → after ≡ before
Attempt-stuck fn before n (nothing e) = refl
Attempt-stuck fn before n (all a after s) = absurd (n s.start a s.from_before s.returned)
Attempt-stuck fn before n (unheard a e after s) = absurd (n s.start a s.from_before s.returned)

-- An attempt leaves the tables, or its function succeeded.
pub Attempt-cases :
    {Bytes A : Type 0} (fn : Action Bytes A) (before : Db Bytes) {r : Result A} {after : Db Bytes}
    → Attempt fn before r after
    → (after ≡ before) ⊎ ((a : A) × Succeeded fn before after a)
Attempt-cases fn before (nothing e) = inl refl
Attempt-cases fn before (all a after s) = inr (a, s)
Attempt-cases fn before (unheard a e after s) = inr (a, s)
