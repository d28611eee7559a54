-- ===== src/Tenancy/Repeated.antt =====
-- Where a transaction reports a duplicate, its function did, and the tables are as before.
use dev_intel_platform.Base.{◌≡◌, refl, ◌∙◌, ap, subst, String, true, false, arith}
use dev_intel_platform.Database.{Db}
use dev_intel_platform.Tenancy.{
  Call, done, refused, lost, Result, ok, err, World, Action, continue, statement, ◌>>◌, next_call,
  commit_call, close, with_tenant,
}
use dev_intel_platform.Tenancy.Atomic.{db-probe}
use dev_intel_platform.Tenancy.Avoids.{reports_duplicate, Avoids-statement}

module _ {Bytes A : Type 0} where
  -- `fn` reported a duplicate on the tables `before`, which stay.
  pub record Repeated (fn : Action Bytes A) (before after : Db Bytes) : Type 0 where
    pub start : World Bytes
    pub from_before : start.db ≡ before
    pub reported : reports_duplicate (fn start).0 ≡ true
    pub left : after ≡ before

  commit_call-Repeated :
      (fn : Action Bytes A) (before : Db Bytes) (a : A) (c : Call × World Bytes)
      → reports_duplicate (commit_call before a c).0 ≡ true
      → Repeated fn before (commit_call before a c).1.db
  unfolding commit_call
  commit_call-Repeated fn before a (done, w) h = absurd (ground arith)
  commit_call-Repeated fn before a (refused, w) h = absurd (ground arith)
  commit_call-Repeated fn before a (lost, w) h = absurd (ground arith)

  close-Repeated :
      (fn : Action Bytes A) (before : Db Bytes) (v : World Bytes) (r : Result A) (w : World Bytes)
      → v.db ≡ before
      → (fn v).0 ≡ r
      → reports_duplicate (close before (r, w)).0 ≡ true
      → Repeated fn before (close before (r, w)).1.db
  unfolding close
  close-Repeated fn before v (err e) w b f h = record {
    start = v;
    from_before = b;
    reported = ap reports_duplicate f ∙ h;
    left = refl;
  }
  close-Repeated fn before v (ok a) w b f h = commit_call-Repeated fn before a (next_call w) h

  after_set :
      (fn : Action Bytes A) (before : Db Bytes) (r : Result (Unit {0})) (w : World Bytes)
      → w.db ≡ before
      → reports_duplicate r ≡ false
      → reports_duplicate (close before (continue r (λ _. fn) w)).0 ≡ true
      → Repeated fn before (close before (continue r (λ _. fn) w)).1.db
  unfolding continue close
  after_set fn before (err e) w b n h = cc
  after_set fn before (ok _) w b n h = close-Repeated fn before w (fn w).0 (fn w).1 b refl h

  begun :
      (fn : Action Bytes A) (before : Db Bytes) (r : Result (Unit {0})) (w : World Bytes)
      → w.db ≡ before
      → reports_duplicate r ≡ false
      → let body : Unit → Action Bytes A =
          λ _ v. close v.db ((statement (λ _ _ db. (tt {0}, db)) >> fn) v) in
        reports_duplicate (continue r body w).0 ≡ true → Repeated fn before (continue r body w).1.db
  unfolding continue ◌>>◌
  begun fn before (err e) w b n h = cc
  begun fn before (ok _) w b n h =
      let set = statement (λ _ _ db. (tt {0}, db)) w in
      subst (λ d. Repeated fn d (close w.db (continue set.0 (λ _. fn) set.1)).1.db) b
        (after_set fn w.db set.0 set.1 (db-probe tt w) ((Avoids-statement _).at w) h)

  pub with_tenant-Repeated :
      (tenant : String) (fn : String → Action Bytes A) (w : World Bytes)
      → reports_duplicate (with_tenant tenant fn w).0 ≡ true
      → Repeated (fn tenant) w.db (with_tenant tenant fn w).1.db
  unfolding with_tenant
  with_tenant-Repeated tenant fn w h =
      let begin = statement (λ _ _ db. (tt {0}, db)) w in
      begun (fn tenant) w.db begin.0 begin.1 (db-probe tt w) ((Avoids-statement _).at w) h
