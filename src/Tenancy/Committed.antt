-- ===== src/Tenancy/Committed.antt =====
-- With no call failing, a tenant is resolved and its transaction commits.
use dev_intel_platform.Base.{String, ◌≡◌, ◌∙◌, ap, suc, [], List, sym}
use dev_intel_platform.Base.Int.{ℤ}
use dev_intel_platform.Database.{Db, OutboxRow}
use dev_intel_platform.Tenancy.{
  Result, ok, World, Action, ◌>>=◌, ◌>>◌, continue, statement, run_call, commit_call, close,
  with_tenant, lookup_tenant, resolve_tenant,
}
use dev_intel_platform.Tenancy.Runs.{Runs, Runs-bind, Runs-then, next_call-quiet}
use mathlib.Core.List.{append-nil}

-- The world after a statement that only answers.
abbrev pub tick : {Bytes : Type 0} → World Bytes → World Bytes
tick w = record w { fresh = suc w.fresh }

abbrev probe : {Bytes : Type 0} → Action Bytes Unit
probe = statement (λ _ _ db. (tt {0}, db))

abbrev probe-Runs :
    {Bytes : Type 0} (w : World Bytes)
    → w.calls ≡ []
    → Runs (λ (_ : Unit {0}) (_ : Db Bytes). Unit {0}) probe w []
unfolding statement run_call
probe-Runs w q = record {
  value = tt;
  world = tick w;
  whole = ap (run_call (λ _ _ db. (tt {0}, db))) (next_call-quiet w q);
  quiet = q;
  outbox = sym (append-nil w.db.outbox);
  good = tt;
}

pub resolve_tenant-quiet :
    {Bytes : Type 0} (id : ℤ) (w : World Bytes) (tenant : String)
    → w.calls ≡ []
    → lookup_tenant id w.db ≡ ok tenant
    → resolve_tenant id w ≡ (ok tenant, tick w)
unfolding resolve_tenant statement run_call ◌>>=◌ continue
resolve_tenant-quiet {Bytes} id w tenant q h =
    let look : _ → _ → Db Bytes → Result String × Db Bytes = λ _ _ db. (lookup_tenant id db, db) in
    let rest : Result String → Action Bytes String = λ found v. (found, v) in
    ap (λ c. let r = run_call look c in continue r.0 rest r.1) (next_call-quiet w q)
    ∙ ap (λ (r : Result String). (r, tick w)) h

module _ {Bytes A : Type 0} (P : A → Db Bytes → Type 0) where
  close-Runs :
      (m : Action Bytes A) (w : World Bytes) {rs : List (OutboxRow Bytes)}
      → Runs P m w rs
      → Runs P (λ v. close v.db (m v)) w rs
  unfolding close commit_call
  close-Runs m w x = record {
    value = x.value;
    world = x.world;
    whole =
        ap (close w.db) x.whole ∙ ap (commit_call w.db x.value) (next_call-quiet x.world x.quiet);
    quiet = x.quiet;
    outbox = x.outbox;
    good = x.good;
  }

  -- What the function does after BEGIN and set_config, its transaction does.
  pub with_tenant-Runs :
      (tenant : String) (fn : String → Action Bytes A) (w : World Bytes)
      {rs : List (OutboxRow Bytes)}
      → w.calls ≡ []
      → Runs P (fn tenant) (tick (tick w)) rs
      → Runs P (with_tenant tenant fn) w rs
  unfolding with_tenant ◌>>◌ probe-Runs
  with_tenant-Runs tenant fn w q x =
      Runs-bind P probe (λ _ v. close v.db ((probe >> fn tenant) v)) w (probe-Runs w q)
        (close-Runs (probe >> fn tenant) (tick w)
          (Runs-then P probe (fn tenant) (tick w) (probe-Runs (tick w) q) x))
