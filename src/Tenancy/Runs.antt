-- ===== src/Tenancy/Runs.antt =====
-- Actions that return: from a world where no call fails, with what they return
-- and leave, and the rows that they stage in the outbox.
use dev_intel_platform.Base.{
  ℕ, suc, String, ◌≡◌, refl, sym, ◌∙◌, ap, List, [], ◌++◌, eq_refl, arith,
}
use dev_intel_platform.Base.Int.{ℤ}
use dev_intel_platform.Database.{Db, OutboxRow}
use dev_intel_platform.Tenancy.{
  done, Result, ok, World, Action, pure, continue, ◌>>=◌, ◌>>◌, next_call, run_call, statement,
  scoped,
}
use mathlib.Core.List.{append-nil, append_assoc}

module _ {Bytes A : Type 0} where
  -- From `w`, with no call failing, `m` returns, has staged `rows` at the end of the outbox, and
  -- what it returns and leaves satisfies `P`.
  pub record Runs (P : A → Db Bytes → Type 0) (m : Action Bytes A) (w : World Bytes)
      (rows : List (OutboxRow Bytes)) : Type 0 where
    pub value : A
    pub world : World Bytes
    pub whole : m w ≡ (ok value, world)
    pub quiet : world.calls ≡ []
    pub outbox : world.db.outbox ≡ w.db.outbox ++ rows
    pub good : P value world.db

pub next_call-quiet : {Bytes : Type 0} (w : World Bytes) → w.calls ≡ [] → next_call w ≡ (done, w)
unfolding next_call
next_call-quiet w h = ground arith

module _ {Bytes A : Type 0} (P : A → Db Bytes → Type 0) (w : World Bytes)
    (quiet : w.calls ≡ []) where
  pub Runs-pure : (a : A) → P a w.db → Runs P (pure a) w []
  unfolding pure
  Runs-pure a p = record {
    value = a;
    world = w;
    whole = refl;
    quiet = quiet;
    outbox = sym (append-nil w.db.outbox);
    good = p;
  }

  module _ (f : ℕ → ℤ → Db Bytes → A × Db Bytes) where
    -- The tables after the statement.
    abbrev pub after : A × Db Bytes
    after = f w.fresh w.now w.db

    pub Runs-statement :
        (rows : List (OutboxRow Bytes))
        → after.1.outbox ≡ w.db.outbox ++ rows
        → P after.0 after.1
        → Runs P (statement f) w rows
    unfolding statement run_call
    Runs-statement rows o p = record {
      value = after.0;
      world = record w { db = after.1; fresh = suc w.fresh };
      whole = ap (run_call f) (next_call-quiet w quiet);
      quiet = quiet;
      outbox = o;
      good = p;
    }

    pub Runs-scoped :
        (tenant : String) (rows : List (OutboxRow Bytes))
        → after.1.outbox ≡ w.db.outbox ++ rows
        → P after.0 after.1
        → Runs P (scoped tenant tenant f) w rows
    unfolding scoped
    Runs-scoped tenant rows o p = rw (eq_refl tenant) (Runs-statement rows o p)

module _ {Bytes A B : Type 0} where
  pub Runs-bind :
      {P : A → Db Bytes → Type 0} (Q : B → Db Bytes → Type 0) (m : Action Bytes A)
      (f : A → Action Bytes B) (w : World Bytes) {rs rs' : List (OutboxRow Bytes)}
      → (x : Runs P m w rs) → Runs Q (f x.value) x.world rs'
      → Runs Q (m >>= f) w (rs ++ rs')
  unfolding ◌>>=◌ continue
  Runs-bind Q m f w {rs} {rs'} x y = record {
    value = y.value;
    world = y.world;
    whole = ap (λ (t : Result A × World Bytes). continue t.0 f t.1) x.whole ∙ y.whole;
    quiet = y.quiet;
    outbox = y.outbox ∙ ap (λ o. o ++ rs') x.outbox ∙ append_assoc w.db.outbox rs rs';
    good = y.good;
  }

  pub Runs-then :
      {P : A → Db Bytes → Type 0} (Q : B → Db Bytes → Type 0) (m : Action Bytes A)
      (n : Action Bytes B) (w : World Bytes) {rs rs' : List (OutboxRow Bytes)}
      → (x : Runs P m w rs) → Runs Q n x.world rs'
      → Runs Q (m >> n) w (rs ++ rs')
  unfolding ◌>>◌
  Runs-then Q m n w x y = Runs-bind Q m (λ _. n) w x y
