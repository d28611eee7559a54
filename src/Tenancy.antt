-- ===== src/Tenancy.antt =====
-- libs/go/tenancy/tenancy.go: tenant resolution, and transactions under a tenant's row-level
-- security. Calls to the database take their fate from a script, so that every theorem holds
-- whichever calls fail.
pub mod Keeps
pub mod Avoids
pub mod Repeated
pub mod Steps
pub mod Runs
pub mod Committed
pub mod Atomic
use dev_intel_platform.Base.{
  ℕ, suc, String, Bool, true, false, List, [], ◌∷◌, Option, none, some, ◌==◌, if◌then◌else◌,
}
use dev_intel_platform.Base.Int.{ℤ, eqb_ℤ}
use dev_intel_platform.Database.{Db, InstallationRow, find}

-- What becomes of one call: it is done; it is refused; or it is done and the answer is lost.
pub data Call : Type 0 where
  done refused lost : Call

-- Go's error values, told apart as the services tell them apart.
pub data Error : Type 0 where
  transient : Error
  row_security : Error
  unknown_installation : Error
  duplicate : Error
  permanent : String → Error

pub data Result {ℓ} (A : Type ℓ) : Type ℓ where
  ok : A → Result A
  err : Error → Result A

-- The database and what surrounds it: the next fresh identifier (UUIDs and outbox ids), the clock
-- of `now()`, and the fates of the calls to come, where a script that has ended refuses nothing.
pub record World (Bytes : Type 0) : Type 0 where
  pub db : Db Bytes
  pub fresh : ℕ
  pub now : ℤ
  pub calls : List Call

-- An action on the world, inside a transaction of a tenant or outside of any.
abbrev pub Action : Type 0 → Type 0 → Type 0
Action Bytes A = World Bytes → Result A × World Bytes

module _ {Bytes A : Type 0} where
  unfoldable pub pure : A → Action Bytes A
  pure a w = (ok a, w)

  unfoldable pub raise : Error → Action Bytes A
  raise e w = (err e, w)

  unfoldable pub continue : {B : Type 0} → Result A → (A → Action Bytes B) → Action Bytes B
  continue (ok a) f w = f a w
  continue (err e) f w = (err e, w)

infixl 5 ◌>>=◌ ◌>>◌
unfoldable pub ◌>>=◌ : {Bytes A B : Type 0} → Action Bytes A → (A → Action Bytes B) → Action Bytes B
unfolding pure raise continue
◌>>=◌ m f w = let (r, w') = m w in continue r f w'

unfoldable pub ◌>>◌ : {Bytes A B : Type 0} → Action Bytes A → Action Bytes B → Action Bytes B
unfolding ◌>>=◌
m >> n = m >>= λ _. n

-- The fate of the next call.
unfoldable pub next_call : {Bytes : Type 0} → World Bytes → Call × World Bytes
next_call w = elim w.calls [ [] ↦ (done, w) | c ∷ cs ↦ (c, record w { calls = cs }) ]

-- One statement: refused, or run on the tables with a fresh identifier and the clock. A statement
-- whose answer is lost fails, and so aborts its transaction.
unfoldable pub run_call :
    {Bytes A : Type 0}
    → (ℕ → ℤ → Db Bytes → A × Db Bytes)
    → Call × World Bytes
    → Result A × World Bytes
run_call f (done, w) =
    let (a, db') = f w.fresh w.now w.db in (ok a, record w { db = db'; fresh = suc w.fresh })
run_call f (refused, w) = (err transient, w)
run_call f (lost, w) = (err transient, w)

unfoldable pub statement : {Bytes A : Type 0} → (ℕ → ℤ → Db Bytes → A × Db Bytes) → Action Bytes A
unfolding next_call run_call
statement f w = run_call f (next_call w)

-- The session's `app.tenant_id`. Each statement on a table with row-level security names the tenant
-- of its rows, and the policy refuses one that is not the session's.
unfoldable pub scoped :
    {Bytes A : Type 0} → String → String → (ℕ → ℤ → Db Bytes → A × Db Bytes) → Action Bytes A
scoped session tenant f = if session == tenant then statement f else raise row_security

has_installation : ℤ → InstallationRow → Bool
has_installation id row = eqb_ℤ row.installation_id id

tenant_of : Option InstallationRow → Result String
tenant_of none = err unknown_installation
tenant_of (some row) = ok row.tenant_id

-- The row of github_installation with this id, as the tenant that it names.
unfoldable pub lookup_tenant : {Bytes : Type 0} → ℤ → Db Bytes → Result String
unfolding has_installation tenant_of
lookup_tenant id db = tenant_of (find (has_installation id) db.installations)

-- `ResolveTenant`: the control-plane lookup, outside of row-level security.
unfoldable pub resolve_tenant : {Bytes : Type 0} → ℤ → Action Bytes String
unfolding statement lookup_tenant ◌>>=◌
resolve_tenant id = statement (λ _ _ db. (lookup_tenant id db, db)) >>= λ found w. (found, w)

-- COMMIT: a refused one rolls back to the tables of the beginning; one whose answer is lost has
-- committed, and still reports an error.
unfoldable pub commit_call :
    {Bytes A : Type 0} → Db Bytes → A → Call × World Bytes → Result A × World Bytes
commit_call before a (done, w) = (ok a, w)
commit_call before a (refused, w) = (err transient, record w { db = before })
commit_call before a (lost, w) = (err transient, w)

-- The end of a transaction: ROLLBACK after an error, else COMMIT.
unfoldable pub close :
    {Bytes A : Type 0} → Db Bytes → Result A × World Bytes → Result A × World Bytes
unfolding next_call commit_call
close before (err e, w) = (err e, record w { db = before })
close before (ok a, w) = commit_call before a (next_call w)

-- `WithTenant`: BEGIN, set_config, the function under the session's tenant, and the end.
unfoldable pub with_tenant :
    {Bytes A : Type 0} → String → (String → Action Bytes A) → Action Bytes A
unfolding statement ◌>>◌ close
with_tenant tenant fn = do
  statement (λ _ _ db. (tt, db))
  λ w. close w.db ((statement (λ _ _ db. (tt {0}, db)) >> fn tenant) w)
