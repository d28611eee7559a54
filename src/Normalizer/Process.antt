-- ===== src/Normalizer/Process.antt =====
-- `process`, whatever becomes of its calls: what it does to the tables is what the transaction of
-- one delivery did, all of it or nothing.
use dev_intel_platform.Base.{String, ◌≡◌, refl, sym, subst, Bool, true, false, ◌||◌, if◌then◌else◌}
use dev_intel_platform.Connector.{RawEvent, Outcome, empty}
use dev_intel_platform.Github.{Normalized, normalize}
use dev_intel_platform.Database.{Db}
use dev_intel_platform.Tenancy.{
  unknown_installation, duplicate, Result, ok, err, World, Action, lookup_tenant, resolve_tenant,
  with_tenant,
}
use dev_intel_platform.Tenancy.Keeps.{Change, Keeps}
use dev_intel_platform.Tenancy.Steps.{db-resolve_tenant, resolve_tenant-ok}
use dev_intel_platform.Tenancy.Atomic.{Attempt, Attempt-rel, with_tenant-Attempt}
use dev_intel_platform.Kafka.{Message}
use dev_intel_platform.Normalizer.{
  Library, Span, deliver, settle_delivery, deliver_to, settle_tenant, process_normalized, raw_event,
  process,
}

pub settle_delivery-world :
    {Bytes : Type 0} (r : Result (Unit {0})) (w : World Bytes) → (settle_delivery (r, w)).1 ≡ w
unfolding settle_delivery
settle_delivery-world (ok _) w = refl
settle_delivery-world (err duplicate) w = refl
settle_delivery-world (err e) w = refl

module _ {Bytes : Type 0} (lib : Library Bytes) (span : Span) where
  -- The transaction of one delivery.
  abbrev pub delivery : RawEvent Bytes → Outcome → String → Action Bytes Unit
  delivery raw res tenant = deliver lib span tenant tenant raw res

  -- Its run, before a duplicate is taken for a success.
  abbrev pub attempt : RawEvent Bytes → Outcome → String → Action Bytes Unit
  attempt raw res tenant = with_tenant tenant (λ session. deliver lib span session tenant raw res)

  pub deliver_to-Attempt :
      (raw : RawEvent Bytes) (res : Outcome) (tenant : String) (w : World Bytes)
      → Attempt
          (delivery raw res tenant)
          w.db
          (attempt raw res tenant w).0
          (deliver_to lib span raw res tenant w).1.db
  unfolding deliver_to
  deliver_to-Attempt raw res tenant w =
      let t = attempt raw res tenant w in
      subst (λ (v : World Bytes). Attempt (delivery raw res tenant) w.db t.0 v.db)
        (sym (settle_delivery-world t.0 t.1))
        (with_tenant-Attempt tenant (λ session. deliver lib span session tenant raw res) w)

  -- What the processing of a message leads to: the tables of before, or those after an attempt at
  -- the transaction of an outcome, under the tenant of its installation.
  abbrev pub Leads {κ} : (Db Bytes → Type κ) → RawEvent Bytes → Normalized → Db Bytes → Type κ
  Leads P raw n before =
      (res : Outcome) (tenant : String)
      → n ≡ Normalized.ok res
      → lookup_tenant res.installation_id before ≡ ok tenant
      → (r : Result (Unit {0})) (after : Db Bytes)
      → Attempt (delivery raw res tenant) before r after
      → P after

  settle_tenant-leads {κ} :
      (P : Db Bytes → Type κ) (raw : RawEvent Bytes) (res : Outcome) (r : Result String)
      (v : World Bytes)
      → P v.db
      → ((tenant : String)
          → r ≡ ok tenant
          → (r' : Result (Unit {0})) (after : Db Bytes)
          → Attempt (delivery raw res tenant) v.db r' after
          → P after)
      → P (settle_tenant lib span raw res (r, v)).1.db
  unfolding settle_tenant
  settle_tenant-leads P raw res (ok tenant) v p h =
      h tenant refl _ _ (deliver_to-Attempt raw res tenant v)
  settle_tenant-leads P raw res (err unknown_installation) v p h = p
  settle_tenant-leads P raw res (err e) v p h = p

  stored-leads {κ} :
      (P : Db Bytes → Type κ) (raw : RawEvent Bytes) (res : Outcome) (w : World Bytes)
      → P w.db
      → Leads P raw (Normalized.ok res) w.db
      → P (settle_tenant lib span raw res (resolve_tenant res.installation_id w)).1.db
  stored-leads P raw res w p h =
      let found = resolve_tenant res.installation_id w in
      let e = db-resolve_tenant res.installation_id w in
      settle_tenant-leads P raw res found.0 found.1 (subst P (sym e) p) (λ tenant f r after at.
        h res tenant refl (resolve_tenant-ok res.installation_id w tenant f) r after
          (subst (λ d. Attempt (delivery raw res tenant) d r after) e at))

  skip-leads {κ} :
      (P : Db Bytes → Type κ) (b : Bool) (w : World Bytes)
      (stored : Result (Unit {0}) × World Bytes)
      → P w.db
      → P stored.1.db
      → P (if b then (ok tt, w) else stored).1.db
  skip-leads P true w stored p h = p
  skip-leads P false w stored p h = h

  process_normalized-leads {κ} :
      (P : Db Bytes → Type κ) (raw : RawEvent Bytes) (n : Normalized) (w : World Bytes)
      → P w.db
      → Leads P raw n w.db
      → P (process_normalized lib span raw n w).1.db
  unfolding process_normalized
  process_normalized-leads P raw (Normalized.err e) w p h = p
  process_normalized-leads P raw (Normalized.ok res) w p h =
      skip-leads P (res.skip || empty res) w _ p (stored-leads P raw res w p h)

  pub process-leads {κ} :
      (P : Db Bytes → Type κ) (msg : Message Bytes) (w : World Bytes)
      → P w.db
      → Leads P (raw_event lib span msg) (normalize lib.codec (raw_event lib span msg)) w.db
      → P (process lib span msg w).1.db
  unfolding process
  process-leads P msg w p h =
      process_normalized-leads P (raw_event lib span msg)
        (normalize lib.codec (raw_event lib span msg)) w p h

  -- If each delivery that the message may lead to changes the tables by `R` only, so does the
  -- processing of the message.
  pub process-rel :
      (R : Change Bytes) (msg : Message Bytes) (w : World Bytes)
      → ((res : Outcome) (tenant : String)
          → normalize lib.codec (raw_event lib span msg) ≡ Normalized.ok res
          → lookup_tenant res.installation_id w.db ≡ ok tenant
          → Keeps R (delivery (raw_event lib span msg) res tenant))
      → R.rel w.db (process lib span msg w).1.db
  process-rel R msg w h =
      process-leads (R.rel w.db) msg w (R.same w.db) (λ res tenant n f r after at.
        Attempt-rel R (delivery (raw_event lib span msg) res tenant) w.db (h res tenant n f) at)
