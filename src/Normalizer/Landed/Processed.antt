-- ===== src/Normalizer/Landed/Processed.antt =====
-- A message that was processed with success needs no more work.
use dev_intel_platform.Base.{
  String, ◌≡◌, ◌≢◌, refl, sym, ◌∙◌, ap, subst, Bool, true, false, ◌||◌, arith, ◌==◌, eq_iff,
  if◌then◌else◌, inl, inr, Bool-cases,
}
use dev_intel_platform.Connector.{Outcome, RawEvent, empty}
use dev_intel_platform.Database.{Db}
use dev_intel_platform.Github.{Normalized, normalize}
use dev_intel_platform.Kafka.{Message}
use dev_intel_platform.Tenancy.{
  Result, ok, err, duplicate, unknown_installation, World, Action, lookup_tenant, resolve_tenant,
}
use dev_intel_platform.Tenancy.Avoids.{reports_duplicate}
use dev_intel_platform.Tenancy.Repeated.{Repeated, with_tenant-Repeated}
use dev_intel_platform.Tenancy.Steps.{db-resolve_tenant, resolve_tenant-ok, resolve_tenant-unknown}
use dev_intel_platform.Tenancy.Atomic.{Attempt, all, Succeeded, with_tenant-Attempt}
use dev_intel_platform.Normalizer.{
  Library, Span, deliver, settle_delivery, deliver_to, settle_tenant, process_normalized, raw_event,
  process,
}
use dev_intel_platform.Normalizer.Process.{delivery, attempt}
use dev_intel_platform.Normalizer.Redelivery.{marked, deliver-marks, deliver-installations}
use dev_intel_platform.Normalizer.Repeats.{deliver-repeats}
use dev_intel_platform.Normalizer.Once.{delivery_id, lookup_tenant-same}
use dev_intel_platform.Normalizer.Landed.{Landed, anonymous, skipped, unowned, delivered}

-- An attempt that returned did all.
succeeded :
    {Bytes A : Type 0} {fn : Action Bytes A} {before : Db Bytes} {a : A} {after : Db Bytes}
    → Attempt fn before (ok a) after
    → Succeeded fn before after a
succeeded (all a after s) = s

module _ {Bytes : Type 0} (lib : Library Bytes) (span : Span) (msg : Message Bytes) where
  abbrev raw : RawEvent Bytes
  raw = raw_event lib span msg

  -- It succeeded: the delivery is marked, and the tenant is the same.
  marked-by :
      (res : Outcome) (tenant : String) (before : Db Bytes) (after : Db Bytes)
      → delivery_id msg ≢ ""
      → normalize lib.codec raw ≡ Normalized.ok res
      → lookup_tenant res.installation_id before ≡ ok tenant
      → Succeeded (delivery lib span raw res tenant) before after tt
      → Landed lib span msg after
  unfolding raw_event
  marked-by res tenant before after i n f s =
      delivered res tenant n
        (lookup_tenant-same res.installation_id after before (
            ap (λ (d : Db Bytes). d.installations) (sym s.left)
            ∙ deliver-installations lib span tenant raw res s.start
            ∙ ap (λ (d : Db Bytes). d.installations) s.from_before)
          ∙ f)
        (subst (λ d. marked tenant (delivery_id msg) d ≡ true) s.left
          (deliver-marks lib span tenant raw res i s.start s.returned))

  -- It was a duplicate: the delivery was marked before.
  repeated-by :
      (res : Outcome) (tenant : String) (before after : Db Bytes)
      → delivery_id msg ≢ ""
      → normalize lib.codec raw ≡ Normalized.ok res
      → lookup_tenant res.installation_id before ≡ ok tenant
      → Repeated (delivery lib span raw res tenant) before after
      → Landed lib span msg after
  unfolding raw_event
  repeated-by res tenant before after i n f s = subst (Landed lib span msg) (sym s.left) (
      delivered res tenant n f (
        subst (λ d. marked tenant (delivery_id msg) d ≡ true) s.from_before
          (deliver-repeats lib span tenant raw res i s.start s.reported)))

  settled-by :
      (res : Outcome) (tenant : String) (before : Db Bytes) (x : Result (Unit {0}) × World Bytes)
      → delivery_id msg ≢ ""
      → normalize lib.codec raw ≡ Normalized.ok res
      → lookup_tenant res.installation_id before ≡ ok tenant
      → Attempt (delivery lib span raw res tenant) before x.0 x.1.db
      → (reports_duplicate x.0 ≡ true → Repeated (delivery lib span raw res tenant) before x.1.db)
      → (settle_delivery x).0 ≡ ok tt
      → Landed lib span msg (settle_delivery x).1.db
  unfolding settle_delivery
  settled-by res tenant before (ok _, w) i n f at r h =
      marked-by res tenant before w.db i n f (succeeded at)
  settled-by res tenant before (err duplicate, w) i n f at r h =
      repeated-by res tenant before w.db i n f (r refl)
  settled-by res tenant before (err e, w) i n f at r h = absurd (ground arith)

  -- The transaction of a delivery that succeeded, or was a duplicate, has marked it.
  delivered-by :
      (res : Outcome) (tenant : String) (before : Db Bytes) (w : World Bytes)
      → delivery_id msg ≢ ""
      → normalize lib.codec raw ≡ Normalized.ok res
      → lookup_tenant res.installation_id before ≡ ok tenant
      → w.db ≡ before
      → (deliver_to lib span raw res tenant w).0 ≡ ok tt
      → Landed lib span msg (deliver_to lib span raw res tenant w).1.db
  unfolding deliver_to
  delivered-by res tenant before w i n f b h =
      let x = attempt lib span raw res tenant w in
      settled-by res tenant before x i n f
        (subst (λ d. Attempt (delivery lib span raw res tenant) d x.0 x.1.db) b
          (with_tenant-Attempt tenant (λ session. deliver lib span session tenant raw res) w))
        (λ e.
          subst (λ d. Repeated (delivery lib span raw res tenant) d x.1.db) b
            (with_tenant-Repeated tenant (λ session. deliver lib span session tenant raw res) w e))
        h

  settle_tenant-Landed :
      (res : Outcome) (before : Db Bytes) (r : Result String) (w : World Bytes)
      → delivery_id msg ≢ ""
      → normalize lib.codec raw ≡ Normalized.ok res
      → ((tenant : String) → r ≡ ok tenant → lookup_tenant res.installation_id before ≡ ok tenant)
      → (r ≡ err unknown_installation
          → lookup_tenant res.installation_id before ≡ err unknown_installation)
      → w.db ≡ before
      → (settle_tenant lib span raw res (r, w)).0 ≡ ok tt
      → Landed lib span msg (settle_tenant lib span raw res (r, w)).1.db
  unfolding settle_tenant
  settle_tenant-Landed res before (ok tenant) w i n f u b h =
      delivered-by res tenant before w i n (f tenant refl) b h
  settle_tenant-Landed res before (err unknown_installation) w i n f u b h =
      unowned res n (ap (lookup_tenant res.installation_id) b ∙ u refl)
  settle_tenant-Landed res before (err e) w i n f u b h = absurd (ground arith)

  unless_skipped :
      (res : Outcome) (skip : Bool) (w : World Bytes)
      → delivery_id msg ≢ ""
      → normalize lib.codec raw ≡ Normalized.ok res
      → (res.skip || empty res) ≡ skip
      → let x =
          if skip
          then (ok tt, w)
          else settle_tenant lib span raw res (resolve_tenant res.installation_id w) in
        x.0 ≡ ok tt → Landed lib span msg x.1.db
  unless_skipped res true w i n s h = skipped res n s
  unless_skipped res false w i n s h =
      let t = resolve_tenant res.installation_id w in
      settle_tenant-Landed res w.db t.0 t.1 i n (resolve_tenant-ok res.installation_id w)
        (resolve_tenant-unknown res.installation_id w) (db-resolve_tenant res.installation_id w) h

  normalized-Landed :
      (n : Normalized) (w : World Bytes)
      → delivery_id msg ≢ ""
      → normalize lib.codec raw ≡ n
      → (process_normalized lib span raw n w).0 ≡ ok tt
      → Landed lib span msg (process_normalized lib span raw n w).1.db
  unfolding process_normalized
  normalized-Landed (Normalized.err e) w i n h = absurd (ground arith)
  normalized-Landed (Normalized.ok res) w i n h =
      unless_skipped res (res.skip || empty res) w i n refl h

  -- A message that was processed with success has landed.
  pub process-Landed :
      (w : World Bytes)
      → (process lib span msg w).0 ≡ ok tt
      → Landed lib span msg (process lib span msg w).1.db
  unfolding process
  process-Landed w h = elim (Bool-cases (delivery_id msg == "")) [
    | inl e ↦ anonymous (ground (arith, eq_iff (delivery_id msg) "", e))
    | inr e ↦
        normalized-Landed (normalize lib.codec raw) w
          (λ z. ground (arith, eq_iff (delivery_id msg) "", e, z)) refl h
  ]
