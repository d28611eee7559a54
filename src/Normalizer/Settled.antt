-- ===== src/Normalizer/Settled.antt =====
-- With no call failing, a new delivery is settled: its outcome is persisted and its events staged.
use dev_intel_platform.Base.{
  String, ◌≡◌, refl, sym, ◌∙◌, ap, subst, Bool, true, false, List, [], ◌++◌, ◌==◌, ◌||◌, arith,
  some, if◌then◌else◌, All,
}
use dev_intel_platform.Events.{CanonicalEvent}
use dev_intel_platform.Connector.{RawEvent, Outcome, empty}
use dev_intel_platform.Database.{Db, OutboxRow, insert_unless, insert_absent, same_delivery}
use dev_intel_platform.Github.{Normalized, normalize}
use dev_intel_platform.Github.WellFormed.{has_node, normalize-IsWellFormed}
use dev_intel_platform.Kafka.{Message}
use dev_intel_platform.Tenancy.{duplicate, ok, World, Action, raise, lookup_tenant, resolve_tenant}
use dev_intel_platform.Tenancy.Runs.{Runs, Runs-pure, Runs-scoped}
use dev_intel_platform.Tenancy.Committed.{tick, resolve_tenant-quiet, with_tenant-Runs}
use dev_intel_platform.Normalizer.{
  Library, Span, mark_delivery, persist, deliver, settle_delivery, deliver_to, settle_tenant,
  process_normalized, raw_event, process,
}
use dev_intel_platform.Normalizer.Tables.{mark_row}
use dev_intel_platform.Normalizer.Staging.{expected, Staged, Stages, Stages-bind, silent}
use dev_intel_platform.Normalizer.Redelivery.{marked}
use dev_intel_platform.Normalizer.Once.{delivery_id}
use dev_intel_platform.Normalizer.Persists.{Any, Runs-if}
use dev_intel_platform.Normalizer.Complete.{persist-Stages}
use mathlib.Core.List.{append-nil}

mark_row-new :
    {Bytes : Type 0} (tenant delivery_id event_type : String) (w : World Bytes)
    → marked tenant delivery_id w.db ≡ false
    → (mark_row tenant delivery_id event_type w.fresh w.now w.db).0 ≡ true
unfolding marked mark_row same_delivery insert_absent insert_unless
mark_row-new tenant delivery_id event_type w h = ground arith

module _ {Bytes : Type 0} (lib : Library Bytes) (span : Span)
    (total : (ev : CanonicalEvent) → (payload : Bytes) × (lib.marshal ev ≡ some payload)) where
  mark_delivery-Runs :
      (tenant delivery_id event_type : String) (w : World Bytes)
      → w.calls ≡ []
      → marked tenant delivery_id w.db ≡ false
      → Runs
          (λ (is_new : Bool) _. is_new ≡ true)
          (mark_delivery lib span tenant tenant delivery_id event_type)
          w
          []
  unfolding mark_delivery mark_row
  mark_delivery-Runs tenant delivery_id event_type w q m =
      let Q : Bool → Db Bytes → Type 0 = λ is_new _. is_new ≡ true in
      Runs-if (delivery_id == "") (Runs-pure Q w q true refl) (
        Runs-scoped Q w q (mark_row tenant delivery_id event_type) tenant []
          (sym (append-nil w.db.outbox)) (mark_row-new tenant delivery_id event_type w m))

  deliver-Stages :
      (tenant : String) (raw : RawEvent Bytes) (res : Outcome) (w : World Bytes)
      → w.calls ≡ []
      → marked tenant raw.delivery_id w.db ≡ false
      → All (λ rv. has_node rv.pr_node_id res.work_items ≡ true) res.reviews
      → Stages lib tenant Any (deliver lib span tenant tenant raw res) w (expected res)
  unfolding deliver
  deliver-Stages tenant raw res w q m linked =
      let x = mark_delivery-Runs tenant raw.delivery_id raw.event_type w q m in
      let rest : Bool → Action Bytes Unit =
        λ is_new. if is_new then persist lib span tenant tenant res else raise duplicate in
      Stages-bind lib tenant Any
        (mark_delivery lib span tenant tenant raw.delivery_id raw.event_type) rest w
        (silent lib tenant x)
        (subst (λ b. Stages lib tenant Any (rest b) x.world (expected res)) (sym x.good)
          (persist-Stages lib span tenant total res x.world x.quiet linked))

  -- The message was processed: it succeeded, and the outbox has grown by the rows that stage the
  -- events of the outcome.
  pub record Settled (msg : Message Bytes) (w : World Bytes) (res : Outcome) (tenant : String)
      : Type 0 where
    pub after : World Bytes
    pub returned : process lib span msg w ≡ (ok tt, after)
    pub rows : List (OutboxRow Bytes)
    pub outbox : after.db.outbox ≡ w.db.outbox ++ rows
    pub staged : Staged lib tenant rows (expected res)

  -- A message whose outcome is not skipped, from an installation that is known, whose delivery the
  -- tenant has not marked, is processed to the end if no call fails and every event can be printed:
  -- it returns success and appends to the outbox, in their order and once each, the rows that
  -- stage the events of its outcome, under the tenant of its installation.
  pub process-Settled :
      (msg : Message Bytes) (w : World Bytes) (res : Outcome) (tenant : String)
      → w.calls ≡ []
      → normalize lib.codec (raw_event lib span msg) ≡ Normalized.ok res
      → res.skip ≡ false
      → lookup_tenant res.installation_id w.db ≡ ok tenant
      → marked tenant (delivery_id msg) w.db ≡ false
      → Settled msg w res tenant
  unfolding process raw_event process_normalized settle_tenant deliver_to settle_delivery empty
  process-Settled msg w res tenant q n s f m =
      let raw = raw_event lib span msg in
      let formed = normalize-IsWellFormed lib.codec raw res n s in
      let kept : (res.skip || empty res) ≡ false = rw (s, formed.nonempty) in
      let x = deliver-Stages tenant raw res (tick (tick (tick w))) q m formed.linked in
      let y =
        with_tenant-Runs Any tenant (λ session. deliver lib span session tenant raw res) (tick w) q
          x.run in
      record {
        after = y.world;
        returned =
            ap (λ n'. process_normalized lib span raw n' w) n
            ∙ ap
                (λ b.
                  if b
                  then (ok tt, w)
                  else settle_tenant lib span raw res (resolve_tenant res.installation_id w))
                kept
            ∙ ap (settle_tenant lib span raw res)
                (resolve_tenant-quiet res.installation_id w tenant q f)
            ∙ ap settle_delivery y.whole;
        rows = x.rows;
        outbox = y.outbox;
        staged = x.staged;
      }
