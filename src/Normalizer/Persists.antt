-- ===== src/Normalizer/Persists.antt =====
-- With no call failing, `persist` returns and stages exactly the events of its outcome.
use dev_intel_platform.Base.{
  ℕ, suc, String, ◌≡◌, refl, sym, subst, Bool, true, false, List, [], ◌∷◌, Option, none, some,
  if◌then◌else◌, arith,
}
use dev_intel_platform.Base.Int.{ℤ}
use dev_intel_platform.Json.{Fields}
use dev_intel_platform.Events
use dev_intel_platform.Events.{
  EventType, CanonicalEvent, topic_canonical, review_submitted, comment_added, check_completed,
}
use dev_intel_platform.Database.{Db, OutboxRow}
use dev_intel_platform.Tenancy.{World, Action}
use dev_intel_platform.Tenancy.Runs.{Runs, Runs-scoped, Runs-bind}
use dev_intel_platform.Normalizer.{Library, Span, fresh_id, stage, enqueue_outbox, emit}
use dev_intel_platform.Normalizer.Tables.{outbox_row, outbox_entry}
use dev_intel_platform.Normalizer.Staging.{Staging, Stages}
use mathlib.Core.List.{append-nil}

some_inj : {A : Type 0} {a b : A} → some a ≡ some b → a ≡ b
some_inj e = cc

abbrev pub Any {ℓ} : {Bytes : Type 0} {A : Type ℓ} → A → Db Bytes → Type 0
Any a db = Unit {0}

pub Runs-if :
    {Bytes A : Type 0} {P : A → Db Bytes → Type 0} (b : Bool) {m n : Action Bytes A}
    {w : World Bytes} {rs : List (OutboxRow Bytes)}
    → Runs P m w rs
    → Runs P n w rs
    → Runs P (if b then m else n) w rs
Runs-if true x y = x
Runs-if false x y = y

module _ {Bytes : Type 0} (lib : Library Bytes) (span : Span) (tenant : String)
    (total : (ev : CanonicalEvent) → (payload : Bytes) × (lib.marshal ev ≡ some payload)) where
  pub Stages-if :
      {A : Type 0} {P : A → Db Bytes → Type 0} (b : Bool) {m n : Action Bytes A} {w : World Bytes}
      {es es' : List Staging}
      → Stages lib tenant P m w es
      → Stages lib tenant P n w es'
      → Stages lib tenant P (if b then m else n) w (if b then es else es')
  Stages-if true x y = x
  Stages-if false x y = y

  fresh_id-Runs : (w : World Bytes) → w.calls ≡ [] → Runs Any (fresh_id lib span tenant tenant) w []
  unfolding fresh_id
  fresh_id-Runs w q = record {
    value = w.fresh;
    world = record w { fresh = suc w.fresh };
    whole = refl;
    quiet = q;
    outbox = sym (append-nil w.db.outbox);
    good = tt;
  }

  -- The row of an event whose bytes are `payload`.
  abbrev entry : CanonicalEvent → Bytes → ℕ → OutboxRow Bytes
  entry ev payload id =
      outbox_entry tenant ev.event_id topic_canonical tenant span.trace_id span.traceparent payload
        id

  stage-Runs :
      (ev : CanonicalEvent) (payload : Bytes) (found : Option Bytes) (w : World Bytes)
      → w.calls ≡ []
      → found ≡ some payload
      → Runs Any (stage lib span tenant tenant ev found) w (entry ev payload w.fresh ∷ [])
  unfolding stage outbox_row
  stage-Runs ev payload none w q e = absurd (ground arith)
  stage-Runs ev payload (some b) w q e =
      subst (λ b'. Runs Any (stage lib span tenant tenant ev (some b)) w (entry ev b' w.fresh ∷ []))
        (some_inj e) (Runs-scoped Any w q _ tenant (entry ev b w.fresh ∷ []) refl tt)

  pub emit-Stages :
      (t : EventType) (source : String) (at : ℤ) (payload : Fields) (w : World Bytes)
      → w.calls ≡ []
      → Stages lib tenant Any
          (emit lib span tenant tenant t source at payload)
          w
          (record { type = t; source_event_id = source; occurred_at = at; payload = payload } ∷ [])
  unfolding emit enqueue_outbox fresh_id outbox_entry Events.new
  emit-Stages t source at payload w q =
      let x = fresh_id-Runs w q in
      let ev = Events.new x.value tenant t source at payload in
      let bytes = total ev in
      let y = stage-Runs ev bytes.0 (lib.marshal ev) x.world x.quiet bytes.1 in
      record {
        rows = entry ev bytes.0 x.world.fresh ∷ [];
        run =
            Runs-bind Any (fresh_id lib span tenant tenant)
              (λ id.
                enqueue_outbox lib span tenant tenant (Events.new id tenant t source at payload))
              w x y;
        staged = (
          record {
            tenant_id = refl;
            kafka_key = refl;
            topic = refl;
            unpublished = refl;
            payload = bytes.1;
          },
          tt,
        );
      }
