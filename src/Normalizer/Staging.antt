-- ===== src/Normalizer/Staging.antt =====
-- The canonical events of an outcome, and the rows that stage them.
use dev_intel_platform.Base.{String, ◌≡◌, List, [], ◌∷◌, ◌++◌, none, some, ◌==◌, if◌then◌else◌}
use dev_intel_platform.Base.Int.{ℤ}
use dev_intel_platform.Json.{Fields}
use dev_intel_platform.Events
use dev_intel_platform.Events.{
  EventType, CanonicalEvent, topic_canonical, review_submitted, comment_added, check_completed,
}
use dev_intel_platform.Connector.{WorkItem, Review, CheckRun, Comment, Outcome}
use dev_intel_platform.Database.{Db, OutboxRow}
use dev_intel_platform.Tenancy.{World, Action, ◌>>=◌, ◌>>◌}
use dev_intel_platform.Tenancy.Runs.{Runs, Runs-bind}
use dev_intel_platform.Normalizer.{Library, occurred}
use dev_intel_platform.Normalizer.Payloads.{
  work_item_payload, review_payload, check_run_payload, comment_payload,
}

-- An event to be staged, before it has an id.
pub record Staging : Type 0 where
  pub type : EventType
  pub source_event_id : String
  pub occurred_at : ℤ
  pub payload : Fields

unfoldable pub item_events : WorkItem → List Staging
item_events wi =
    if wi.event == ""
    then []
    else record {
      type = wi.event;
      source_event_id = wi.node_id;
      occurred_at = wi.occurred_at;
      payload = work_item_payload wi;
    }
      ∷ []

unfoldable pub review_events : Review → List Staging
review_events rv =
    if rv.reviewer_login == ""
    then []
    else record {
      type = review_submitted;
      source_event_id = rv.source_id;
      occurred_at = rv.submitted_at;
      payload = review_payload rv;
    }
      ∷ []

unfoldable pub check_run_events : CheckRun → List Staging
unfolding occurred
check_run_events cr =
    record {
      type = check_completed;
      source_event_id = cr.source_id;
      occurred_at = occurred cr.completed_at cr.started_at;
      payload = check_run_payload cr;
    }
    ∷ []

unfoldable pub comment_events : Comment → List Staging
comment_events cm =
    record {
      type = comment_added;
      source_event_id = cm.source_id;
      occurred_at = cm.created_at;
      payload = comment_payload cm;
    }
    ∷ []

unfoldable pub each {ℓ} : {A : Type ℓ} → (A → List Staging) → List A → List Staging
each events [] = []
each events (a ∷ as') = events a ++ each events as'

-- The events of an outcome, in the order in which they are staged: one for each work item that is
-- not ensure-only, each review with a reviewer, each check run and each comment.
unfoldable pub expected : Outcome → List Staging
unfolding each item_events review_events check_run_events comment_events
expected r =
    each item_events r.work_items
    ++ (each review_events r.reviews
        ++ (each check_run_events r.check_runs ++ each comment_events r.comments))

module _ {Bytes : Type 0} (lib : Library Bytes) (tenant : String) where
  -- The row stages the event: it belongs to the tenant, goes to the canonical topic under the
  -- tenant's key, is not yet published, and holds the bytes of the event under the row's event id.
  pub record IsStaged (row : OutboxRow Bytes) (e : Staging) : Type 0 where
    pub tenant_id : row.tenant_id ≡ tenant
    pub kafka_key : row.kafka_key ≡ tenant
    pub topic : row.topic ≡ topic_canonical
    pub unpublished : row.published_at ≡ none
    pub payload :
        lib.marshal
          (Events.new row.event_id tenant e.type e.source_event_id e.occurred_at e.payload)
        ≡ some row.payload

  -- The rows stage the events, one by one and in their order.
  abbrev pub Staged : List (OutboxRow Bytes) → List Staging → Type 0
  Staged [] [] = Unit
  Staged [] (e ∷ es) = ⊥
  Staged (row ∷ rows) [] = ⊥
  Staged (row ∷ rows) (e ∷ es) = IsStaged row e × Staged rows es

  Staged-append :
      (rows rows' : List (OutboxRow Bytes)) (es es' : List Staging)
      → Staged rows es
      → Staged rows' es'
      → Staged (rows ++ rows') (es ++ es')
  Staged-append [] rows' [] es' h k = k
  Staged-append [] rows' (e ∷ es) es' h k = absurd h
  Staged-append (row ∷ rows) rows' [] es' h k = absurd h
  Staged-append (row ∷ rows) rows' (e ∷ es) es' h k = (h.0, Staged-append rows rows' es es' h.1 k)

  -- With no call failing, `m` returns and stages the events.
  pub record Stages {A : Type 0} (P : A → Db Bytes → Type 0) (m : Action Bytes A) (w : World Bytes)
      (es : List Staging) : Type 0 where
    pub rows : List (OutboxRow Bytes)
    pub run : Runs P m w rows
    pub staged : Staged rows es

  pub Stages-bind :
      {A B : Type 0} {P : A → Db Bytes → Type 0} (Q : B → Db Bytes → Type 0) (m : Action Bytes A)
      (f : A → Action Bytes B) (w : World Bytes) {es es' : List Staging}
      → (x : Stages P m w es) → Stages Q (f x.run.value) x.run.world es'
      → Stages Q (m >>= f) w (es ++ es')
  Stages-bind Q m f w {es} {es'} x y = record {
    rows = x.rows ++ y.rows;
    run = Runs-bind Q m f w x.run y.run;
    staged = Staged-append x.rows y.rows es es' x.staged y.staged;
  }

  pub Stages-then :
      {A B : Type 0} {P : A → Db Bytes → Type 0} (Q : B → Db Bytes → Type 0) (m : Action Bytes A)
      (n : Action Bytes B) (w : World Bytes) {es es' : List Staging}
      → (x : Stages P m w es) → Stages Q n x.run.world es'
      → Stages Q (m >> n) w (es ++ es')
  unfolding ◌>>◌
  Stages-then Q m n w x y = Stages-bind Q m (λ _. n) w x y

  abbrev pub silent :
      {A : Type 0} {P : A → Db Bytes → Type 0} {m : Action Bytes A} {w : World Bytes}
      → Runs P m w []
      → Stages P m w []
  silent x = record { rows = []; run = x; staged = tt }

  pub Stages-map :
      {A : Type 0} {P : A → Db Bytes → Type 0} (Q : A → Db Bytes → Type 0) {m : Action Bytes A}
      {w : World Bytes} {es : List Staging}
      → ((a : A) (db : Db Bytes) → P a db → Q a db)
      → Stages P m w es
      → Stages Q m w es
  Stages-map Q f x = record {
    rows = x.rows;
    run = record {
      value = x.run.value;
      world = x.run.world;
      whole = x.run.whole;
      quiet = x.run.quiet;
      outbox = x.run.outbox;
      good = f x.run.value x.run.world.db x.run.good;
    };
    staged = x.staged;
  }
