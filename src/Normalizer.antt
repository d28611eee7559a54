-- ===== src/Normalizer.antt =====
-- services/normalizer/main.go: from a message of the enriched topic to the rows of a tenant and the
-- canonical events of its outbox, in one transaction.
--
-- The statements are in `Normalizer/Tables`, the payloads of the events in `Normalizer/Payloads`;
-- the proofs are in the other children. Logging and spans are left out; a span enters as the trace
-- id and the traceparent that it has.
pub mod Consuming
pub mod Errors
pub mod Repeats
pub mod Landed
pub mod Payloads
pub mod Tables
pub mod Keeps
pub mod Process
pub mod Persists
pub mod Contributors
pub mod Complete
pub mod Settled
pub mod Staging
pub mod Once
pub mod Redelivery
pub mod Isolation
use dev_intel_platform.Base.{
  ℕ, suc, String, Bool, true, false, ◌||◌, List, [], ◌∷◌, Option, none, some, ◌==◌, if◌then◌else◌,
}
use dev_intel_platform.Base.Int.{ℤ, pos}
use dev_intel_platform.Base.Text.{concat}
use dev_intel_platform.Json.{Codec, Fields}
use dev_intel_platform.Events.{
  EventType, CanonicalEvent, topic_canonical, header_git_hub_event, header_git_hub_deliv,
  header_dlq_reason, review_submitted, comment_added, check_completed,
}
use dev_intel_platform.Events
use dev_intel_platform.Connector.{RawEvent, WorkItem, Review, CheckRun, Comment, Outcome, empty}
use dev_intel_platform.Github.{NormalizeError, decode, missing_installation, Normalized, normalize}
use dev_intel_platform.Github
use dev_intel_platform.Database.{Db, OutboxRow}
use dev_intel_platform.Tenancy.{
  Error, transient, unknown_installation, duplicate, permanent, Result, ok, err, World, Action,
  pure, raise, ◌>>=◌, ◌>>◌, scoped, resolve_tenant, with_tenant,
}
use dev_intel_platform.Kafka.{Headers, Message, get, put}
use Payloads.{work_item_payload, review_payload, check_run_payload, comment_payload}
use Tables.{
  upsert_work_item, ensure_work_item, insert_review, upsert_check_run, find_contributor,
  insert_contributor, insert_link, mark_row, outbox_row,
}

-- What the service takes from outside of the repository: the JSON codec, `json.Marshal` of an
-- event, the hexadecimal SHA-256 of a text, and the text of the error that `json.Unmarshal` returns
-- for a body that does not decode into the payload of the event that is named.
pub record Library (Bytes : Type 0) : Type 0 where
  pub codec : Codec Bytes
  pub marshal : CanonicalEvent → Option Bytes
  pub sha256_hex : String → String
  pub unmarshal_error : String → Bytes → String

-- The trace context of the span in which a message is processed.
pub record Span : Type 0 where
  pub trace_id : String
  pub traceparent : String

-- `idByNode`: the work item ids of the delivery, the last write first.
abbrev pub NodeIds : Type 0
NodeIds = List (String × ℕ)

unfoldable pub node_id? : String → NodeIds → Option ℕ
node_id? k [] = none
node_id? k ((j, id) ∷ ids) = if j == k then some id else node_id? k ids

-- `occurred`: the completion, else the start, else the zero time.
unfoldable pub occurred : Option ℤ → Option ℤ → ℤ
occurred (some completed) started = completed
occurred none (some started) = started
occurred none none = pos 0

module _ {Bytes : Type 0} (lib : Library Bytes) (span : Span) (session tenant : String) where
  -- The row of an event, once `json.Marshal` has made its bytes.
  unfoldable pub stage : CanonicalEvent → Option Bytes → Action Bytes Unit
  stage ev none = raise transient
  stage ev (some payload) =
      scoped session tenant (
        outbox_row tenant ev.event_id topic_canonical tenant span.trace_id span.traceparent payload)

  unfoldable pub enqueue_outbox : CanonicalEvent → Action Bytes Unit
  unfolding stage
  enqueue_outbox ev = stage ev (lib.marshal ev)

  -- uuid.NewString.
  unfoldable pub fresh_id : Action Bytes ℕ
  fresh_id w = (ok w.fresh, record w { fresh = suc w.fresh })

  -- events.New and the staging of the event.
  unfoldable pub emit : EventType → String → ℤ → Fields → Action Bytes Unit
  unfolding fresh_id enqueue_outbox
  emit t source_event_id occurred_at payload = do
    id ← fresh_id
    enqueue_outbox (Events.new id tenant t source_event_id occurred_at payload)

  -- `markDelivery`: whether the delivery is new; one without an id counts as new.
  unfoldable pub mark_delivery : String → String → Action Bytes Bool
  mark_delivery delivery_id event_type =
      if delivery_id == ""
      then pure true
      else scoped session tenant (mark_row tenant delivery_id event_type)

  -- The winner of a lost race is read again.
  unfoldable pub reread : Option ℕ → Action Bytes ℕ
  reread none = raise transient
  reread (some winner) = pure winner

  unfoldable pub linked_or_winner : ℕ → String → Bool → Action Bytes ℕ
  unfolding reread
  linked_or_winner id hash linked =
      if linked then pure id else scoped session tenant (find_contributor tenant hash) >>= reread

  -- `resolveContributor`, once the link of the login was looked for.
  unfoldable pub link_contributor : String → String → Option ℕ → Action Bytes ℕ
  unfolding linked_or_winner
  link_contributor login hash (some id) = pure id
  link_contributor login hash none = do
    id ← scoped session tenant (insert_contributor tenant login)
    linked ← scoped session tenant (insert_link tenant id hash)
    linked_or_winner id hash linked

  unfoldable pub resolve_contributor : String → Action Bytes ℕ
  unfolding link_contributor
  resolve_contributor login = do
    found ← scoped session tenant (find_contributor tenant (lib.sha256_hex login))
    link_contributor login (lib.sha256_hex login) found

  -- A work item with an empty event is a link target: it is ensured, and no event is staged.
  unfoldable pub write_item : WorkItem → Action Bytes ℕ
  write_item wi =
      if wi.event == ""
      then scoped session tenant (ensure_work_item tenant wi)
      else scoped session tenant (upsert_work_item tenant wi)

  unfoldable pub emit_item : WorkItem → Action Bytes Unit
  unfolding emit
  emit_item wi =
      if wi.event == ""
      then pure tt
      else emit wi.event wi.node_id wi.occurred_at (work_item_payload wi)

  unfoldable pub persist_items : List WorkItem → NodeIds → Action Bytes NodeIds
  unfolding write_item emit_item
  persist_items [] ids = pure ids
  persist_items (wi ∷ wis) ids = do
    id ← write_item wi
    emit_item wi
    persist_items wis ((wi.node_id, id) ∷ ids)

  unfoldable pub persist_review : Review → Option ℕ → Action Bytes Unit
  unfolding resolve_contributor emit
  persist_review rv none = raise (
      permanent (
        concat "review "
          (concat rv.source_id (concat ": parent PR " (concat rv.pr_node_id " not in delivery")))))
  persist_review rv (some work_item_id) = if rv.reviewer_login == "" then pure tt else do
    reviewer_id ← resolve_contributor rv.reviewer_login
    scoped session tenant (insert_review tenant work_item_id reviewer_id rv)
    emit review_submitted rv.source_id rv.submitted_at (review_payload rv)

  unfoldable pub persist_reviews : List Review → NodeIds → Action Bytes Unit
  unfolding persist_review node_id?
  persist_reviews [] ids = pure tt
  persist_reviews (rv ∷ rvs) ids = do
    persist_review rv (node_id? rv.pr_node_id ids)
    persist_reviews rvs ids

  unfoldable pub persist_check_runs : List CheckRun → Action Bytes Unit
  unfolding emit occurred
  persist_check_runs [] = pure tt
  persist_check_runs (cr ∷ crs) = do
    scoped session tenant (upsert_check_run tenant cr)
    emit check_completed cr.source_id (occurred cr.completed_at cr.started_at)
        (check_run_payload cr)
    persist_check_runs crs

  unfoldable pub persist_comments : List Comment → Action Bytes Unit
  unfolding emit
  persist_comments [] = pure tt
  persist_comments (cm ∷ cms) = do
    emit comment_added cm.source_id cm.created_at (comment_payload cm)
    persist_comments cms

  unfoldable pub persist : Outcome → Action Bytes Unit
  unfolding persist_items persist_reviews persist_check_runs persist_comments
  persist res = do
    ids ← persist_items res.work_items []
    persist_reviews res.reviews ids
    persist_check_runs res.check_runs
    persist_comments res.comments

  -- The body of the transaction.
  unfoldable pub deliver : RawEvent Bytes → Outcome → Action Bytes Unit
  unfolding mark_delivery persist
  deliver raw res = do
    is_new ← mark_delivery raw.delivery_id raw.event_type
    if is_new then persist res else raise duplicate

-- A duplicate delivery is a success.
unfoldable pub settle_delivery :
    {Bytes : Type 0} → Result (Unit {0}) × World Bytes → Result (Unit {0}) × World Bytes
settle_delivery (ok _, w) = (ok tt, w)
settle_delivery (err duplicate, w) = (ok tt, w)
settle_delivery (err e, w) = (err e, w)

-- The text of the error that `Normalize` returned for a body.
unfoldable pub describe : {Bytes : Type 0} → Library Bytes → Bytes → NormalizeError → String
describe lib body (decode what) =
    concat "github: decode " (concat what (concat ": " (lib.unmarshal_error what body)))
describe lib body missing_installation = "github: missing installation id"

module _ {Bytes : Type 0} (lib : Library Bytes) (span : Span) where
  unfoldable pub deliver_to : RawEvent Bytes → Outcome → String → Action Bytes Unit
  unfolding deliver settle_delivery
  deliver_to raw res tenant w =
      settle_delivery (with_tenant tenant (λ session. deliver lib span session tenant raw res) w)

  -- An unknown installation drops the message, which is a success.
  unfoldable pub settle_tenant :
      RawEvent Bytes → Outcome → Result String × World Bytes → Result (Unit {0}) × World Bytes
  unfolding deliver_to
  settle_tenant raw res (ok tenant, w) = deliver_to raw res tenant w
  settle_tenant raw res (err unknown_installation, w) = (ok tt, w)
  settle_tenant raw res (err e, w) = (err e, w)

  unfoldable pub process_normalized : RawEvent Bytes → Normalized → Action Bytes Unit
  unfolding settle_tenant describe
  process_normalized raw (Normalized.err e) w = (err (permanent (describe lib raw.body e)), w)
  process_normalized raw (Normalized.ok res) w =
      if res.skip || empty res
      then (ok tt, w)
      else settle_tenant raw res (resolve_tenant res.installation_id w)

  unfoldable pub raw_event : Message Bytes → RawEvent Bytes
  raw_event msg = record {
    delivery_id = get header_git_hub_deliv msg.headers;
    event_type = get header_git_hub_event msg.headers;
    body = msg.value;
    trace_id = span.trace_id;
  }

  unfoldable pub process : Message Bytes → Action Bytes Unit
  unfolding process_normalized raw_event
  process msg = process_normalized (raw_event msg) (normalize lib.codec (raw_event msg))

-- `deadLetter`: the message that is written to the dead-letter topic.
unfoldable pub dead_letter : {Bytes : Type 0} → Message Bytes → String → Message Bytes
dead_letter msg cause = record msg { headers = put header_dlq_reason cause msg.headers }
