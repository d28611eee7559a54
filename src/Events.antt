-- ===== src/Events.antt =====
-- libs/go/events/event.go: the canonical event, its types, the topics and the header names.
use dev_intel_platform.Base.{ℕ, String}
use dev_intel_platform.Base.Int.{ℤ}
use dev_intel_platform.Json.{Fields}

-- Kafka topics.
abbrev pub topic_raw_git_hub : String
topic_raw_git_hub = "raw.github"

abbrev pub topic_enriched_git_hub : String
topic_enriched_git_hub = "enriched.github"

abbrev pub topic_canonical : String
topic_canonical = "canonical.events"

abbrev pub topic_dead_letter : String
topic_dead_letter = "raw.github.dlq"

-- Message headers.
abbrev pub header_trace_parent : String
header_trace_parent = "traceparent"

abbrev pub header_trace_id : String
header_trace_id = "trace-id"

abbrev pub header_git_hub_event : String
header_git_hub_event = "x-github-event"

abbrev pub header_git_hub_deliv : String
header_git_hub_deliv = "x-github-delivery"

abbrev pub header_dlq_reason : String
header_dlq_reason = "dlq-reason"

abbrev pub header_enrich_status : String
header_enrich_status = "enrich-status"

abbrev pub header_occurred_at : String
header_occurred_at = "occurred-at"

-- `type EventType string`.
abbrev pub EventType : Type 0
EventType = String

abbrev pub work_item_created : EventType
work_item_created = "work_item.created"

abbrev pub work_item_updated : EventType
work_item_updated = "work_item.updated"

abbrev pub work_item_state_changed : EventType
work_item_state_changed = "work_item.state_changed"

abbrev pub work_item_closed : EventType
work_item_closed = "work_item.closed"

abbrev pub review_submitted : EventType
review_submitted = "review.submitted"

abbrev pub comment_added : EventType
comment_added = "comment.added"

abbrev pub commit_observed : EventType
commit_observed = "commit.observed"

abbrev pub check_completed : EventType
check_completed = "check.completed"

abbrev pub source_git_hub : String
source_git_hub = "github"

pub record CanonicalEvent : Type 0 where
  pub event_id : ℕ  -- a fresh UUID, drawn from the supply of the caller
  pub tenant_id : String
  pub type : EventType
  pub source : String
  pub source_event_id : String
  pub occurred_at : ℤ
  pub version : ℕ
  pub payload : Fields

-- `New`, with the UUID that `uuid.NewString` returned as its first argument.
unfoldable pub new : ℕ → String → EventType → String → ℤ → Fields → CanonicalEvent
new id tenant t source_event_id occurred_at payload = record {
  event_id = id;
  tenant_id = tenant;
  type = t;
  source = source_git_hub;
  source_event_id = source_event_id;
  occurred_at = occurred_at;
  version = 1;
  payload = payload;
}
