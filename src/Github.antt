-- ===== src/Github.antt =====
-- libs/go/connector/github/github.go: `Normalize`, from a webhook's bytes to canonical entities.
-- The payloads are in `Github/Payload`, their decoding in `Github/Decode`, the builders of entities in
-- `Github/Entities`, the handlers of the event types here, and the proofs in the other children.
pub mod Payload
pub mod Decode
pub mod Entities
pub mod Dispatch
pub mod WellFormed
use dev_intel_platform.Base.{
  String, Bool, true, false, List, [], ◌∷◌, map, Option, none, some, ◌==◌, not, if◌then◌else◌,
}
use dev_intel_platform.Base.Int.{ℤ, pos, eqb_ℤ}
use dev_intel_platform.Json.{Codec, unmarshal}
use dev_intel_platform.Connector.{RawEvent, WorkItem, Review, CheckRun, Comment, Outcome}
use Payload.{
  PrPayload, ReviewPayload, ReviewCommentPayload, IssueCommentPayload, IssuePayload, PushPayload,
  CheckRunPayload, StatusPayload,
}
use Decode.Pulls.{decode_pr_payload, decode_review_payload}
use Decode.Issues.{
  decode_review_comment_payload, decode_issue_comment_payload, decode_issue_payload,
}
use Decode.Commits.{decode_push_payload, decode_check_run_payload, decode_status_payload}
use Entities.{
  pull_request_item, pr_work_item, review_of, review_comment_of, issue_comment_of, issue_item,
  commit_item, check_run_of, status_check_of,
}

-- The errors of `Normalize`: the body does not decode, or names no installation.
pub data NormalizeError : Type 0 where
  decode : String → NormalizeError
  missing_installation : NormalizeError

pub data Normalized : Type 0 where
  ok : Outcome → Normalized
  err : NormalizeError → Normalized

-- connector.Result{Skip: true}
unfoldable pub skipped : Outcome
skipped = record {
  installation_id = pos 0;
  work_items = [];
  reviews = [];
  check_runs = [];
  comments = [];
  skip = true;
}

-- connector.Result{InstallationID: id}, to which a handler adds its entities.
unfoldable pub bare : ℤ → Outcome
unfolding skipped
bare id = record skipped { installation_id = id; skip = false }

-- The head that the handlers share: an undecodable body and a missing installation id are errors.
unfoldable pub checked {ℓ} : {P : Type ℓ} → String → (P → ℤ) → (P → Outcome) → Option P → Normalized
checked what installation handle none = err (decode what)
checked what installation handle (some p) =
    if eqb_ℤ (installation p) (pos 0) then err missing_installation else ok (handle p)

-- What each handler makes of a payload that decodes and names its installation.
unfoldable pub pull_request_outcome : PrPayload → Outcome
unfolding bare
pull_request_outcome p = record (bare p.installation) { work_items = pull_request_item p ∷ [] }

unfoldable pub review_outcome : (String → String) → ReviewPayload → Outcome
unfolding bare
review_outcome to_lower p =
    if not (p.action == "submitted") then skipped else record (bare p.installation) {
      work_items = pr_work_item p.pull_request p.repository ∷ [];
      reviews = review_of to_lower p ∷ [];
    }

unfoldable pub review_comment_outcome : ReviewCommentPayload → Outcome
unfolding bare
review_comment_outcome p =
    if not (p.action == "created")
    then skipped
    else record (bare p.installation) { comments = review_comment_of p ∷ [] }

unfoldable pub issue_comment_outcome : IssueCommentPayload → Outcome
unfolding bare
issue_comment_outcome p =
    if not (p.action == "created")
    then skipped
    else record (bare p.installation) { comments = issue_comment_of p ∷ [] }

unfoldable pub issue_outcome : IssuePayload → Outcome
unfolding bare
issue_outcome p = record (bare p.installation) { work_items = issue_item p ∷ [] }

unfoldable pub push_outcome : PushPayload → Outcome
unfolding bare
push_outcome p = elim p.commits [
  | [] ↦ skipped
  | _ ↦ record (bare p.installation) { work_items = map (commit_item p.repository) p.commits }
]

unfoldable pub check_run_outcome : CheckRunPayload → Outcome
unfolding bare
check_run_outcome p =
    if not (p.status == "completed")
    then skipped
    else record (bare p.installation) { check_runs = check_run_of p ∷ [] }

unfoldable pub status_outcome : StatusPayload → Outcome
unfolding bare
status_outcome p =
    if p.state == "pending"
    then skipped
    else record (bare p.installation) { check_runs = status_check_of p ∷ [] }

module _ {Bytes : Type 0} (codec : Codec Bytes) where
  unfoldable pub normalize_pull_request : Bytes → Normalized
  unfolding checked pull_request_outcome
  normalize_pull_request body =
      checked "pull_request" (λ p. p.installation) pull_request_outcome
        (unmarshal codec (decode_pr_payload codec) body)

  unfoldable pub normalize_review : Bytes → Normalized
  unfolding checked review_outcome
  normalize_review body =
      checked "pull_request_review" (λ p. p.installation) (review_outcome codec.to_lower)
        (unmarshal codec (decode_review_payload codec) body)

  unfoldable pub normalize_review_comment : Bytes → Normalized
  unfolding checked review_comment_outcome
  normalize_review_comment body =
      checked "pull_request_review_comment" (λ p. p.installation) review_comment_outcome
        (unmarshal codec (decode_review_comment_payload codec) body)

  unfoldable pub normalize_issue_comment : Bytes → Normalized
  unfolding checked issue_comment_outcome
  normalize_issue_comment body =
      checked "issue_comment" (λ p. p.installation) issue_comment_outcome
        (unmarshal codec (decode_issue_comment_payload codec) body)

  unfoldable pub normalize_issue : Bytes → Normalized
  unfolding checked issue_outcome
  normalize_issue body =
      checked "issues" (λ p. p.installation) issue_outcome
        (unmarshal codec (decode_issue_payload codec) body)

  unfoldable pub normalize_push : Bytes → Normalized
  unfolding checked push_outcome
  normalize_push body =
      checked "push" (λ p. p.installation) push_outcome
        (unmarshal codec (decode_push_payload codec) body)

  unfoldable pub normalize_check_run : Bytes → Normalized
  unfolding checked check_run_outcome
  normalize_check_run body =
      checked "check_run" (λ p. p.installation) check_run_outcome
        (unmarshal codec (decode_check_run_payload codec) body)

  unfoldable pub normalize_status : Bytes → Normalized
  unfolding checked status_outcome
  normalize_status body =
      checked "status" (λ p. p.installation) status_outcome
        (unmarshal codec (decode_status_payload codec) body)

  -- `Source.Normalize`: the dispatch on X-GitHub-Event.
  unfoldable pub normalize : RawEvent Bytes → Normalized
  normalize raw =
      if raw.event_type == "pull_request"
      then normalize_pull_request raw.body
      else if raw.event_type == "pull_request_review"
      then normalize_review raw.body
      else if raw.event_type == "pull_request_review_comment"
      then normalize_review_comment raw.body
      else if raw.event_type == "issue_comment"
      then normalize_issue_comment raw.body
      else if raw.event_type == "issues"
      then normalize_issue raw.body
      else if raw.event_type == "push"
      then normalize_push raw.body
      else if raw.event_type == "check_run"
      then normalize_check_run raw.body
      else if raw.event_type == "status"
      then normalize_status raw.body
      else ok skipped
