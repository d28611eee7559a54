-- ===== src/Github/WellFormed.antt =====
-- What the normalizer may rely on in an outcome of `Normalize` that is not skipped.
use dev_intel_platform.Base.{
  String, ◌≡◌, ◌≢◌, refl, Bool, true, false, ◌||◌, ◌&&◌, List, [], ◌∷◌, map, arith, ◌==◌, All,
  eq_refl, if_ind, not, Option, none, some, ap,
}
use dev_intel_platform.Base.Int.{ℤ, pos}
use dev_intel_platform.Json.{Codec}
use dev_intel_platform.Events.{
  EventType, work_item_created, work_item_updated, work_item_state_changed, commit_observed,
}
use dev_intel_platform.Connector.{RawEvent, WorkItem, Review, Outcome, empty}
use dev_intel_platform.Github.{
  ok, pull_request_outcome, review_outcome, review_comment_outcome, issue_comment_outcome,
  issue_outcome, push_outcome, check_run_outcome, status_outcome, normalize,
}
use dev_intel_platform.Github.Payload.{
  PullRequest, PrEnrichment, PushCommit, PrPayload, ReviewPayload, IssuePayload, PushPayload,
}
use dev_intel_platform.Github.Entities.{
  numbered, work_item_event, pr_work_item, apply_enrichment, pull_request_item, review_of,
  issue_item, commit_item,
}
use dev_intel_platform.Github.Dispatch.{HandlersEnsure, normalize-Ensures, unless_skipped}

-- Some work item of the list has this node id.
abbrev pub has_node : String → List WorkItem → Bool
has_node k [] = false
has_node k (wi ∷ wis) = wi.node_id == k || has_node k wis

-- Some review of the list is of the pull request with this node id.
abbrev pub reviewed : String → List Review → Bool
reviewed k [] = false
reviewed k (rv ∷ rvs) = rv.pr_node_id == k || reviewed k rvs

-- The types of the events of pull requests and issues.
abbrev pub change_type : EventType → Bool
change_type t = t == work_item_created || t == work_item_updated || t == work_item_state_changed

-- The types of events that the work items of each type take.
abbrev pub event_of_type : String → EventType → Bool
event_of_type type t =
    (type == "pr" || type == "issue") && change_type t || type == "commit" && t == commit_observed

-- A work item has an event of its type, or it has none and is the pull request of a review.
pub data Announced (reviews : List Review) (wi : WorkItem) : Type 0 where
  event : event_of_type wi.type wi.event ≡ true → Announced reviews wi
  link : wi.event ≡ "" → reviewed wi.node_id reviews ≡ true → Announced reviews wi

-- The statuses that the work items of each type take.
abbrev pub status_of_type : String → String → Bool
status_of_type type status =
    type == "pr" && (status == "open" || status == "closed" || status == "merged")
    || type == "issue" && (status == "open" || status == "closed")
    || type == "commit" && status == "observed"

abbrev pub IsCanonicalItem : List Review → WorkItem → Type 0
IsCanonicalItem reviews wi = Announced reviews wi × (status_of_type wi.type wi.status ≡ true)

pub record IsWellFormed (r : Outcome) : Type 0 where
  pub installed : r.installation_id ≢ pos 0
  pub nonempty : empty r ≡ false
  pub linked : All (λ rv. has_node rv.pr_node_id r.work_items ≡ true) r.reviews
  pub canonical : All (IsCanonicalItem r.reviews) r.work_items

work_item_event-canonical : (action : String) → change_type (work_item_event action) ≡ true
unfolding work_item_event
work_item_event-canonical action =
    let P = λ (t : EventType). change_type t ≡ true in
    if_ind P (action == "opened") refl (
      if_ind P
        (action == "closed"
          || action == "reopened"
          || action == "ready_for_review"
          || action == "converted_to_draft")
        refl refl)

pr_work_item-status :
    (pr : PullRequest) (repo : String) → status_of_type "pr" (pr_work_item pr repo).status ≡ true
unfolding pr_work_item
pr_work_item-status pr repo =
    let P = λ (t : String × String). status_of_type "pr" t.0 ≡ true in
    if_ind P pr.merged refl (if_ind P (pr.state == "closed") refl refl)

-- The enrichment replaces no type and no status.
apply_enrichment-status :
    (wi : WorkItem) (enr : Option PrEnrichment)
    → ((apply_enrichment wi enr).type ≡ wi.type) × ((apply_enrichment wi enr).status ≡ wi.status)
unfolding apply_enrichment
apply_enrichment-status wi none = (refl, refl)
apply_enrichment-status wi (some enr) = (refl, refl)

enriched-status :
    (pr : PullRequest) (repo : String) (enr : Option PrEnrichment)
    → let wi = apply_enrichment (pr_work_item pr repo) enr in
      status_of_type wi.type wi.status ≡ true
enriched-status pr repo enr =
    let e = apply_enrichment-status (pr_work_item pr repo) enr in
    rw (e.0, e.1) (unfold pr_work_item in pr_work_item-status pr repo)

pull_request_item-event :
    (p : PrPayload) → event_of_type (pull_request_item p).type (pull_request_item p).event ≡ true
unfolding pull_request_item
pull_request_item-event p =
    let e = apply_enrichment-status (pr_work_item (numbered p) p.repository) p.enrichment in
    rw (e.0) (unfold pr_work_item in ap (λ b. b || false) (work_item_event-canonical p.action))

pull_request_item-IsCanonical : (p : PrPayload) → IsCanonicalItem [] (pull_request_item p)
pull_request_item-IsCanonical p = (
  event (pull_request_item-event p),
  unfold pull_request_item in enriched-status (numbered p) p.repository p.enrichment,
)

review-IsCanonical :
    (to_lower : String → String) (p : ReviewPayload)
    → IsCanonicalItem (review_of to_lower p ∷ []) (pr_work_item p.pull_request p.repository)
unfolding review_of
review-IsCanonical to_lower p = (
  unfold pr_work_item in link refl (simp eq_refl),
  unfold pr_work_item in pr_work_item-status p.pull_request p.repository,
)

issue_item-IsCanonical : (p : IssuePayload) → IsCanonicalItem [] (issue_item p)
unfolding issue_item
issue_item-IsCanonical p = (
  event (ap (λ b. b || false) (work_item_event-canonical p.action)),
  if_ind (λ t. status_of_type "issue" t ≡ true) (p.state == "closed") refl refl,
)

commit_items-AreCanonical :
    (repo : String) (cs : List PushCommit) → All (IsCanonicalItem []) (map (commit_item repo) cs)
unfolding commit_item
commit_items-AreCanonical repo [] = tt
commit_items-AreCanonical repo (c ∷ cs) = ((event refl, refl), commit_items-AreCanonical repo cs)

own_node :
    (pr : PullRequest) (repo : String) → has_node pr.node_id (pr_work_item pr repo ∷ []) ≡ true
unfolding pr_work_item
own_node pr repo = simp eq_refl

push_outcome-IsWellFormed :
    (cs : List PushCommit) (repo : String) (id : ℤ)
    → let p : PushPayload = record { commits = cs; repository = repo; installation = id } in
      id ≢ pos 0 → (push_outcome p).skip ≡ false → IsWellFormed (push_outcome p)
unfolding push_outcome empty
push_outcome-IsWellFormed [] repo id i s = absurd (ground arith)
push_outcome-IsWellFormed (c ∷ cs) repo id i s = record {
  installed = i;
  nonempty = refl;
  linked = tt;
  canonical = commit_items-AreCanonical repo (c ∷ cs);
}

handlers-IsWellFormed : (to_lower : String → String) → HandlersEnsure IsWellFormed to_lower
unfolding pull_request_outcome review_outcome review_comment_outcome issue_comment_outcome
    issue_outcome check_run_outcome status_outcome empty review_of
handlers-IsWellFormed to_lower = record {
  pull_request = λ p i. record {
    installed = i;
    nonempty = refl;
    linked = tt;
    canonical = (pull_request_item-IsCanonical p, tt);
  };
  review = λ p i s.
      unless_skipped IsWellFormed (not (p.action == "submitted")) _
        (record {
          installed = i;
          nonempty = refl;
          linked = (own_node _ p.repository, tt);
          canonical = (review-IsCanonical to_lower p, tt);
        })
        s;
  review_comment = λ p i s.
      unless_skipped IsWellFormed (not (p.action == "created")) _
        (record { installed = i; nonempty = refl; linked = tt; canonical = tt }) s;
  issue_comment = λ p i s.
      unless_skipped IsWellFormed (not (p.action == "created")) _
        (record { installed = i; nonempty = refl; linked = tt; canonical = tt }) s;
  issue = λ p i. record {
    installed = i;
    nonempty = refl;
    linked = tt;
    canonical = (issue_item-IsCanonical p, tt);
  };
  push = λ p. push_outcome-IsWellFormed p.commits p.repository p.installation;
  check_run = λ p i s.
      unless_skipped IsWellFormed (not (p.status == "completed")) _
        (record { installed = i; nonempty = refl; linked = tt; canonical = tt }) s;
  status = λ p i s.
      unless_skipped IsWellFormed (p.state == "pending") _
        (record { installed = i; nonempty = refl; linked = tt; canonical = tt }) s;
}

-- From every body of every event type: an outcome that is returned without an error and is not
-- skipped names an installation and holds some entity; each review's pull request is among the
-- work items; each work item has a canonical event type of its type, or none if it is the pull
-- request of a review of the outcome; and it has a status of its type, where the status of a commit
-- is "observed".
pub normalize-IsWellFormed :
    {Bytes : Type 0} (codec : Codec Bytes) (raw : RawEvent Bytes) (r : Outcome)
    → normalize codec raw ≡ ok r
    → r.skip ≡ false
    → IsWellFormed r
normalize-IsWellFormed codec raw =
    normalize-Ensures codec IsWellFormed (handlers-IsWellFormed codec.to_lower) raw
