-- ===== src/Github/Entities.antt =====
-- The builders of libs/go/connector/github/github.go: from a decoded payload to the entities that
-- the normalizer persists.
use Prim.Native.Char.{code}
use dev_intel_platform.Base.{String, [], Option, none, some, ◌==◌, eqb, if◌then◌else◌, ◌||◌}
use dev_intel_platform.Base.Int.{ℤ, pos, eqb_ℤ}
use dev_intel_platform.Base.Text.{concat, show_int}
use dev_intel_platform.Events.{
  EventType, work_item_created, work_item_updated, work_item_state_changed, commit_observed,
}
use dev_intel_platform.Connector.{WorkItem, Review, CheckRun, Comment}
use dev_intel_platform.Github.Payload.{
  PullRequest, PrEnrichment, PrPayload, ReviewPayload, ReviewCommentPayload, IssueCommentPayload,
  IssuePayload, PushCommit, CheckRunPayload, StatusPayload,
}

-- The text before the first line feed, or all of it.
unfoldable pub first_line : String → String
first_line String.[] = String.[]
first_line (String.◌∷◌ c s) = if eqb (code c) 10 then String.[] else String.◌∷◌ c (first_line s)

unfoldable pub work_item_event : String → EventType
work_item_event action =
    if action == "opened"
    then work_item_created
    else if action == "closed"
        || action == "reopened"
        || action == "ready_for_review"
        || action == "converted_to_draft"
    then work_item_state_changed
    else work_item_updated

-- The time of the merge, else of the close, else of the creation.
unfoldable pub occurred_at : Option ℤ → Option ℤ → ℤ → ℤ
occurred_at (some merged) closed created = merged
occurred_at none (some closed) created = closed
occurred_at none none created = created

unfoldable pub work_item_occurred_at : WorkItem → ℤ
unfolding occurred_at
work_item_occurred_at wi = occurred_at wi.merged_at wi.closed_at wi.created_at

unfoldable pub pr_status_and_stage : PullRequest → String × String
pr_status_and_stage pr =
    if pr.merged
    then ("merged", "merged")
    else if pr.state == "closed"
    then ("closed", "closed")
    else ("open", "open")

unfoldable pub pr_work_item : PullRequest → String → WorkItem
unfolding pr_status_and_stage
pr_work_item pr repo =
    let (status, stage) = pr_status_and_stage pr in
    record {
      type = "pr";
      repo = repo;
      node_id = pr.node_id;
      number = pr.number;
      title = pr.title;
      status = status;
      current_stage = stage;
      author_login = pr.user;
      changed_files = pr.changed_files;
      additions = pr.additions;
      deletions = pr.deletions;
      created_at = pr.created_at;
      merged_at = pr.merged_at;
      closed_at = pr.closed_at;
      event = "";
      occurred_at = pos 0;
      commit_oids = [];
      files = [];
    }

abbrev pub get_or : Option ℤ → ℤ → ℤ
get_or none d = d
get_or (some n) d = n

unfoldable pub apply_enrichment : WorkItem → Option PrEnrichment → WorkItem
apply_enrichment wi none = wi
apply_enrichment wi (some enr) = record wi {
  changed_files = get_or enr.changed_files wi.changed_files;
  additions = get_or enr.additions wi.additions;
  deletions = get_or enr.deletions wi.deletions;
  commit_oids = enr.commit_oids;
  files = enr.files;
}

-- The nested pull request, where the number of the payload stands in for an absent one.
unfoldable pub numbered : PrPayload → PullRequest
numbered p =
    let pr = p.pull_request in
    record pr { number = if eqb_ℤ pr.number (pos 0) then p.number else pr.number }

-- The work item of `normalizePullRequest`.
unfoldable pub pull_request_item : PrPayload → WorkItem
unfolding numbered pr_work_item apply_enrichment work_item_event work_item_occurred_at
pull_request_item p =
    let wi = apply_enrichment (pr_work_item (numbered p) p.repository) p.enrichment in
    record wi { event = work_item_event p.action; occurred_at = work_item_occurred_at wi }

unfoldable pub review_of : (String → String) → ReviewPayload → Review
review_of to_lower p = record {
  source_id = p.node_id;
  repo = p.repository;
  pr_node_id = p.pull_request.node_id;
  reviewer_login = p.user;
  state = to_lower p.state;
  comment_count = pos 0;
  submitted_at = p.submitted_at;
}

unfoldable pub review_comment_of : ReviewCommentPayload → Comment
review_comment_of p = record {
  source_id = p.comment.node_id;
  repo = p.repository;
  parent_type = "pr";
  parent_number = p.pr_number;
  author_login = p.comment.user;
  body = p.comment.body;
  created_at = p.comment.created_at;
}

unfoldable pub issue_comment_of : IssueCommentPayload → Comment
issue_comment_of p = record {
  source_id = p.comment.node_id;
  repo = p.repository;
  parent_type = elim p.pull_request [ none ↦ "issue" | some _ ↦ "pr" ];
  parent_number = p.issue_number;
  author_login = p.comment.user;
  body = p.comment.body;
  created_at = p.comment.created_at;
}

unfoldable pub issue_item : IssuePayload → WorkItem
unfolding work_item_event occurred_at
issue_item p =
    let status : String = if p.state == "closed" then "closed" else "open" in
    record {
      type = "issue";
      repo = p.repository;
      node_id = p.node_id;
      number = p.number;
      title = p.title;
      status = status;
      current_stage = status;
      author_login = p.user;
      changed_files = pos 0;
      additions = pos 0;
      deletions = pos 0;
      created_at = p.created_at;
      merged_at = none;
      closed_at = p.closed_at;
      event = work_item_event p.action;
      occurred_at = occurred_at none p.closed_at p.created_at;
      commit_oids = [];
      files = [];
    }

unfoldable pub commit_item : String → PushCommit → WorkItem
unfolding first_line
commit_item repo c = record {
  type = "commit";
  repo = repo;
  node_id = c.id;
  number = pos 0;
  title = first_line c.message;
  status = "observed";
  current_stage = "";
  author_login = c.author_username;
  changed_files = pos 0;
  additions = pos 0;
  deletions = pos 0;
  created_at = c.timestamp;
  merged_at = none;
  closed_at = none;
  event = commit_observed;
  occurred_at = c.timestamp;
  commit_oids = [];
  files = [];
}

unfoldable pub check_run_of : CheckRunPayload → CheckRun
check_run_of p = record {
  source_id = p.node_id;
  repo = p.repository;
  head_sha = p.head_sha;
  name = p.name;
  conclusion = p.conclusion;
  started_at = p.started_at;
  completed_at = p.completed_at;
}

unfoldable pub status_conclusion : String → String
status_conclusion state =
    if state == "success"
    then "success"
    else if state == "failure" || state == "error"
    then "failure"
    else state

unfoldable pub status_check_of : StatusPayload → CheckRun
unfolding status_conclusion
status_check_of p = record {
  source_id = concat "status:" (show_int p.id);
  repo = p.repository;
  head_sha = p.sha;
  name = p.context;
  conclusion = status_conclusion p.state;
  started_at = none;
  completed_at = p.updated_at;
}
