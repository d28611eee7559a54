-- ===== src/Normalizer/Tables.antt =====
-- The SQL statements of services/normalizer/main.go, as functions on the tables: each takes a fresh
-- identifier, the clock of `now()`, and the tables.
use dev_intel_platform.Base.{
  ℕ, String, Bool, ◌||◌, ◌&&◌, [], ◌∷◌, ◌++◌, Option, none, some, ◌==◌, if◌then◌else◌,
}
use dev_intel_platform.Base.Int.{ℤ}
use dev_intel_platform.Connector.{WorkItem, Review, CheckRun}
use dev_intel_platform.Database.{
  Db, DeliveryRow, WorkItemRow, ReviewRow, CheckRunRow, IdentityLinkRow, OutboxRow, find,
  insert_absent, upsert, same_delivery, same_work_item, same_review, same_check_run, same_link,
}

abbrev github_login : String
github_login = "github_login"

-- strings.HasSuffix.
unfoldable pub has_suffix : String → String → Bool
has_suffix suffix String.[] = suffix == String.[]
has_suffix suffix (String.◌∷◌ c s) = suffix == String.◌∷◌ c s || has_suffix suffix s

unfoldable pub null_if_empty : String → Option String
null_if_empty s = if s == "" then none else some s

unfoldable pub work_item_row : String → WorkItem → ℕ → ℤ → WorkItemRow
work_item_row tenant wi id now = record {
  tenant_id = tenant;
  work_item_id = id;
  type = wi.type;
  repo = wi.repo;
  node_id = wi.node_id;
  number = wi.number;
  title = wi.title;
  status = wi.status;
  current_stage = wi.current_stage;
  author_login = wi.author_login;
  changed_files = wi.changed_files;
  additions = wi.additions;
  deletions = wi.deletions;
  created_at = wi.created_at;
  merged_at = wi.merged_at;
  closed_at = wi.closed_at;
  updated_at = now;
}

-- DO UPDATE SET of `upsertWorkItem`: the mutable columns take the new values.
unfoldable pub refresh_work_item : WorkItemRow → WorkItemRow → WorkItemRow
refresh_work_item new old = record old {
  title = new.title;
  status = new.status;
  current_stage = new.current_stage;
  changed_files = new.changed_files;
  additions = new.additions;
  deletions = new.deletions;
  merged_at = new.merged_at;
  closed_at = new.closed_at;
  updated_at = new.updated_at;
}

unfoldable pub review_row : String → ℕ → ℕ → Review → ℕ → ReviewRow
review_row tenant work_item_id reviewer_id rv id = record {
  tenant_id = tenant;
  review_id = id;
  work_item_id = work_item_id;
  reviewer_id = reviewer_id;
  source_id = rv.source_id;
  state = rv.state;
  comment_count = rv.comment_count;
  submitted_at = rv.submitted_at;
}

unfoldable pub refresh_review : ReviewRow → ReviewRow → ReviewRow
refresh_review new old = record old {
  state = new.state;
  comment_count = new.comment_count;
  submitted_at = new.submitted_at;
}

unfoldable pub check_run_row : String → CheckRun → ℕ → CheckRunRow
unfolding null_if_empty
check_run_row tenant cr id = record {
  tenant_id = tenant;
  check_run_id = id;
  source_id = cr.source_id;
  head_sha = cr.head_sha;
  name = cr.name;
  conclusion = null_if_empty cr.conclusion;
  started_at = cr.started_at;
  completed_at = cr.completed_at;
}

unfoldable pub refresh_check_run : CheckRunRow → CheckRunRow → CheckRunRow
refresh_check_run new old = record old {
  conclusion = new.conclusion;
  started_at = new.started_at;
  completed_at = new.completed_at;
}

-- The test of the SELECT on identity_link.
unfoldable pub is_link : String → String → IdentityLinkRow → Bool
is_link tenant hash row =
    tenant == row.tenant_id
    && github_login == row.identifier_kind
    && hash == row.identifier_value_hash

unfoldable pub link_row : String → ℕ → String → ℕ → IdentityLinkRow
link_row tenant contributor hash id = record {
  tenant_id = tenant;
  link_id = id;
  contributor_id = contributor;
  identifier_kind = github_login;
  identifier_value_hash = hash;
}

unfoldable pub contributor_of : Option IdentityLinkRow → Option ℕ
contributor_of none = none
contributor_of (some row) = some row.contributor_id

unfoldable pub outbox_entry :
    {Bytes : Type 0} → String → ℕ → String → String → String → String → Bytes → ℕ → OutboxRow Bytes
outbox_entry tenant event_id topic key trace_id traceparent payload id = record {
  outbox_id = id;
  tenant_id = tenant;
  event_id = event_id;
  topic = topic;
  kafka_key = key;
  trace_id = trace_id;
  traceparent = traceparent;
  payload = payload;
  published_at = none;
}

module _ {Bytes : Type 0} where
  unfoldable pub upsert_work_item : String → WorkItem → ℕ → ℤ → Db Bytes → ℕ × Db Bytes
  unfolding work_item_row refresh_work_item
  upsert_work_item tenant wi id now db =
      let new = work_item_row tenant wi id now in
      let (row, rows) = upsert (same_work_item new) (refresh_work_item new) new db.work_items in
      (row.work_item_id, record db { work_items = rows })

  -- DO UPDATE SET updated_at = work_item.updated_at changes no column.
  unfoldable pub ensure_work_item : String → WorkItem → ℕ → ℤ → Db Bytes → ℕ × Db Bytes
  unfolding work_item_row
  ensure_work_item tenant wi id now db =
      let new = work_item_row tenant wi id now in
      let (row, rows) = upsert (same_work_item new) (λ old. old) new db.work_items in
      (row.work_item_id, record db { work_items = rows })

  unfoldable pub insert_review : String → ℕ → ℕ → Review → ℕ → ℤ → Db Bytes → Unit {0} × Db Bytes
  unfolding review_row refresh_review
  insert_review tenant work_item_id reviewer_id rv id now db =
      let new = review_row tenant work_item_id reviewer_id rv id in
      (tt, record db { reviews = (upsert (same_review new) (refresh_review new) new db.reviews).1 })

  unfoldable pub upsert_check_run : String → CheckRun → ℕ → ℤ → Db Bytes → Unit {0} × Db Bytes
  unfolding check_run_row refresh_check_run
  upsert_check_run tenant cr id now db =
      let new = check_run_row tenant cr id in
      (
        tt,
        record db {
          check_runs = (upsert (same_check_run new) (refresh_check_run new) new db.check_runs).1;
        },
      )

  unfoldable pub find_contributor : String → String → ℕ → ℤ → Db Bytes → Option ℕ × Db Bytes
  unfolding is_link contributor_of
  find_contributor tenant hash id now db =
      (contributor_of (find (is_link tenant hash) db.identity_links), db)

  unfoldable pub insert_contributor : String → String → ℕ → ℤ → Db Bytes → ℕ × Db Bytes
  unfolding has_suffix
  insert_contributor tenant login id now db = (
    id,
    record db {
      contributors =
          db.contributors
          ++ record {
            tenant_id = tenant;
            contributor_id = id;
            display_name = login;
            is_bot = has_suffix "[bot]" login;
          }
            ∷ [];
    },
  )

  unfoldable pub insert_link : String → ℕ → String → ℕ → ℤ → Db Bytes → Bool × Db Bytes
  unfolding link_row
  insert_link tenant contributor hash id now db =
      let new = link_row tenant contributor hash id in
      let (inserted, rows) = insert_absent (same_link new) new db.identity_links in
      (inserted, record db { identity_links = rows })

  unfoldable pub mark_row : String → String → String → ℕ → ℤ → Db Bytes → Bool × Db Bytes
  mark_row tenant delivery_id event_type id now db =
      let new : DeliveryRow = record {
        tenant_id = tenant;
        delivery_id = delivery_id;
        event_type = event_type;
      } in
      let (inserted, rows) = insert_absent (same_delivery new) new db.deliveries in
      (inserted, record db { deliveries = rows })

  unfoldable pub outbox_row :
      String
      → ℕ
      → String
      → String
      → String
      → String
      → Bytes
      → ℕ
      → ℤ
      → Db Bytes
      → Unit {0} × Db Bytes
  unfolding outbox_entry
  outbox_row tenant event_id topic key trace_id traceparent payload id now db = (
    tt,
    record db {
      outbox =
          db.outbox ++ outbox_entry tenant event_id topic key trace_id traceparent payload id ∷ [];
    },
  )
