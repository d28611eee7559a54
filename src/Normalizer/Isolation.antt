-- ===== src/Normalizer/Isolation.antt =====
-- A delivery of one tenant leaves the rows of every other tenant alone.
pub mod Rows
use dev_intel_platform.Base.{
  ℕ, ap, String, ◌≡◌, ◌≢◌, refl, sym, ◌∙◌, true, false, List, arith, ◌==◌, eq_iff,
}
use dev_intel_platform.Connector.{Review, CheckRun, Outcome, WorkItem}
use dev_intel_platform.Database.{
  Db, DeliveryRow, WorkItemRow, ReviewRow, CheckRunRow, ContributorRow, IdentityLinkRow, OutboxRow,
  same_work_item, same_review, same_check_run, same_link,
}
use dev_intel_platform.Database.Rows.{keep, keep-append, keep-insert_absent, keep-upsert}
use dev_intel_platform.Github.{Normalized, normalize}
use dev_intel_platform.Tenancy.{ok, World, lookup_tenant}
use dev_intel_platform.Tenancy.Keeps.{Change, Stays}
use dev_intel_platform.Kafka.{Message}
use dev_intel_platform.Normalizer.{Library, Span, raw_event, process}
use dev_intel_platform.Normalizer.Keeps.{StatementsStay, deliver-Keeps}
use dev_intel_platform.Normalizer.Process.{process-rel}
use dev_intel_platform.Normalizer.Tables.{
  upsert_work_item, ensure_work_item, insert_review, upsert_check_run, find_contributor,
  insert_contributor, insert_link, mark_row, outbox_row, work_item_row, refresh_work_item,
  review_row, refresh_review, check_run_row, refresh_check_run, link_row,
}
use Rows.{
  SameRows, SameRows-refl, isolated, only_deliveries, only_work_items, only_reviews,
  only_check_runs, only_contributors, only_identity_links, only_outbox,
}

-- Text equality as a test, both ways.
other : (t tenant : String) → t ≢ tenant → (tenant == t) ≡ false
other t tenant h = ground (arith, eq_iff tenant t)

-- A row with the key of a row of `tenant` is not a row of `t`.
same_work_item-tenant :
    (t : String) (new r : WorkItemRow)
    → t ≢ new.tenant_id
    → same_work_item new r ≡ true
    → (r.tenant_id == t) ≡ false
unfolding same_work_item
same_work_item-tenant t new r h s =
    ground (arith, eq_iff new.tenant_id r.tenant_id, eq_iff r.tenant_id t)

same_review-tenant :
    (t : String) (new r : ReviewRow)
    → t ≢ new.tenant_id
    → same_review new r ≡ true
    → (r.tenant_id == t) ≡ false
unfolding same_review
same_review-tenant t new r h s =
    ground (arith, eq_iff new.tenant_id r.tenant_id, eq_iff r.tenant_id t)

same_check_run-tenant :
    (t : String) (new r : CheckRunRow)
    → t ≢ new.tenant_id
    → same_check_run new r ≡ true
    → (r.tenant_id == t) ≡ false
unfolding same_check_run
same_check_run-tenant t new r h s =
    ground (arith, eq_iff new.tenant_id r.tenant_id, eq_iff r.tenant_id t)

module _ {Bytes : Type 0} (t tenant : String) (h : t ≢ tenant) where
  upsert_item-isolated : (wi : WorkItem) → Stays (isolated Bytes t) (upsert_work_item tenant wi)
  unfolding upsert_work_item
  upsert_item-isolated wi id now db =
      let new = work_item_row tenant wi id now in
      only_work_items t db _ (
        keep-upsert (λ r. r.tenant_id == t) (same_work_item new) (refresh_work_item new) new
          db.work_items (other t tenant h)
          (λ r s. let e = same_work_item-tenant t new r h s in (e, e)))

  ensure_item-isolated : (wi : WorkItem) → Stays (isolated Bytes t) (ensure_work_item tenant wi)
  unfolding ensure_work_item
  ensure_item-isolated wi id now db =
      let new = work_item_row tenant wi id now in
      only_work_items t db _ (
        keep-upsert (λ r. r.tenant_id == t) (same_work_item new) (λ old. old) new db.work_items
          (other t tenant h) (λ r s. let e = same_work_item-tenant t new r h s in (e, e)))

  review-isolated :
      (wid rid : ℕ) (rv : Review) → Stays (isolated Bytes t) (insert_review tenant wid rid rv)
  unfolding insert_review
  review-isolated wid rid rv id now db =
      let new = review_row tenant wid rid rv id in
      only_reviews t db _ (
        keep-upsert (λ r. r.tenant_id == t) (same_review new) (refresh_review new) new db.reviews
          (other t tenant h) (λ r s. let e = same_review-tenant t new r h s in (e, e)))

  check_run-isolated : (cr : CheckRun) → Stays (isolated Bytes t) (upsert_check_run tenant cr)
  unfolding upsert_check_run
  check_run-isolated cr id now db =
      let new = check_run_row tenant cr id in
      only_check_runs t db _ (
        keep-upsert (λ r. r.tenant_id == t) (same_check_run new) (refresh_check_run new) new
          db.check_runs (other t tenant h)
          (λ r s. let e = same_check_run-tenant t new r h s in (e, e)))

  link-isolated : (cid : ℕ) (hash : String) → Stays (isolated Bytes t) (insert_link tenant cid hash)
  unfolding insert_link
  link-isolated cid hash id now db =
      let new = link_row tenant cid hash id in
      only_identity_links t db _ (
        keep-insert_absent (λ r. r.tenant_id == t) (same_link new) new db.identity_links
          (other t tenant h))

  contributor-isolated :
      (login : String) → Stays (isolated Bytes t) (insert_contributor tenant login)
  unfolding insert_contributor
  contributor-isolated login id now db =
      only_contributors t db _
        (keep-append (λ r. r.tenant_id == t) _ db.contributors (other t tenant h))

  outbox-isolated :
      (event_id : ℕ) (topic key trace_id traceparent : String) (payload : Bytes)
      → Stays (isolated Bytes t) (outbox_row tenant event_id topic key trace_id traceparent payload)
  unfolding outbox_row
  outbox-isolated event_id topic key trace_id traceparent payload id now db =
      only_outbox t db _ (keep-append (λ r. r.tenant_id == t) _ db.outbox (other t tenant h))

  mark-isolated :
      (delivery_id event_type : String)
      → Stays (isolated Bytes t) (mark_row tenant delivery_id event_type)
  unfolding mark_row
  mark-isolated delivery_id event_type id now db =
      only_deliveries t db _
        (keep-insert_absent (λ r. r.tenant_id == t) _ _ db.deliveries (other t tenant h))

  statements-isolated : StatementsStay (isolated Bytes t) tenant
  unfolding find_contributor
  statements-isolated = record {
    upsert_item = upsert_item-isolated;
    ensure_item = ensure_item-isolated;
    review = review-isolated;
    check_run = check_run-isolated;
    find_link = λ hash id now db. SameRows-refl t db;
    contributor = contributor-isolated;
    link = link-isolated;
    outbox = outbox-isolated;
  }

-- Processing a message, whichever of its calls fail, leaves the rows of a tenant `t` as they were
-- in every table with row-level security, if the installation that the message names, where it
-- names one, is not of `t`.
pub process-isolated :
    {Bytes : Type 0} (lib : Library Bytes) (span : Span) (msg : Message Bytes) (w : World Bytes)
    (t : String)
    → ((res : Outcome)
        → normalize lib.codec (raw_event lib span msg) ≡ Normalized.ok res
        → lookup_tenant res.installation_id w.db ≢ ok t)
    → SameRows t w.db (process lib span msg w).1.db
process-isolated {Bytes} lib span msg w t h =
    let raw = raw_event lib span msg in
    process-rel lib span (isolated Bytes t) msg w (λ res tenant n found.
      let ne : t ≢ tenant = λ e. h res n (found ∙ ap (λ (s : String). ok s) (sym e)) in
      deliver-Keeps lib span tenant tenant (isolated Bytes t) (statements-isolated t tenant ne) raw
        res (mark-isolated t tenant ne raw.delivery_id raw.event_type))
