-- ===== src/Normalizer/Keeps.antt =====
-- What every statement of the normalizer keeps, the transaction keeps.
use dev_intel_platform.Base.{ℕ, String, true, Bool, List, [], ◌∷◌, Option, none, some, ◌==◌}
use dev_intel_platform.Base.Int.{ℤ}
use dev_intel_platform.Json.{Fields}
use dev_intel_platform.Events
use dev_intel_platform.Events.{
  EventType, CanonicalEvent, topic_canonical, check_completed, comment_added, review_submitted,
}
use dev_intel_platform.Connector.{WorkItem, Review, CheckRun, Comment, Outcome, RawEvent}
use dev_intel_platform.Tenancy.{transient, duplicate}
use dev_intel_platform.Tenancy.Keeps.{
  Change, Keeps, Stays, Keeps-pure, Keeps-raise, Keeps-if, Keeps-scoped, Keeps-bind, Keeps-then,
}
use dev_intel_platform.Normalizer.{
  Library, Span, NodeIds, node_id?, fresh_id, stage, reread, linked_or_winner, enqueue_outbox, emit,
  mark_delivery, link_contributor, resolve_contributor, write_item, emit_item, persist_items,
  persist_review, persist_reviews, persist_check_runs, persist_comments, persist, deliver,
}
use dev_intel_platform.Normalizer.Payloads.{
  work_item_payload, review_payload, check_run_payload, comment_payload,
}
use dev_intel_platform.Normalizer.Tables.{
  upsert_work_item, ensure_work_item, insert_review, upsert_check_run, find_contributor,
  insert_contributor, insert_link, mark_row, outbox_row,
}

-- Each statement of `persist`, under one tenant, changes the tables by `R` only.
pub record StatementsStay {Bytes : Type 0} (R : Change Bytes) (tenant : String) : Type 0 where
  pub upsert_item : (wi : WorkItem) → Stays R (upsert_work_item tenant wi)
  pub ensure_item : (wi : WorkItem) → Stays R (ensure_work_item tenant wi)
  pub review : (wid rid : ℕ) (rv : Review) → Stays R (insert_review tenant wid rid rv)
  pub check_run : (cr : CheckRun) → Stays R (upsert_check_run tenant cr)
  pub find_link : (hash : String) → Stays R (find_contributor tenant hash)
  pub contributor : (login : String) → Stays R (insert_contributor tenant login)
  pub link : (id : ℕ) (hash : String) → Stays R (insert_link tenant id hash)
  pub outbox :
      (event_id : ℕ) (topic key trace_id traceparent : String) (payload : Bytes)
      → Stays R (outbox_row tenant event_id topic key trace_id traceparent payload)

module _ {Bytes : Type 0} (lib : Library Bytes) (span : Span) (session tenant : String)
    (R : Change Bytes) (h : StatementsStay R tenant) where
  fresh_id-Keeps : Keeps R (fresh_id lib span session tenant)
  unfolding fresh_id
  fresh_id-Keeps = record { at = λ w. R.same w.db }

  stage-Keeps :
      (ev : CanonicalEvent) (payload : Option Bytes)
      → Keeps R (stage lib span session tenant ev payload)
  unfolding stage
  stage-Keeps ev none = Keeps-raise R transient
  stage-Keeps ev (some payload) =
      Keeps-scoped R session tenant _
        (h.outbox ev.event_id topic_canonical tenant span.trace_id span.traceparent payload)

  enqueue_outbox-Keeps : (ev : CanonicalEvent) → Keeps R (enqueue_outbox lib span session tenant ev)
  unfolding enqueue_outbox
  enqueue_outbox-Keeps ev = stage-Keeps ev (lib.marshal ev)

  emit-Keeps :
      (t : EventType) (source : String) (at : ℤ) (payload : Fields)
      → Keeps R (emit lib span session tenant t source at payload)
  unfolding emit
  emit-Keeps t source at payload =
      Keeps-bind R _ _ fresh_id-Keeps
        (λ id. enqueue_outbox-Keeps (Events.new id tenant t source at payload))

  reread-Keeps : (found : Option ℕ) → Keeps R (reread lib span session tenant found)
  unfolding reread
  reread-Keeps none = Keeps-raise R transient
  reread-Keeps (some winner) = Keeps-pure R winner

  linked_or_winner-Keeps :
      (id : ℕ) (hash : String) (linked : Bool)
      → Keeps R (linked_or_winner lib span session tenant id hash linked)
  unfolding linked_or_winner
  linked_or_winner-Keeps id hash linked =
      Keeps-if R linked _ _ (Keeps-pure R id)
        (Keeps-bind R _ _ (Keeps-scoped R session tenant _ (h.find_link hash)) reread-Keeps)

  link_contributor-Keeps :
      (login hash : String) (found : Option ℕ)
      → Keeps R (link_contributor lib span session tenant login hash found)
  unfolding link_contributor
  link_contributor-Keeps login hash (some id) = Keeps-pure R id
  link_contributor-Keeps login hash none =
      Keeps-bind R _ _ (Keeps-scoped R session tenant _ (h.contributor login)) λ id.
        Keeps-bind R _ _ (Keeps-scoped R session tenant _ (h.link id hash))
          (linked_or_winner-Keeps id hash)

  resolve_contributor-Keeps :
      (login : String) → Keeps R (resolve_contributor lib span session tenant login)
  unfolding resolve_contributor
  resolve_contributor-Keeps login =
      Keeps-bind R _ _ (Keeps-scoped R session tenant _ (h.find_link (lib.sha256_hex login)))
        (link_contributor-Keeps login (lib.sha256_hex login))

  write_item-Keeps : (wi : WorkItem) → Keeps R (write_item lib span session tenant wi)
  unfolding write_item
  write_item-Keeps wi =
      Keeps-if R (wi.event == "") _ _ (Keeps-scoped R session tenant _ (h.ensure_item wi))
        (Keeps-scoped R session tenant _ (h.upsert_item wi))

  emit_item-Keeps : (wi : WorkItem) → Keeps R (emit_item lib span session tenant wi)
  unfolding emit_item
  emit_item-Keeps wi =
      Keeps-if R (wi.event == "") _ _ (Keeps-pure R tt)
        (emit-Keeps wi.event wi.node_id wi.occurred_at (work_item_payload wi))

  persist_items-Keeps :
      (wis : List WorkItem) (ids : NodeIds)
      → Keeps R (persist_items lib span session tenant wis ids)
  unfolding persist_items
  persist_items-Keeps [] ids = Keeps-pure R ids
  persist_items-Keeps (wi ∷ wis) ids =
      Keeps-bind R _ _ (write_item-Keeps wi) λ id.
        Keeps-then R _ _ (emit_item-Keeps wi) (persist_items-Keeps wis ((wi.node_id, id) ∷ ids))

  persist_review-Keeps :
      (rv : Review) (found : Option ℕ) → Keeps R (persist_review lib span session tenant rv found)
  unfolding persist_review
  persist_review-Keeps rv none = Keeps-raise R _
  persist_review-Keeps rv (some wid) = Keeps-if R (rv.reviewer_login == "") _ _ (Keeps-pure R tt) (
      Keeps-bind R _ _ (resolve_contributor-Keeps rv.reviewer_login) λ rid.
        Keeps-then R _ _ (Keeps-scoped R session tenant _ (h.review wid rid rv))
          (emit-Keeps review_submitted rv.source_id rv.submitted_at (review_payload rv)))

  persist_reviews-Keeps :
      (rvs : List Review) (ids : NodeIds)
      → Keeps R (persist_reviews lib span session tenant rvs ids)
  unfolding persist_reviews
  persist_reviews-Keeps [] ids = Keeps-pure R tt
  persist_reviews-Keeps (rv ∷ rvs) ids =
      Keeps-then R _ _ (persist_review-Keeps rv (node_id? rv.pr_node_id ids))
        (persist_reviews-Keeps rvs ids)

  persist_check_runs-Keeps :
      (crs : List CheckRun) → Keeps R (persist_check_runs lib span session tenant crs)
  unfolding persist_check_runs
  persist_check_runs-Keeps [] = Keeps-pure R tt
  persist_check_runs-Keeps (cr ∷ crs) =
      Keeps-then R _ _ (Keeps-scoped R session tenant _ (h.check_run cr)) (
        Keeps-then R _ _ (emit-Keeps check_completed cr.source_id _ (check_run_payload cr))
          (persist_check_runs-Keeps crs))

  persist_comments-Keeps :
      (cms : List Comment) → Keeps R (persist_comments lib span session tenant cms)
  unfolding persist_comments
  persist_comments-Keeps [] = Keeps-pure R tt
  persist_comments-Keeps (cm ∷ cms) =
      Keeps-then R _ _ (emit-Keeps comment_added cm.source_id cm.created_at (comment_payload cm))
        (persist_comments-Keeps cms)

  pub persist-Keeps : (res : Outcome) → Keeps R (persist lib span session tenant res)
  unfolding persist
  persist-Keeps res = Keeps-bind R _ _ (persist_items-Keeps res.work_items []) λ ids.
      Keeps-then R _ _ (persist_reviews-Keeps res.reviews ids) (
        Keeps-then R _ _ (persist_check_runs-Keeps res.check_runs)
          (persist_comments-Keeps res.comments))

  pub mark_delivery-Keeps :
      (delivery_id event_type : String)
      → Stays R (mark_row tenant delivery_id event_type)
      → Keeps R (mark_delivery lib span session tenant delivery_id event_type)
  unfolding mark_delivery
  mark_delivery-Keeps delivery_id event_type m =
      Keeps-if R (delivery_id == "") _ _ (Keeps-pure R true) (Keeps-scoped R session tenant _ m)

  pub deliver-Keeps :
      (raw : RawEvent Bytes) (res : Outcome)
      → Stays R (mark_row tenant raw.delivery_id raw.event_type)
      → Keeps R (deliver lib span session tenant raw res)
  unfolding deliver
  deliver-Keeps raw res m =
      Keeps-bind R _ _ (mark_delivery-Keeps raw.delivery_id raw.event_type m)
        λ is_new. Keeps-if R is_new _ _ (persist-Keeps res) (Keeps-raise R duplicate)
