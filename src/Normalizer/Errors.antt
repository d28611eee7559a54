-- ===== src/Normalizer/Errors.antt =====
-- `persist` never reports a duplicate: only the mark of the delivery does.
use dev_intel_platform.Base.{refl, ℕ, String, true, Bool, List, [], ◌∷◌, Option, none, some, ◌==◌}
use dev_intel_platform.Base.Int.{ℤ}
use dev_intel_platform.Json.{Fields}
use dev_intel_platform.Events
use dev_intel_platform.Events.{
  EventType, CanonicalEvent, topic_canonical, check_completed, comment_added, review_submitted,
}
use dev_intel_platform.Connector.{WorkItem, Review, CheckRun, Comment, Outcome}
use dev_intel_platform.Tenancy.{transient}
use dev_intel_platform.Tenancy.Avoids.{
  Avoids, Avoids-pure, Avoids-raise, Avoids-if, Avoids-scoped, Avoids-bind, Avoids-then,
}
use dev_intel_platform.Normalizer.{
  Library, Span, NodeIds, node_id?, fresh_id, stage, reread, linked_or_winner, enqueue_outbox, emit,
  mark_delivery, link_contributor, resolve_contributor, write_item, emit_item, persist_items,
  persist_review, persist_reviews, persist_check_runs, persist_comments, persist,
}
use dev_intel_platform.Normalizer.Payloads.{
  work_item_payload, review_payload, check_run_payload, comment_payload,
}

module _ {Bytes : Type 0} (lib : Library Bytes) (span : Span) (session tenant : String) where
  fresh_id-Avoids : Avoids (fresh_id lib span session tenant)
  unfolding fresh_id
  fresh_id-Avoids = record { at = λ w. refl }

  stage-Avoids :
      (ev : CanonicalEvent) (payload : Option Bytes)
      → Avoids (stage lib span session tenant ev payload)
  unfolding stage
  stage-Avoids ev none = Avoids-raise transient refl
  stage-Avoids ev (some payload) = Avoids-scoped session tenant _

  enqueue_outbox-Avoids : (ev : CanonicalEvent) → Avoids (enqueue_outbox lib span session tenant ev)
  unfolding enqueue_outbox
  enqueue_outbox-Avoids ev = stage-Avoids ev (lib.marshal ev)

  emit-Avoids :
      (t : EventType) (source : String) (at : ℤ) (payload : Fields)
      → Avoids (emit lib span session tenant t source at payload)
  unfolding emit
  emit-Avoids t source at payload =
      Avoids-bind _ _ fresh_id-Avoids
        (λ id. enqueue_outbox-Avoids (Events.new id tenant t source at payload))

  reread-Avoids : (found : Option ℕ) → Avoids (reread lib span session tenant found)
  unfolding reread
  reread-Avoids none = Avoids-raise transient refl
  reread-Avoids (some winner) = Avoids-pure winner

  linked_or_winner-Avoids :
      (id : ℕ) (hash : String) (linked : Bool)
      → Avoids (linked_or_winner lib span session tenant id hash linked)
  unfolding linked_or_winner
  linked_or_winner-Avoids id hash linked =
      Avoids-if linked _ _ (Avoids-pure id)
        (Avoids-bind _ _ (Avoids-scoped session tenant _) reread-Avoids)

  link_contributor-Avoids :
      (login hash : String) (found : Option ℕ)
      → Avoids (link_contributor lib span session tenant login hash found)
  unfolding link_contributor
  link_contributor-Avoids login hash (some id) = Avoids-pure id
  link_contributor-Avoids login hash none =
      Avoids-bind _ _ (Avoids-scoped session tenant _)
        λ id. Avoids-bind _ _ (Avoids-scoped session tenant _) (linked_or_winner-Avoids id hash)

  resolve_contributor-Avoids :
      (login : String) → Avoids (resolve_contributor lib span session tenant login)
  unfolding resolve_contributor
  resolve_contributor-Avoids login =
      Avoids-bind _ _ (Avoids-scoped session tenant _)
        (link_contributor-Avoids login (lib.sha256_hex login))

  write_item-Avoids : (wi : WorkItem) → Avoids (write_item lib span session tenant wi)
  unfolding write_item
  write_item-Avoids wi =
      Avoids-if (wi.event == "") _ _ (Avoids-scoped session tenant _)
        (Avoids-scoped session tenant _)

  emit_item-Avoids : (wi : WorkItem) → Avoids (emit_item lib span session tenant wi)
  unfolding emit_item
  emit_item-Avoids wi =
      Avoids-if (wi.event == "") _ _ (Avoids-pure tt)
        (emit-Avoids wi.event wi.node_id wi.occurred_at (work_item_payload wi))

  persist_items-Avoids :
      (wis : List WorkItem) (ids : NodeIds) → Avoids (persist_items lib span session tenant wis ids)
  unfolding persist_items
  persist_items-Avoids [] ids = Avoids-pure ids
  persist_items-Avoids (wi ∷ wis) ids = Avoids-bind _ _ (write_item-Avoids wi) λ id.
      Avoids-then _ _ (emit_item-Avoids wi) (persist_items-Avoids wis ((wi.node_id, id) ∷ ids))

  persist_review-Avoids :
      (rv : Review) (found : Option ℕ) → Avoids (persist_review lib span session tenant rv found)
  unfolding persist_review
  persist_review-Avoids rv none = Avoids-raise _ refl
  persist_review-Avoids rv (some wid) = Avoids-if (rv.reviewer_login == "") _ _ (Avoids-pure tt) (
      Avoids-bind _ _ (resolve_contributor-Avoids rv.reviewer_login) λ rid.
        Avoids-then _ _ (Avoids-scoped session tenant _)
          (emit-Avoids review_submitted rv.source_id rv.submitted_at (review_payload rv)))

  persist_reviews-Avoids :
      (rvs : List Review) (ids : NodeIds) → Avoids (persist_reviews lib span session tenant rvs ids)
  unfolding persist_reviews
  persist_reviews-Avoids [] ids = Avoids-pure tt
  persist_reviews-Avoids (rv ∷ rvs) ids =
      Avoids-then _ _ (persist_review-Avoids rv (node_id? rv.pr_node_id ids))
        (persist_reviews-Avoids rvs ids)

  persist_check_runs-Avoids :
      (crs : List CheckRun) → Avoids (persist_check_runs lib span session tenant crs)
  unfolding persist_check_runs
  persist_check_runs-Avoids [] = Avoids-pure tt
  persist_check_runs-Avoids (cr ∷ crs) = Avoids-then _ _ (Avoids-scoped session tenant _) (
      Avoids-then _ _ (emit-Avoids check_completed cr.source_id _ (check_run_payload cr))
        (persist_check_runs-Avoids crs))

  persist_comments-Avoids :
      (cms : List Comment) → Avoids (persist_comments lib span session tenant cms)
  unfolding persist_comments
  persist_comments-Avoids [] = Avoids-pure tt
  persist_comments-Avoids (cm ∷ cms) =
      Avoids-then _ _ (emit-Avoids comment_added cm.source_id cm.created_at (comment_payload cm))
        (persist_comments-Avoids cms)

  pub persist-Avoids : (res : Outcome) → Avoids (persist lib span session tenant res)
  unfolding persist
  persist-Avoids res = Avoids-bind _ _ (persist_items-Avoids res.work_items []) λ ids.
      Avoids-then _ _ (persist_reviews-Avoids res.reviews ids) (
        Avoids-then _ _ (persist_check_runs-Avoids res.check_runs)
          (persist_comments-Avoids res.comments))

  pub mark_delivery-Avoids :
      (delivery_id event_type : String)
      → Avoids (mark_delivery lib span session tenant delivery_id event_type)
  unfolding mark_delivery
  mark_delivery-Avoids delivery_id event_type =
      Avoids-if (delivery_id == "") _ _ (Avoids-pure true) (Avoids-scoped session tenant _)
