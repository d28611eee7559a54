-- ===== src/Normalizer/Complete.antt =====
-- With no call failing, the whole of a linked outcome is persisted, and its events are staged.
use dev_intel_platform.Base.{
  ℕ, String, ◌≡◌, sym, true, List, [], ◌∷◌, Option, none, some, ◌==◌, All, arith, Bool-cases, ◌||◌,
  inl, inr,
}
use dev_intel_platform.Events.{CanonicalEvent, review_submitted, comment_added, check_completed}
use dev_intel_platform.Connector.{WorkItem, Review, CheckRun, Comment, Outcome}
use dev_intel_platform.Database.Rows.{is_some}
use dev_intel_platform.Github.WellFormed.{has_node}
use dev_intel_platform.Tenancy.{World, scoped, ◌>>◌}
use dev_intel_platform.Tenancy.Runs.{Runs, Runs-pure, Runs-scoped}
use dev_intel_platform.Normalizer.{
  Library, Span, NodeIds, node_id?, emit, resolve_contributor, write_item, emit_item, persist_items,
  persist_review, persist_reviews, occurred, persist_check_runs, persist_comments, persist,
}
use dev_intel_platform.Normalizer.Payloads.{review_payload, check_run_payload, comment_payload}
use dev_intel_platform.Normalizer.Tables.{
  upsert_work_item, ensure_work_item, insert_review, upsert_check_run,
}
use dev_intel_platform.Normalizer.Staging.{
  item_events, review_events, check_run_events, comment_events, each, expected, Stages, Stages-bind,
  Stages-then, Stages-map, silent,
}
use dev_intel_platform.Normalizer.Persists.{Any, Runs-if, Stages-if, emit-Stages}
use dev_intel_platform.Normalizer.Contributors.{resolve_contributor-Runs}
use mathlib.Core.List.{append-nil}

-- The ids that are known afterwards: those of the work items, and those known before.
abbrev Knows : List WorkItem → NodeIds → NodeIds → Type 0
unfolding node_id?
Knows wis ids ids' =
    (k : String)
    → (has_node k wis || is_some (node_id? k ids)) ≡ true
    → is_some (node_id? k ids') ≡ true

Knows-step :
    (wi : WorkItem) (wis : List WorkItem) (id : ℕ) (ids ids' : NodeIds)
    → Knows wis ((wi.node_id, id) ∷ ids) ids'
    → Knows (wi ∷ wis) ids ids'
unfolding node_id? Knows
Knows-step wi wis id ids ids' h k g = elim (Bool-cases (wi.node_id == k)) [
  | inl e ↦ h k (rw e (ground arith))
  | inr e ↦ h k (ground arith)
]

module _ {Bytes : Type 0} (lib : Library Bytes) (span : Span) (tenant : String)
    (total : (ev : CanonicalEvent) → (payload : Bytes) × (lib.marshal ev ≡ some payload)) where
  write_item-Runs :
      (wi : WorkItem) (w : World Bytes)
      → w.calls ≡ []
      → Runs Any (write_item lib span tenant tenant wi) w []
  unfolding write_item ensure_work_item upsert_work_item
  write_item-Runs wi w q =
      let o = sym (append-nil w.db.outbox) in
      Runs-if (wi.event == "") (Runs-scoped Any w q (ensure_work_item tenant wi) tenant [] o tt)
        (Runs-scoped Any w q (upsert_work_item tenant wi) tenant [] o tt)

  emit_item-Stages :
      (wi : WorkItem) (w : World Bytes)
      → w.calls ≡ []
      → Stages lib tenant Any (emit_item lib span tenant tenant wi) w (item_events wi)
  unfolding emit_item item_events
  emit_item-Stages wi w q =
      Stages-if lib span tenant total (wi.event == "") (silent lib tenant (Runs-pure Any w q tt tt))
        (emit-Stages lib span tenant total wi.event wi.node_id wi.occurred_at _ w q)

  persist_items-Stages :
      (wis : List WorkItem) (ids : NodeIds) (w : World Bytes)
      → w.calls ≡ []
      → Stages lib tenant
          (λ ids' _. Knows wis ids ids')
          (persist_items lib span tenant tenant wis ids)
          w
          (each item_events wis)
  unfolding persist_items each Knows
  persist_items-Stages [] ids w q =
      silent lib tenant (Runs-pure (λ ids' _. Knows [] ids ids') w q ids (λ k h. h))
  persist_items-Stages (wi ∷ wis) ids w q =
      let x = write_item-Runs wi w q in
      let y = emit_item-Stages wi x.world x.quiet in
      let known = (wi.node_id, x.value) ∷ ids in
      let z = persist_items-Stages wis known y.run.world y.run.quiet in
      Stages-bind lib tenant (λ ids' _. Knows (wi ∷ wis) ids ids')
        (write_item lib span tenant tenant wi)
        (λ id.
          emit_item lib span tenant tenant wi
          >> persist_items lib span tenant tenant wis ((wi.node_id, id) ∷ ids))
        w (silent lib tenant x)
        (Stages-then lib tenant (λ ids' _. Knows (wi ∷ wis) ids ids')
          (emit_item lib span tenant tenant wi) (persist_items lib span tenant tenant wis known)
          x.world y
          (Stages-map lib tenant (λ ids' _. Knows (wi ∷ wis) ids ids')
            (λ ids' _. Knows-step wi wis x.value ids ids') z))

  persist_review-Stages :
      (rv : Review) (found : Option ℕ) (w : World Bytes)
      → w.calls ≡ []
      → is_some found ≡ true
      → Stages lib tenant Any (persist_review lib span tenant tenant rv found) w (review_events rv)
  unfolding persist_review review_events insert_review
  persist_review-Stages rv none w q h = absurd (ground arith)
  persist_review-Stages rv (some id) w q h =
      let x = resolve_contributor-Runs lib span tenant rv.reviewer_login w q in
      let y =
        Runs-scoped Any x.world x.quiet (insert_review tenant id x.value rv) tenant []
          (sym (append-nil x.world.db.outbox)) tt in
      let event =
        emit lib span tenant tenant review_submitted rv.source_id rv.submitted_at
          (review_payload rv) in
      Stages-if lib span tenant total (rv.reviewer_login == "")
        (silent lib tenant (Runs-pure Any w q tt tt))
        (Stages-bind lib tenant Any (resolve_contributor lib span tenant tenant rv.reviewer_login)
          (λ reviewer. scoped tenant tenant (insert_review tenant id reviewer rv) >> event) w
          (silent lib tenant x)
          (Stages-then lib tenant Any (scoped tenant tenant (insert_review tenant id x.value rv))
            event x.world (silent lib tenant y)
            (emit-Stages lib span tenant total review_submitted rv.source_id rv.submitted_at _
              y.world y.quiet)))

  persist_reviews-Stages :
      (rvs : List Review) (ids : NodeIds) (w : World Bytes)
      → w.calls ≡ []
      → All (λ rv. is_some (node_id? rv.pr_node_id ids) ≡ true) rvs
      → Stages lib tenant Any
          (persist_reviews lib span tenant tenant rvs ids)
          w
          (each review_events rvs)
  unfolding persist_reviews each
  persist_reviews-Stages [] ids w q h = silent lib tenant (Runs-pure Any w q tt tt)
  persist_reviews-Stages (rv ∷ rvs) ids w q h =
      let x = persist_review-Stages rv (node_id? rv.pr_node_id ids) w q h.0 in
      Stages-then lib tenant Any
        (persist_review lib span tenant tenant rv (node_id? rv.pr_node_id ids))
        (persist_reviews lib span tenant tenant rvs ids) w x
        (persist_reviews-Stages rvs ids x.run.world x.run.quiet h.1)

  persist_check_runs-Stages :
      (crs : List CheckRun) (w : World Bytes)
      → w.calls ≡ []
      → Stages lib tenant Any
          (persist_check_runs lib span tenant tenant crs)
          w
          (each check_run_events crs)
  unfolding persist_check_runs each check_run_events upsert_check_run
  persist_check_runs-Stages [] w q = silent lib tenant (Runs-pure Any w q tt tt)
  persist_check_runs-Stages (cr ∷ crs) w q =
      let x =
        Runs-scoped Any w q (upsert_check_run tenant cr) tenant [] (sym (append-nil w.db.outbox))
          tt in
      let at = occurred cr.completed_at cr.started_at in
      let y =
        emit-Stages lib span tenant total check_completed cr.source_id at (check_run_payload cr)
          x.world x.quiet in
      let event =
        emit lib span tenant tenant check_completed cr.source_id at (check_run_payload cr) in
      let rest = persist_check_runs lib span tenant tenant crs in
      Stages-then lib tenant Any (scoped tenant tenant (upsert_check_run tenant cr)) (event >> rest)
        w (silent lib tenant x)
        (Stages-then lib tenant Any event rest x.world y
          (persist_check_runs-Stages crs y.run.world y.run.quiet))

  persist_comments-Stages :
      (cms : List Comment) (w : World Bytes)
      → w.calls ≡ []
      → Stages lib tenant Any
          (persist_comments lib span tenant tenant cms)
          w
          (each comment_events cms)
  unfolding persist_comments each comment_events
  persist_comments-Stages [] w q = silent lib tenant (Runs-pure Any w q tt tt)
  persist_comments-Stages (cm ∷ cms) w q =
      let x =
        emit-Stages lib span tenant total comment_added cm.source_id cm.created_at
          (comment_payload cm) w q in
      Stages-then lib tenant Any
        (emit lib span tenant tenant comment_added cm.source_id cm.created_at (comment_payload cm))
        (persist_comments lib span tenant tenant cms) w x
        (persist_comments-Stages cms x.run.world x.run.quiet)

  known-All :
      (wis : List WorkItem) (rvs : List Review) (ids : NodeIds)
      → Knows wis [] ids
      → All (λ rv. has_node rv.pr_node_id wis ≡ true) rvs
      → All (λ rv. is_some (node_id? rv.pr_node_id ids) ≡ true) rvs
  unfolding node_id? Knows
  known-All wis [] ids h l = tt
  known-All wis (rv ∷ rvs) ids h l = (h rv.pr_node_id (rw l.0), known-All wis rvs ids h l.1)

  -- An outcome whose reviews are linked is persisted whole, and its events are staged.
  pub persist-Stages :
      (res : Outcome) (w : World Bytes)
      → w.calls ≡ []
      → All (λ rv. has_node rv.pr_node_id res.work_items ≡ true) res.reviews
      → Stages lib tenant Any (persist lib span tenant tenant res) w (expected res)
  unfolding persist expected
  persist-Stages res w q linked =
      let x = persist_items-Stages res.work_items [] w q in
      let y =
        persist_reviews-Stages res.reviews x.run.value x.run.world x.run.quiet
          (known-All res.work_items res.reviews x.run.value x.run.good linked) in
      let z = persist_check_runs-Stages res.check_runs y.run.world y.run.quiet in
      let u = persist_comments-Stages res.comments z.run.world z.run.quiet in
      let reviews = persist_reviews lib span tenant tenant res.reviews in
      let check_runs = persist_check_runs lib span tenant tenant res.check_runs in
      let comments = persist_comments lib span tenant tenant res.comments in
      Stages-bind lib tenant Any (persist_items lib span tenant tenant res.work_items [])
        (λ ids. reviews ids >> (check_runs >> comments)) w x
        (Stages-then lib tenant Any (reviews x.run.value) (check_runs >> comments) x.run.world y
          (Stages-then lib tenant Any check_runs comments y.run.world z u))
