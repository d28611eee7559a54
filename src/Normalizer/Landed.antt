-- ===== src/Normalizer/Landed.antt =====
-- What a message that needs no more work has come to, and that it stays so.
pub mod Processed
use dev_intel_platform.Base.{
  String, ◌≡◌, ◌≢◌, refl, sym, ◌∙◌, ap, subst, Bool, true, false, ◌||◌, arith, ◌==◌, eq_iff,
  if◌then◌else◌, List, [], ◌∷◌, ◌++◌, Option, none, some, inl, inr, Bool-cases,
}
use dev_intel_platform.Connector.{Outcome, RawEvent, empty}
use dev_intel_platform.Database.{Db, find, insert_unless, insert_absent}
use dev_intel_platform.Database.Rows.{is_some}
use dev_intel_platform.Github.{Normalized, normalize}
use dev_intel_platform.Kafka.{Message}
use dev_intel_platform.Tenancy.{
  Result, ok, err, duplicate, unknown_installation, World, Action, lookup_tenant, resolve_tenant,
}
use dev_intel_platform.Tenancy.Avoids.{reports_duplicate}
use dev_intel_platform.Tenancy.Repeated.{Repeated, with_tenant-Repeated}
use dev_intel_platform.Tenancy.Steps.{db-resolve_tenant, resolve_tenant-ok, resolve_tenant-unknown}
use dev_intel_platform.Tenancy.Atomic.{Attempt, all, Succeeded, with_tenant-Attempt}
use dev_intel_platform.Tenancy.Keeps.{Change, Stays}
use dev_intel_platform.Normalizer.{
  Library, Span, deliver, settle_delivery, deliver_to, settle_tenant, process_normalized, raw_event,
  process,
}
use dev_intel_platform.Normalizer.Keeps.{StatementsStay, deliver-Keeps}
use dev_intel_platform.Normalizer.Process.{delivery, attempt, process-rel}
use dev_intel_platform.Normalizer.Redelivery.{
  is_delivery, marked, deliver-marks, deliver-installations,
}
use dev_intel_platform.Normalizer.Repeats.{deliver-repeats}
use dev_intel_platform.Normalizer.Once.{delivery_id, lookup_tenant-same}
use dev_intel_platform.Normalizer.Tables.{
  upsert_work_item, ensure_work_item, insert_review, upsert_check_run, find_contributor,
  insert_contributor, insert_link, mark_row, outbox_row,
}

-- A message that needs no more work: it has no delivery id, its outcome has nothing to write, its
-- installation belongs to no tenant, or its delivery is marked for the tenant of its installation.
pub data Landed {Bytes : Type 0} (lib : Library Bytes) (span : Span) (msg : Message Bytes)
    (db : Db Bytes) : Type 0 where
  anonymous : delivery_id msg ≡ "" → Landed lib span msg db
  skipped :
      (res : Outcome)
      → normalize lib.codec (raw_event lib span msg) ≡ Normalized.ok res
      → (res.skip || empty res) ≡ true
      → Landed lib span msg db
  unowned :
      (res : Outcome)
      → normalize lib.codec (raw_event lib span msg) ≡ Normalized.ok res
      → lookup_tenant res.installation_id db ≡ err unknown_installation
      → Landed lib span msg db
  delivered :
      (res : Outcome) (tenant : String)
      → normalize lib.codec (raw_event lib span msg) ≡ Normalized.ok res
      → lookup_tenant res.installation_id db ≡ ok tenant
      → marked tenant (delivery_id msg) db ≡ true
      → Landed lib span msg db

-- The marks grow, and the installations stay.
abbrev pub grows : (Bytes : Type 0) → Change Bytes
grows Bytes = record {
  rel = λ a b.
      (b.installations ≡ a.installations)
      × ((t d : String) → marked t d a ≡ true → marked t d b ≡ true);
  same = λ d. (refl, λ t i h. h);
  trans = λ a b c p q. (q.0 ∙ p.0, λ t i h. q.1 t i (p.1 t i h));
}

statements-grow : {Bytes : Type 0} (tenant : String) → StatementsStay (grows Bytes) tenant
unfolding upsert_work_item ensure_work_item insert_review upsert_check_run find_contributor
    insert_contributor insert_link outbox_row marked
statements-grow tenant = record {
  upsert_item = λ wi id now db. (refl, λ t d h. h);
  ensure_item = λ wi id now db. (refl, λ t d h. h);
  review = λ wid rid rv id now db. (refl, λ t d h. h);
  check_run = λ cr id now db. (refl, λ t d h. h);
  find_link = λ hash id now db. (refl, λ t d h. h);
  contributor = λ login id now db. (refl, λ t d h. h);
  link = λ cid hash id now db. (refl, λ t d h. h);
  outbox = λ event_id topic key trace_id traceparent payload id now db. (refl, λ t d h. h);
}

module _ {R : Type 0} (p : R → Bool) (new : R) where
  found-append :
      (rs : List R) → is_some (find p rs) ≡ true → is_some (find p (rs ++ new ∷ [])) ≡ true
  unfolding find
  found-append [] h = absurd (ground arith)
  found-append (r ∷ rs) h = elim (Bool-cases (p r)) [
    | inl e ↦ rw e
    | inr e ↦ rw e (found-append rs (rw e at h))
  ]

  found-insert_unless :
      (o : Option R) (rs : List R)
      → is_some (find p rs) ≡ true
      → is_some (find p (insert_unless o new rs).1) ≡ true
  unfolding insert_unless
  found-insert_unless none rs h = found-append rs h
  found-insert_unless (some r) rs h = h

mark_row-grows :
    {Bytes : Type 0} (tenant delivery_id event_type : String)
    → Stays (grows Bytes) (mark_row tenant delivery_id event_type)
unfolding mark_row marked insert_absent
mark_row-grows tenant delivery_id event_type id now db =
    (refl, λ t d h. found-insert_unless (is_delivery t d) _ _ db.deliveries h)

pub process-grows :
    {Bytes : Type 0} (lib : Library Bytes) (span : Span) (msg : Message Bytes) (w : World Bytes)
    → (grows Bytes).rel w.db (process lib span msg w).1.db
process-grows {Bytes} lib span msg w = process-rel lib span (grows Bytes) msg w (λ res tenant n f.
    deliver-Keeps lib span tenant tenant (grows Bytes) (statements-grow tenant)
      (raw_event lib span msg) res
      (mark_row-grows tenant (raw_event lib span msg).delivery_id
        (raw_event lib span msg).event_type))

pub Landed-grows :
    {Bytes : Type 0} (lib : Library Bytes) (span : Span) (msg : Message Bytes) (a b : Db Bytes)
    → (grows Bytes).rel a b
    → Landed lib span msg a
    → Landed lib span msg b
Landed-grows lib span msg a b g (anonymous e) = anonymous e
Landed-grows lib span msg a b g (skipped res n e) = skipped res n e
Landed-grows lib span msg a b g (unowned res n e) =
    unowned res n (lookup_tenant-same res.installation_id b a g.0 ∙ e)
Landed-grows lib span msg a b g (delivered res tenant n e m) =
    delivered res tenant n (lookup_tenant-same res.installation_id b a g.0 ∙ e)
      (g.1 tenant (delivery_id msg) m)
