-- ===== src/Normalizer/Redelivery.antt =====
-- The delivery mark: a delivery that was processed is marked, a marked one changes nothing.
use dev_intel_platform.Base.{
  eq_refl, ℕ, String, ◌≡◌, ◌≢◌, refl, ◌∙◌, ap, Bool, true, false, ◌&&◌, arith, ◌==◌, eq_iff,
  if◌then◌else◌,
}
use dev_intel_platform.Base.Int.{ℤ}
use dev_intel_platform.Connector.{Outcome, RawEvent}
use dev_intel_platform.Database.{Db, DeliveryRow, find, insert_unless, insert_absent, same_delivery}
use dev_intel_platform.Database.Rows.{is_some, found_inserted}
use dev_intel_platform.Tenancy.{Result, ok, duplicate, World, Action, pure, raise, scoped}
use dev_intel_platform.Tenancy.Keeps.{Change, Keeps, Keeps-if, Keeps-raise}
use dev_intel_platform.Tenancy.Steps.{>>=-ok, Ran, scoped-ok}
use dev_intel_platform.Normalizer.{Library, Span, mark_delivery, persist, deliver}
use dev_intel_platform.Normalizer.Keeps.{StatementsStay, persist-Keeps, deliver-Keeps}
use dev_intel_platform.Normalizer.Tables.{
  upsert_work_item, ensure_work_item, insert_review, upsert_check_run, find_contributor,
  insert_contributor, insert_link, mark_row, outbox_row,
}

abbrev pub is_delivery : String → String → DeliveryRow → Bool
is_delivery tenant delivery_id r = tenant == r.tenant_id && delivery_id == r.delivery_id

-- The delivery of the tenant is recorded in processed_delivery.
unfoldable pub marked : {Bytes : Type 0} → String → String → Db Bytes → Bool
marked tenant delivery_id db = is_some (find (is_delivery tenant delivery_id) db.deliveries)

-- The marks and the installations stay.
abbrev pub same_marks : (Bytes : Type 0) → Change Bytes
same_marks Bytes = record {
  rel = λ a b. (b.deliveries ≡ a.deliveries) × (b.installations ≡ a.installations);
  same = λ d. (refl, refl);
  trans = λ a b c p q. (q.0 ∙ p.0, q.1 ∙ p.1);
}

statements-same_marks :
    {Bytes : Type 0} (tenant : String) → StatementsStay (same_marks Bytes) tenant
unfolding upsert_work_item ensure_work_item insert_review upsert_check_run find_contributor
    insert_contributor insert_link outbox_row
statements-same_marks tenant = record {
  upsert_item = λ wi id now db. (refl, refl);
  ensure_item = λ wi id now db. (refl, refl);
  review = λ wid rid rv id now db. (refl, refl);
  check_run = λ cr id now db. (refl, refl);
  find_link = λ hash id now db. (refl, refl);
  contributor = λ login id now db. (refl, refl);
  link = λ cid hash id now db. (refl, refl);
  outbox = λ event_id topic key trace_id traceparent payload id now db. (refl, refl);
}

mark_row-marked :
    {Bytes : Type 0} (tenant delivery_id event_type : String) (id : ℕ) (now : ℤ) (db : Db Bytes)
    → marked tenant delivery_id (mark_row tenant delivery_id event_type id now db).1 ≡ true
unfolding marked mark_row same_delivery
mark_row-marked tenant delivery_id event_type id now db =
    found_inserted (is_delivery tenant delivery_id) _ (rw (eq_refl tenant, eq_refl delivery_id))
      db.deliveries

-- The mark is fresh exactly where there was none.
mark_row-fresh :
    {Bytes : Type 0} (tenant delivery_id event_type : String) (id : ℕ) (now : ℤ) (db : Db Bytes)
    → marked tenant delivery_id db ≡ true
    → (mark_row tenant delivery_id event_type id now db).0 ≡ false
unfolding marked mark_row same_delivery insert_absent insert_unless
mark_row-fresh tenant delivery_id event_type id now db h = ground arith

-- The mark is read from the table of deliveries.
marked_at :
    {Bytes : Type 0} (tenant delivery_id : String) (a b : Db Bytes)
    → a.deliveries ≡ b.deliveries
    → marked tenant delivery_id b ≡ true
    → marked tenant delivery_id a ≡ true
unfolding marked
marked_at tenant delivery_id a b e h = rw e h

module _ {Bytes : Type 0} (lib : Library Bytes) (span : Span) (tenant : String)
    (raw : RawEvent Bytes) (res : Outcome) (identified : raw.delivery_id ≢ "") where
  abbrev pub mark : Action Bytes Bool
  mark = mark_delivery lib span tenant tenant raw.delivery_id raw.event_type

  rest : Bool → Action Bytes Unit
  rest is_new = if is_new then persist lib span tenant tenant res else raise duplicate

  Ran-unless :
      (b : Bool) (w : World Bytes) (is_new : Bool)
      → b ≡ false
      → let m =
          if b
          then pure true
          else scoped tenant tenant (mark_row tenant raw.delivery_id raw.event_type) in
        (m w).0 ≡ ok is_new
        → Ran (mark_row tenant raw.delivery_id raw.event_type) w.db is_new (m w).1.db
  Ran-unless true w is_new e h = cc
  Ran-unless false w is_new e h = scoped-ok _ tenant tenant w is_new h

  pub mark-ok :
      (w : World Bytes) (is_new : Bool)
      → (mark w).0 ≡ ok is_new
      → Ran (mark_row tenant raw.delivery_id raw.event_type) w.db is_new (mark w).1.db
  unfolding mark_delivery
  mark-ok w is_new h =
      Ran-unless (raw.delivery_id == "") w is_new (ground (arith, eq_iff raw.delivery_id "")) h

  rest-ok : (v : Bool) (w : World Bytes) → (rest v w).0 ≡ ok tt → v ≡ true
  unfolding rest raise
  rest-ok true w h = refl
  rest-ok false w h = absurd (ground arith)

  rest-Keeps : (v : Bool) → Keeps (same_marks Bytes) (rest v)
  unfolding rest
  rest-Keeps v =
      Keeps-if (same_marks Bytes) v _ _
        (persist-Keeps lib span tenant tenant (same_marks Bytes) (statements-same_marks tenant) res)
        (Keeps-raise (same_marks Bytes) duplicate)

  -- A delivery that is marked does not succeed.
  pub deliver-marked :
      (w : World Bytes)
      → marked tenant raw.delivery_id w.db ≡ true
      → (deliver lib span tenant tenant raw res w).0 ≢ ok tt
  unfolding deliver rest
  deliver-marked w m h =
      let b = >>=-ok mark rest w tt h in
      let r = mark-ok w b.value b.first in
      cc (
        r.answer,
        rest-ok b.value (mark w).1 b.second,
        mark_row-fresh tenant raw.delivery_id raw.event_type r.fresh r.now w.db m,
      )

  -- A delivery that succeeds is marked, and leaves the installations.
  pub deliver-marks :
      (w : World Bytes)
      → (deliver lib span tenant tenant raw res w).0 ≡ ok tt
      → marked tenant raw.delivery_id (deliver lib span tenant tenant raw res w).1.db ≡ true
  unfolding deliver rest
  deliver-marks w h =
      let b = >>=-ok mark rest w tt h in
      let r = mark-ok w b.value b.first in
      let after = (rest-Keeps b.value).at (mark w).1 in
      let at_mark = mark_row-marked tenant raw.delivery_id raw.event_type r.fresh r.now w.db in
      marked_at tenant raw.delivery_id _ _
        (ap (λ (t : Result (Unit {0}) × World Bytes). t.1.db.deliveries) b.whole
          ∙ after.0
          ∙ ap (λ (d : Db Bytes). d.deliveries) r.left)
        at_mark

-- A delivery leaves the installations.
abbrev same_installations : (Bytes : Type 0) → Change Bytes
same_installations Bytes = record {
  rel = λ a b. b.installations ≡ a.installations;
  same = λ d. refl;
  trans = λ a b c p q. q ∙ p;
}

statements-same_installations :
    {Bytes : Type 0} (tenant : String) → StatementsStay (same_installations Bytes) tenant
unfolding upsert_work_item ensure_work_item insert_review upsert_check_run find_contributor
    insert_contributor insert_link outbox_row
statements-same_installations tenant = record {
  upsert_item = λ wi id now db. refl;
  ensure_item = λ wi id now db. refl;
  review = λ wid rid rv id now db. refl;
  check_run = λ cr id now db. refl;
  find_link = λ hash id now db. refl;
  contributor = λ login id now db. refl;
  link = λ cid hash id now db. refl;
  outbox = λ event_id topic key trace_id traceparent payload id now db. refl;
}

pub deliver-installations :
    {Bytes : Type 0} (lib : Library Bytes) (span : Span) (tenant : String) (raw : RawEvent Bytes)
    (res : Outcome) (w : World Bytes)
    → (deliver lib span tenant tenant raw res w).1.db.installations ≡ w.db.installations
unfolding mark_row
deliver-installations {Bytes} lib span tenant raw res w =
    (deliver-Keeps lib span tenant tenant (same_installations Bytes)
        (statements-same_installations tenant) raw res (λ id now db. refl)).at
      w
