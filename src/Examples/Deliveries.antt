-- ===== src/Examples/Deliveries.antt =====
-- The deliveries of the normalizer at one message.
use dev_intel_platform.Base.{
  ◌≡◌, ◌≢◌, ◌⊎◌, refl, sym, ◌∙◌, ap, Bool, true, false, List, [], ◌∷◌, String, some,
}
use dev_intel_platform.Json.{Json}
use dev_intel_platform.Events.{CanonicalEvent}
use dev_intel_platform.Connector.{Outcome, empty}
use dev_intel_platform.Database.{
  Db, find, insert_absent, upsert, same_link, same_work_item, same_delivery, same_review,
}
use dev_intel_platform.Github.{Normalized, skipped, normalize, normalize_review}
use dev_intel_platform.Github.Decode.Pulls.{decode_review_payload}
use dev_intel_platform.Github.Entities.{pr_work_item, review_of}
use dev_intel_platform.Github.WellFormed.{IsWellFormed, normalize-IsWellFormed}
use dev_intel_platform.Kafka.{get}
use dev_intel_platform.Tenancy.{
  World, Action, ok, scoped, lookup_tenant, resolve_tenant, with_tenant,
}
use dev_intel_platform.Tenancy.Atomic.{Attempt, with_tenant-Attempt}
use dev_intel_platform.Normalizer.{process, raw_event}
use dev_intel_platform.Normalizer.Tables.{
  mark_row, find_contributor, ensure_work_item, insert_link, insert_contributor, outbox_row,
  insert_review,
}
use dev_intel_platform.Normalizer.Once.{Effect, delivery_id, process-Effect, process_once}
use dev_intel_platform.Normalizer.Redelivery.{marked}
use dev_intel_platform.Normalizer.Settled.{Settled, process-Settled}
use dev_intel_platform.Normalizer.Isolation.{process-isolated}
use dev_intel_platform.Normalizer.Isolation.Rows.{SameRows}
use dev_intel_platform.Examples.{
  plain_codec, plain_library, span_1, span_2, review_message, start_db, start_world,
}

abbrev processed : World Json
processed = (process plain_library span_1 review_message start_world).1

abbrev is_cons {ℓ} : {A : Type ℓ} → List A → Bool
is_cons [] = false
is_cons (x ∷ xs) = true

processed-staged : is_cons processed.db.outbox ≡ true
unfolding process normalize get normalize_review decode_review_payload resolve_tenant with_tenant
    lookup_tenant scoped empty find insert_absent upsert same_link same_work_item same_delivery
    same_review mark_row pr_work_item review_of find_contributor ensure_work_item insert_link
    insert_contributor outbox_row insert_review
processed-staged = refl

false≢true : false ≢ true
false≢true e = cc

-- The delivery has changed the tables.
changed : processed.db ≢ start_db
changed e = false≢true (sym (ap (λ (d : Db Json). is_cons d.outbox) e) ∙ processed-staged)

identified : delivery_id review_message ≢ ""
unfolding get
identified e = cc

process_once_example : (process plain_library span_2 review_message processed).1.db ≡ processed.db
process_once_example =
    process_once plain_library review_message identified span_1 span_2 start_world processed changed
      refl

process-Effect_example :
    (processed.db ≡ start_db)
    ⊎ Effect plain_library review_message identified span_1 start_db processed.db
process-Effect_example = process-Effect plain_library review_message identified span_1 start_world

abbrev outcome_of : Normalized → Outcome
unfolding skipped
outcome_of (Normalized.ok res) = res
outcome_of (Normalized.err e) = skipped

abbrev outcome : Outcome
outcome = outcome_of (normalize plain_codec (raw_event plain_library span_1 review_message))

outcome-normal :
    normalize plain_codec (raw_event plain_library span_1 review_message) ≡ Normalized.ok outcome
unfolding process normalize get normalize_review decode_review_payload
outcome-normal = refl

outcome-kept : outcome.skip ≡ false
unfolding process normalize get normalize_review decode_review_payload
outcome-kept = refl

outcome-owner : lookup_tenant outcome.installation_id start_db ≡ ok "acme"
unfolding process normalize get normalize_review decode_review_payload lookup_tenant find
outcome-owner = refl

normalize-IsWellFormed_example : IsWellFormed outcome
normalize-IsWellFormed_example =
    normalize-IsWellFormed plain_codec (raw_event plain_library span_1 review_message) outcome
      outcome-normal outcome-kept

-- The message names an installation of "acme", so not one of "globex".
elsewhere :
    (res : Outcome)
    → normalize plain_codec (raw_event plain_library span_1 review_message) ≡ Normalized.ok res
    → lookup_tenant res.installation_id start_db ≢ ok "globex"
unfolding outcome_of
elsewhere res e f =
    let same = ap outcome_of e in
    let g =
      sym outcome-owner ∙ ap (λ (o : Outcome). lookup_tenant o.installation_id start_db) same ∙ f in
    cc

process-isolated_example : SameRows "globex" start_db processed.db
process-isolated_example =
    process-isolated plain_library span_1 review_message start_world "globex" elsewhere

abbrev mark : String → Action Json Bool
mark session = scoped session "acme" (mark_row "acme" "d-2" "push")

with_tenant-Attempt_example :
    Attempt
      (mark "acme")
      start_db
      (with_tenant "acme" mark start_world).0
      (with_tenant "acme" mark start_world).1.db
with_tenant-Attempt_example = with_tenant-Attempt "acme" mark start_world

-- Every event is printed.
abbrev total : (ev : CanonicalEvent) → (payload : Json) × (plain_library.marshal ev ≡ some payload)
total ev = (_, refl)

unmarked : marked "acme" (delivery_id review_message) start_db ≡ false
unfolding marked find
unmarked = refl

process-Settled_example :
    Settled plain_library span_1 total review_message start_world outcome "acme"
process-Settled_example =
    process-Settled plain_library span_1 total review_message start_world outcome "acme" refl
      outcome-normal outcome-kept outcome-owner unmarked
