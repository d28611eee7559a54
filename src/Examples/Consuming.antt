-- ===== src/Examples/Consuming.antt =====
-- The consumer loops at concrete inputs.
use dev_intel_platform.Base.{
  ◌≡◌, refl, subst, false, true, Bool, String, List, [], ◌∷◌, All, arith, ◌==◌, if◌then◌else◌,
}
use dev_intel_platform.Base.Int.{ℤ}
use dev_intel_platform.Json.{Json, str}
use dev_intel_platform.Events.{header_git_hub_event, header_git_hub_deliv}
use dev_intel_platform.Kafka.{Headers, Message, get, to_record, from_record}
use dev_intel_platform.Kafka.Wire.{equal_key, from_record-to_record}
use dev_intel_platform.Tenancy.{done, refused}
use dev_intel_platform.Consumers.{Loop, Fetched, message, broken, new_loop, run}
use dev_intel_platform.Consumers.Accounted.{IsAccounted, run-IsAccounted}
use dev_intel_platform.Archiver
use dev_intel_platform.Archiver.Consuming.{archiver}
use dev_intel_platform.Archiver.Consuming.Stored.{IsStored, archiver-IsStored}
use dev_intel_platform.Normalizer.Consuming.Committed.{IsDone, normalizer-IsDone}
use dev_intel_platform.Normalizer.Consuming.{Station, normalizer}
use dev_intel_platform.Examples.{plain_codec, plain_library, span_1, review_message, start_world}

-- A body that is no object.
abbrev bad_message : Message Json
bad_message = record { key = "d-2"; value = str "?"; headers = (header_git_hub_event, "push") ∷ [] }

abbrev station : Station Json
station = record { world = start_world; parked = []; writes = refused ∷ done ∷ [] }

abbrev sleep : ℤ → Station Json → Bool × Station Json
sleep wait s = (true, s)

-- The bad message fails once and is fetched again.
abbrev fetches : List (Fetched Json)
fetches = message bad_message ∷ broken ∷ message bad_message ∷ message review_message ∷ []

run-IsAccounted_example : IsAccounted (normalizer plain_library (λ m. span_1) sleep) fetches station
run-IsAccounted_example =
    run-IsAccounted (normalizer plain_library (λ m. span_1) sleep) fetches station (ground arith)

abbrev archive_state : Archiver.State Json
archive_state = record { world = start_world; objects = [] }

abbrev archive_sleep : ℤ → Archiver.State Json → Bool × Archiver.State Json
archive_sleep wait s = (true, s)

abbrev archive_loop : List (Fetched Json)
archive_loop = message review_message ∷ message bad_message ∷ []

archiver-IsStored_example :
    All
      (λ m.
        IsStored plain_codec
          (λ s. "2024-05-01")
          archive_sleep
          (λ d s. refl)
          m
          (run
            (archiver plain_codec (λ s. "2024-05-01") archive_sleep)
            archive_loop
            (new_loop archive_state)).state)
      (run
        (archiver plain_codec (λ s. "2024-05-01") archive_sleep)
        archive_loop
        (new_loop archive_state)).commits
archiver-IsStored_example =
    archiver-IsStored plain_codec (λ s. "2024-05-01") archive_sleep (λ d s. refl) archive_loop
      archive_state

abbrev normalizer_run : Loop Json (Station Json)
normalizer_run = run (normalizer plain_library (λ m. span_1) sleep) fetches (new_loop station)

normalizer-IsDone_example :
    All (λ m. IsDone plain_library (λ m'. span_1) m normalizer_run.state) normalizer_run.commits
normalizer-IsDone_example =
    normalizer-IsDone plain_library (λ m. span_1) sleep (λ d s. (refl, refl)) fetches station

-- The headers in another order than they were put in.
abbrev visited : Headers
visited = (header_git_hub_deliv, "d-1") ∷ (header_git_hub_event, "pull_request_review") ∷ []

swapped :
    (a b : Bool) (x y z : String)
    → (a ≡ true → b ≡ false)
    → (if b then y else if a then x else z) ≡ (if a then x else if b then y else z)
swapped true true x y z h = absurd (ground (arith, h refl))
swapped true false x y z h = refl
swapped false true x y z h = refl
swapped false false x y z h = refl

two_headers : (k : String) → get k visited ≡ get k review_message.headers
unfolding get
two_headers k =
    swapped (header_git_hub_event == k) (header_git_hub_deliv == k) "pull_request_review" "d-1" ""
      (λ e.
        subst (λ i. (header_git_hub_deliv == i) ≡ false) (equal_key header_git_hub_event k e) refl)

from_record-to_record_example :
    let f = from_record (to_record review_message.key review_message.value visited) in
    (f.key ≡ review_message.key)
    × (f.value ≡ review_message.value)
    × ((k : String) → get k f.headers ≡ get k review_message.headers)
from_record-to_record_example =
    from_record-to_record review_message visited
      (record { once = (refl, (refl, tt)); same = two_headers })
