-- ===== src/Consumers.antt =====
-- The consumer loop of the services, in the main functions of services/normalizer/main.go,
-- services/connector-github/main.go and services/archiver/main.go: fetch a message, handle it, and
-- commit it, or wait and go on to what the reader fetches next.
--
-- What the reader fetches is a list, and `run` goes through it. A commit that fails is only logged.
pub mod Accounted
pub mod Calls
pub mod Kept
pub mod Recorded
use dev_intel_platform.Base.{Bool, true, false, List, [], ◌∷◌}
use dev_intel_platform.Base.Int.{ℤ, pos, ◌+ℤ◌, wrap64}
use dev_intel_platform.Backoff.{backoff}
use dev_intel_platform.Kafka.{Message}

-- `reader.Fetch`: a message, an error, or the end of the context.
pub data Fetched (Bytes : Type 0) : Type 0 where
  message : Message Bytes → Fetched Bytes
  broken : Fetched Bytes
  cancelled : Fetched Bytes

-- What handling a message came to: it may be committed, or it has to be tried again.
pub data Verdict : Type 0 where
  settled retry : Verdict

-- What the loop calls: how a message is handled; the timer, which says whether the context was still
-- there; and `reader.Commit`, whose error is only logged.
pub record Service (Bytes S : Type 0) : Type 0 where
  pub handle : Message Bytes → S → Verdict × S
  pub sleep : ℤ → S → Bool × S
  pub commit : Message Bytes → S → S

-- The loop's variable, the service's state, and what was committed so far, with the newest first.
pub record Loop (Bytes S : Type 0) : Type 0 where
  pub attempt : ℤ
  pub state : S
  pub commits : List (Message Bytes)

abbrev pub new_loop : {Bytes S : Type 0} → S → Loop Bytes S
new_loop s = record { attempt = pos 0; state = s; commits = [] }

-- Go's `attempt++`.
unfoldable pub next_attempt : ℤ → ℤ
next_attempt n = wrap64 (n +ℤ pos 1)

module _ {Bytes S : Type 0} where
  unfoldable pub put_off : S → Loop Bytes S → Loop Bytes S
  unfolding next_attempt
  put_off s l = record { attempt = next_attempt l.attempt; state = s; commits = l.commits }

  -- Wait before the rest of the loop, or return where the context ended meanwhile.
  unfoldable pub waited_for : (Loop Bytes S → Loop Bytes S) → Bool × S → Loop Bytes S → Loop Bytes S
  waited_for rest (true, s) l = rest (record l { state = s })
  waited_for rest (false, s) l = record l { state = s }

module _ {Bytes S : Type 0} (service : Service Bytes S) where
  unfoldable pub committed : Message Bytes → S → Loop Bytes S → Loop Bytes S
  committed m s l = record { attempt = pos 0; state = service.commit m s; commits = m ∷ l.commits }

  unfoldable pub handled :
      (Loop Bytes S → Loop Bytes S) → Message Bytes → Verdict × S → Loop Bytes S → Loop Bytes S
  unfolding committed put_off waited_for
  handled rest m (settled, s) l = rest (committed m s l)
  handled rest m (retry, s) l =
      let l' = put_off s l in waited_for rest (service.sleep (backoff l'.attempt) s) l'

  unfoldable pub run : List (Fetched Bytes) → Loop Bytes S → Loop Bytes S
  unfolding handled
  run [] l = l
  run (message m ∷ fs) l = handled (run fs) m (service.handle m l.state) l
  run (broken ∷ fs) l = run fs l
  run (cancelled ∷ fs) l = l
