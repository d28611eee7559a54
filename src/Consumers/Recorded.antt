-- ===== src/Consumers/Recorded.antt =====
-- Writing down the calls of a service changes nothing else in its loop.
use dev_intel_platform.Base.{◌≡◌, refl, Bool, true, false, List, [], ◌∷◌}
use dev_intel_platform.Backoff.{backoff}
use dev_intel_platform.Kafka.{Message}
use dev_intel_platform.Consumers.{
  Fetched, message, broken, cancelled, Verdict, settled, retry, Service, Loop, next_attempt,
  committed, put_off, waited_for, handled, run,
}
use dev_intel_platform.Consumers.Calls.{Call, recorded}

module _ {Bytes S : Type 0} (service : Service Bytes S) where
  -- A loop whose service writes down its calls.
  abbrev pub Recording : Type 0
  Recording = Loop Bytes (S × List (Call Bytes))

  -- The loop without what was written down.
  abbrev pub plain : Recording → Loop Bytes S
  plain l = record { attempt = l.attempt; state = l.state.0; commits = l.commits }

  waited_for-plain :
      (rest : Recording → Recording) (rest' : Loop Bytes S → Loop Bytes S) (x : Bool × S)
      (calls : List (Call Bytes)) (l : Recording)
      → ((l' : Recording) → plain (rest l') ≡ rest' (plain l'))
      → plain (waited_for rest (x.0, (x.1, calls)) l) ≡ waited_for rest' x (plain l)
  unfolding waited_for
  waited_for-plain rest rest' (true, s) calls l g = g _
  waited_for-plain rest rest' (false, s) calls l g = refl

  handled-plain :
      (rest : Recording → Recording) (rest' : Loop Bytes S → Loop Bytes S) (m : Message Bytes)
      (x : Verdict × S) (calls : List (Call Bytes)) (l : Recording)
      → ((l' : Recording) → plain (rest l') ≡ rest' (plain l'))
      → plain (handled (recorded service) rest m (x.0, (x.1, calls)) l)
        ≡ handled service rest' m x (plain l)
  unfolding handled committed put_off
  handled-plain rest rest' m (settled, s) calls l g = g _
  handled-plain rest rest' m (retry, s) calls l g =
      let d = backoff (next_attempt l.attempt) in
      waited_for-plain rest rest' (service.sleep d s) _ _ g

  pub run-plain :
      (fs : List (Fetched Bytes)) (l : Recording)
      → plain (run (recorded service) fs l) ≡ run service fs (plain l)
  unfolding run
  run-plain [] l = refl
  run-plain (message m ∷ fs) l =
      handled-plain (run (recorded service) fs) (run service fs) m (service.handle m l.state.0) _ l
        (run-plain fs)
  run-plain (broken ∷ fs) l = run-plain fs l
  run-plain (cancelled ∷ fs) l = refl
