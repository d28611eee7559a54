-- ===== src/Consumers/Kept.antt =====
-- What holds of a message once it is settled, and is kept, holds of every committed message.
use dev_intel_platform.Base.{◌≡◌, refl, Bool, true, false, List, [], ◌∷◌, All}
use dev_intel_platform.Base.Int.{ℤ}
use dev_intel_platform.Backoff.{backoff}
use dev_intel_platform.Kafka.{Message}
use dev_intel_platform.Consumers.{
  Fetched, message, broken, cancelled, Verdict, settled, retry, Service, Loop, new_loop, committed,
  put_off, waited_for, handled, run,
}

-- A property of a message and the state that settling establishes, and nothing destroys.
pub record IsKept {Bytes S : Type 0} (service : Service Bytes S) (Q : Message Bytes → S → Type 0)
    : Type 0 where
  pub gained :
      (m : Message Bytes) (s : S) → (service.handle m s).0 ≡ settled → Q m (service.handle m s).1
  pub handled : (m m' : Message Bytes) (s : S) → Q m s → Q m (service.handle m' s).1
  pub committed : (m m' : Message Bytes) (s : S) → Q m s → Q m (service.commit m' s)
  pub slept : (m : Message Bytes) (d : ℤ) (s : S) → Q m s → Q m (service.sleep d s).1

module _ {Bytes S : Type 0} (service : Service Bytes S) (Q : Message Bytes → S → Type 0)
    (kept : IsKept service Q) where
  all_kept :
      {s t : S}
      → ((m : Message Bytes) → Q m s → Q m t)
      → (ms : List (Message Bytes)) → All (λ m. Q m s) ms
      → All (λ m. Q m t) ms
  all_kept f [] h = tt
  all_kept f (m ∷ ms) h = (f m h.0, all_kept f ms h.1)

  abbrev AllKept : Loop Bytes S → Type 0
  AllKept l = All (λ m. Q m l.state) l.commits

  waited_for-kept :
      (rest : Loop Bytes S → Loop Bytes S) (x : Bool × S) (l : Loop Bytes S)
      → ((l' : Loop Bytes S) → AllKept l' → AllKept (rest l'))
      → All (λ m. Q m x.1) l.commits
      → AllKept (waited_for rest x l)
  unfolding waited_for
  waited_for-kept rest (true, s) l g h = g (record l { state = s }) h
  waited_for-kept rest (false, s) l g h = h

  handled-kept :
      (rest : Loop Bytes S → Loop Bytes S) (m : Message Bytes) (x : Verdict × S) (l : Loop Bytes S)
      → ((l' : Loop Bytes S) → AllKept l' → AllKept (rest l'))
      → (x.0 ≡ settled → Q m x.1)
      → All (λ m'. Q m' x.1) l.commits
      → AllKept (handled service rest m x l)
  unfolding handled
  handled-kept rest m (settled, s) l g q h =
      g (committed service m s l)
        (kept.committed m m s (q refl), all_kept (λ m'. kept.committed m' m s) l.commits h)
  handled-kept rest m (retry, s) l g q h =
      waited_for-kept rest (service.sleep (backoff (put_off s l).attempt) s) (put_off s l) g
        (all_kept (λ m'. kept.slept m' _ s) l.commits h)

  run-kept : (fs : List (Fetched Bytes)) (l : Loop Bytes S) → AllKept l → AllKept (run service fs l)
  unfolding run
  run-kept [] l h = h
  run-kept (message m ∷ fs) l h =
      handled-kept (run service fs) m (service.handle m l.state) l (run-kept fs)
        (kept.gained m l.state) (all_kept (λ m'. kept.handled m' m l.state) l.commits h)
  run-kept (broken ∷ fs) l h = run-kept fs l h
  run-kept (cancelled ∷ fs) l h = h

  -- In whatever state a run ends, the property holds of each message that it has committed.
  pub run-AllKept :
      (fs : List (Fetched Bytes)) (s : S)
      → All (λ m. Q m (run service fs (new_loop s)).state) (run service fs (new_loop s)).commits
  run-AllKept fs s = run-kept fs (new_loop s) tt
