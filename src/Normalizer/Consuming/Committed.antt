-- ===== src/Normalizer/Consuming/Committed.antt =====
-- What the normalizer has committed has landed in the tables, or in the dead-letter topic.
use mathlib.Core.List.{append_assoc}
use dev_intel_platform.Base.{
  String, ◌≡◌, refl, sym, ◌∙◌, ap, subst, Bool, List, [], ◌∷◌, ◌++◌, All, ◌⊎◌, inl, inr, arith,
}
use dev_intel_platform.Base.Int.{ℤ}
use dev_intel_platform.Kafka.{Message}
use dev_intel_platform.Tenancy.{Call, done, refused, lost, permanent, Result, ok, err, World}
use dev_intel_platform.Consumers.{Fetched, settled, new_loop, run}
use dev_intel_platform.Consumers.Kept.{IsKept, run-AllKept}
use dev_intel_platform.Normalizer.{Library, Span, process, dead_letter}
use dev_intel_platform.Normalizer.Landed.{Landed, grows, process-grows, Landed-grows}
use dev_intel_platform.Normalizer.Landed.Processed.{process-Landed}
use dev_intel_platform.Normalizer.Consuming.{Station, next_write, park, judged, normalizer}

module _ {Bytes : Type 0} where
  -- A message that is among others.
  abbrev pub Among : Message Bytes → List (Message Bytes) → Type 0
  Among m ms = (before after : List (Message Bytes)) × (ms ≡ before ++ m ∷ after)

  Among-append :
      (m x : Message Bytes) (ms : List (Message Bytes)) → Among m ms → Among m (ms ++ x ∷ [])
  Among-append m x ms (before, after, e) = (
    before,
    after ++ x ∷ [],
    ap (λ xs. xs ++ x ∷ []) e ∙ append_assoc before (m ∷ after) (x ∷ []),
  )

  -- The parts of a station after a write.
  park-world :
      (dead : Message Bytes) (c : Call × List Call) (s : Station Bytes)
      → (park dead c s).1.world ≡ s.world
  unfolding park
  park-world dead (done, cs) s = refl
  park-world dead (refused, cs) s = refl
  park-world dead (lost, cs) s = refl

  park-Among :
      (m dead : Message Bytes) (c : Call × List Call) (s : Station Bytes)
      → Among m s.parked
      → Among m (park dead c s).1.parked
  unfolding park
  park-Among m dead (done, cs) s h = Among-append m dead s.parked h
  park-Among m dead (refused, cs) s h = h
  park-Among m dead (lost, cs) s h = Among-append m dead s.parked h

  park-settled :
      (dead : Message Bytes) (c : Call × List Call) (s : Station Bytes)
      → (park dead c s).0 ≡ settled
      → Among dead (park dead c s).1.parked
  unfolding park
  park-settled dead (done, cs) s h = (s.parked, [], refl)
  park-settled dead (refused, cs) s h = absurd (ground arith)
  park-settled dead (lost, cs) s h = absurd (ground arith)

  judged-world :
      (msg : Message Bytes) (s : Station Bytes) (r : Result (Unit {0})) (w : World Bytes)
      → (judged msg s (r, w)).1.world ≡ w
  unfolding judged
  judged-world msg s (ok _) w = refl
  judged-world msg s (err (permanent cause)) w =
      park-world (dead_letter msg cause) (next_write s.writes) (record s { world = w })
  judged-world msg s (err e) w = refl

  judged-Among :
      (m msg : Message Bytes) (s : Station Bytes) (r : Result (Unit {0})) (w : World Bytes)
      → Among m s.parked
      → Among m (judged msg s (r, w)).1.parked
  unfolding judged
  judged-Among m msg s (ok _) w h = h
  judged-Among m msg s (err (permanent cause)) w h =
      park-Among m (dead_letter msg cause) (next_write s.writes) (record s { world = w }) h
  judged-Among m msg s (err e) w h = h

module _ {Bytes : Type 0} (lib : Library Bytes) (span : Message Bytes → Span) where
  -- The message has landed, or a dead letter of it is on the dead-letter topic.
  abbrev pub IsDone : Message Bytes → Station Bytes → Type 0
  IsDone m s =
      Landed lib (span m) m s.world.db ⊎ ((cause : String) × Among (dead_letter m cause) s.parked)

  judged-IsDone :
      (m : Message Bytes) (s : Station Bytes) (r : Result (Unit {0})) (w : World Bytes)
      → (r ≡ ok tt → Landed lib (span m) m w.db)
      → (judged m s (r, w)).0 ≡ settled
      → IsDone m (judged m s (r, w)).1
  unfolding judged
  judged-IsDone m s (ok _) w h e = inl (h refl)
  judged-IsDone m s (err (permanent cause)) w h e =
      inr
        (cause, park-settled (dead_letter m cause) (next_write s.writes) (record s { world = w }) e)
  judged-IsDone m s (err f) w h e = absurd (ground arith)

  judged-keeps :
      (m msg : Message Bytes) (s : Station Bytes) (r : Result (Unit {0})) (w : World Bytes)
      → (grows Bytes).rel s.world.db w.db
      → IsDone m s
      → IsDone m (judged msg s (r, w)).1
  judged-keeps m msg s r w g (inl h) = inl (
      subst (λ (v : World Bytes). Landed lib (span m) m v.db) (sym (judged-world msg s r w))
        (Landed-grows lib (span m) m s.world.db w.db g h))
  judged-keeps m msg s r w g (inr (cause, h)) =
      inr (cause, judged-Among (dead_letter m cause) msg s r w h)

  module _ (sleep : ℤ → Station Bytes → Bool × Station Bytes)
      (timer : (d : ℤ) (s : Station Bytes)
        → ((sleep d s).1.world.db ≡ s.world.db) × ((sleep d s).1.parked ≡ s.parked)) where
    slept-IsDone :
        (m : Message Bytes) (d : ℤ) (s : Station Bytes) → IsDone m s → IsDone m (sleep d s).1
    slept-IsDone m d s (inl h) = inl (subst (Landed lib (span m) m) (sym (timer d s).0) h)
    slept-IsDone m d s (inr (cause, h)) =
        inr (cause, subst (Among (dead_letter m cause)) (sym (timer d s).1) h)

    normalizer-IsKept : IsKept (normalizer lib span sleep) IsDone
    unfolding normalizer
    normalizer-IsKept = record {
      gained = λ m s e.
          let x = process lib (span m) m s.world in
          judged-IsDone m s x.0 x.1 (process-Landed lib (span m) m s.world) e;
      handled = λ m m' s h.
          let x = process lib (span m') m' s.world in
          judged-keeps m m' s x.0 x.1 (process-grows lib (span m') m' s.world) h;
      committed = λ m m' s q. unfold normalizer in q;
      slept = slept-IsDone;
    }

    -- In whatever state the normalizer's loop is, whichever calls failed on the way, each message that
    -- it has committed has no delivery id, has nothing to write, is of an installation without a
    -- tenant, has its delivery marked for the tenant of its installation, or has a dead letter on the
    -- dead-letter topic; waiting changes neither the tables nor that topic.
    pub normalizer-IsDone :
        (fs : List (Fetched Bytes)) (s : Station Bytes)
        → let l = run (normalizer lib span sleep) fs (new_loop s) in
          All (λ m. IsDone m l.state) l.commits
    normalizer-IsDone fs s = run-AllKept (normalizer lib span sleep) IsDone normalizer-IsKept fs s
