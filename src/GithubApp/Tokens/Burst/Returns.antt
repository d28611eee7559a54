-- ===== src/GithubApp/Tokens/Burst/Returns.antt =====
-- Calls of a burst only go forward, and none is stuck before it has returned.
use dev_intel_platform.Base.{
  ℕ, ◌≤◌, ◌<◌, ◌≡◌, refl, sym, subst, true, List, [], ◌∷◌, Option, none, some, arith, All, suc, ◌⊎◌,
  inl, inr,
}
use dev_intel_platform.Base.Int.{ℤ}
use dev_intel_platform.GithubApp.Outside.{InstallationToken}
use dev_intel_platform.GithubApp.Tokens.Burst.{
  Pc, start, waiting, locked, minting, stored, done, failed, Burst, Action, tick, move, reply,
  at_start, unlock, current, looked, acquire, advance, replied, step, run,
}
use dev_intel_platform.GithubApp.Tokens.Burst.Kept.{critical, contradict}
use dev_intel_platform.GithubApp.Tokens.Burst.Holder.{AllHeld, run-AllHeld, nobody}
use dev_intel_platform.GithubApp.Tokens.Burst.Ranks.{rank, set_pc-here, step-falls}

-- A step after which a goroutine is nearer to its return.
abbrev pub Advances : Burst → ℕ → Type 0
Advances s k = (a : Action) × (rank ((step a s).pc k) < rank (s.pc k))

looked-lower :
    (s t : Burst) (i : ℕ) (next : Pc) (c : Option InstallationToken)
    → rank ((looked i c t next s).pc i) ≤ rank next
looked-lower s t i next none = rw (set_pc-here i next s.pc) (ground arith)
looked-lower s t i next (some u) = rw (set_pc-here i (done u) t.pc) (ground arith)

moves :
    (s : Burst) (i : ℕ) (p : Pc) → s.pc i ≡ p → rank ((advance i p s).pc i) < rank p → Advances s i
unfolding step
moves s i p e h = (move i, subst (λ q. rank ((advance i q s).pc i) < rank q) (sym e) h)

-- The holder of the lock can go on.
critical-Advances : (s : Burst) (k : ℕ) (p : Pc) → s.pc k ≡ p → critical p ≡ true → Advances s k
unfolding advance replied step
critical-Advances s k locked e h =
    moves s k locked e (ground (arith, looked-lower s (unlock s) k minting (current s.cache s.now)))
critical-Advances s k minting e h = (
  reply k none,
  subst (λ q. rank ((replied k none q s).pc k) < rank q) (sym e)
      (rw (set_pc-here k failed s.pc) (ground arith)),
)
critical-Advances s k (stored t) e h =
    moves s k (stored t) e (rw (set_pc-here k (done t) s.pc) (ground arith))
critical-Advances s k start e h = contradict refl h
critical-Advances s k waiting e h = contradict refl h
critical-Advances s k (done t) e h = contradict refl h
critical-Advances s k failed e h = contradict refl h

-- A call can go on by itself; or it waits for the lock, and the call that holds the lock has not
-- released it and can go on.
pub data GoesOn (s : Burst) (i : ℕ) : Type 0 where
  itself : Advances s i → GoesOn s i
  behind :
      (k : ℕ)
      → s.pc i ≡ waiting
      → s.holder ≡ some k
      → critical (s.pc k) ≡ true
      → Advances s k
      → GoesOn s i

waiting-GoesOn :
    (s : Burst) (i : ℕ) (o : Option ℕ) → s.pc i ≡ waiting → s.holder ≡ o → AllHeld s → GoesOn s i
unfolding advance
waiting-GoesOn s i none e f h = itself (
    moves s i waiting e (
      subst (λ o. rank ((acquire i o s).pc i) < 4) (sym f)
        (rw (set_pc-here i locked s.pc) (ground arith))))
waiting-GoesOn s i (some k) e f h =
    behind k e f (h k f) (critical-Advances s k (s.pc k) refl (h k f))

unfinished-GoesOn : (s : Burst) (i : ℕ) (p : Pc) → s.pc i ≡ p → 1 ≤ rank p → AllHeld s → GoesOn s i
unfolding advance
unfinished-GoesOn s i start e u h =
    itself (moves s i start e (ground (arith, looked-lower s s i waiting (current s.cache s.now))))
unfinished-GoesOn s i waiting e u h = waiting-GoesOn s i s.holder e refl h
unfinished-GoesOn s i locked e u h = itself (critical-Advances s i locked e refl)
unfinished-GoesOn s i minting e u h = itself (critical-Advances s i minting e refl)
unfinished-GoesOn s i (stored t) e u h = itself (critical-Advances s i (stored t) e refl)
unfinished-GoesOn s i (done t) e u h = absurd (ground arith)
unfinished-GoesOn s i failed e u h = absurd (ground arith)

-- The schedule that the holder of the lock needs to release it, where GitHub fails.
abbrev release : ℕ → Pc → List Action
release k locked = move k ∷ reply k none ∷ []
release k minting = reply k none ∷ []
release k _ = move k ∷ []

replied-unlocked :
    (s : Burst) (k : ℕ) (p : Pc)
    → (s.holder ≡ none) ⊎ (p ≡ minting)
    → (replied k none p s).holder ≡ none
unfolding replied
replied-unlocked s k start h = ground (arith, h)
replied-unlocked s k waiting h = ground (arith, h)
replied-unlocked s k locked h = ground (arith, h)
replied-unlocked s k minting h = refl
replied-unlocked s k (stored t) h = ground (arith, h)
replied-unlocked s k (done t) h = ground (arith, h)
replied-unlocked s k failed h = ground (arith, h)

looked-unlocked :
    (s : Burst) (k : ℕ) (c : Option InstallationToken)
    → let t = looked k c (unlock s) minting s in (t.holder ≡ none) ⊎ (t.pc k ≡ minting)
looked-unlocked s k none = inr (set_pc-here k minting s.pc)
looked-unlocked s k (some u) = inl refl

release-unlocked :
    (s : Burst) (k : ℕ) (p : Pc)
    → s.pc k ≡ p
    → critical p ≡ true
    → (run (release k p) s).holder ≡ none
unfolding run step advance
release-unlocked s k locked e h =
    subst (λ q. (step (reply k none) (advance k q s)).holder ≡ none) (sym e)
      (unfold step in
        replied-unlocked (looked k (current s.cache s.now) (unlock s) minting s) k _
          (looked-unlocked s k (current s.cache s.now)))
release-unlocked s k minting e h =
    subst (λ q. (replied k none q s).holder ≡ none) (sym e)
      (replied-unlocked s k minting (inr refl))
release-unlocked s k (stored t) e h = subst (λ q. (advance k q s).holder ≡ none) (sym e) refl
release-unlocked s k start e h = contradict refl h
release-unlocked s k waiting e h = contradict refl h
release-unlocked s k (done t) e h = contradict refl h
release-unlocked s k failed e h = contradict refl h

-- A step of this goroutine, or the answer to it.
abbrev pub IsOf : ℕ → Action → Type 0
IsOf k (tick now) = ⊥
IsOf k (move i) = i ≡ k
IsOf k (reply i r) = i ≡ k

abbrev pub length : List Action → ℕ
length [] = 0
length (a ∷ actions) = suc (length actions)

release-few : (k : ℕ) (p : Pc) → length (release k p) ≤ 2
release-few k p = ground arith

release-own : (k : ℕ) (p : Pc) → All (IsOf k) (release k p)
release-own k start = (refl, tt)
release-own k waiting = (refl, tt)
release-own k locked = (refl, (refl, tt))
release-own k minting = (refl, tt)
release-own k (stored t) = (refl, tt)
release-own k (done t) = (refl, tt)
release-own k failed = (refl, tt)

-- A schedule of at most two steps, all of the holder of the lock, after which the lock is free.
pub record MayRelease (s : Burst) (k : ℕ) : Type 0 where
  pub steps : List Action
  pub few : length steps ≤ 2
  pub own : All (IsOf k) steps
  pub free : (run steps s).holder ≡ none

critical-MayRelease : (s : Burst) (k : ℕ) (p : Pc) → s.pc k ≡ p → critical p ≡ true → MayRelease s k
critical-MayRelease s k p e h = record {
  steps = release k p;
  few = release-few k p;
  own = release-own k p;
  free = release-unlocked s k p e h;
}

-- No step of a goroutine takes a call further from its return, each call that has not returned can go
-- on by itself or waits for one that can, and the holder of the lock can release it.
pub record MayReturn (s : Burst) : Type 0 where
  pub falls : (a : Action) (k : ℕ) → rank ((step a s).pc k) ≤ rank (s.pc k)
  pub goes_on : (i : ℕ) → 1 ≤ rank (s.pc i) → GoesOn s i
  pub releases : (k : ℕ) → s.holder ≡ some k → MayRelease s k

-- After any schedule from the start of a burst, with any answers of GitHub and any clock: no step of
-- any goroutine takes a call back to an earlier place of `Token`; each call that has not returned has
-- a step which takes it further, or it waits for the lock, the holder of the lock is between taking
-- and releasing it, and the holder has such a step; and two steps of the holder, at most, release the
-- lock, the answer of GitHub counted, even where GitHub fails.
pub run-MayReturn : (now : ℤ) (actions : List Action) → MayReturn (run actions (at_start now))
run-MayReturn now actions =
    let s = run actions (at_start now) in
    let held = run-AllHeld actions (at_start now) (λ k e. nobody e) in
    record {
      falls = λ a k. step-falls a s k;
      goes_on = λ i u. unfinished-GoesOn s i (s.pc i) refl u held;
      releases = λ k e. critical-MayRelease s k (s.pc k) refl (held k e);
    }
