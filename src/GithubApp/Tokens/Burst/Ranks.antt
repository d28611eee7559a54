-- ===== src/GithubApp/Tokens/Burst/Ranks.antt =====
-- How far a call of a burst is from its return, and that no step takes it further from there.
use dev_intel_platform.Base.{
  ℕ, ◌≤◌, ◌≡◌, refl, sym, ap, subst, true, Option, none, some, eqb, arith,
}
use dev_intel_platform.GithubApp.Outside.{InstallationToken}
use dev_intel_platform.GithubApp.Tokens.Burst.{
  Pc, start, waiting, locked, minting, stored, done, failed, Burst, Action, tick, move, reply,
  set_pc, unlock, current, looked, acquire, advance, replied, step,
}
use dev_intel_platform.GithubApp.Tokens.Burst.Kept.{everywhere}

-- How many steps a goroutine may still take.
abbrev pub rank : Pc → ℕ
rank start = 5
rank waiting = 4
rank locked = 3
rank minting = 2
rank (stored t) = 1
rank (done t) = 0
rank failed = 0

eqb_refl : (i : ℕ) → eqb i i ≡ true
eqb_refl i = ground arith

pub set_pc-here : (i : ℕ) (p : Pc) (f : ℕ → Pc) → set_pc i p f i ≡ p
set_pc-here i p f = rw (eqb_refl i)

set_pc-falls :
    (i : ℕ) (p : Pc) (s : Burst)
    → rank p ≤ rank (s.pc i)
    → (k : ℕ) → rank (set_pc i p s.pc k) ≤ rank (s.pc k)
set_pc-falls i p s h = everywhere (λ k q. rank q ≤ rank (s.pc k)) i p s.pc h (λ j _. ground arith)

-- A step lowers the rank of one goroutine, or no rank at all.
looked-falls :
    (s t : Burst) (i : ℕ) (next : Pc) (c : Option InstallationToken)
    → t.pc ≡ s.pc
    → rank next ≤ rank (s.pc i)
    → (k : ℕ) → rank ((looked i c t next s).pc k) ≤ rank (s.pc k)
looked-falls s t i next none e h = set_pc-falls i next s h
looked-falls s t i next (some u) e h =
    subst (λ f. (k : ℕ) → rank (set_pc i (done u) f k) ≤ rank (s.pc k)) (sym e)
      (set_pc-falls i (done u) s (ground arith))

acquire-falls :
    (s : Burst) (i : ℕ) (o : Option ℕ)
    → s.pc i ≡ waiting
    → (k : ℕ) → rank ((acquire i o s).pc k) ≤ rank (s.pc k)
acquire-falls s i none e k = set_pc-falls i locked s (ground (arith, ap rank e)) k
acquire-falls s i (some j) e k = ground arith

advance-falls :
    (s : Burst) (i : ℕ) (p : Pc)
    → s.pc i ≡ p
    → (k : ℕ) → rank ((advance i p s).pc k) ≤ rank (s.pc k)
unfolding advance
advance-falls s i start e k =
    looked-falls s s i waiting (current s.cache s.now) refl (ground (arith, ap rank e)) k
advance-falls s i waiting e k = acquire-falls s i s.holder e k
advance-falls s i locked e k =
    looked-falls s (unlock s) i minting (current s.cache s.now) refl (ground (arith, ap rank e)) k
advance-falls s i minting e k = ground arith
advance-falls s i (stored t) e k = set_pc-falls i (done t) s (ground arith) k
advance-falls s i (done t) e k = ground arith
advance-falls s i failed e k = ground arith

replied-falls :
    (s : Burst) (i : ℕ) (r : Option InstallationToken) (p : Pc)
    → s.pc i ≡ p
    → (k : ℕ) → rank ((replied i r p s).pc k) ≤ rank (s.pc k)
unfolding replied
replied-falls s i (some t) minting e k = set_pc-falls i (stored t) s (ground (arith, ap rank e)) k
replied-falls s i none minting e k = set_pc-falls i failed s (ground arith) k
replied-falls s i (some t) start e k = ground arith
replied-falls s i (some t) waiting e k = ground arith
replied-falls s i (some t) locked e k = ground arith
replied-falls s i (some t) (stored u) e k = ground arith
replied-falls s i (some t) (done u) e k = ground arith
replied-falls s i (some t) failed e k = ground arith
replied-falls s i none start e k = ground arith
replied-falls s i none waiting e k = ground arith
replied-falls s i none locked e k = ground arith
replied-falls s i none (stored u) e k = ground arith
replied-falls s i none (done u) e k = ground arith
replied-falls s i none failed e k = ground arith

pub step-falls : (a : Action) (s : Burst) (k : ℕ) → rank ((step a s).pc k) ≤ rank (s.pc k)
unfolding step
step-falls (tick now) s k = ground arith
step-falls (move i) s k = advance-falls s i (s.pc i) refl k
step-falls (reply i r) s k = replied-falls s i r (s.pc i) refl k
