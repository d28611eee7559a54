-- ===== src/GithubApp/Tokens/Burst/Coalesced.antt =====
-- A burst of calls mints one token while that is valid, and one goroutine at a time is in `mint`.
use dev_intel_platform.Base.{
  ℕ, suc, ◌≤◌, ◌≡◌, refl, sym, ◌∙◌, ap, subst, true, false, List, [], ◌∷◌, Option, none, some, All,
  arith,
}
use mathlib.Core.Option.{some-injective}
use dev_intel_platform.Base.Int.{ℤ, ◌≤ℤ◌}
use dev_intel_platform.GithubApp.Outside.{InstallationToken}
use dev_intel_platform.GithubApp.Tokens.{valid}
use dev_intel_platform.GithubApp.Tokens.Burst.{
  Pc, start, waiting, locked, minting, stored, done, failed, Burst, Action, tick, move, reply,
  at_start, goto, replied, step, run,
}
use dev_intel_platform.GithubApp.Tokens.Burst.Kept.{
  critical, Before, Agrees, Filled, Holds, Invariant, start-Invariant, everywhere, others-idle,
  return-Invariant, advance-Invariant, contradict,
}

-- What relies on an empty cache and is not critical relies on any cache.
Agrees-idle :
    (t : InstallationToken) (p : Pc) → critical p ≡ false → Agrees none p → Agrees (some t) p
Agrees-idle t start c a = tt
Agrees-idle t waiting c a = tt
Agrees-idle t locked c a = tt
Agrees-idle t minting c a = contradict c refl
Agrees-idle t (stored u) c a = contradict c refl
Agrees-idle t (done u) c a = absurd (ground arith)
Agrees-idle t failed c a = tt

stored-Invariant :
    (h : ℤ) (s : Burst) (i : ℕ) (t : InstallationToken)
    → s.pc i ≡ minting
    → valid t h ≡ true
    → Invariant h s
    → Invariant h (goto i (stored t) (record s { cache = some t; mints = suc s.mints }))
stored-Invariant h s i t e v inv =
    let empty : s.cache ≡ none = subst (Agrees s.cache) e (inv.agrees i) in
    let crit : critical (s.pc i) ≡ true = ap critical e in
    record {
      in_time = inv.in_time;
      filled = (ap suc (subst (λ c. Filled h c s.mints) empty inv.filled), v);
      agrees =
          everywhere (λ _. Agrees (some t)) i (stored t) s.pc refl
            (λ j d.
              Agrees-idle t (s.pc j) (others-idle s i j inv.holds crit d)
                (subst (λ c. Agrees c (s.pc j)) empty (inv.agrees j)));
      holds =
          everywhere (Holds s.holder) i (stored t) s.pc (λ _. inv.holds i crit)
            (λ j d. inv.holds j);
    }

replied-Invariant :
    (h : ℤ) (s : Burst) (i : ℕ) (r : Option InstallationToken) (p : Pc)
    → s.pc i ≡ p
    → Before h (reply i r)
    → Invariant h s
    → Invariant h (replied i r p s)
unfolding replied
replied-Invariant h s i (some t) minting e b inv = stored-Invariant h s i t e b inv
replied-Invariant h s i none minting e b inv =
    return-Invariant h s i failed inv (ap critical e) refl tt
replied-Invariant h s i (some t) start e b inv = inv
replied-Invariant h s i (some t) waiting e b inv = inv
replied-Invariant h s i (some t) locked e b inv = inv
replied-Invariant h s i (some t) (stored u) e b inv = inv
replied-Invariant h s i (some t) (done u) e b inv = inv
replied-Invariant h s i (some t) failed e b inv = inv
replied-Invariant h s i none start e b inv = inv
replied-Invariant h s i none waiting e b inv = inv
replied-Invariant h s i none locked e b inv = inv
replied-Invariant h s i none (stored u) e b inv = inv
replied-Invariant h s i none (done u) e b inv = inv
replied-Invariant h s i none failed e b inv = inv

step-Invariant :
    (h : ℤ) (a : Action) (s : Burst) → Before h a → Invariant h s → Invariant h (step a s)
unfolding step
step-Invariant h (tick now) s b inv = record {
  in_time = b;
  filled = inv.filled;
  agrees = inv.agrees;
  holds = inv.holds;
}
step-Invariant h (move i) s b inv = advance-Invariant h s i (s.pc i) refl inv
step-Invariant h (reply i r) s b inv = replied-Invariant h s i r (s.pc i) refl b inv

run-Invariant :
    (h : ℤ) (actions : List Action) (s : Burst)
    → All (Before h) actions
    → Invariant h s
    → Invariant h (run actions s)
unfolding run
run-Invariant h [] s bs inv = inv
run-Invariant h (a ∷ actions) s bs inv =
    run-Invariant h actions (step a s) bs.1 (step-Invariant h a s bs.0 inv)

-- What the burst comes to.
pub record IsCoalesced (s : Burst) : Type 0 where
  pub at_most_one : s.mints ≤ 1
  pub shared : (i : ℕ) (t : InstallationToken) → s.pc i ≡ done t → s.cache ≡ some t
  pub exclusive : (i j : ℕ) → critical (s.pc i) ≡ true → critical (s.pc j) ≡ true → i ≡ j

at_most_one_of : (h : ℤ) (c : Option InstallationToken) (n : ℕ) → Filled h c n → n ≤ 1
at_most_one_of h none n f = ground arith
at_most_one_of h (some t) n f = ground (arith, f.0)

-- Any number of goroutines call `Token` for one installation whose token is not cached, in any
-- order of their steps. While the clock is before a time at which every minted token is still valid,
-- at most one token is minted, each call that has returned a token has returned the cached one, and
-- two goroutines that are between taking and releasing the installation's lock are the same.
pub run-IsCoalesced :
    (h now : ℤ) (actions : List Action)
    → now ≤ℤ h
    → All (Before h) actions
    → IsCoalesced (run actions (at_start now))
run-IsCoalesced h now actions le bs =
    let inv = run-Invariant h actions (at_start now) bs (start-Invariant h now le) in
    let s = run actions (at_start now) in
    record {
      at_most_one = at_most_one_of h s.cache s.mints inv.filled;
      shared = λ i t e. subst (Agrees s.cache) e (inv.agrees i);
      exclusive = λ i j ci cj. some-injective i j (sym (inv.holds i ci) ∙ inv.holds j cj);
    }
