-- ===== src/GithubApp/Tokens/Burst/Holder.antt =====
-- The lock of an installation is held by a goroutine that will release it.
use dev_intel_platform.Base.{
  ℕ, ◌≡◌, refl, sym, ◌∙◌, ap, true, false, List, [], ◌∷◌, Option, none, some, eqb, arith,
}
use dev_intel_platform.GithubApp.Outside.{InstallationToken}
use dev_intel_platform.GithubApp.Tokens.Burst.{
  Pc, start, waiting, locked, minting, stored, done, failed, Burst, Action, tick, move, reply,
  set_pc, goto, unlock, current, looked, acquire, advance, replied, step, run,
}
use dev_intel_platform.GithubApp.Tokens.Burst.Kept.{critical, everywhere}

-- The holder of the lock is between taking and releasing it.
abbrev pub Held : Option ℕ → ℕ → Pc → Type 0
Held holder k p = holder ≡ some k → critical p ≡ true

abbrev pub AllHeld : Burst → Type 0
AllHeld s = (k : ℕ) → Held s.holder k (s.pc k)

same-Held :
    (s : Burst) (i : ℕ) (p : Pc)
    → critical p ≡ critical (s.pc i)
    → AllHeld s
    → (k : ℕ) → Held s.holder k (set_pc i p s.pc k)
same-Held s i p e h = everywhere (Held s.holder) i p s.pc (λ q. e ∙ h i q) (λ j _. h j)

pub nobody : {A : Type 0} {k : ℕ} → ◌≡◌ {A = Option ℕ} none (some k) → A
nobody e = absurd (ground arith)

other_key : (i j : ℕ) {A : Type 0} → eqb i j ≡ false → some i ≡ some j → A
other_key i j d e = absurd (ground (arith, d, e))

looked-AllHeld :
    (s t : Burst) (i : ℕ) (next : Pc) (c : Option InstallationToken)
    → ((u : InstallationToken) → AllHeld (goto i (done u) t))
    → AllHeld (goto i next s)
    → AllHeld (looked i c t next s)
looked-AllHeld s t i next none ret go = go
looked-AllHeld s t i next (some u) ret go = ret u

acquire-AllHeld : (s : Burst) (i : ℕ) (o : Option ℕ) → AllHeld s → AllHeld (acquire i o s)
acquire-AllHeld s i none h =
    everywhere (Held (some i)) i locked s.pc (λ _. refl) (λ j d e. other_key i j d e)
acquire-AllHeld s i (some k) h = h

advance-AllHeld : (s : Burst) (i : ℕ) (p : Pc) → s.pc i ≡ p → AllHeld s → AllHeld (advance i p s)
unfolding advance
advance-AllHeld s i start e h =
    looked-AllHeld s s i waiting (current s.cache s.now)
      (λ u. same-Held s i (done u) (sym (ap critical e)) h)
      (same-Held s i waiting (sym (ap critical e)) h)
advance-AllHeld s i waiting e h = acquire-AllHeld s i s.holder h
advance-AllHeld s i locked e h =
    looked-AllHeld s (unlock s) i minting (current s.cache s.now) (λ u k q. nobody q)
      (same-Held s i minting (sym (ap critical e)) h)
advance-AllHeld s i minting e h = h
advance-AllHeld s i (stored t) e h = λ k q. nobody q
advance-AllHeld s i (done t) e h = h
advance-AllHeld s i failed e h = h

replied-AllHeld :
    (s : Burst) (i : ℕ) (r : Option InstallationToken) (p : Pc)
    → s.pc i ≡ p
    → AllHeld s
    → AllHeld (replied i r p s)
unfolding replied
replied-AllHeld s i (some t) minting e h = same-Held s i (stored t) (sym (ap critical e)) h
replied-AllHeld s i none minting e h = λ k q. nobody q
replied-AllHeld s i (some t) start e h = h
replied-AllHeld s i (some t) waiting e h = h
replied-AllHeld s i (some t) locked e h = h
replied-AllHeld s i (some t) (stored u) e h = h
replied-AllHeld s i (some t) (done u) e h = h
replied-AllHeld s i (some t) failed e h = h
replied-AllHeld s i none start e h = h
replied-AllHeld s i none waiting e h = h
replied-AllHeld s i none locked e h = h
replied-AllHeld s i none (stored u) e h = h
replied-AllHeld s i none (done u) e h = h
replied-AllHeld s i none failed e h = h

step-AllHeld : (a : Action) (s : Burst) → AllHeld s → AllHeld (step a s)
unfolding step
step-AllHeld (tick now) s h = h
step-AllHeld (move i) s h = advance-AllHeld s i (s.pc i) refl h
step-AllHeld (reply i r) s h = replied-AllHeld s i r (s.pc i) refl h

pub run-AllHeld : (actions : List Action) (s : Burst) → AllHeld s → AllHeld (run actions s)
unfolding run
run-AllHeld [] s h = h
run-AllHeld (a ∷ actions) s h = run-AllHeld actions (step a s) (step-AllHeld a s h)
