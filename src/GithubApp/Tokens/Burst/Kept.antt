-- ===== src/GithubApp/Tokens/Burst/Kept.antt =====
-- What every step of a burst keeps: who holds the lock, and what each goroutine relies on.
use dev_intel_platform.Base.{
  ℕ, ◌≡◌, refl, sym, ap, subst, Bool, true, false, Option, none, some, eqb, arith, Bool-cases, inl,
  inr, if◌then◌else◌,
}
use dev_intel_platform.Base.Int.{ℤ, ◌≤ℤ◌}
use dev_intel_platform.GithubApp.Outside.{InstallationToken}
use dev_intel_platform.GithubApp.Tokens.{valid}
use dev_intel_platform.GithubApp.Tokens.Burst.{
  Pc, start, waiting, locked, minting, stored, done, failed, Burst, Action, tick, move, reply,
  at_start, set_pc, goto, unlock, valid_or_none, current, looked, acquire, advance,
}

-- Between taking the lock of the installation and releasing it.
abbrev pub critical : Pc → Bool
critical locked = true
critical minting = true
critical (stored _) = true
critical _ = false

-- The clock stays before the horizon, and a minted token is valid at the horizon.
abbrev pub Before : ℤ → Action → Type 0
Before h (tick now) = now ≤ℤ h
Before h (move i) = Unit
Before h (reply i none) = Unit
Before h (reply i (some t)) = valid t h ≡ true

-- What a goroutine relies on of the cache.
abbrev pub Agrees : Option InstallationToken → Pc → Type 0
Agrees c minting = c ≡ none
Agrees c (stored t) = c ≡ some t
Agrees c (done t) = c ≡ some t
Agrees c _ = Unit

abbrev pub Filled : ℤ → Option InstallationToken → ℕ → Type 0
Filled h none n = n ≡ 0
Filled h (some t) n = (n ≡ 1) × (valid t h ≡ true)

abbrev pub Holds : Option ℕ → ℕ → Pc → Type 0
Holds holder i p = critical p ≡ true → holder ≡ some i

pub record Invariant (h : ℤ) (s : Burst) : Type 0 where
  pub in_time : s.now ≤ℤ h
  pub filled : Filled h s.cache s.mints
  pub agrees : (i : ℕ) → Agrees s.cache (s.pc i)
  pub holds : (i : ℕ) → Holds s.holder i (s.pc i)

valid_earlier :
    (t : InstallationToken) (now h : ℤ) → now ≤ℤ h → valid t h ≡ true → valid t now ≡ true
unfolding valid
valid_earlier t now h le v = ground arith

-- Before the horizon, what is cached is valid.
current-cache :
    (h : ℤ) (c : Option InstallationToken) (n : ℕ) (now : ℤ)
    → now ≤ℤ h
    → Filled h c n
    → current c now ≡ c
current-cache h none n now le f = refl
current-cache h (some t) n now le f = ap (valid_or_none t) (valid_earlier t now h le f.1)

pub start-Invariant : (h now : ℤ) → now ≤ℤ h → Invariant h (at_start now)
start-Invariant h now le = record {
  in_time = le;
  filled = refl;
  agrees = λ _. tt;
  holds = λ i e. cc;
}

eqb-eq : (i j : ℕ) → eqb i j ≡ true → i ≡ j
eqb-eq i j e = ground arith

-- A property of every goroutine, after one of them moved.
pub everywhere :
    (P : ℕ → Pc → Type 0) (i : ℕ) (p : Pc) (f : ℕ → Pc)
    → P i p
    → ((j : ℕ) → eqb i j ≡ false → P j (f j))
    → (j : ℕ) → P j (set_pc i p f j)
everywhere P i p f here there j = elim (Bool-cases (eqb i j)) [
  | inl e ↦ subst (λ b. P j (if b then p else f j)) (sym e) (subst (λ k. P k p) (eqb-eq i j e) here)
  | inr e ↦ subst (λ b. P j (if b then p else f j)) (sym e) (there j e)
]

same-holder :
    (i j : ℕ) (b : Bool) (o : Option ℕ)
    → eqb i j ≡ false
    → o ≡ some i
    → (b ≡ true → o ≡ some j)
    → b ≡ false
same-holder i j false o ne e h = refl
same-holder i j true o ne e h = ground (arith, e, h refl)

-- Nobody but the holder is critical.
pub others-idle :
    (s : Burst) (i j : ℕ)
    → ((k : ℕ) → Holds s.holder k (s.pc k))
    → critical (s.pc i) ≡ true
    → eqb i j ≡ false
    → critical (s.pc j) ≡ false
others-idle s i j hs e ne = same-holder i j (critical (s.pc j)) s.holder ne (hs i e) (hs j)

-- A goroutine moves, and the cache stays.
goto-Invariant :
    (h : ℤ) (s : Burst) (i : ℕ) (p : Pc) (holder' : Option ℕ)
    → Invariant h s
    → Agrees s.cache p
    → Holds holder' i p
    → ((j : ℕ) → eqb i j ≡ false → Holds holder' j (s.pc j))
    → Invariant h (goto i p (record s { holder = holder' }))
goto-Invariant h s i p holder' inv a o os = record {
  in_time = inv.in_time;
  filled = inv.filled;
  agrees = everywhere (λ _. Agrees s.cache) i p s.pc a (λ j _. inv.agrees j);
  holds = everywhere (Holds holder') i p s.pc o os;
}

pub contradict : {A : Type 0} {b : Bool} → b ≡ false → b ≡ true → A
contradict f t = cc

-- The holder returns.
pub return-Invariant :
    (h : ℤ) (s : Burst) (i : ℕ) (p : Pc)
    → Invariant h s
    → critical (s.pc i) ≡ true
    → critical p ≡ false
    → Agrees s.cache p
    → Invariant h (goto i p (unlock s))
return-Invariant h s i p inv e ne a =
    goto-Invariant h s i p none inv a (λ c. cc)
      (λ j d c. contradict (others-idle s i j inv.holds e d) c)

-- It stays in the lock.
stay-Invariant :
    (h : ℤ) (s : Burst) (i : ℕ) (p : Pc)
    → Invariant h s
    → Agrees s.cache p
    → (critical p ≡ true → critical (s.pc i) ≡ true)
    → Invariant h (goto i p s)
stay-Invariant h s i p inv a o =
    goto-Invariant h s i p s.holder inv a (λ c. inv.holds i (o c)) (λ j d. inv.holds j)

-- A look at the cache, once it is known what the look finds.
looked-Invariant :
    (h : ℤ) (s : Burst) (i : ℕ) (next : Pc) (on_return : Burst) (c : Option InstallationToken)
    → s.cache ≡ c
    → (critical next ≡ true → critical (s.pc i) ≡ true)
    → Invariant h s
    → ((p : Pc) → critical p ≡ false → Agrees s.cache p → Invariant h (goto i p on_return))
    → (c ≡ none → Agrees s.cache next)
    → Invariant h (looked i c on_return next s)
looked-Invariant h s i next on_return none e o inv ret a = stay-Invariant h s i next inv (a refl) o
looked-Invariant h s i next on_return (some t) e o inv ret a = ret (done t) refl e

nobody : {A : Type 0} {o : Option ℕ} {k : ℕ} → o ≡ none → o ≡ some k → A
nobody e f = cc

acquire-Invariant :
    (h : ℤ) (s : Burst) (i : ℕ) (holder : Option ℕ)
    → s.holder ≡ holder
    → Invariant h s
    → Invariant h (acquire i holder s)
acquire-Invariant h s i none e inv =
    goto-Invariant h s i locked (some i) inv tt (λ _. refl) (λ j _ c. nobody e (inv.holds j c))
acquire-Invariant h s i (some k) e inv = inv

looked_now : (h : ℤ) (s : Burst) → Invariant h s → current s.cache s.now ≡ s.cache
looked_now h s inv = current-cache h s.cache s.mints s.now inv.in_time inv.filled

pub advance-Invariant :
    (h : ℤ) (s : Burst) (i : ℕ) (p : Pc) → s.pc i ≡ p → Invariant h s → Invariant h (advance i p s)
unfolding advance
advance-Invariant h s i start e inv = rw (looked_now h s inv) (
    looked-Invariant h s i waiting s s.cache refl (λ c. contradict refl c) inv
      (λ p c a. stay-Invariant h s i p inv a (contradict c)) (λ _. tt))
advance-Invariant h s i waiting e inv = acquire-Invariant h s i s.holder refl inv
advance-Invariant h s i locked e inv = rw (looked_now h s inv) (
    looked-Invariant h s i minting (unlock s) s.cache refl (λ c. ap critical e) inv
      (λ p c a. return-Invariant h s i p inv (ap critical e) c a) (λ z. z))
advance-Invariant h s i minting e inv = inv
advance-Invariant h s i (stored t) e inv =
    return-Invariant h s i (done t) inv (ap critical e) refl
      (subst (Agrees s.cache) e (inv.agrees i))
advance-Invariant h s i (done t) e inv = inv
advance-Invariant h s i failed e inv = inv
