-- ===== src/GithubApp/Tokens/Burst.antt =====
-- libs/go/githubapp/token.go: `Token` in many goroutines at once, for one installation.
--
-- A step is what one goroutine does under the mutex of the cache, or on the lock of the installation:
-- a look at the cache, taking the lock, storing a token, releasing the lock on return. The answers of
-- GitHub and the clock are steps as well. A list of them is a schedule, of any length.
pub mod Kept
pub mod Coalesced
pub mod Holder
pub mod Ranks
pub mod Returns
use dev_intel_platform.Base.{
  ℕ, suc, zero, Bool, true, false, List, [], ◌∷◌, Option, none, some, eqb, if◌then◌else◌,
}
use dev_intel_platform.Base.Int.{ℤ}
use dev_intel_platform.GithubApp.Outside.{InstallationToken}
use dev_intel_platform.GithubApp.Tokens.{valid}

-- Where a goroutine is in `Token`: before its first look, at the lock, holding it before the second
-- look, in `mint`, with a token that it has put into the cache, and returned.
pub data Pc : Type 0 where
  start waiting locked minting : Pc
  stored : InstallationToken → Pc
  done : InstallationToken → Pc
  failed : Pc

pub record Burst : Type 0 where
  pub now : ℤ
  pub cache : Option InstallationToken
  pub holder : Option ℕ  -- of the lock of the installation
  pub pc : ℕ → Pc
  pub mints : ℕ  -- how many tokens were minted so far

pub data Action : Type 0 where
  tick : ℤ → Action
  move : ℕ → Action
  reply : ℕ → Option InstallationToken → Action

-- No token in the cache, and every goroutine about to call.
abbrev pub at_start : ℤ → Burst
at_start now = record { now = now; cache = none; holder = none; pc = λ _. start; mints = 0 }

abbrev pub set_pc : ℕ → Pc → (ℕ → Pc) → ℕ → Pc
set_pc i p f j = if eqb i j then p else f j

abbrev pub goto : ℕ → Pc → Burst → Burst
goto i p s = record s { pc = set_pc i p s.pc }

abbrev pub lock : ℕ → Burst → Burst
lock i s = record s { holder = some i }

abbrev pub unlock : Burst → Burst
unlock s = record s { holder = none }

abbrev pub valid_or_none : InstallationToken → Bool → Option InstallationToken
valid_or_none t true = some t
valid_or_none t false = none

-- What `cached` returns.
abbrev pub current : Option InstallationToken → ℤ → Option InstallationToken
current none now = none
current (some t) now = valid_or_none t (valid t now)

-- A look at the cache: return what is found, or go on.
abbrev pub looked : ℕ → Option InstallationToken → Burst → Pc → Burst → Burst
looked i (some t) on_return next s = goto i (done t) on_return
looked i none on_return next s = goto i next s

-- The lock is free, or the goroutine stays where it is.
abbrev pub acquire : ℕ → Option ℕ → Burst → Burst
acquire i none s = goto i locked (lock i s)
acquire i (some _) s = s

unfoldable pub advance : ℕ → Pc → Burst → Burst
advance i start s = looked i (current s.cache s.now) s waiting s
advance i waiting s = acquire i s.holder s
advance i locked s = looked i (current s.cache s.now) (unlock s) minting s
advance i (stored t) s = goto i (done t) (unlock s)
advance i _ s = s

-- What `mint` returned to a goroutine that waits for it.
unfoldable pub replied : ℕ → Option InstallationToken → Pc → Burst → Burst
replied i (some t) minting s = goto i (stored t) (record s { cache = some t; mints = suc s.mints })
replied i none minting s = goto i failed (unlock s)
replied i _ _ s = s

unfoldable pub step : Action → Burst → Burst
unfolding advance replied
step (tick now) s = record s { now = now }
step (move i) s = advance i (s.pc i) s
step (reply i r) s = replied i r (s.pc i) s

unfoldable pub run : List Action → Burst → Burst
unfolding step
run [] s = s
run (a ∷ actions) s = run actions (step a s)
