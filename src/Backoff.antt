-- ===== src/Backoff.antt =====
-- The retry delays: `backoff` of services/normalizer/main.go, services/connector-github/main.go and
-- services/archiver/main.go, on 64-bit durations in nanoseconds. The archiver's has no guard on
-- attempts below the first, which its loop never makes.
use dev_intel_platform.Base.{
  ℕ, zero, suc, ◌*◌, ◌%◌, ◌^◌, ◌≤◌, ◌<◌, ◌≡◌, refl, Bool, true, ◌||◌, ◌&&◌, not, ltb, if◌then◌else◌,
  arith, Bool-cases, inl, inr, ltb→lt, lt→ltb, ℕ_discrete, subst,
}
use dev_intel_platform.Base.Int.{to_int64, ℤ, pos, negsuc, ltb_ℤ}

abbrev pub base_backoff : ℕ
base_backoff = 250000000

abbrev pub max_backoff : ℕ
max_backoff = 30000000000

-- `x << k` on 64 bits: k times a doubling that drops the carry.
unfoldable pub shift_left : ℕ → ℕ → ℕ
shift_left x zero = x
shift_left x (suc k) = (2 * shift_left x k) % 2 ^ 64

-- A shifted duration, or the greatest delay where it has passed that or has wrapped around.
unfoldable pub capped : ℤ → ℤ
capped d = if ltb_ℤ (pos max_backoff) d || not (ltb_ℤ (pos 0) d) then pos max_backoff else d

unfoldable pub delay : ℕ → ℤ
unfolding capped to_int64 shift_left
delay k = capped (to_int64 (shift_left base_backoff k))

-- `backoff` of the normalizer and of the connector: attempts below the first count as the first.
unfoldable pub backoff : ℤ → ℤ
unfolding delay
backoff (negsuc n) = delay 0
backoff (pos zero) = delay 0
backoff (pos (suc k)) = delay k

-- What is meant: the base doubled for each further attempt, up to the greatest delay.
unfoldable pub doubled : ℕ → ℕ
doubled zero = base_backoff
doubled (suc k) = 2 * doubled k

unfoldable pub intended : ℕ → ℕ
unfolding doubled
intended k = if ltb max_backoff (doubled k) then max_backoff else doubled k

as_intended : ℕ → Bool
unfolding delay intended
as_intended k = ltb_ℤ (delay k) (pos (suc (intended k))) && not (ltb_ℤ (delay k) (pos (intended k)))

all_below : ℕ → (ℕ → Bool) → Bool
all_below zero p = true
all_below (suc n) p = p n && all_below n p

all_below-lem : (n : ℕ) (p : ℕ → Bool) → all_below n p ≡ true → (k : ℕ) → k < n → p k ≡ true
unfolding all_below
all_below-lem zero p h k l = absurd (omega (arith, l))
all_below-lem (suc n) p h k l = elim (Bool-cases (ltb k n)) [
  | inl e ↦ all_below-lem n p (ground (arith, h)) k (ltb→lt k n e)
  | inr e ↦
      let same : n ≡ k = ground (arith, l, e) in subst (λ m. p m ≡ true) same (ground (arith, h))
]

-- The first 57 shifts, of which the last loses the highest bit of the base.
as_intended-below : all_below 57 as_intended ≡ true
unfolding all_below as_intended
as_intended-below = refl

shift_left-gone : (k : ℕ) → 57 ≤ k → shift_left base_backoff k ≡ 0
unfolding shift_left
shift_left-gone zero l = absurd (omega (arith, l))
shift_left-gone (suc k) l = elim (ℕ_discrete k 56) [
  | yes e ↦ rw e refl
  | no n ↦ rw (shift_left-gone k (omega (arith, l, n)))
]

doubled-large : (k : ℕ) → 7 ≤ k → max_backoff < doubled k
unfolding doubled
doubled-large zero l = absurd (omega (arith, l))
doubled-large (suc k) l = elim (ℕ_discrete k 6) [
  | yes e ↦ rw e (omega arith)
  | no n ↦ omega (arith, doubled-large k (omega (arith, l, n)))
]

delay-gone : (k : ℕ) → 57 ≤ k → delay k ≡ pos (intended k)
unfolding delay intended
delay-gone k l =
    rw (shift_left-gone k l, lt→ltb max_backoff (doubled k) (doubled-large k (omega (arith, l))))

as_intended-eq : (k : ℕ) → as_intended k ≡ true → delay k ≡ pos (intended k)
unfolding as_intended
as_intended-eq k h = ground arith

-- The delay before the retry that follows the `k + 1`st failure is the base doubled k times, up to
-- the greatest delay, for every k: no shift wraps around to another delay.
pub backoff_lem : (k : ℕ) → backoff (pos (suc k)) ≡ pos (intended k)
unfolding backoff
backoff_lem k = elim (Bool-cases (ltb k 57)) [
  | inl e ↦ as_intended-eq k (all_below-lem 57 as_intended as_intended-below k (ltb→lt k 57 e))
  | inr e ↦ delay-gone k (ground (arith, e))
]
