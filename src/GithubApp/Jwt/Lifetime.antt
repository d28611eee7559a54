-- ===== src/GithubApp/Jwt/Lifetime.antt =====
-- How long an app's JWT lives.
use dev_intel_platform.Base.{◌≡◌, arith}
use dev_intel_platform.Base.Int.{ℤ, pos, negsuc, ◌≤ℤ◌, ◌+ℤ◌, ◌-ℤ◌}
use dev_intel_platform.GithubApp.Jwt.{max_ttl, seconds, unix, clamp_ttl, issued_at, expires}

clamp_ttl-range : (ttl : ℤ) → (pos 1 ≤ℤ clamp_ttl ttl) × (clamp_ttl ttl ≤ℤ max_ttl)
unfolding clamp_ttl
clamp_ttl-range ttl = ground arith

-- Seconds of instants that are at most ten minutes apart.
seconds-later :
    (t d : ℤ)
    → pos 0 ≤ℤ d
    → d ≤ℤ max_ttl
    → (seconds t ≤ℤ seconds (t +ℤ d)) × (seconds (t +ℤ d) ≤ℤ seconds t +ℤ pos 600)
unfolding seconds ◌+ℤ◌
seconds-later (pos n) (pos d) h k = ground arith
seconds-later (pos n) (negsuc d) h k = ground arith
seconds-later (negsuc n) (pos d) h k = ground arith
seconds-later (negsuc n) (negsuc d) h k = ground arith

at_least_one : (d : ℤ) → pos 1 ≤ℤ d → pos 0 ≤ℤ d
at_least_one d h = ground arith

seconds-minus : (t : ℤ) → seconds (t -ℤ pos 60000000000) ≡ seconds t -ℤ pos 60
unfolding seconds ◌-ℤ◌
seconds-minus (pos n) = ground arith
seconds-minus (negsuc n) = ground arith

-- The two instants of the claims, in seconds, for any time to live that was asked for.
pub record IsShortLived (now ttl : ℤ) : Type 0 where
  pub backdated : issued_at now ≡ unix now -ℤ pos 60
  pub not_over : unix now ≤ℤ expires now ttl
  pub capped : expires now ttl ≤ℤ unix now +ℤ pos 600

backdate : (m n k : ℤ) → m ≡ n -ℤ pos 60 → m -ℤ k ≡ (n -ℤ k) -ℤ pos 60
unfolding ◌-ℤ◌
backdate m n k e = ground (arith, e)

shift_≤ : (m n k : ℤ) → m ≤ℤ n → m -ℤ k ≤ℤ n -ℤ k
unfolding ◌-ℤ◌
shift_≤ m n k h = ground arith

shift_+ : (m n k : ℤ) → m ≤ℤ n +ℤ pos 600 → m -ℤ k ≤ℤ (n -ℤ k) +ℤ pos 600
unfolding ◌+ℤ◌ ◌-ℤ◌
shift_+ m n k h = ground arith

-- Whatever time to live is asked for, the JWT is issued sixty seconds before the clock's second and
-- expires at that second or later, at most ten minutes after it.
pub claims-IsShortLived : (now ttl : ℤ) → IsShortLived now ttl
unfolding issued_at expires
claims-IsShortLived now ttl =
    let r = clamp_ttl-range ttl in
    let s = seconds-later now (clamp_ttl ttl) (at_least_one (clamp_ttl ttl) r.0) r.1 in
    record {
      backdated =
          backdate (seconds (now -ℤ pos 60000000000)) (seconds now) (pos 62135596800)
            (seconds-minus now);
      not_over = shift_≤ (seconds now) (seconds (now +ℤ clamp_ttl ttl)) (pos 62135596800) s.0;
      capped = shift_+ (seconds (now +ℤ clamp_ttl ttl)) (seconds now) (pos 62135596800) s.1;
    }
