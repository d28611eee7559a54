-- ===== src/GithubApp/RateLimit/Charged.antt =====
-- What one reservation of an observed pool comes to.
use dev_intel_platform.Base.{◌≡◌, refl, Bool, true, false, not, arith, if◌then◌else◌}
use dev_intel_platform.Base.Int.{ℤ, pos, ltb_ℤ, ◌-ℤ◌, ◌≤ℤ◌, fits_int64, wrap64-fits}
use dev_intel_platform.GithubApp.RateLimit.{
  Pool, charge, safety_floor, left, wait_until, reserve_pool,
}

-- A difference of two counts that are not negative fits.
sub-fits :
    (a b : ℤ)
    → pos 0 ≤ℤ a
    → pos 0 ≤ℤ b
    → fits_int64 a ≡ true
    → fits_int64 b ≡ true
    → fits_int64 (a -ℤ b) ≡ true
unfolding ◌-ℤ◌
sub-fits a b ha hb fa fb = ground arith

charge-fits : (cost : ℤ) → fits_int64 cost ≡ true → fits_int64 (charge cost) ≡ true
charge-fits cost h = ground arith

pub charge-nonneg : (cost : ℤ) → pos 0 ≤ℤ charge cost
charge-nonneg cost = ground arith

-- A pool that was observed, with a count that is not negative.
pub record IsObserved (p : Pool) : Type 0 where
  pub known : p.known ≡ true
  pub at_least : pos 0 ≤ℤ p.remaining
  pub fits : fits_int64 p.remaining ≡ true

left-eq :
    (p : Pool) (cost : ℤ)
    → IsObserved p
    → fits_int64 cost ≡ true
    → left p (charge cost) ≡ p.remaining -ℤ charge cost
unfolding left
left-eq p cost o f =
    wrap64-fits (p.remaining -ℤ charge cost) (
      sub-fits p.remaining (charge cost) o.at_least (charge-nonneg cost) o.fits
        (charge-fits cost f))

-- What a reservation of an observed pool comes to: it is granted, and the floor is left, or it is
-- refused and the pool stays.
pub data Charged (p : Pool) (cost : ℤ) : Bool → Pool → Type 0 where
  granted :
      left p (charge cost) ≡ p.remaining -ℤ charge cost
      → safety_floor ≤ℤ left p (charge cost)
      → Charged p cost true (record p { remaining = left p (charge cost) })
  refused : Charged p cost false p

floor_kept : (n : ℤ) → ltb_ℤ n safety_floor ≡ false → safety_floor ≤ℤ n
floor_kept n e = ground arith

Charged-if :
    (p : Pool) (cost w : ℤ) (b : Bool)
    → left p (charge cost) ≡ p.remaining -ℤ charge cost
    → (b ≡ false → safety_floor ≤ℤ left p (charge cost))
    → let t : ℤ × Bool × Pool =
        if b then (w, false, p) else (pos 0, true, record p { remaining = left p (charge cost) }) in
      Charged p cost t.1 t.2
Charged-if p cost w true e h = refused
Charged-if p cost w false e h = granted e (h refl)

known-if :
    (p : Pool) (cost : ℤ) (k : Bool) (other t : ℤ × Bool × Pool)
    → k ≡ true
    → Charged p cost t.1 t.2
    → let u = if not k then other else t in Charged p cost u.1 u.2
known-if p cost true other t e c = c
known-if p cost false other t e c = cc

pub reserve_pool-Charged :
    (p : Pool) (cost now : ℤ)
    → IsObserved p
    → fits_int64 cost ≡ true
    → let t = reserve_pool (charge cost) now p in Charged p cost t.1 t.2
unfolding reserve_pool
reserve_pool-Charged p cost now o f = known-if p cost p.known _ _ o.known (
    Charged-if p cost (wait_until p.reset_at now) (ltb_ℤ (left p (charge cost)) safety_floor)
      (left-eq p cost o f) (floor_kept (left p (charge cost))))
