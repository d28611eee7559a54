-- ===== src/GithubApp/RateLimit.antt =====
-- libs/go/githubapp/ratelimit.go: the quota that is left of each pool, and whether a call may go.
--
-- The mutex makes each method one step. Instants are nanoseconds since Go's zero time, and `int` is
-- of 64 bits.
pub mod Charged
pub mod Spending
pub mod Store
use dev_intel_platform.Base.{
  ℕ, String, Bool, true, false, ◌&&◌, not, ◌*◌, ◌-◌, ◌^◌, List, [], ◌∷◌, Option, none, some, ◌>>=◌,
  ◌==◌, if◌then◌else◌,
}
use dev_intel_platform.Base.Int.{ℤ, pos, negsuc, ltb_ℤ, eqb_ℤ, ◌-ℤ◌, ◌+ℤ◌, wrap64, scale}

pub data Resource : Type 0 where
  rest graph_ql : Resource

abbrev pub safety_floor : ℤ
safety_floor = pos 50

pub record Pool : Type 0 where
  pub remaining : ℤ
  pub reset_at : ℤ
  pub known : Bool  -- false until the first observation

-- The map of pools: the two resources are its keys from the start.
pub record Budget : Type 0 where
  pub rest_pool : Pool
  pub graph_ql_pool : Pool

abbrev pub new_budget : Budget
new_budget = record {
  rest_pool = record { remaining = pos 0; reset_at = pos 0; known = false };
  graph_ql_pool = record { remaining = pos 0; reset_at = pos 0; known = false };
}

abbrev pub get_pool : Resource → Budget → Pool
get_pool rest b = b.rest_pool
get_pool graph_ql b = b.graph_ql_pool

abbrev pub put_pool : Resource → Pool → Budget → Budget
put_pool rest p b = record b { rest_pool = p }
put_pool graph_ql p b = record b { graph_ql_pool = p }

-- A call costs one point at least.
abbrev pub charge : ℤ → ℤ
charge cost = if ltb_ℤ cost (pos 1) then pos 1 else cost

-- time.Duration of a difference: it stops at the ends of 64 bits.
unfoldable pub saturate : ℤ → ℤ
saturate d =
    if ltb_ℤ (pos (2 ^ 63 - 1)) d
    then pos (2 ^ 63 - 1)
    else if ltb_ℤ d (negsuc (2 ^ 63 - 1))
    then negsuc (2 ^ 63 - 1)
    else d

-- resetAt.Sub(now), where a negative wait is none.
unfoldable pub wait_until : ℤ → ℤ → ℤ
unfolding saturate
wait_until reset_at now = let w = saturate (reset_at -ℤ now) in if ltb_ℤ w (pos 0) then pos 0 else w

-- Whether the window of a known pool has elapsed.
unfoldable pub elapsed : Pool → ℤ → Bool
elapsed p now = p.known && not (eqb_ℤ p.reset_at (pos 0)) && ltb_ℤ p.reset_at now

-- Go's `remaining - cost`.
unfoldable pub left : Pool → ℤ → ℤ
left p cost = wrap64 (p.remaining -ℤ cost)

-- The wait and whether the call may go, once the stale view of an elapsed window is cleared.
unfoldable pub reserve_pool : ℤ → ℤ → Pool → ℤ × Bool × Pool
unfolding left wait_until
reserve_pool cost now p =
    if not p.known
    then (pos 0, true, record p { remaining = left p cost })
    else if ltb_ℤ (left p cost) safety_floor
    then (wait_until p.reset_at now, false, p)
    else (pos 0, true, record p { remaining = left p cost })

unfoldable pub cleared : Pool → ℤ → Pool
unfolding elapsed
cleared p now = if elapsed p now then record p { known = false } else p

-- `Reserve`, at the time of the clock.
unfoldable pub reserve : Resource → ℤ → ℤ → Budget → ℤ × Bool × Budget
unfolding reserve_pool cleared
reserve r cost now b =
    let (wait, granted, p) = reserve_pool (charge cost) now (cleared (get_pool r b) now) in
    (wait, granted, put_pool r p b)

-- `set`.
unfoldable pub set_pool : Resource → ℤ → ℤ → Budget → Budget
set_pool r remaining reset_at b =
    put_pool r (record { remaining = remaining; reset_at = reset_at; known = true }) b

-- `ObserveGraphQL`.
unfoldable pub observe_graph_ql : ℤ → ℤ → Budget → Budget
unfolding set_pool
observe_graph_ql remaining reset_at b = set_pool graph_ql remaining reset_at b

-- time.Unix(seconds, 0), from 1970.
unfoldable pub unix_time : ℤ → ℤ
unix_time seconds = scale 1000000000 (wrap64 (seconds +ℤ pos 62135596800))

-- `Remaining`.
unfoldable pub remaining : Resource → Budget → ℤ × Bool
remaining r b = let p = get_pool r b in (p.remaining, p.known)

module _ (parse_int : String → Option ℤ) where
  -- `atoi`, where strconv.Atoi is the parameter.
  unfoldable pub atoi : String → Option ℤ
  atoi s = if s == "" then none else parse_int s

  unfoldable pub observed : Option ℤ → Option ℤ → Budget → Budget
  unfolding set_pool unix_time
  observed (some n) (some seconds) b = set_pool rest n (unix_time seconds) b
  observed _ _ b = b

  -- `Observe`, on the headers of a response.
  unfoldable pub observe : (String → String) → Budget → Budget
  unfolding atoi observed
  observe header b =
      observed (atoi (header "X-RateLimit-Remaining")) (atoi (header "X-RateLimit-Reset")) b

-- `Registry`: the budgets by installation.
abbrev pub Registry : Type 0
Registry = List (ℤ × Budget)

-- `For`: an installation without a budget gets a new one.
unfoldable pub budget_for : ℤ → Registry → Budget
budget_for id [] = new_budget
budget_for id ((j, b) ∷ reg) = if eqb_ℤ j id then b else budget_for id reg

-- What a method leaves in the budget that `For` returned.
unfoldable pub store_budget : ℤ → Budget → Registry → Registry
store_budget id b [] = (id, b) ∷ []
store_budget id b ((j, c) ∷ reg) =
    if eqb_ℤ j id then (j, b) ∷ reg else (j, c) ∷ store_budget id b reg
