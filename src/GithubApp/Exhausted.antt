-- ===== src/GithubApp/Exhausted.antt =====
-- An exhausted budget stops a call before any request.
use dev_intel_platform.Base.{String, ◌≡◌, refl, sym, subst, true, false, ◌&&◌, not, arith}
use dev_intel_platform.Base.Int.{ℤ, pos, ltb_ℤ, eqb_ℤ, ◌≤ℤ◌}
use dev_intel_platform.Json.{Fields}
use dev_intel_platform.GithubApp.RateLimit.{
  Resource, rest, graph_ql, Pool, Budget, get_pool, put_pool, charge, safety_floor, left, elapsed,
  cleared, wait_until, reserve_pool, reserve, budget_for, store_budget,
}
use dev_intel_platform.GithubApp.RateLimit.Store.{budget_for-same}
use dev_intel_platform.GithubApp.Outside.{
  Request, rate_limited, Answer, err, App, Process, Call, after,
}
use dev_intel_platform.GithubApp.Client.{reserve_at, reserve_budget, do_request}
use dev_intel_platform.GithubApp.Queries.{graph_ql_call}

-- A known pool, in its window, whose floor a call of this cost would pass.
pub record IsExhausted (p : Pool) (cost now : ℤ) : Type 0 where
  pub known : p.known ≡ true
  pub in_window : (not (eqb_ℤ p.reset_at (pos 0)) && ltb_ℤ p.reset_at now) ≡ false
  pub below : ltb_ℤ (left p (charge cost)) safety_floor ≡ true

wait_until-nonneg : (reset_at now : ℤ) → pos 0 ≤ℤ wait_until reset_at now
unfolding wait_until
wait_until-nonneg reset_at now = ground arith

exhausted-cleared : (p : Pool) (cost now : ℤ) → IsExhausted p cost now → cleared p now ≡ p
unfolding cleared elapsed
exhausted-cleared p cost now x = ground (arith, x.in_window)

exhausted_pool :
    (p : Pool) (cost now : ℤ)
    → IsExhausted p cost now
    → reserve_pool (charge cost) now p ≡ (wait_until p.reset_at now, false, p)
unfolding reserve_pool
exhausted_pool p cost now x = rw (x.known, x.below)

put_pool-same : (r : Resource) (b : Budget) → put_pool r (get_pool r b) b ≡ b
put_pool-same rest b = refl
put_pool-same graph_ql b = refl

reserve-exhausted :
    (r : Resource) (cost now : ℤ) (b : Budget)
    → IsExhausted (get_pool r b) cost now
    → reserve r cost now b ≡ (wait_until (get_pool r b).reset_at now, false, b)
unfolding reserve
reserve-exhausted r cost now b x = rw (
  exhausted-cleared (get_pool r b) cost now x,
  exhausted_pool (get_pool r b) cost now x,
  put_pool-same r b,
)

module _ {Bytes S : Type 0} (app : App Bytes S) where
  -- A call that came to nothing but a wait: the clock was read, and no more.
  pub record Stopped {A : Type 0} (r : Resource) (id : ℤ) (p : Process S)
      (x : Answer Bytes A × Process S) : Type 0 where
    pub wait : ℤ
    pub answer : x.0 ≡ err (rate_limited r wait)
    pub until_reset :
        wait ≡ wait_until (get_pool r (budget_for id p.budgets)).reset_at (app.net.now p.outer).0
    pub nonneg : pos 0 ≤ℤ wait
    pub only_clock : x.1.outer ≡ (app.net.now p.outer).1
    pub same_tokens : x.1.tokens ≡ p.tokens
    pub same_budgets : (k : ℤ) → budget_for k x.1.budgets ≡ budget_for k p.budgets

  -- The process once the clock was read and the budget stored as it was.
  abbrev looked_at : ℤ → Process S → Process S
  looked_at id p = record p {
    outer = (app.net.now p.outer).1;
    budgets = store_budget id (budget_for id p.budgets) p.budgets;
  }

  reserve_budget-exhausted :
      (r : Resource) (id cost : ℤ) (p : Process S)
      → IsExhausted (get_pool r (budget_for id p.budgets)) cost (app.net.now p.outer).0
      → reserve_budget app r id cost p ≡ (
        err (
            rate_limited r
              (wait_until (get_pool r (budget_for id p.budgets)).reset_at (app.net.now p.outer).0)),
        looked_at id p,
      )
  unfolding reserve_budget reserve_at
  reserve_budget-exhausted r id cost p x =
      rw (reserve-exhausted r cost (app.net.now p.outer).0 (budget_for id p.budgets) x)

  stopped :
      {A : Type 0} (r : Resource) (id cost : ℤ) (p : Process S) (k : Unit → Call Bytes S A)
      → IsExhausted (get_pool r (budget_for id p.budgets)) cost (app.net.now p.outer).0
      → Stopped r id p (after (reserve_budget app r id cost p) k)
  stopped r id cost p k x =
      subst (λ y. Stopped r id p (after y k)) (sym (reserve_budget-exhausted r id cost p x))
        (record {
          wait = wait_until (get_pool r (budget_for id p.budgets)).reset_at (app.net.now p.outer).0;
          answer = refl;
          until_reset = refl;
          nonneg = wait_until-nonneg _ _;
          only_clock = refl;
          same_tokens = refl;
          same_budgets = λ j. budget_for-same id j p.budgets;
        })

  -- A REST request whose cost would take the pool of its installation below the floor, in the window
  -- of the pool, is answered with the time to the reset, which is not negative. Only the clock is
  -- read: no request is sent, and the tokens and the budgets are those before.
  pub do_request-Stopped :
      (id cost : ℤ) (req : Request Bytes) (p : Process S)
      → IsExhausted (get_pool rest (budget_for id p.budgets)) cost (app.net.now p.outer).0
      → Stopped rest id p (do_request app id req cost p)
  unfolding do_request
  do_request-Stopped id cost req p x = stopped rest id cost p _ x

  pub graph_ql_call-Stopped :
      (id cost : ℤ) (query : String) (variables : Fields) (p : Process S)
      → IsExhausted (get_pool graph_ql (budget_for id p.budgets)) cost (app.net.now p.outer).0
      → Stopped graph_ql id p (graph_ql_call app id query variables cost p)
  unfolding graph_ql_call
  graph_ql_call-Stopped id cost query variables p x = stopped graph_ql id cost p _ x
