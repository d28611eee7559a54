-- ===== src/GithubApp/Connected.antt =====
-- The connector with the GitHub App client: services/connector-github/main.go over libs/go/githubapp.
use dev_intel_platform.Base.{String, ◌≡◌, Bool, true, false, ◌||◌, some, ◌==◌}
use dev_intel_platform.Base.Int.{ℤ, pos, eqb_ℤ, ltb_ℤ}
use dev_intel_platform.Json.{Codec, unmarshal, field, end, str, num}
use dev_intel_platform.Enrichment.{
  Client, Fetch, fetched, rate_limited, failed, PrEnvelope, max_enrich_wait, decode_pr_envelope,
  status_rate_limited, envelope_time, fetch_enrichment, enrich,
}
use dev_intel_platform.GithubApp.RateLimit.{graph_ql, get_pool, wait_until, budget_for}
use dev_intel_platform.GithubApp.Outside.{Answer, ok, err, App, Process, Call, after}
use dev_intel_platform.GithubApp.Outside
use dev_intel_platform.GithubApp.Queries.{
  split_repo, query_detail, graph_ql_call, pr_enrich_query, enrich_pull_request,
  fetch_pull_request_patches,
}
use dev_intel_platform.GithubApp.Exhausted.{IsExhausted, Stopped, graph_ql_call-Stopped}

-- errors.As: a rate limit with its wait, or any other error.
unfoldable pub fetch_of : {Bytes A : Type 0} → Answer Bytes A → Fetch A
fetch_of (ok a) = fetched a
fetch_of (err (Outside.rate_limited r wait)) = rate_limited wait
fetch_of (err _) = failed

module _ {Bytes S : Type 0} (app : App Bytes S) (sleep : ℤ → S → Bool × S) where
  -- The client that the connector calls.
  unfoldable pub connected : Client (Process S)
  unfolding fetch_of enrich_pull_request fetch_pull_request_patches
  connected = record {
    enrich_pull_request = λ id repo number p.
        let (x, p') = enrich_pull_request app id repo number p in (fetch_of x, p');
    fetch_pull_request_patches = λ id repo number max_bytes p.
        let (x, p') = fetch_pull_request_patches app id repo number max_bytes p in (fetch_of x, p');
    sleep = λ wait p. let (slept, s) = sleep wait p.outer in (slept, record p { outer = s });
  }

  -- What stops a call stops all that follows it.
  after-Stopped :
      {A B : Type 0} (id : ℤ) (p : Process S) (k : A → Call Bytes S B) (x : Answer Bytes A)
      (q : Process S)
      → (s : Stopped app graph_ql id p (x, q))
      → after (x, q) k ≡ (err (Outside.rate_limited graph_ql s.wait), q)
  after-Stopped id p k x q s = rw s.answer

  enrich_pull_request-stopped :
      (id number : ℤ) (repo owner name : String) (p : Process S)
      → split_repo repo ≡ some (owner, name)
      → IsExhausted (get_pool graph_ql (budget_for id p.budgets)) (pos 1) (app.net.now p.outer).0
      → (q : Process S) × (enrich_pull_request app id repo number p ≡ (
        err (
            Outside.rate_limited graph_ql (
              wait_until
                (get_pool graph_ql (budget_for id p.budgets)).reset_at
                (app.net.now p.outer).0)),
        q,
      ))
        × (q.outer ≡ (app.net.now p.outer).1)
  unfolding enrich_pull_request query_detail
  enrich_pull_request-stopped id number repo owner name p e x =
      let vars =
        field "name" (str name) (field "number" (num number) (field "owner" (str owner) end)) in
      let y = graph_ql_call app id pr_enrich_query vars (pos 1) p in
      let s = graph_ql_call-Stopped app id (pos 1) pr_enrich_query vars p x in
      (y.1, rw (e, after-Stopped id p _ y.0 y.1 s, s.until_reset), s.only_clock)

  -- A wait that is too long ends the enrichment.
  fetch-limited :
      (fetch_patches : Bool) (max_bytes wait : ℤ) (env : PrEnvelope) (p q : Process S)
      → enrich_pull_request app env.installation env.repository env.number p
        ≡ (err (Outside.rate_limited graph_ql wait), q)
      → ltb_ℤ max_enrich_wait wait ≡ true
      → fetch_enrichment connected fetch_patches max_bytes env p ≡ (rate_limited wait, q)
  unfolding fetch_enrichment connected
  fetch-limited fetch_patches max_bytes wait env p q e long = rw (e, long)

  -- A pull_request event whose body names its installation and repository, while the GraphQL budget
  -- of that installation is exhausted and its reset is more than the connector's longest wait away,
  -- keeps its body, has the status rate_limited and the time of its payload, and of the outside only
  -- the clock was used.
  pub enrich-limited :
      (codec : Codec Bytes) (fetch_patches : Bool) (max_bytes : ℤ) (body : Bytes) (env : PrEnvelope)
      (owner name : String) (p : Process S)
      → unmarshal codec (decode_pr_envelope codec) body ≡ some env
      → (eqb_ℤ env.installation (pos 0) || env.repository == "") ≡ false
      → split_repo env.repository ≡ some (owner, name)
      → IsExhausted
          (get_pool graph_ql (budget_for env.installation p.budgets))
          (pos 1)
          (app.net.now p.outer).0
      → ltb_ℤ max_enrich_wait (
          wait_until
            (get_pool graph_ql (budget_for env.installation p.budgets)).reset_at
            (app.net.now p.outer).0)
        ≡ true
      → let x = enrich codec (some connected) fetch_patches max_bytes "pull_request" body p in
        (x.0 ≡ (body, status_rate_limited, envelope_time env))
        × (x.1.outer ≡ (app.net.now p.outer).1)
  unfolding enrich
  enrich-limited codec fetch_patches max_bytes body env owner name p decoded named split x long =
      let (q, e, c) =
        enrich_pull_request-stopped env.installation env.number env.repository owner name p split
          x in
      (
        rw (decoded, named, fetch-limited fetch_patches max_bytes _ env p q e long),
        rw (decoded, named, fetch-limited fetch_patches max_bytes _ env p q e long, c),
      )
