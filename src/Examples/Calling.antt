-- ===== src/Examples/Calling.antt =====
-- The GitHub App client at concrete inputs. The outside counts the requests that it was sent.
use dev_intel_platform.Base.{
  ℕ, suc, ◌≡◌, refl, true, [], ◌∷◌, some, none, arith, Bool, ◌==◌, if◌then◌else◌,
}
use dev_intel_platform.Base.Int.{ℤ, pos, ltb_ℤ, wrap64, ◌-ℤ◌}
use dev_intel_platform.Base.Text.{cut}
use dev_intel_platform.Json.{unmarshal, Json, str, num, obj, arr, end, field, Items}
use dev_intel_platform.Enrichment.{
  PrEnvelope, envelope_time, decode_pr_envelope, max_enrich_wait, status_rate_limited, enrich,
}
use dev_intel_platform.GithubApp.RateLimit.{
  Budget, rest, graph_ql, get_pool, left, budget_for, wait_until,
}
use dev_intel_platform.GithubApp.RateLimit.Charged.{IsObserved}
use dev_intel_platform.GithubApp.RateLimit.Spending.{Spent, Calls, other, spend, spend-Spent}
use dev_intel_platform.GithubApp.Outside.{App, Process, Request, Response}
use dev_intel_platform.GithubApp.Tokens.{token}
use dev_intel_platform.GithubApp.Tokens.Served.{Served, token-Served}
use dev_intel_platform.GithubApp.Client.{do_request}
use dev_intel_platform.GithubApp.Exhausted.{IsExhausted, Stopped, do_request-Stopped}
use dev_intel_platform.GithubApp.Queries.{fetch_pull_request_patches, split_repo}
use dev_intel_platform.GithubApp.Queries.Patches.{AreCapped, fetch_pull_request_patches-AreCapped}
use dev_intel_platform.GithubApp.Queries.Repos.{IsRepo, split_repo-IsRepo}
use dev_intel_platform.GithubApp.Jwt.Lifetime.{IsShortLived, claims-IsShortLived}
use dev_intel_platform.GithubApp.Connected.{connected, enrich-limited}
use dev_intel_platform.Examples.{plain_codec}

-- A token that expires after an hour, and one file with a patch, in one answer.
abbrev token_answer : Json
token_answer = obj (field "token" (str "ghs_1") (field "expires_at" (str "later") end))

abbrev files : Json
files = arr (
    Items.cons (obj (field "filename" (str "a.go") (field "patch" (str "@@ -1 +1 @@") end)))
      Items.nil)

abbrev response : ℤ → Json → Response Json
response status body = record { status = status; header = λ k. ""; body = body }

-- The clock stands at 1000 seconds; a GET is answered with files, a POST with a token.
abbrev app : App Json ℕ
app = record {
  codec = record plain_codec { parse_time = λ s. some (pos 3600000000000) };
  net = record {
    now = λ n. (pos 1000000000000, n);
    send = λ req n. elim req.body [
      | none ↦ (
        some (
            if req.method == "GET"
            then response (pos 200) files
            else response (pos 201) token_answer),
        suc n,
      )
      | some _ ↦ (none, suc n)
    ];
    valid_url = λ url. true;
    limited = λ n body. body;
    parse_int = λ s. none;
  };
  app_id = pos 7;
  encode = λ v. "e30";
  sign = λ s. some "c2ln";
  api_base = "https://api.github.com";
}

-- Sixty calls are left of REST and ten of GraphQL, and the windows end after two hours.
abbrev budget : Budget
budget = record {
  rest_pool = record { remaining = pos 60; reset_at = pos 7200000000000; known = true };
  graph_ql_pool = record { remaining = pos 10; reset_at = pos 7200000000000; known = true };
}

abbrev start_process : Process ℕ
start_process = record { outer = 0; tokens = []; budgets = (pos 42, budget) ∷ [] }

-- One of them is too many.
abbrev calls : Calls
calls = (pos 1, pos 1000000000000) ∷ (pos 20, pos 1000000000001) ∷ (pos 5, pos 1000000000002) ∷ []

observed_budget : IsObserved (get_pool rest budget)
observed_budget = record { known = refl; at_least = ground arith; fits = refl }

spend-Spent_example :
    Spent
      (get_pool rest budget)
      (spend rest calls budget).0
      (get_pool rest (spend rest calls budget).1)
    × (get_pool (other rest) (spend rest calls budget).1 ≡ get_pool (other rest) budget)
spend-Spent_example =
    spend-Spent rest calls budget observed_budget ((refl, refl), ((refl, refl), ((refl, refl), tt)))

token-Served_example : Served start_process (pos 42) (token app (pos 42) start_process)
token-Served_example = token-Served app (pos 42) start_process

budget-IsExhausted :
    IsExhausted
      (get_pool graph_ql (budget_for (pos 42) start_process.budgets))
      (pos 1)
      (pos 1000000000000)
unfolding left wrap64 ◌-ℤ◌ budget_for
budget-IsExhausted = record { known = refl; in_window = refl; below = refl }

rest-IsExhausted :
    IsExhausted
      (get_pool rest (budget_for (pos 42) start_process.budgets))
      (pos 20)
      (pos 1000000000000)
unfolding left wrap64 ◌-ℤ◌ budget_for
rest-IsExhausted = record { known = refl; in_window = refl; below = refl }

abbrev request : Request Json
request = record { method = "GET"; url = "https://api.github.com/meta"; headers = []; body = none }

do_request-Stopped_example :
    Stopped app rest (pos 42) start_process (do_request app (pos 42) request (pos 20) start_process)
do_request-Stopped_example =
    do_request-Stopped app (pos 42) (pos 20) request start_process rest-IsExhausted

fetch_pull_request_patches-AreCapped_example :
    AreCapped
      (pos 5)
      (fetch_pull_request_patches app (pos 42) "acme/app" (pos 7) (pos 5) start_process).0
fetch_pull_request_patches-AreCapped_example =
    fetch_pull_request_patches-AreCapped app (pos 42) "acme/app" (pos 7) (pos 5) start_process

split_repo-IsRepo_example :
    (split_repo "acme/app" ≡ some ("acme", "app") → IsRepo "acme/app" "acme" "app")
    × (IsRepo "acme/app" "acme" "app" → split_repo "acme/app" ≡ some ("acme", "app"))
split_repo-IsRepo_example = split_repo-IsRepo "acme/app" "acme" "app"

claims-IsShortLived_example : IsShortLived (pos 63000000000000000000) (pos 600000000000)
claims-IsShortLived_example = claims-IsShortLived (pos 63000000000000000000) (pos 600000000000)

abbrev sleep : ℤ → ℕ → Bool × ℕ
sleep wait n = (true, n)

abbrev body : Json
body = obj (
    field "number" (num (pos 7)) (
      field "repository" (obj (field "full_name" (str "acme/app") end))
        (field "installation" (obj (field "id" (num (pos 42)) end)) end)))

abbrev envelope : PrEnvelope
envelope = record {
  number = pos 7;
  updated_at = pos 0;
  created_at = pos 0;
  repository = "acme/app";
  installation = pos 42;
}

body_decoded : unmarshal plain_codec (decode_pr_envelope plain_codec) body ≡ some envelope
unfolding decode_pr_envelope
body_decoded = refl

repo_split : split_repo "acme/app" ≡ some ("acme", "app")
unfolding split_repo cut
repo_split = refl

long_wait :
    ltb_ℤ max_enrich_wait (
      wait_until
        (get_pool graph_ql (budget_for (pos 42) start_process.budgets)).reset_at
        (pos 1000000000000))
    ≡ true
unfolding wait_until budget_for ◌-ℤ◌
long_wait = refl

enrich-limited_example :
    ((enrich plain_codec
        (some (connected app sleep))
        true
        (pos 5)
        "pull_request"
        body
        start_process).0
      ≡ (body, status_rate_limited, envelope_time envelope))
    × ((enrich plain_codec
          (some (connected app sleep))
          true
          (pos 5)
          "pull_request"
          body
          start_process).1.outer
        ≡ 0)
enrich-limited_example =
    enrich-limited app sleep plain_codec true (pos 5) body envelope "acme" "app" start_process
      body_decoded refl repo_split budget-IsExhausted long_wait
