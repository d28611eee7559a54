-- ===== src/GithubApp/Client.antt =====
-- libs/go/githubapp/client.go: requests for an installation, against its rate budget.
use dev_intel_platform.Base.{
  String, Bool, true, false, not, List, [], ◌∷◌, Option, none, if◌then◌else◌,
}
use dev_intel_platform.Base.Int.{ℤ, pos, eqb_ℤ}
use dev_intel_platform.Base.Text.{concat}
use dev_intel_platform.Json.{Json, unmarshal, unmarshal_json}
use dev_intel_platform.GithubApp.RateLimit.{
  Resource, rest, reserve, observe, budget_for, store_budget,
}
use dev_intel_platform.GithubApp.Outside.{
  Request, Response, InstallationToken, bad_request, bad_status, undecodable, rate_limited, App,
  Call, give, fail, ◌>>=◌, require, clock, transmit,
}
use dev_intel_platform.GithubApp.Tokens.{token}
use dev_intel_platform.GithubApp.Replies.{InstallationRepo, decode_repositories, decode_list}

-- `Capabilities`.
pub record Capabilities : Type 0 where
  pub deployments : Bool
  pub releases : Bool

module _ {Bytes S : Type 0} (app : App Bytes S) where
  -- What `Reserve` answered, as an error where the call may not go.
  abbrev pub granted_or : Resource → ℤ × Bool → Call Bytes S Unit
  granted_or r (wait, true) = give tt
  granted_or r (wait, false) = fail (rate_limited r wait)

  unfoldable pub reserve_at : Resource → ℤ → ℤ → ℤ → Call Bytes S Unit
  reserve_at r id cost now p =
      let (wait, granted, budget) = reserve r cost now (budget_for id p.budgets) in
      granted_or r (wait, granted) (record p { budgets = store_budget id budget p.budgets })

  -- `Reserve` reads the clock.
  unfoldable pub reserve_budget : Resource → ℤ → ℤ → Call Bytes S Unit
  unfolding reserve_at
  reserve_budget r id cost = do now ← clock app; reserve_at r id cost now

  unfoldable pub observe_response : ℤ → Response Bytes → Call Bytes S (Response Bytes)
  observe_response id resp p =
      let budget = observe app.net.parse_int resp.header (budget_for id p.budgets) in
      give resp (record p { budgets = store_budget id budget p.budgets })

  unfoldable pub token_headers : InstallationToken → List (String × String)
  token_headers tok =
      ("Authorization", concat "token " tok.token)
      ∷ ("Accept", "application/vnd.github+json")
      ∷ ("X-GitHub-Api-Version", "2022-11-28")
      ∷ []

  -- `Do`, on a request that has no headers yet.
  unfoldable pub do_request : ℤ → Request Bytes → ℤ → Call Bytes S (Response Bytes)
  unfolding reserve_budget token_headers observe_response
  do_request id req cost = do
    _ ← reserve_budget rest id cost
    tok ← token app id
    resp ← transmit app (record req { headers = token_headers tok })
    observe_response id resp

  unfoldable pub get : ℤ → String → Call Bytes S (Response Bytes)
  unfolding do_request
  get id path =
      let url = concat app.api_base path in
      if app.net.valid_url url
      then do_request id (record { method = "GET"; url = url; headers = []; body = none }) (pos 1)
      else fail bad_request

  -- The body of an answer of status 200, decoded.
  abbrev pub decoded : {A : Type 0} → (Bytes → Option A) → Bytes → ℤ → Call Bytes S A
  decoded decode body status =
      if not (eqb_ℤ status (pos 200))
      then fail (bad_status status body)
      else require undecodable (decode body)

  unfoldable pub list_installation_repos : ℤ → Call Bytes S (List InstallationRepo)
  unfolding get
  list_installation_repos id = do
    resp ← get id "/installation/repositories?per_page=100"
    decoded (unmarshal app.codec decode_repositories) (app.net.limited 4194304 resp.body)
        resp.status

  abbrev not_empty : List Json → Bool
  not_empty [] = false
  not_empty (x ∷ xs) = true

  unfoldable pub has_any : ℤ → String → Call Bytes S Bool
  unfolding get
  has_any id path = do
    resp ← get id path
    items ←
        decoded (unmarshal_json app.codec decode_list) (app.net.limited 1048576 resp.body)
          resp.status
    give (not_empty items)

  unfoldable pub detect_repo_capabilities : ℤ → String → Call Bytes S Capabilities
  unfolding has_any
  detect_repo_capabilities id repo = do
    deployments ← has_any id (concat "/repos/" (concat repo "/deployments?per_page=1"))
    releases ← has_any id (concat "/repos/" (concat repo "/releases?per_page=1"))
    give (record { deployments = deployments; releases = releases })
