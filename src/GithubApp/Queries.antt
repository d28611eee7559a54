-- ===== src/GithubApp/Queries.antt =====
-- libs/go/githubapp/graphql.go: GraphQL queries, and the detail of a pull request.
pub mod Patches
pub mod Repos
use dev_intel_platform.Base.{
  String, ◌&&◌, ◌||◌, List, [], ◌∷◌, Option, none, some, ◌==◌, if◌then◌else◌, map,
}
use dev_intel_platform.Base.Int.{ℤ, pos, ltb_ℤ}
use dev_intel_platform.Base.Text.{concat, show_int, cut, byte_length}
use dev_intel_platform.Json.{
  Json, num, str, obj, Fields, end, field, decode_struct, unmarshal, unmarshal_json,
}
use dev_intel_platform.Connector.{FileChange}
use dev_intel_platform.Enrichment.{PullRequestEnrichment}
use dev_intel_platform.GithubApp.RateLimit.{graph_ql, observe_graph_ql, budget_for, store_budget}
use dev_intel_platform.GithubApp.Outside.{
  Response, InstallationToken, bad_request, undecodable, bad_repo, graph_ql_failed, App, Process,
  Call, give, fail, ◌>>=◌, require, transmit,
}
use dev_intel_platform.GithubApp.Tokens.{token}
use dev_intel_platform.GithubApp.Client.{reserve_budget, get, decoded}
use dev_intel_platform.GithubApp.Replies.{
  PullRequestDetail, RawFile, decode_envelope, decode_rate_limit, decode_detail, decode_raw_files,
}

abbrev pub both_named : String × String → Option (String × String)
both_named (owner, name) = if owner == "" || name == "" then none else some (owner, name)

abbrev pub named : Option (String × String) → Option (String × String)
named none = none
named (some p) = both_named p

unfoldable pub split_repo : String → Option (String × String)
split_repo repo = named (cut 47 repo)  -- '/'

abbrev pub pr_enrich_query : String
pr_enrich_query =
    "query($owner:String!,$name:String!,$number:Int!){\n  repository(owner:$owner,name:$name){\n    pullRequest(number:$number){\n      additions deletions changedFiles\n      commits(first:100){nodes{commit{oid}}}\n      files(first:100){nodes{path additions deletions}}\n    }\n  }\n  rateLimit{cost remaining resetAt}\n}"

-- A patch that is over the cap is dropped, and the file says so; no cap is 0.
unfoldable pub file_of : ℤ → RawFile → FileChange
file_of max_bytes f =
    let dropped = ltb_ℤ (pos 0) max_bytes && ltb_ℤ max_bytes (pos (byte_length f.patch)) in
    record {
      path = f.filename;
      additions = f.additions;
      deletions = f.deletions;
      patch = if dropped then "" else f.patch;
      truncated = dropped;
    }

abbrev not_blank : List String → List String
not_blank [] = []
not_blank (s ∷ ss) = let rest = not_blank ss in if s == "" then rest else s ∷ rest

unfoldable pub enrichment_of : PullRequestDetail → PullRequestEnrichment
enrichment_of d = record {
  additions = d.additions;
  deletions = d.deletions;
  changed_files = d.changed_files;
  commit_oids = not_blank d.oids;
  files = d.nodes;
}

-- json.Unmarshal of a raw message into a struct; there may be no message.
abbrev decode_data : {A : Type 0} → (Fields → Option A) → Option Json → Option A
decode_data d none = none
decode_data d (some v) = decode_struct d v

module _ {Bytes S : Type 0} (app : App Bytes S) where
  -- `observeGraphQLRate` on the data of an answer, as far as it was decoded.
  unfoldable pub observe_rate : ℤ → Option (Option (ℤ × ℤ)) → Process S → Process S
  observe_rate id (some (some (remaining, reset_at))) p =
      let budget = observe_graph_ql remaining reset_at (budget_for id p.budgets) in
      record p { budgets = store_budget id budget p.budgets }
  observe_rate id _ p = p

  unfoldable pub observe_graph_ql_rate : ℤ → Option Json → Process S → Process S
  unfolding observe_rate decode_rate_limit
  observe_graph_ql_rate id reply p =
      observe_rate id (decode_data (decode_rate_limit app.codec) reply) p

  unfoldable pub graph_ql_headers : InstallationToken → List (String × String)
  graph_ql_headers tok =
      ("Authorization", concat "token " tok.token)
      ∷ ("Accept", "application/vnd.github+json")
      ∷ ("Content-Type", "application/json")
      ∷ []

  unfoldable pub graph_ql_request : Bytes → InstallationToken → Call Bytes S (Response Bytes)
  unfolding graph_ql_headers
  graph_ql_request body tok =
      let url = concat app.api_base "/graphql" in
      if app.net.valid_url url
      then transmit app
          (record { method = "POST"; url = url; headers = graph_ql_headers tok; body = some body })
      else fail bad_request

  -- The errors of an answer of status 200, or its data.
  unfoldable pub checked : ℤ → Option Json × List String → Call Bytes S (Option Json)
  unfolding observe_graph_ql_rate
  checked id (reply, []) p = give reply (observe_graph_ql_rate id reply p)
  checked id (reply, m ∷ ms) p = fail (graph_ql_failed (m ∷ ms)) p

  -- `GraphQL`.
  unfoldable pub graph_ql_call : ℤ → String → Fields → ℤ → Call Bytes S (Option Json)
  unfolding reserve_budget graph_ql_request checked decode_envelope
  graph_ql_call id query variables cost = do
    _ ← reserve_budget app graph_ql id cost
    tok ← token app id
    resp ←
        graph_ql_request
          (app.codec.print_fields
            (field "query" (str query) (field "variables" (obj variables) end)))
          tok
    reply ←
        decoded app (unmarshal app.codec decode_envelope) (app.net.limited 16777216 resp.body)
          resp.status
    checked id reply

  unfoldable pub query_detail : ℤ → ℤ → String × String → Call Bytes S PullRequestEnrichment
  unfolding graph_ql_call decode_detail enrichment_of
  query_detail id number (owner, name) = do
    reply ←
        graph_ql_call id pr_enrich_query
          (field "name" (str name) (field "number" (num number) (field "owner" (str owner) end)))
          (pos 1)
    detail ← require undecodable (decode_data decode_detail reply)
    give (enrichment_of detail)

  unfoldable pub enrich_pull_request : ℤ → String → ℤ → Call Bytes S PullRequestEnrichment
  unfolding split_repo query_detail
  enrich_pull_request id repo number = do
    owner_name ← require bad_repo (split_repo repo)
    query_detail id number owner_name

  unfoldable pub fetch_pull_request_patches : ℤ → String → ℤ → ℤ → Call Bytes S (List FileChange)
  unfolding get file_of decode_raw_files
  fetch_pull_request_patches id repo number max_bytes = do
    resp ← get app id (
        concat "/repos/"
          (concat repo (concat "/pulls/" (concat (show_int number) "/files?per_page=100"))))
    raw ←
        decoded app (unmarshal_json app.codec decode_raw_files) (app.net.limited 16777216 resp.body)
          resp.status
    give (map (file_of max_bytes) raw)
