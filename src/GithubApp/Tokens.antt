-- ===== src/GithubApp/Tokens.antt =====
-- libs/go/githubapp/token.go: the tokens of the installations, minted on demand and cached.
--
-- One call at a time; the goroutines that share the cache are in the child module.
pub mod Burst
pub mod Served
use dev_intel_platform.Base.{
  String, Bool, ◌&&◌, not, List, [], ◌∷◌, Option, none, some, ◌==◌, if◌then◌else◌,
}
use dev_intel_platform.Base.Int.{ℤ, pos, ltb_ℤ, eqb_ℤ, ◌-ℤ◌}
use dev_intel_platform.Base.Text.{concat, show_int}
use dev_intel_platform.Json.{unmarshal, unmarshal_json}
use dev_intel_platform.GithubApp.Outside.{
  Request, Response, InstallationToken, not_signed, bad_request, bad_status, undecodable,
  empty_token, App, Call, give, fail, ◌>>=◌, require, clock, transmit,
}
use dev_intel_platform.GithubApp.Jwt.{app_jwt, max_ttl}
use dev_intel_platform.GithubApp.Replies.{Installation, decode_installations, decode_token}

-- Sixty seconds.
abbrev pub expiry_skew : ℤ
expiry_skew = pos 60000000000

unfoldable pub valid : InstallationToken → ℤ → Bool
valid t now = not (t.token == "") && ltb_ℤ now (t.expires_at -ℤ expiry_skew)

abbrev pub find_token : ℤ → List (ℤ × InstallationToken) → Option InstallationToken
find_token id [] = none
find_token id ((j, t) ∷ ts) = if eqb_ℤ j id then some t else find_token id ts

-- `ts.cache[installationID] = tok`
abbrev pub put_token :
    ℤ → InstallationToken → List (ℤ × InstallationToken) → List (ℤ × InstallationToken)
put_token id t [] = (id, t) ∷ []
put_token id t ((j, u) ∷ ts) = if eqb_ℤ j id then (j, t) ∷ ts else (j, u) ∷ put_token id t ts

module _ {Bytes S : Type 0} (app : App Bytes S) where
  -- The clock is read only where there is a token.
  unfoldable pub still_valid : Option InstallationToken → Call Bytes S (Option InstallationToken)
  unfolding valid
  still_valid none = give none
  still_valid (some t) = do now ← clock app; give (if valid t now then some t else none)

  unfoldable pub cached : ℤ → Call Bytes S (Option InstallationToken)
  unfolding still_valid
  cached id p = still_valid (find_token id p.tokens) p

  unfoldable pub app_headers : String → List (String × String)
  app_headers jwt =
      ("Authorization", concat "Bearer " jwt)
      ∷ ("Accept", "application/vnd.github+json")
      ∷ ("X-GitHub-Api-Version", "2022-11-28")
      ∷ []

  -- http.NewRequest refuses a URL that it cannot parse.
  abbrev pub send_valid : Request Bytes → Call Bytes S (Response Bytes)
  send_valid req = if app.net.valid_url req.url then transmit app req else fail bad_request

  -- A request with the JWT of the app, of which the body is empty.
  unfoldable pub app_request : String → String → Call Bytes S (Response Bytes)
  unfolding app_jwt app_headers
  app_request method path = do
    now ← clock app
    jwt ← require not_signed (app_jwt app now max_ttl)
    send_valid (record {
      method = method;
      url = concat app.api_base path;
      headers = app_headers jwt;
      body = none;
    })

  unfoldable pub minted : Response Bytes → Call Bytes S InstallationToken
  unfolding decode_token
  minted resp =
      let body = app.net.limited 1048576 resp.body in
      if not (eqb_ℤ resp.status (pos 201)) then fail (bad_status resp.status body) else do
        t ← require undecodable (unmarshal app.codec (decode_token app.codec) body)
        if t.token == "" then fail empty_token else give t

  unfoldable pub mint : ℤ → Call Bytes S InstallationToken
  unfolding app_request minted
  mint id = do
    resp ← app_request "POST" (concat "/app/installations/" (concat (show_int id) "/access_tokens"))
    minted resp

  unfoldable pub keep_token : ℤ → InstallationToken → Call Bytes S InstallationToken
  keep_token id t p = give t (record p { tokens = put_token id t p.tokens })

  unfoldable pub or_else :
      Option InstallationToken → Call Bytes S InstallationToken → Call Bytes S InstallationToken
  or_else (some t) other = give t
  or_else none other = other

  -- `Token`: the second look is the one under the lock of the installation.
  unfoldable pub token : ℤ → Call Bytes S InstallationToken
  unfolding cached mint keep_token or_else
  token id = do
    first ← cached id
    or_else first (do second ← cached id; or_else second (do t ← mint id; keep_token id t))

  unfoldable pub listed : Response Bytes → Call Bytes S (List Installation)
  unfolding decode_installations
  listed resp =
      let body = app.net.limited 1048576 resp.body in
      if not (eqb_ℤ resp.status (pos 200))
      then fail (bad_status resp.status body)
      else require undecodable (unmarshal_json app.codec decode_installations body)

  unfoldable pub list_installations : Call Bytes S (List Installation)
  unfolding app_request listed
  list_installations = do resp ← app_request "GET" "/app/installations?per_page=100"; listed resp
