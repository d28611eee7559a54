-- ===== src/GithubApp/Env.antt =====
-- libs/go/githubapp/env.go: a client from the environment.
--
-- Reading a file and strconv.ParseInt are parameters; `configure` makes an app of credentials and a
-- base URL, since what the client calls outside is not of the environment.
use dev_intel_platform.Base.{String, ◌||◌, [], Option, none, some, ◌>>=◌, ◌==◌, if◌then◌else◌}
use dev_intel_platform.Base.Int.{ℤ}
use dev_intel_platform.Config.{string_of}
use dev_intel_platform.GithubApp.Outside.{App, Process}
use dev_intel_platform.GithubApp.Jwt.{KeyParsers, AppCredentials, new_app_credentials}

-- GitHub's REST root.
abbrev pub default_api_base : String
default_api_base = "https://api.github.com"

-- `NewTokenSource` and `NewClient`: nothing is cached, and no budget is known.
unfoldable pub new_process : {S : Type 0} → S → Process S
new_process s = record { outer = s; tokens = []; budgets = [] }

module _ {Bytes Rsa S : Type 0} (env : String → String) (parse_int : String → Option ℤ)
    (read_file : String → Option Bytes) (parsers : KeyParsers Bytes Rsa)
    (configure : AppCredentials Rsa → String → App Bytes S) where
  unfoldable pub api_base_of : String
  unfolding string_of
  api_base_of =
      let base = string_of env "GITHUB_API_BASE" "" in if base == "" then default_api_base else base

  unfoldable pub load_credentials : String → String → Option (AppCredentials Rsa)
  unfolding new_app_credentials
  load_credentials id_text key_path = do
    app_id ← parse_int id_text
    pem_bytes ← read_file key_path
    new_app_credentials parsers app_id pem_bytes

  -- `LoadFromEnv`.
  unfoldable pub load_from_env : Option (App Bytes S)
  unfolding string_of load_credentials api_base_of
  load_from_env =
      let id_text = string_of env "GITHUB_APP_ID" "" in
      let key_path = string_of env "GITHUB_APP_PRIVATE_KEY_PATH" "" in
      if id_text == "" || key_path == ""
      then none
      else load_credentials id_text key_path >>= λ creds. some (configure creds api_base_of)
