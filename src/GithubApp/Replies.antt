-- ===== src/GithubApp/Replies.antt =====
-- The decoding of GitHub's answers: the structs that token.go, client.go and graphql.go decode into.
use dev_intel_platform.Base.{String, Bool, false, List, [], ◌∷◌, Option, none, some, ◌>>=◌}
use dev_intel_platform.Base.Int.{ℤ, pos}
use dev_intel_platform.Json.{
  Json, null, Fields, end, field, Codec, fields_of, sub_struct, field_or, or_zero, pointer, lookup,
  to_list, to_string, string_field, int_field, bool_field, time_field,
}
use dev_intel_platform.Connector.{FileChange}
use dev_intel_platform.GithubApp.Outside.{InstallationToken}

-- `Installation`.
pub record Installation : Type 0 where
  pub id : ℤ
  pub account : String

pub record InstallationRepo : Type 0 where
  pub full_name : String
  pub private : Bool

-- A slice of structs at the top or in a field: null is the nil slice.
abbrev structs : {A : Type 0} → A → (Fields → Option A) → Json → Option (List A)
structs z d = or_zero [] (to_list z (λ v. fields_of v >>= d))

abbrev pub some_structs : {A : Type 0} → A → (Fields → Option A) → Json → Option (Option (List A))
some_structs z d = or_zero none (λ v. to_list z (λ w. fields_of w >>= d) v >>= λ xs. some (some xs))

-- map[string]string: a null value is the empty text.
abbrev texts : Fields → Option (List (String × String))
texts end = some []
texts (field k v fs) = or_zero "" to_string v >>= λ s. texts fs >>= λ m. some ((k, s) ∷ m)

abbrev to_texts : Json → Option (List (String × String))
to_texts v = fields_of v >>= texts

unfoldable pub decode_installation_id : Fields → Option Installation
decode_installation_id fs = do
  id ← int_field "id" fs
  account ← sub_struct "account" fs
  login ← string_field "login" account
  some (record { id = id; account = login })

unfoldable pub decode_installations : Json → Option (List Installation)
unfolding decode_installation_id
decode_installations = structs (record { id = pos 0; account = "" }) decode_installation_id

unfoldable pub decode_repo : Fields → Option InstallationRepo
decode_repo fs = do
  full_name ← string_field "full_name" fs
  private ← bool_field "private" fs
  some (record { full_name = full_name; private = private })

unfoldable pub decode_repositories : Fields → Option (List InstallationRepo)
unfolding decode_repo
decode_repositories =
    field_or [] (structs (record { full_name = ""; private = false }) decode_repo) "repositories"

-- The elements of a list stay as they are.
unfoldable pub decode_list : Json → Option (List Json)
decode_list = or_zero [] (to_list null some)

-- `GraphQLError` has the messages; the data is a raw message, of which absence is nil.
unfoldable pub decode_envelope : Fields → Option (Option Json × List String)
decode_envelope fs = do
  messages ← field_or [] (structs "" (string_field "message")) "errors" fs
  some (lookup "data" fs, messages)

unfoldable pub decode_churn : Fields → Option FileChange
decode_churn fs = do
  path ← string_field "path" fs
  additions ← int_field "additions" fs
  deletions ← int_field "deletions" fs
  patch ← string_field "patch" fs
  truncated ← bool_field "truncated" fs
  some (record {
    path = path;
    additions = additions;
    deletions = deletions;
    patch = patch;
    truncated = truncated;
  })

abbrev no_change : FileChange
no_change = record {
  path = "";
  additions = pos 0;
  deletions = pos 0;
  patch = "";
  truncated = false;
}

unfoldable pub decode_oid : Fields → Option String
decode_oid fs = do commit ← sub_struct "commit" fs; string_field "oid" commit

-- The struct that EnrichPullRequest decodes.
pub record PullRequestDetail : Type 0 where
  pub additions : ℤ
  pub deletions : ℤ
  pub changed_files : ℤ
  pub oids : List String
  pub nodes : Option (List FileChange)

unfoldable pub decode_detail : Fields → Option PullRequestDetail
unfolding decode_churn decode_oid
decode_detail fs = do
  repository ← sub_struct "repository" fs
  pr ← sub_struct "pullRequest" repository
  additions ← int_field "additions" pr
  deletions ← int_field "deletions" pr
  changed_files ← int_field "changedFiles" pr
  commits ← sub_struct "commits" pr
  oids ← field_or [] (structs "" decode_oid) "nodes" commits
  files ← sub_struct "files" pr
  nodes ← field_or none (some_structs no_change decode_churn) "nodes" files
  some (record {
    additions = additions;
    deletions = deletions;
    changed_files = changed_files;
    oids = oids;
    nodes = nodes;
  })

-- One element of the answer of /pulls/{n}/files.
pub record RawFile : Type 0 where
  pub filename : String
  pub additions : ℤ
  pub deletions : ℤ
  pub patch : String

unfoldable pub decode_raw_file : Fields → Option RawFile
decode_raw_file fs = do
  filename ← string_field "filename" fs
  additions ← int_field "additions" fs
  deletions ← int_field "deletions" fs
  patch ← string_field "patch" fs
  some (record { filename = filename; additions = additions; deletions = deletions; patch = patch })

unfoldable pub decode_raw_files : Json → Option (List RawFile)
unfolding decode_raw_file
decode_raw_files =
    structs (record { filename = ""; additions = pos 0; deletions = pos 0; patch = "" })
      decode_raw_file

module _ {Bytes : Type 0} (codec : Codec Bytes) where
  -- The answer to the exchange of an app's JWT for a token.
  unfoldable pub decode_token : Fields → Option InstallationToken
  decode_token fs = do
    token ← string_field "token" fs
    expires_at ← time_field codec "expires_at" fs
    permissions ← field_or [] to_texts "permissions" fs
    some (record { token = token; expires_at = expires_at; permissions = permissions })

  abbrev rate : Fields → Option (ℤ × ℤ)
  rate fs = do
    remaining ← int_field "remaining" fs
    reset_at ← time_field codec "resetAt" fs
    some (remaining, reset_at)

  -- The rate limit of a query's answer, if the query asked for it.
  unfoldable pub decode_rate_limit : Fields → Option (Option (ℤ × ℤ))
  decode_rate_limit = pointer (λ v. fields_of v >>= rate) "rateLimit"
