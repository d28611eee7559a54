-- ===== src/Enrichment.antt =====
-- services/connector-github/main.go: from the topic of raw webhooks to that of enriched ones.
--
-- The GitHub client is an interface here: what it answers, and how it changes its own state, are
-- parameters. Sleeping answers whether the context was still there at the end.
pub mod Consuming
pub mod Passing
pub mod RoundTrip
pub mod Composed
use dev_intel_platform.Base.{
  String, Bool, true, false, ◌||◌, not, List, [], ◌∷◌, Option, none, some, ◌>>=◌, ◌==◌,
  if◌then◌else◌,
}
use dev_intel_platform.Base.Int.{ℤ, pos, eqb_ℤ, ltb_ℤ}
use dev_intel_platform.Json.{
  Json, null, num, obj, arr, Fields, end, field, insert, Codec, unmarshal, sub_struct, int_field,
  time_field,
}
use dev_intel_platform.Events.{header_git_hub_event, header_enrich_status, header_occurred_at}
use dev_intel_platform.Connector.{FileChange}
use dev_intel_platform.Kafka.{Headers, Message, get, put}
use dev_intel_platform.Github.Decode.{decode_repository, decode_installation}
use dev_intel_platform.Normalizer.Payloads.{strings, file_changes}

abbrev pub status_enriched : String
status_enriched = "enriched"

abbrev pub status_skipped : String
status_skipped = "skipped"

abbrev pub status_disabled : String
status_disabled = "disabled"

abbrev pub status_failed : String
status_failed = "failed"

abbrev pub status_rate_limited : String
status_rate_limited = "rate_limited"

-- Thirty seconds.
abbrev pub max_enrich_wait : ℤ
max_enrich_wait = pos 30000000000

pub record PullRequestEnrichment : Type 0 where
  pub additions : ℤ
  pub deletions : ℤ
  pub changed_files : ℤ
  pub commit_oids : List String
  pub files : Option (List FileChange)  -- none is the nil slice

-- What a call of the client comes to; a rate limit says how long to wait.
pub data Fetch (A : Type 0) : Type 0 where
  fetched : A → Fetch A
  rate_limited : ℤ → Fetch A
  failed : Fetch A

-- githubapp.Client with the timer of `sleep`, over the state of both.
pub record Client (S : Type 0) : Type 0 where
  pub enrich_pull_request : ℤ → String → ℤ → S → Fetch PullRequestEnrichment × S
  pub fetch_pull_request_patches : ℤ → String → ℤ → ℤ → S → Fetch (List FileChange) × S
  pub sleep : ℤ → S → Bool × S

pub record PrEnvelope : Type 0 where
  pub number : ℤ
  pub updated_at : ℤ
  pub created_at : ℤ
  pub repository : String
  pub installation : ℤ

-- json.Marshal of a slice, which is null where it is nil; the ids are appended to a nil slice.
unfoldable pub commit_oids_json : List String → Json
unfolding strings
commit_oids_json [] = null
commit_oids_json (s ∷ ss) = arr (strings (s ∷ ss))

unfoldable pub files_json : Option (List FileChange) → Json
unfolding file_changes
files_json none = null
files_json (some fs) = arr (file_changes fs)

unfoldable pub enrichment_json : PullRequestEnrichment → Json
unfolding commit_oids_json files_json
enrichment_json enr = obj (
    field "additions" (num enr.additions) (
      field "deletions" (num enr.deletions) (
        field "changed_files" (num enr.changed_files) (
          field "commit_oids" (commit_oids_json enr.commit_oids)
            (field "files" (files_json enr.files) end)))))

unfoldable pub as_object : Json → Option Fields
as_object (obj fs) = some fs
as_object _ = none

module _ {Bytes : Type 0} (codec : Codec Bytes) where
  unfoldable pub decode_pr_envelope : Fields → Option PrEnvelope
  unfolding decode_repository decode_installation
  decode_pr_envelope fs = do
    number ← int_field "number" fs
    pr ← sub_struct "pull_request" fs
    updated_at ← time_field codec "updated_at" pr
    created_at ← time_field codec "created_at" pr
    repository ← decode_repository fs
    installation ← decode_installation fs
    some (record {
      number = number;
      updated_at = updated_at;
      created_at = created_at;
      repository = repository;
      installation = installation;
    })

  -- `mergeEnrichment`: the block is one more key of the payload.
  unfoldable pub merge_enrichment : Bytes → PullRequestEnrichment → Option Bytes
  unfolding as_object enrichment_json
  merge_enrichment body enr = do
    v ← codec.parse body
    fs ← as_object v
    some (codec.print_fields (insert "_enrichment" (enrichment_json enr) fs))

module _ {S : Type 0} (client : Client S) (fetch_patches : Bool) (patch_max_bytes : ℤ)
    (env : PrEnvelope) where
  unfoldable pub ask : S → Fetch PullRequestEnrichment × S
  ask s = client.enrich_pull_request env.installation env.repository env.number s

  -- A second call after a short wait, unless the context ended meanwhile.
  unfoldable pub ask_again : ℤ → Bool × S → Fetch PullRequestEnrichment × S
  unfolding ask
  ask_again wait (slept, s) = if slept then ask s else (rate_limited wait, s)

  unfoldable pub waited : Fetch PullRequestEnrichment × S → Fetch PullRequestEnrichment × S
  unfolding ask_again
  waited (rate_limited wait, s) =
      if ltb_ℤ max_enrich_wait wait
      then (rate_limited wait, s)
      else ask_again wait (client.sleep wait s)
  waited (r, s) = (r, s)

  -- The patches are a bonus: without them the enrichment stays.
  unfoldable pub with_files :
      PullRequestEnrichment → Fetch (List FileChange) × S → Fetch PullRequestEnrichment × S
  with_files enr (fetched files, s) = (fetched (record enr { files = some files }), s)
  with_files enr (_, s) = (fetched enr, s)

  unfoldable pub overlay : Fetch PullRequestEnrichment × S → Fetch PullRequestEnrichment × S
  unfolding with_files
  overlay (fetched enr, s) =
      if fetch_patches
      then with_files enr (
          client.fetch_pull_request_patches env.installation env.repository env.number
            patch_max_bytes s)
      else (fetched enr, s)
  overlay (r, s) = (r, s)

  unfoldable pub fetch_enrichment : S → Fetch PullRequestEnrichment × S
  unfolding ask waited overlay
  fetch_enrichment s = overlay (waited (ask s))

-- What `enrich` returns: the body, the status, and the source's time.
abbrev pub Enriched : Type 0 → Type 0
Enriched Bytes = Bytes × String × ℤ

unfoldable pub envelope_time : PrEnvelope → ℤ
envelope_time env = if eqb_ℤ env.updated_at (pos 0) then env.created_at else env.updated_at

module _ {Bytes S : Type 0} (codec : Codec Bytes) (client : Option (Client S))
    (fetch_patches : Bool) (patch_max_bytes : ℤ) where
  unfoldable pub merged : Bytes → ℤ → Option Bytes → Enriched Bytes
  merged body at none = (body, status_failed, at)
  merged body at (some body') = (body', status_enriched, at)

  unfoldable pub with_answer : Bytes → ℤ → Fetch PullRequestEnrichment × S → Enriched Bytes × S
  unfolding merged merge_enrichment
  with_answer body at (fetched enr, s) = (merged body at (merge_enrichment codec body enr), s)
  with_answer body at (rate_limited wait, s) = ((body, status_rate_limited, at), s)
  with_answer body at (failed, s) = ((body, status_failed, at), s)

  unfoldable pub with_client : Option (Client S) → Bytes → PrEnvelope → S → Enriched Bytes × S
  unfolding envelope_time with_answer fetch_enrichment
  with_client none body env s = ((body, status_disabled, envelope_time env), s)
  with_client (some c) body env s =
      with_answer body (envelope_time env) (fetch_enrichment c fetch_patches patch_max_bytes env s)

  unfoldable pub enrich_envelope : Bytes → Option PrEnvelope → S → Enriched Bytes × S
  unfolding with_client
  enrich_envelope body none s = ((body, status_failed, pos 0), s)
  enrich_envelope body (some env) s =
      if eqb_ℤ env.installation (pos 0) || env.repository == ""
      then ((body, status_failed, pos 0), s)
      else with_client client body env s

  unfoldable pub enrich : String → Bytes → S → Enriched Bytes × S
  unfolding enrich_envelope decode_pr_envelope
  enrich event_type body s =
      if not (event_type == "pull_request")
      then ((body, status_skipped, pos 0), s)
      else enrich_envelope body (unmarshal codec (decode_pr_envelope codec) body) s

-- `process`: the message that is written to the enriched topic. What observability.Inject does to
-- the headers, and the RFC 3339 text of an instant, are parameters.
unfoldable pub enriched_message :
    {Bytes : Type 0}
    → (Headers → Headers)
    → (ℤ → String)
    → Message Bytes
    → Enriched Bytes
    → Message Bytes
enriched_message inject format msg (body, status, at) =
    let stamped = put header_enrich_status status msg.headers in
    let timed = if eqb_ℤ at (pos 0) then stamped else put header_occurred_at (format at) stamped in
    record { key = msg.key; value = body; headers = inject timed }

unfoldable pub process_enrichment :
    {Bytes S : Type 0}
    → Codec Bytes
    → Option (Client S)
    → Bool
    → ℤ
    → (Headers → Headers)
    → (ℤ → String)
    → Message Bytes
    → S
    → Message Bytes × S
unfolding enrich enriched_message
process_enrichment codec client fetch_patches patch_max_bytes inject format msg s =
    let (e, s') =
      enrich codec client fetch_patches patch_max_bytes (get header_git_hub_event msg.headers)
        msg.value s in
    (enriched_message inject format msg e, s')
