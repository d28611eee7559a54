-- ===== src/Github/Decode/Pulls.antt =====
-- The payloads of pull requests and of their reviews, with the block that the connector merges in.
use dev_intel_platform.Base.{Bool, [], Option, some, ◌>>=◌}
use dev_intel_platform.Base.Int.{pos}
use dev_intel_platform.Json.{
  Fields, Codec, fields_of, sub_struct, field_or, pointer, to_string, to_int, to_list, string_field,
  int_field, bool_field, time_field, time_pointer,
}
use dev_intel_platform.Connector.{FileChange}
use dev_intel_platform.Github.Payload.{PullRequest, PrEnrichment, PrPayload, ReviewPayload}
use dev_intel_platform.Github.Decode.{decode_installation, decode_repository, decode_actor}

unfoldable pub decode_file_change : Fields → Option FileChange
decode_file_change fs = do
  path ← string_field "path" fs
  additions ← int_field "additions" fs
  deletions ← int_field "deletions" fs
  patch ← string_field "patch" fs
  truncated ← bool_field "truncated" fs
  some (record {
    path = path;
    additions = additions;
    deletions = deletions;
    patch = patch;
    truncated = truncated;
  })

abbrev pub no_file_change : FileChange
no_file_change = record {
  path = "";
  additions = pos 0;
  deletions = pos 0;
  patch = "";
  truncated = Bool.false;
}

unfoldable pub decode_pr_enrichment : Fields → Option PrEnrichment
unfolding decode_file_change
decode_pr_enrichment fs = do
  additions ← pointer to_int "additions" fs
  deletions ← pointer to_int "deletions" fs
  changed_files ← pointer to_int "changed_files" fs
  commit_oids ← field_or [] (to_list "" to_string) "commit_oids" fs
  files ← field_or [] (to_list no_file_change (λ v. fields_of v >>= decode_file_change)) "files" fs
  some (record {
    additions = additions;
    deletions = deletions;
    changed_files = changed_files;
    commit_oids = commit_oids;
    files = files;
  })

module _ {Bytes : Type 0} (codec : Codec Bytes) where
  unfoldable pub decode_pull_request : Fields → Option PullRequest
  unfolding decode_actor
  decode_pull_request fs = do
    node_id ← string_field "node_id" fs
    number ← int_field "number" fs
    title ← string_field "title" fs
    state ← string_field "state" fs
    merged ← bool_field "merged" fs
    changed_files ← int_field "changed_files" fs
    additions ← int_field "additions" fs
    deletions ← int_field "deletions" fs
    created_at ← time_field codec "created_at" fs
    merged_at ← time_pointer codec "merged_at" fs
    closed_at ← time_pointer codec "closed_at" fs
    user ← decode_actor fs
    some (record {
      node_id = node_id;
      number = number;
      title = title;
      state = state;
      merged = merged;
      changed_files = changed_files;
      additions = additions;
      deletions = deletions;
      created_at = created_at;
      merged_at = merged_at;
      closed_at = closed_at;
      user = user;
    })

  unfoldable pub decode_pr_payload : Fields → Option PrPayload
  unfolding decode_pull_request decode_repository decode_installation decode_pr_enrichment
  decode_pr_payload fs = do
    action ← string_field "action" fs
    number ← int_field "number" fs
    pull_request ← sub_struct "pull_request" fs >>= decode_pull_request
    repository ← decode_repository fs
    installation ← decode_installation fs
    enrichment ← pointer (λ v. fields_of v >>= decode_pr_enrichment) "_enrichment" fs
    some (record {
      action = action;
      number = number;
      pull_request = pull_request;
      repository = repository;
      installation = installation;
      enrichment = enrichment;
    })

  unfoldable pub decode_review_payload : Fields → Option ReviewPayload
  unfolding decode_pull_request decode_repository decode_installation decode_actor
  decode_review_payload fs = do
    action ← string_field "action" fs
    review ← sub_struct "review" fs
    node_id ← string_field "node_id" review
    state ← string_field "state" review
    submitted_at ← time_field codec "submitted_at" review
    user ← decode_actor review
    pull_request ← sub_struct "pull_request" fs >>= decode_pull_request
    repository ← decode_repository fs
    installation ← decode_installation fs
    some (record {
      action = action;
      node_id = node_id;
      state = state;
      submitted_at = submitted_at;
      user = user;
      pull_request = pull_request;
      repository = repository;
      installation = installation;
    })
