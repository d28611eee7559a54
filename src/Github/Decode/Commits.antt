-- ===== src/Github/Decode/Commits.antt =====
-- The payloads of pushes, check runs and commit statuses.
use dev_intel_platform.Base.{[], Option, some, ◌>>=◌}
use dev_intel_platform.Base.Int.{pos}
use dev_intel_platform.Json.{
  Fields, Codec, fields_of, sub_struct, field_or, to_list, string_field, int_field, time_field,
  time_pointer,
}
use dev_intel_platform.Github.Payload.{PushCommit, PushPayload, CheckRunPayload, StatusPayload}
use dev_intel_platform.Github.Decode.{decode_installation, decode_repository}

module _ {Bytes : Type 0} (codec : Codec Bytes) where
  unfoldable pub decode_push_commit : Fields → Option PushCommit
  decode_push_commit fs = do
    id ← string_field "id" fs
    message ← string_field "message" fs
    timestamp ← time_field codec "timestamp" fs
    author ← sub_struct "author" fs
    name ← string_field "name" author
    email ← string_field "email" author
    username ← string_field "username" author
    some (record {
      id = id;
      message = message;
      timestamp = timestamp;
      author_name = name;
      author_email = email;
      author_username = username;
    })

  abbrev no_push_commit : PushCommit
  no_push_commit = record {
    id = "";
    message = "";
    timestamp = pos 0;
    author_name = "";
    author_email = "";
    author_username = "";
  }

  unfoldable pub decode_push_payload : Fields → Option PushPayload
  unfolding decode_push_commit decode_repository decode_installation
  decode_push_payload fs = do
    commits ←
        field_or [] (to_list no_push_commit (λ v. fields_of v >>= decode_push_commit)) "commits" fs
    repository ← decode_repository fs
    installation ← decode_installation fs
    some (record { commits = commits; repository = repository; installation = installation })

  unfoldable pub decode_check_run_payload : Fields → Option CheckRunPayload
  unfolding decode_repository decode_installation
  decode_check_run_payload fs = do
    action ← string_field "action" fs
    run ← sub_struct "check_run" fs
    node_id ← string_field "node_id" run
    name ← string_field "name" run
    head_sha ← string_field "head_sha" run
    status ← string_field "status" run
    conclusion ← string_field "conclusion" run
    started_at ← time_pointer codec "started_at" run
    completed_at ← time_pointer codec "completed_at" run
    repository ← decode_repository fs
    installation ← decode_installation fs
    some (record {
      action = action;
      node_id = node_id;
      name = name;
      head_sha = head_sha;
      status = status;
      conclusion = conclusion;
      started_at = started_at;
      completed_at = completed_at;
      repository = repository;
      installation = installation;
    })

  unfoldable pub decode_status_payload : Fields → Option StatusPayload
  unfolding decode_repository decode_installation
  decode_status_payload fs = do
    id ← int_field "id" fs
    sha ← string_field "sha" fs
    context ← string_field "context" fs
    state ← string_field "state" fs
    updated_at ← time_pointer codec "updated_at" fs
    repository ← decode_repository fs
    installation ← decode_installation fs
    some (record {
      id = id;
      sha = sha;
      context = context;
      state = state;
      updated_at = updated_at;
      repository = repository;
      installation = installation;
    })
