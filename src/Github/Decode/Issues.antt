-- ===== src/Github/Decode/Issues.antt =====
-- The payloads of comments and of issues.
use dev_intel_platform.Base.{Option, some, ◌>>=◌}
use dev_intel_platform.Json.{
  Fields, Codec, sub_struct, lookup, string_field, int_field, time_field, time_pointer,
}
use dev_intel_platform.Github.Payload.{
  CommentBody, ReviewCommentPayload, IssueCommentPayload, IssuePayload,
}
use dev_intel_platform.Github.Decode.{decode_installation, decode_repository, decode_actor}

module _ {Bytes : Type 0} (codec : Codec Bytes) where
  unfoldable pub decode_comment : Fields → Option CommentBody
  unfolding decode_actor
  decode_comment fs = do
    node_id ← string_field "node_id" fs
    body ← string_field "body" fs
    created_at ← time_field codec "created_at" fs
    user ← decode_actor fs
    some (record { node_id = node_id; body = body; created_at = created_at; user = user })

  unfoldable pub decode_review_comment_payload : Fields → Option ReviewCommentPayload
  unfolding decode_comment decode_repository decode_installation
  decode_review_comment_payload fs = do
    action ← string_field "action" fs
    comment ← sub_struct "comment" fs >>= decode_comment
    pr_number ← sub_struct "pull_request" fs >>= int_field "number"
    repository ← decode_repository fs
    installation ← decode_installation fs
    some (record {
      action = action;
      comment = comment;
      pr_number = pr_number;
      repository = repository;
      installation = installation;
    })

  unfoldable pub decode_issue_comment_payload : Fields → Option IssueCommentPayload
  unfolding decode_comment decode_repository decode_installation
  decode_issue_comment_payload fs = do
    action ← string_field "action" fs
    issue ← sub_struct "issue" fs
    issue_number ← int_field "number" issue
    comment ← sub_struct "comment" fs >>= decode_comment
    repository ← decode_repository fs
    installation ← decode_installation fs
    some (record {
      action = action;
      issue_number = issue_number;
      pull_request = lookup "pull_request" issue;
      comment = comment;
      repository = repository;
      installation = installation;
    })

  unfoldable pub decode_issue_payload : Fields → Option IssuePayload
  unfolding decode_repository decode_installation decode_actor
  decode_issue_payload fs = do
    action ← string_field "action" fs
    issue ← sub_struct "issue" fs
    node_id ← string_field "node_id" issue
    number ← int_field "number" issue
    title ← string_field "title" issue
    state ← string_field "state" issue
    created_at ← time_field codec "created_at" issue
    closed_at ← time_pointer codec "closed_at" issue
    user ← decode_actor issue
    repository ← decode_repository fs
    installation ← decode_installation fs
    some (record {
      action = action;
      node_id = node_id;
      number = number;
      title = title;
      state = state;
      created_at = created_at;
      closed_at = closed_at;
      user = user;
      repository = repository;
      installation = installation;
    })
