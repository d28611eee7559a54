-- ===== src/Github/Payload.antt =====
-- The webhook payloads of libs/go/connector/github/github.go. A nested struct of one field is that
-- field.
use dev_intel_platform.Base.{String, Bool, List, Option}
use dev_intel_platform.Base.Int.{ℤ}
use dev_intel_platform.Json.{Json}
use dev_intel_platform.Connector.{FileChange}

pub record PullRequest : Type 0 where
  pub node_id : String
  pub number : ℤ
  pub title : String
  pub state : String
  pub merged : Bool
  pub changed_files : ℤ
  pub additions : ℤ
  pub deletions : ℤ
  pub created_at : ℤ
  pub merged_at : Option ℤ
  pub closed_at : Option ℤ
  pub user : String

pub record PrEnrichment : Type 0 where
  pub additions : Option ℤ
  pub deletions : Option ℤ
  pub changed_files : Option ℤ
  pub commit_oids : List String
  pub files : List FileChange

pub record PrPayload : Type 0 where
  pub action : String
  pub number : ℤ
  pub pull_request : PullRequest
  pub repository : String
  pub installation : ℤ
  pub enrichment : Option PrEnrichment

pub record ReviewPayload : Type 0 where
  pub action : String
  pub node_id : String
  pub state : String
  pub submitted_at : ℤ
  pub user : String
  pub pull_request : PullRequest
  pub repository : String
  pub installation : ℤ

-- The struct `comment`.
pub record CommentBody : Type 0 where
  pub node_id : String
  pub body : String
  pub created_at : ℤ
  pub user : String

pub record ReviewCommentPayload : Type 0 where
  pub action : String
  pub comment : CommentBody
  pub pr_number : ℤ
  pub repository : String
  pub installation : ℤ

-- `pull_request` is a json.RawMessage, of which only the presence counts: a present null fills it.
pub record IssueCommentPayload : Type 0 where
  pub action : String
  pub issue_number : ℤ
  pub pull_request : Option Json
  pub comment : CommentBody
  pub repository : String
  pub installation : ℤ

pub record IssuePayload : Type 0 where
  pub action : String
  pub node_id : String
  pub number : ℤ
  pub title : String
  pub state : String
  pub created_at : ℤ
  pub closed_at : Option ℤ
  pub user : String
  pub repository : String
  pub installation : ℤ

pub record PushCommit : Type 0 where
  pub id : String
  pub message : String
  pub timestamp : ℤ
  pub author_name : String
  pub author_email : String
  pub author_username : String

pub record PushPayload : Type 0 where
  pub commits : List PushCommit
  pub repository : String
  pub installation : ℤ

pub record CheckRunPayload : Type 0 where
  pub action : String
  pub node_id : String
  pub name : String
  pub head_sha : String
  pub status : String
  pub conclusion : String
  pub started_at : Option ℤ
  pub completed_at : Option ℤ
  pub repository : String
  pub installation : ℤ

pub record StatusPayload : Type 0 where
  pub id : ℤ
  pub sha : String
  pub context : String
  pub state : String
  pub updated_at : Option ℤ
  pub repository : String
  pub installation : ℤ
