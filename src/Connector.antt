-- ===== src/Connector.antt =====
-- libs/go/connector/connector.go: the source-agnostic ingestion interface.
use dev_intel_platform.Base.{String, Bool, true, false, ◌&&◌, List, [], ◌∷◌, Option}
use dev_intel_platform.Base.Int.{ℤ}
use dev_intel_platform.Events.{EventType}

pub record RawEvent (Bytes : Type 0) : Type 0 where
  pub delivery_id : String
  pub event_type : String
  pub body : Bytes
  pub trace_id : String

pub record FileChange : Type 0 where
  pub path : String
  pub additions : ℤ
  pub deletions : ℤ
  pub patch : String
  pub truncated : Bool

-- An instant that may be nil is an `Option`.
pub record WorkItem : Type 0 where
  pub type : String
  pub repo : String
  pub node_id : String
  pub number : ℤ
  pub title : String
  pub status : String
  pub current_stage : String
  pub author_login : String
  pub changed_files : ℤ
  pub additions : ℤ
  pub deletions : ℤ
  pub created_at : ℤ
  pub merged_at : Option ℤ
  pub closed_at : Option ℤ
  pub event : EventType
  pub occurred_at : ℤ
  pub commit_oids : List String
  pub files : List FileChange

pub record Review : Type 0 where
  pub source_id : String
  pub repo : String
  pub pr_node_id : String
  pub reviewer_login : String
  pub state : String
  pub comment_count : ℤ
  pub submitted_at : ℤ

pub record CheckRun : Type 0 where
  pub source_id : String
  pub repo : String
  pub head_sha : String
  pub name : String
  pub conclusion : String
  pub started_at : Option ℤ
  pub completed_at : Option ℤ

pub record Comment : Type 0 where
  pub source_id : String
  pub repo : String
  pub parent_type : String
  pub parent_number : ℤ
  pub author_login : String
  pub body : String
  pub created_at : ℤ

-- Go's `Result`: what one raw event was normalized to.
pub record Outcome : Type 0 where
  pub installation_id : ℤ
  pub work_items : List WorkItem
  pub reviews : List Review
  pub check_runs : List CheckRun
  pub comments : List Comment
  pub skip : Bool

abbrev is_nil {ℓ} : {A : Type ℓ} → List A → Bool
is_nil [] = true
is_nil (x ∷ xs) = false

unfoldable pub empty : Outcome → Bool
empty r = is_nil r.work_items && is_nil r.reviews && is_nil r.check_runs && is_nil r.comments
