-- ===== src/Database.antt =====
-- The tables that the services read and write (db/migrations), and the SQL statements on them as
-- functions on rows. A table is the list of its rows in the order of insertion; a unique key is
-- what `INSERT ... ON CONFLICT` compares.
pub mod Rows
use dev_intel_platform.Base.{
  ℕ, String, Bool, true, false, ◌&&◌, List, [], ◌∷◌, ◌++◌, Option, none, some, ◌==◌, if◌then◌else◌,
}
use dev_intel_platform.Base.Int.{ℤ}

pub record DeliveryRow : Type 0 where
  pub tenant_id : String
  pub delivery_id : String
  pub event_type : String

pub record WorkItemRow : Type 0 where
  pub tenant_id : String
  pub work_item_id : ℕ
  pub type : String
  pub repo : String
  pub node_id : String
  pub number : ℤ
  pub title : String
  pub status : String
  pub current_stage : String
  pub author_login : String
  pub changed_files : ℤ
  pub additions : ℤ
  pub deletions : ℤ
  pub created_at : ℤ
  pub merged_at : Option ℤ
  pub closed_at : Option ℤ
  pub updated_at : ℤ

pub record ReviewRow : Type 0 where
  pub tenant_id : String
  pub review_id : ℕ
  pub work_item_id : ℕ
  pub reviewer_id : ℕ
  pub source_id : String
  pub state : String
  pub comment_count : ℤ
  pub submitted_at : ℤ

-- work_item_id stays NULL here, and is not modelled.
pub record CheckRunRow : Type 0 where
  pub tenant_id : String
  pub check_run_id : ℕ
  pub source_id : String
  pub head_sha : String
  pub name : String
  pub conclusion : Option String
  pub started_at : Option ℤ
  pub completed_at : Option ℤ

pub record ContributorRow : Type 0 where
  pub tenant_id : String
  pub contributor_id : ℕ
  pub display_name : String
  pub is_bot : Bool

pub record IdentityLinkRow : Type 0 where
  pub tenant_id : String
  pub link_id : ℕ
  pub contributor_id : ℕ
  pub identifier_kind : String
  pub identifier_value_hash : String

pub record OutboxRow (Bytes : Type 0) : Type 0 where
  pub outbox_id : ℕ
  pub tenant_id : String
  pub event_id : ℕ
  pub topic : String
  pub kafka_key : String
  pub trace_id : String
  pub traceparent : String
  pub payload : Bytes
  pub published_at : Option ℤ

-- github_installation
pub record InstallationRow : Type 0 where
  pub installation_id : ℤ
  pub tenant_id : String

pub record Db (Bytes : Type 0) : Type 0 where
  pub installations : List InstallationRow
  pub deliveries : List DeliveryRow
  pub work_items : List WorkItemRow
  pub reviews : List ReviewRow
  pub check_runs : List CheckRunRow
  pub contributors : List ContributorRow
  pub identity_links : List IdentityLinkRow
  pub outbox : List (OutboxRow Bytes)

module _ {ℓ} {R : Type ℓ} where
  -- The first row that passes the test.
  unfoldable pub find : (R → Bool) → List R → Option R
  find same [] = none
  find same (r ∷ rs) = if same r then some r else find same rs

  unfoldable pub insert_unless : Option R → R → List R → Bool × List R
  insert_unless none new rs = (true, rs ++ new ∷ [])
  insert_unless (some _) new rs = (false, rs)

  -- INSERT ... ON CONFLICT DO NOTHING, with whether a row was inserted.
  unfoldable pub insert_absent : (R → Bool) → R → List R → Bool × List R
  unfolding insert_unless
  insert_absent same new rs = insert_unless (find same rs) new rs

  -- INSERT ... ON CONFLICT DO UPDATE ... RETURNING.
  unfoldable pub upsert : (R → Bool) → (R → R) → R → List R → R × List R
  upsert same update new [] = (new, new ∷ [])
  upsert same update new (r ∷ rs) =
      let (x, rest) = upsert same update new rs in
      if same r then (update r, update r ∷ rs) else (x, r ∷ rest)

-- The unique keys.
unfoldable pub same_delivery : DeliveryRow → DeliveryRow → Bool
same_delivery a b = a.tenant_id == b.tenant_id && a.delivery_id == b.delivery_id

unfoldable pub same_work_item : WorkItemRow → WorkItemRow → Bool
same_work_item a b =
    a.tenant_id == b.tenant_id && a.repo == b.repo && a.type == b.type && a.node_id == b.node_id

unfoldable pub same_review : ReviewRow → ReviewRow → Bool
same_review a b = a.tenant_id == b.tenant_id && a.source_id == b.source_id

unfoldable pub same_check_run : CheckRunRow → CheckRunRow → Bool
same_check_run a b = a.tenant_id == b.tenant_id && a.source_id == b.source_id

unfoldable pub same_link : IdentityLinkRow → IdentityLinkRow → Bool
same_link a b =
    a.tenant_id == b.tenant_id
    && a.identifier_kind == b.identifier_kind
    && a.identifier_value_hash == b.identifier_value_hash
