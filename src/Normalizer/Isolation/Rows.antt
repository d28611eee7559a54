-- ===== src/Normalizer/Isolation/Rows.antt =====
-- That the rows of one tenant are the same, before and after a change of one table.
use dev_intel_platform.Base.{String, ◌≡◌, refl, ◌∙◌, List, ◌==◌}
use dev_intel_platform.Database.{
  Db, DeliveryRow, WorkItemRow, ReviewRow, CheckRunRow, ContributorRow, IdentityLinkRow, OutboxRow,
}
use dev_intel_platform.Database.Rows.{keep}
use dev_intel_platform.Tenancy.Keeps.{Change}

-- The rows of a tenant, in every table with row-level security, are the same in both; so are the
-- installations.
pub record SameRows {Bytes : Type 0} (t : String) (a b : Db Bytes) : Type 0 where
  pub installations : b.installations ≡ a.installations
  pub deliveries :
      keep (λ r. r.tenant_id == t) b.deliveries ≡ keep (λ r. r.tenant_id == t) a.deliveries
  pub work_items :
      keep (λ r. r.tenant_id == t) b.work_items ≡ keep (λ r. r.tenant_id == t) a.work_items
  pub reviews : keep (λ r. r.tenant_id == t) b.reviews ≡ keep (λ r. r.tenant_id == t) a.reviews
  pub check_runs :
      keep (λ r. r.tenant_id == t) b.check_runs ≡ keep (λ r. r.tenant_id == t) a.check_runs
  pub contributors :
      keep (λ r. r.tenant_id == t) b.contributors ≡ keep (λ r. r.tenant_id == t) a.contributors
  pub identity_links :
      keep (λ r. r.tenant_id == t) b.identity_links ≡ keep (λ r. r.tenant_id == t) a.identity_links
  pub outbox : keep (λ r. r.tenant_id == t) b.outbox ≡ keep (λ r. r.tenant_id == t) a.outbox

pub SameRows-refl : {Bytes : Type 0} (t : String) (a : Db Bytes) → SameRows t a a
SameRows-refl t a = record {
  installations = refl;
  deliveries = refl;
  work_items = refl;
  reviews = refl;
  check_runs = refl;
  contributors = refl;
  identity_links = refl;
  outbox = refl;
}

pub SameRows-trans :
    {Bytes : Type 0} (t : String) (a b c : Db Bytes)
    → SameRows t a b
    → SameRows t b c
    → SameRows t a c
SameRows-trans t a b c p q = record {
  installations = q.installations ∙ p.installations;
  deliveries = q.deliveries ∙ p.deliveries;
  work_items = q.work_items ∙ p.work_items;
  reviews = q.reviews ∙ p.reviews;
  check_runs = q.check_runs ∙ p.check_runs;
  contributors = q.contributors ∙ p.contributors;
  identity_links = q.identity_links ∙ p.identity_links;
  outbox = q.outbox ∙ p.outbox;
}

abbrev pub isolated : (Bytes : Type 0) → String → Change Bytes
isolated Bytes t = record { rel = SameRows t; same = SameRows-refl t; trans = SameRows-trans t }

-- A change of one table.
module _ {Bytes : Type 0} (t : String) (db : Db Bytes) where
  pub only_deliveries :
      (rs : List DeliveryRow)
      → keep (λ r. r.tenant_id == t) rs ≡ keep (λ r. r.tenant_id == t) db.deliveries
      → SameRows t db (record db { deliveries = rs })
  only_deliveries rs e = record {
    installations = refl;
    deliveries = e;
    work_items = refl;
    reviews = refl;
    check_runs = refl;
    contributors = refl;
    identity_links = refl;
    outbox = refl;
  }

  pub only_work_items :
      (rs : List WorkItemRow)
      → keep (λ r. r.tenant_id == t) rs ≡ keep (λ r. r.tenant_id == t) db.work_items
      → SameRows t db (record db { work_items = rs })
  only_work_items rs e = record {
    installations = refl;
    deliveries = refl;
    work_items = e;
    reviews = refl;
    check_runs = refl;
    contributors = refl;
    identity_links = refl;
    outbox = refl;
  }

  pub only_reviews :
      (rs : List ReviewRow)
      → keep (λ r. r.tenant_id == t) rs ≡ keep (λ r. r.tenant_id == t) db.reviews
      → SameRows t db (record db { reviews = rs })
  only_reviews rs e = record {
    installations = refl;
    deliveries = refl;
    work_items = refl;
    reviews = e;
    check_runs = refl;
    contributors = refl;
    identity_links = refl;
    outbox = refl;
  }

  pub only_check_runs :
      (rs : List CheckRunRow)
      → keep (λ r. r.tenant_id == t) rs ≡ keep (λ r. r.tenant_id == t) db.check_runs
      → SameRows t db (record db { check_runs = rs })
  only_check_runs rs e = record {
    installations = refl;
    deliveries = refl;
    work_items = refl;
    reviews = refl;
    check_runs = e;
    contributors = refl;
    identity_links = refl;
    outbox = refl;
  }

  pub only_contributors :
      (rs : List ContributorRow)
      → keep (λ r. r.tenant_id == t) rs ≡ keep (λ r. r.tenant_id == t) db.contributors
      → SameRows t db (record db { contributors = rs })
  only_contributors rs e = record {
    installations = refl;
    deliveries = refl;
    work_items = refl;
    reviews = refl;
    check_runs = refl;
    contributors = e;
    identity_links = refl;
    outbox = refl;
  }

  pub only_identity_links :
      (rs : List IdentityLinkRow)
      → keep (λ r. r.tenant_id == t) rs ≡ keep (λ r. r.tenant_id == t) db.identity_links
      → SameRows t db (record db { identity_links = rs })
  only_identity_links rs e = record {
    installations = refl;
    deliveries = refl;
    work_items = refl;
    reviews = refl;
    check_runs = refl;
    contributors = refl;
    identity_links = e;
    outbox = refl;
  }

  pub only_outbox :
      (rs : List (OutboxRow Bytes))
      → keep (λ r. r.tenant_id == t) rs ≡ keep (λ r. r.tenant_id == t) db.outbox
      → SameRows t db (record db { outbox = rs })
  only_outbox rs e = record {
    installations = refl;
    deliveries = refl;
    work_items = refl;
    reviews = refl;
    check_runs = refl;
    contributors = refl;
    identity_links = refl;
    outbox = e;
  }
