-- ===== src/Normalizer/Once.antt =====
-- A delivery takes effect at most once, however often its message is processed.
use dev_intel_platform.Base.{String, ◌≡◌, ◌≢◌, refl, sym, ◌∙◌, ap, subst, true, ◌⊎◌, inl, inr}
use dev_intel_platform.Base.Int.{ℤ}
use dev_intel_platform.Connector.{Outcome}
use dev_intel_platform.Database.{Db}
use dev_intel_platform.Events.{header_git_hub_deliv}
use dev_intel_platform.Github.{Normalized, normalize}
use dev_intel_platform.Kafka.{Message, get}
use dev_intel_platform.Tenancy.{ok, World, lookup_tenant}
use dev_intel_platform.Tenancy.Atomic.{Attempt-stuck, Attempt-cases, Succeeded}
use dev_intel_platform.Normalizer.{Library, Span, raw_event, process}
use dev_intel_platform.Normalizer.Process.{delivery, process-leads}
use dev_intel_platform.Normalizer.Redelivery.{
  marked, deliver-marked, deliver-marks, deliver-installations,
}

abbrev pub delivery_id : {Bytes : Type 0} → Message Bytes → String
delivery_id msg = get header_git_hub_deliv msg.headers

normalized-injective : (a b : Outcome) → Normalized.ok a ≡ Normalized.ok b → a ≡ b
normalized-injective a b e = cc

ok-injective : (a b : String) → ok a ≡ ok b → a ≡ b
ok-injective a b e = cc

-- The lookup of a tenant reads the installations.
pub lookup_tenant-same :
    {Bytes : Type 0} (id : ℤ) (a b : Db Bytes)
    → a.installations ≡ b.installations
    → lookup_tenant id a ≡ lookup_tenant id b
unfolding lookup_tenant
lookup_tenant-same id a b e = rw e

module _ {Bytes : Type 0} (lib : Library Bytes) (msg : Message Bytes)
    (identified : delivery_id msg ≢ "") where
  -- A message whose delivery is marked, for the tenant of its installation, changes no table,
  -- whichever calls fail.
  pub process-marked :
      (span : Span) (w : World Bytes)
      → ((res : Outcome) (tenant : String)
          → normalize lib.codec (raw_event lib span msg) ≡ Normalized.ok res
          → lookup_tenant res.installation_id w.db ≡ ok tenant
          → marked tenant (delivery_id msg) w.db ≡ true)
      → (process lib span msg w).1.db ≡ w.db
  unfolding raw_event
  process-marked span w h =
      process-leads lib span (λ d. d ≡ w.db) msg w refl
        (λ res tenant n f r after at.
          Attempt-stuck (delivery lib span (raw_event lib span msg) res tenant) w.db
            (λ v _ e.
              deliver-marked lib span tenant (raw_event lib span msg) res identified v
                (subst (λ d. marked tenant (delivery_id msg) d ≡ true) (sym e) (h res tenant n f)))
            at)

  -- The effect of a message on the tables of `before`: its delivery is marked for the tenant of its
  -- installation, and the installations are as before.
  pub record Effect (span : Span) (before after : Db Bytes) : Type 0 where
    pub outcome : Outcome
    pub tenant : String
    pub names : normalize lib.codec (raw_event lib span msg) ≡ Normalized.ok outcome
    pub owner : lookup_tenant outcome.installation_id before ≡ ok tenant
    pub mark : marked tenant (delivery_id msg) after ≡ true
    pub installations : after.installations ≡ before.installations

  Effect-Succeeded :
      (span : Span) (before after : Db Bytes) (res : Outcome) (tenant : String)
      → normalize lib.codec (raw_event lib span msg) ≡ Normalized.ok res
      → lookup_tenant res.installation_id before ≡ ok tenant
      → Succeeded (delivery lib span (raw_event lib span msg) res tenant) before after tt
      → Effect span before after
  unfolding raw_event
  Effect-Succeeded span before after res tenant n f s =
      let raw = raw_event lib span msg in
      record {
        outcome = res;
        tenant = tenant;
        names = n;
        owner = f;
        mark =
            subst (λ d. marked tenant (delivery_id msg) d ≡ true) s.left
              (deliver-marks lib span tenant raw res identified s.start s.returned);
        installations =
            ap (λ (d : Db Bytes). d.installations) (sym s.left)
            ∙ deliver-installations lib span tenant raw res s.start
            ∙ ap (λ (d : Db Bytes). d.installations) s.from_before;
      }

  -- Processing a message changes no table, or has its effect.
  pub process-Effect :
      (span : Span) (w : World Bytes)
      → ((process lib span msg w).1.db ≡ w.db) ⊎ Effect span w.db (process lib span msg w).1.db
  process-Effect span w =
      process-leads lib span (λ d. (d ≡ w.db) ⊎ Effect span w.db d) msg w (inl refl)
        (λ res tenant n f r after at.
          elim (Attempt-cases (delivery lib span (raw_event lib span msg) res tenant) w.db at) [
            | inl e ↦ inl e
            | inr (_, s) ↦ inr (Effect-Succeeded span w.db after res tenant n f s)
          ])

  -- The trace of a redelivery is another one, its outcome the same.
  normalize-span :
      (span span' : Span)
      → normalize lib.codec (raw_event lib span' msg) ≡ normalize lib.codec (raw_event lib span msg)
  unfolding raw_event normalize
  normalize-span span span' = refl

  Effect-marked :
      (span span' : Span) (before after : Db Bytes) (v : World Bytes)
      → Effect span before after
      → v.db ≡ after
      → (process lib span' msg v).1.db ≡ v.db
  Effect-marked span span' before after v x e = process-marked span' v λ res tenant n f.
      let same_outcome =
        normalized-injective res x.outcome (sym n ∙ normalize-span span span' ∙ x.names) in
      let same_owner =
        lookup_tenant-same x.outcome.installation_id v.db before
          (ap (λ (d : Db Bytes). d.installations) e ∙ x.installations) in
      let same_tenant = ok-injective tenant x.tenant (
        sym f
        ∙ ap (λ (o : Outcome). lookup_tenant o.installation_id v.db) same_outcome
        ∙ same_owner
        ∙ x.owner) in
      subst (λ d. marked tenant (delivery_id msg) d ≡ true) (sym e)
        (subst (λ t. marked t (delivery_id msg) after ≡ true) (sym same_tenant) x.mark)

  -- If processing a message changed the tables, processing it again from the tables that it left
  -- changes nothing, whichever calls fail in either run.
  pub process_once :
      (span span' : Span) (w v : World Bytes)
      → (process lib span msg w).1.db ≢ w.db
      → v.db ≡ (process lib span msg w).1.db
      → (process lib span' msg v).1.db ≡ v.db
  process_once span span' w v changed e = elim (process-Effect span w) [
    | inl same ↦ absurd (changed same)
    | inr x ↦ Effect-marked span span' w.db (process lib span msg w).1.db v x e
  ]
