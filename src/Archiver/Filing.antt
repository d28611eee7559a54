-- ===== src/Archiver/Filing.antt =====
-- Where a message is archived, and that no object is overwritten.
use dev_intel_platform.Base.{
  String, ◌≡◌, refl, sym, subst, Bool, true, false, List, [], ◌∷◌, ◌++◌, Option, none, some, arith,
  ◌==◌, Bool-cases, inl, inr, if◌then◌else◌,
}
use dev_intel_platform.Base.Int.{ℤ, pos, eqb_ℤ}
use dev_intel_platform.Base.Text.{concat, show_int}
use dev_intel_platform.Json.{Codec, unmarshal}
use dev_intel_platform.Github.Decode.{decode_installation}
use dev_intel_platform.Events.{header_git_hub_deliv}
use dev_intel_platform.Kafka.{Message, get}
use dev_intel_platform.Database.{Db}
use dev_intel_platform.Tenancy.{
  Call, done, refused, lost, Error, transient, unknown_installation, Result, ok, err, World,
  next_call, lookup_tenant, resolve_tenant,
}
use dev_intel_platform.Tenancy.Steps.{resolve_tenant-ok, resolve_tenant-unknown}
use dev_intel_platform.Archiver.{
  Objects, object_at, put_absent, put_if_absent, no_installation, State, partition_of, addressed,
  tenant_partition, delivery_name, object_key, answer, file, archive,
}

ok-injective : (a b : String) → ok a ≡ ok b → a ≡ b
ok-injective a b e = cc

-- The parts of a path, with a slash before each of them but the first.
abbrev slashed : String → List String → String
slashed p [] = p
slashed p (q ∷ qs) = concat p (concat "/" (slashed q qs))

-- Where the object of a message stands.
abbrev pub path : String → String → String → String
path partition day name = concat "raw/github/" (slashed partition (day ∷ concat name ".json" ∷ []))

module _ {Bytes : Type 0} (codec : Codec Bytes) where
  -- The partitions that a message may be filed under: its tenant's, that of an installation which
  -- has none, and that of a body which does not decode or names no installation.
  pub data Partition (body : Bytes) (db : Db Bytes) : String → Type 0 where
    owned :
        (id : ℤ) (tenant : String)
        → unmarshal codec decode_installation body ≡ some id
        → eqb_ℤ id (pos 0) ≡ false
        → lookup_tenant id db ≡ ok tenant
        → Partition body db tenant
    unknown :
        (id : ℤ)
        → unmarshal codec decode_installation body ≡ some id
        → eqb_ℤ id (pos 0) ≡ false
        → lookup_tenant id db ≡ err unknown_installation
        → Partition body db (concat "_unresolved/" (show_int id))
    undecoded :
        unmarshal codec decode_installation body ≡ none
        → Partition body db "_unresolved/_no_installation"
    unaddressed :
        (id : ℤ)
        → unmarshal codec decode_installation body ≡ some id
        → eqb_ℤ id (pos 0) ≡ true
        → Partition body db "_unresolved/_no_installation"

  -- What a message is called in the archive: its delivery id, or its key where it has none.
  pub data IsName (msg : Message Bytes) : String → Type 0 where
    by_delivery :
        (get header_git_hub_deliv msg.headers == "") ≡ false
        → IsName msg (get header_git_hub_deliv msg.headers)
    by_key : (get header_git_hub_deliv msg.headers == "") ≡ true → IsName msg msg.key

  delivery_name-IsName : (msg : Message Bytes) → IsName msg (delivery_name codec msg)
  unfolding delivery_name
  delivery_name-IsName msg = elim (Bool-cases (get header_git_hub_deliv msg.headers == "")) [
    | inl e ↦
        subst (λ b. IsName msg (if b then msg.key else get header_git_hub_deliv msg.headers))
          (sym e) (by_key e)
    | inr e ↦
        subst (λ b. IsName msg (if b then msg.key else get header_git_hub_deliv msg.headers))
          (sym e) (by_delivery e)
  ]

  object_key-path :
      (partition day name : String) → object_key codec partition day name ≡ path partition day name
  unfolding object_key
  object_key-path partition day name = refl

  -- What was done to the objects under this key: nothing, in a failure; the value was added where
  -- nothing was; or something was there, and stays.
  pub data Filed (key : String) (value : Bytes) (before : Objects Bytes)
      : Result (Unit {0}) → Objects Bytes → Type 0 where
    stored :
        (r : Result (Unit {0}))
        → object_at key before ≡ none
        → Filed key value before r (before ++ (key, value) ∷ [])
    present :
        (r : Result (Unit {0})) (old : Bytes)
        → object_at key before ≡ some old
        → Filed key value before r before
    failed : (e : Error) → Filed key value before (err e) before

  put-Filed :
      (key : String) (value : Bytes) (os : Objects Bytes) (r : Result (Unit {0}))
      (found : Option Bytes)
      → object_at key os ≡ found
      → Filed key value os r (put_absent key value os found).1
  unfolding put_absent
  put-Filed key value os r none e = stored r e
  put-Filed key value os r (some old) e = present r old e

  answer-Filed :
      (key : String) (value : Bytes) (os : Objects Bytes) (c : Call) (w : World Bytes)
      → let t = answer codec (put_if_absent key value os c) w in Filed key value os t.0 t.1.objects
  unfolding put_if_absent answer
  answer-Filed key value os done w = put-Filed key value os (ok tt) (object_at key os) refl
  answer-Filed key value os refused w = failed transient
  answer-Filed key value os lost w = put-Filed key value os (err transient) (object_at key os) refl

  -- What came of a message: it was filed under one of its partitions, or the tenant could not be
  -- looked up and the objects are as before.
  pub data Archived (msg : Message Bytes) (date : String) (db : Db Bytes) (before : Objects Bytes)
      : Result (Unit {0}) → Objects Bytes → Type 0 where
    filed :
        (partition name : String) (r : Result (Unit {0})) (after : Objects Bytes)
        → Partition msg.value db partition
        → IsName msg name
        → Filed (path partition date name) msg.value before r after
        → Archived msg date db before r after
    unresolved : (e : Error) → Archived msg date db before (err e) before

  file-Archived :
      (msg : Message Bytes) (date : String) (db : Db Bytes) (os : Objects Bytes) (r : Result String)
      (w : World Bytes)
      → ((p : String) → r ≡ ok p → Partition msg.value db p)
      → let t = file codec msg date os (r, w) in Archived msg date db os t.0 t.1.objects
  unfolding file
  file-Archived msg date db os (err e) w h = unresolved e
  file-Archived msg date db os (ok p) w h =
      let c = next_call w in
      let k = object_key codec p date (delivery_name codec msg) in
      let t = answer codec (put_if_absent k msg.value os c.0) c.1 in
      filed p (delivery_name codec msg) t.0 t.1.objects (h p refl) (delivery_name-IsName msg) (
        subst (λ key. Filed key msg.value os t.0 t.1.objects)
          (object_key-path p date (delivery_name codec msg)) (answer-Filed k msg.value os c.0 c.1))

  partition_of-Partition :
      (body : Bytes) (db : Db Bytes) (id : ℤ) (r : Result String) (w : World Bytes) (p : String)
      → unmarshal codec decode_installation body ≡ some id
      → eqb_ℤ id (pos 0) ≡ false
      → ((tenant : String) → r ≡ ok tenant → lookup_tenant id db ≡ ok tenant)
      → (r ≡ err unknown_installation → lookup_tenant id db ≡ err unknown_installation)
      → (partition_of codec id (r, w)).0 ≡ ok p
      → Partition body db p
  unfolding partition_of
  partition_of-Partition body db id (ok tenant) w p u n h k e =
      subst (Partition body db) (ok-injective tenant p e) (owned id tenant u n (h tenant refl))
  partition_of-Partition body db id (err unknown_installation) w p u n h k e =
      subst (Partition body db) (ok-injective _ p e) (unknown id u n (k refl))
  partition_of-Partition body db id (err f) w p u n h k e = absurd (ground arith)

  gate-Partition :
      (body : Bytes) (id : ℤ) (b : Bool) (w : World Bytes) (p : String)
      → unmarshal codec decode_installation body ≡ some id
      → eqb_ℤ id (pos 0) ≡ b
      → (if b then (ok no_installation, w) else partition_of codec id (resolve_tenant id w)).0
        ≡ ok p
      → Partition body w.db p
  gate-Partition body id true w p u z e =
      subst (Partition body w.db) (ok-injective no_installation p e) (unaddressed id u z)
  gate-Partition body id false w p u z e =
      let r = resolve_tenant id w in
      partition_of-Partition body w.db id r.0 r.1 p u z (resolve_tenant-ok id w)
        (resolve_tenant-unknown id w) e

  addressed-Partition :
      (body : Bytes) (found : Option ℤ) (w : World Bytes) (p : String)
      → unmarshal codec decode_installation body ≡ found
      → (addressed codec found w).0 ≡ ok p
      → Partition body w.db p
  unfolding addressed
  addressed-Partition body none w p u e =
      subst (Partition body w.db) (ok-injective no_installation p e) (undecoded u)
  addressed-Partition body (some id) w p u e =
      gate-Partition body id (eqb_ℤ id (pos 0)) w p u refl e

  pub archive-Archived :
      (msg : Message Bytes) (date : String) (s : State Bytes)
      → let t = archive codec msg date s in Archived msg date s.world.db s.objects t.0 t.1.objects
  unfolding archive tenant_partition
  archive-Archived msg date s =
      let t = tenant_partition codec msg.value s.world in
      file-Archived msg date s.world.db s.objects t.0 t.1 (λ p e.
        addressed-Partition msg.value (unmarshal codec decode_installation msg.value) s.world p refl
          e)
