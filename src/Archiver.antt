-- ===== src/Archiver.antt =====
-- services/archiver/main.go, and PutIfAbsent of libs/go/objectstore/objectstore.go: raw messages as
-- objects under the partition of their tenant.
--
-- The date of the day, as text, is a parameter. The store is a list of objects by key.
pub mod Consuming
pub mod Filing
use dev_intel_platform.Base.{
  String, Bool, true, false, List, [], ◌∷◌, ◌++◌, Option, none, some, ◌==◌, if◌then◌else◌,
}
use dev_intel_platform.Base.Int.{ℤ, pos, eqb_ℤ}
use dev_intel_platform.Base.Text.{concat, show_int}
use dev_intel_platform.Json.{Codec, unmarshal}
use dev_intel_platform.Events.{header_git_hub_deliv}
use dev_intel_platform.Github.Decode.{decode_installation}
use dev_intel_platform.Kafka.{Message, get}
use dev_intel_platform.Tenancy.{
  Call, done, refused, lost, transient, unknown_installation, Result, ok, err, World, Action, pure,
  next_call, resolve_tenant,
}

abbrev pub Objects : Type 0 → Type 0
Objects Bytes = List (String × Bytes)

unfoldable pub object_at : {Bytes : Type 0} → String → Objects Bytes → Option Bytes
object_at k [] = none
object_at k ((j, v) ∷ os) = if j == k then some v else object_at k os

-- `PutIfAbsent` where the call is answered: IfNoneMatch refuses a key that is there.
unfoldable pub put_absent :
    {Bytes : Type 0} → String → Bytes → Objects Bytes → Option Bytes → Bool × Objects Bytes
put_absent key value os none = (true, os ++ (key, value) ∷ [])
put_absent key value os (some old) = (false, os)

unfoldable pub put_if_absent :
    {Bytes : Type 0} → String → Bytes → Objects Bytes → Call → Result Bool × Objects Bytes
unfolding object_at put_absent
put_if_absent key value os done =
    let (written, os') = put_absent key value os (object_at key os) in (ok written, os')
put_if_absent key value os refused = (err transient, os)
put_if_absent key value os lost = (err transient, (put_absent key value os (object_at key os)).1)

abbrev pub no_installation : String
no_installation = "_unresolved/_no_installation"

-- The database and the object store.
pub record State (Bytes : Type 0) : Type 0 where
  pub world : World Bytes
  pub objects : Objects Bytes

module _ {Bytes : Type 0} (codec : Codec Bytes) where
  -- The partition, once the tenant of the installation was looked for.
  unfoldable pub partition_of : ℤ → Result String × World Bytes → Result String × World Bytes
  partition_of id (ok tenant, w) = (ok tenant, w)
  partition_of id (err unknown_installation, w) = (ok (concat "_unresolved/" (show_int id)), w)
  partition_of id (err e, w) = (err e, w)

  unfoldable pub addressed : Option ℤ → Action Bytes String
  unfolding partition_of
  addressed none w = (ok no_installation, w)
  addressed (some id) w =
      if eqb_ℤ id (pos 0) then (ok no_installation, w) else partition_of id (resolve_tenant id w)

  unfoldable pub tenant_partition : Bytes → Action Bytes String
  unfolding addressed
  tenant_partition body = addressed (unmarshal codec decode_installation body)

  -- The delivery id, or else the key of the message.
  unfoldable pub delivery_name : Message Bytes → String
  delivery_name msg =
      let delivery = get header_git_hub_deliv msg.headers in
      if delivery == "" then msg.key else delivery

  unfoldable pub object_key : String → String → String → String
  object_key partition date delivery =
      concat "raw/github/"
        (concat partition (concat "/" (concat date (concat "/" (concat delivery ".json")))))

  unfoldable pub answer :
      Result Bool × Objects Bytes → World Bytes → Result (Unit {0}) × State Bytes
  answer (ok written, os) w = (ok tt, record { world = w; objects = os })
  answer (err e, os) w = (err e, record { world = w; objects = os })

  unfoldable pub file :
      Message Bytes
      → String
      → Objects Bytes
      → Result String × World Bytes
      → Result (Unit {0}) × State Bytes
  unfolding object_key delivery_name answer put_if_absent
  file msg date os (err e, w) = (err e, record { world = w; objects = os })
  file msg date os (ok partition, w) =
      let (c, w') = next_call w in
      answer (put_if_absent (object_key partition date (delivery_name msg)) msg.value os c) w'

  unfoldable pub archive : Message Bytes → String → State Bytes → Result (Unit {0}) × State Bytes
  unfolding file tenant_partition
  archive msg date s = file msg date s.objects (tenant_partition msg.value s.world)
