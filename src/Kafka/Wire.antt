-- ===== src/Kafka/Wire.antt =====
-- A message that is written is fetched with its key, its value and its headers.
use dev_intel_platform.Base.{
  String, ◌≡◌, refl, ◌∙◌, ap, subst, Bool, true, false, [], ◌∷◌, ◌==◌, eq_iff, if◌then◌else◌, arith,
}
use dev_intel_platform.Kafka.{Headers, Message, get, put, get-put, to_record, from_record, gather}

abbrev pub has : String → Headers → Bool
has k [] = false
has k ((j, v) ∷ hs) = if j == k then true else has k hs

-- No key stands twice.
abbrev pub Distinct : Headers → Type 0
Distinct [] = Unit
Distinct ((k, v) ∷ hs) = (has k hs ≡ false) × Distinct hs

-- What `range` visits of a map: each of its entries, once, in any order.
pub record Visits (m visited : Headers) : Type 0 where
  pub once : Distinct visited
  pub same : (k : String) → get k visited ≡ get k m

either :
    (b c : Bool) (x y z : String)
    → (b ≡ true → c ≡ false)
    → (if c then y else if b then x else z)
      ≡ (if (if b then true else c) then (if b then x else y) else z)
either true true x y z h = absurd (ground (arith, h refl))
either true false x y z h = refl
either false true x y z h = refl
either false false x y z h = refl

pub equal_key : (j k : String) → (j == k) ≡ true → j ≡ k
equal_key j k e = ground (arith, eq_iff j k, e)

same_key : (j k : String) (hs : Headers) → has j hs ≡ false → (j == k) ≡ true → has k hs ≡ false
same_key j k hs h e = subst (λ i. has i hs ≡ false) (equal_key j k e) h

get-gather :
    (k : String) (visited hs : Headers)
    → Distinct visited
    → get k (gather visited hs) ≡ (if has k visited then get k visited else get k hs)
unfolding gather get
get-gather k [] hs d = refl
get-gather k ((j, v) ∷ rest) hs d =
    get-gather k rest (put j v hs) d.1
    ∙ ap (λ z. if has k rest then get k rest else z) (get-put k j v hs)
    ∙ either (j == k) (has k rest) v (get k rest) (get k hs) (same_key j k rest d.0)

absent_if :
    (b c : Bool) (v x : String)
    → (if c then x else "") ≡ x
    → (if (if b then true else c) then (if b then v else x) else "") ≡ (if b then v else x)
absent_if true c v x h = refl
absent_if false c v x h = h

get-absent : (k : String) (hs : Headers) → (if has k hs then get k hs else "") ≡ get k hs
unfolding get
get-absent k [] = refl
get-absent k ((j, v) ∷ hs) = absent_if (j == k) (has k hs) v (get k hs) (get-absent k hs)

-- A message whose headers are visited in any order, when it is written, is fetched with its key and
-- its value, and with the same value under every header.
pub from_record-to_record :
    {Bytes : Type 0} (m : Message Bytes) (visited : Headers)
    → Visits m.headers visited
    → let f = from_record (to_record m.key m.value visited) in
      (f.key ≡ m.key) × (f.value ≡ m.value) × ((k : String) → get k f.headers ≡ get k m.headers)
unfolding from_record to_record get
from_record-to_record m visited h =
    (refl, refl, λ k. get-gather k visited [] h.once ∙ get-absent k visited ∙ h.same k)
