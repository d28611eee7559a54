-- ===== src/Kafka.antt =====
-- libs/go/kafka/kafka.go: messages and their headers. The broker's client is not part of the
-- repository; what the services do with it is in their modules.
pub mod Wire
use dev_intel_platform.Base.{String, ◌≡◌, refl, List, [], ◌∷◌, ◌==◌, if◌then◌else◌, arith, eq_iff}

-- `map[string]string`.
abbrev pub Headers : Type 0
Headers = List (String × String)

-- `m[k]`: the empty text where the key is missing.
unfoldable pub get : String → Headers → String
get k [] = ""
get k ((j, v) ∷ hs) = if j == k then v else get k hs

-- `m[k] = v`.
unfoldable pub put : String → String → Headers → Headers
put k v [] = (k, v) ∷ []
put k v ((j, w) ∷ hs) = if j == k then (j, v) ∷ hs else (j, w) ∷ put k v hs

pub record Message (Bytes : Type 0) : Type 0 where
  pub key : String
  pub value : Bytes
  pub headers : Headers

-- What the broker holds of a message.
pub record Record (Bytes : Type 0) : Type 0 where
  pub wire_key : String
  pub wire_value : Bytes
  pub wire_headers : List (String × String)

-- `Write`, of the headers in the order in which `range` visits them.
unfoldable pub to_record : {Bytes : Type 0} → String → Bytes → List (String × String) → Record Bytes
to_record key value visited = record { wire_key = key; wire_value = value; wire_headers = visited }

-- The loop of `Fetch` over the headers.
unfoldable pub gather : List (String × String) → Headers → Headers
unfolding put
gather [] hs = hs
gather ((k, v) ∷ rest) hs = gather rest (put k v hs)

unfoldable pub from_record : {Bytes : Type 0} → Record Bytes → Message Bytes
unfolding gather
from_record r = record {
  key = r.wire_key;
  value = r.wire_value;
  headers = gather r.wire_headers [];
}

-- A key that is written reads back; the others keep their values.
pub get-put :
    (j k v : String) (hs : Headers) → get j (put k v hs) ≡ (if k == j then v else get j hs)
unfolding get put
get-put j k v [] = refl
get-put j k v ((i, w) ∷ hs) = ground (arith, eq_iff k j, eq_iff i k, eq_iff i j, get-put j k v hs)
