-- ===== src/Json.antt =====
-- JSON as `encoding/json` hands it to the program: the values, and the decoding of values into
-- Go's types by the rules that the struct tags of the program rely on.
--
-- The lexer is the standard library's: it enters as the parameter `parse` of `Codec`, whose objects
-- hold the value that a repeated key has last. Keys are compared exactly, while Go also takes a key
-- in another letter case, which GitHub does not send. A field that
-- is absent or null leaves the zero value, a value of another kind is a decoding error, and an
-- integer outside of 64 bits or written with a fraction is one too.
use dev_intel_platform.Base.{
  String, ◌≡◌, Bool, false, List, [], ◌∷◌, Option, none, some, ◌>>=◌, ◌==◌, if◌then◌else◌,
}
use dev_intel_platform.Base.Int.{ℤ, pos, fits_int64}

mutual
  pub data Json : Type 0 where
    null : Json
    bool : Bool → Json
    num : ℤ → Json
    real : String → Json
    str : String → Json
    arr : Items → Json
    obj : Fields → Json

  pub data Items : Type 0 where
    nil : Items
    cons : Json → Items → Items

  pub data Fields : Type 0 where
    end : Fields
    field : String → Json → Fields → Fields

abbrev pub lookup : String → Fields → Option Json
lookup k end = none
lookup k (field j v fs) = if j == k then some v else lookup k fs

-- `m[k] = v` on a decoded object.
abbrev pub insert : String → Json → Fields → Fields
insert k v end = field k v end
insert k v (field j w fs) = if j == k then field j v fs else field j w (insert k v fs)

-- The fields of a struct's value: none of them where the value is null.
abbrev pub fields_of : Json → Option Fields
fields_of null = some end
fields_of (obj fs) = some fs
fields_of _ = none

abbrev pub decode_struct {ℓ} : {A : Type ℓ} → (Fields → Option A) → Json → Option A
decode_struct decode v = fields_of v >>= decode

abbrev pub sub_struct : String → Fields → Option Fields
sub_struct k fs = elim (lookup k fs) [ none ↦ some end | some v ↦ fields_of v ]

abbrev pub or_zero {ℓ} : {A : Type ℓ} → A → (Json → Option A) → Json → Option A
or_zero z d null = some z
or_zero z d v = d v

abbrev pub field_or {ℓ} : {A : Type ℓ} → A → (Json → Option A) → String → Fields → Option A
field_or z d k fs = elim (lookup k fs) [ none ↦ some z | some v ↦ or_zero z d v ]

-- A pointer field: nil where the field is absent or null.
abbrev pub pointer {ℓ} : {A : Type ℓ} → (Json → Option A) → String → Fields → Option (Option A)
pointer d = field_or none (λ v. d v >>= λ a. some (some a))

abbrev pub to_string : Json → Option String
to_string (str s) = some s
to_string _ = none

abbrev pub to_int : Json → Option ℤ
to_int (num n) = if fits_int64 n then some n else none
to_int _ = none

abbrev pub to_bool : Json → Option Bool
to_bool (bool b) = some b
to_bool _ = none

-- The elements of a slice; a null element is the zero value of its type.
abbrev pub to_items {ℓ} : {A : Type ℓ} → A → (Json → Option A) → Items → Option (List A)
to_items z d nil = some []
to_items z d (cons v vs) = or_zero z d v >>= λ a. to_items z d vs >>= λ as'. some (a ∷ as')

abbrev pub to_list {ℓ} : {A : Type ℓ} → A → (Json → Option A) → Json → Option (List A)
to_list z d (arr vs) = to_items z d vs
to_list z d _ = none

abbrev pub string_field : String → Fields → Option String
string_field = field_or "" to_string

abbrev pub int_field : String → Fields → Option ℤ
int_field = field_or (pos 0) to_int

abbrev pub bool_field : String → Fields → Option Bool
bool_field = field_or false to_bool

-- What the program takes from the standard library, over the type of its byte slices: the JSON
-- lexer and printer, RFC 3339 times, and the lower case of a text. An instant is the number of
-- nanoseconds since Go's zero `time.Time`.
--
-- The law is the documented behaviour of `json.Marshal` on a map of raw values: the output is an
-- object, which holds every key of the map with its value (the printer sorts the keys).
pub record Codec (Bytes : Type 0) : Type 0 where
  pub parse : Bytes → Option Json
  pub print_fields : Fields → Bytes
  pub parse_time : String → Option ℤ
  pub to_lower : String → String
  pub parse-print_fields :
      (fs : Fields)
      → (gs : Fields) × (parse (print_fields fs) ≡ some (obj gs))
        × ((k : String) → lookup k gs ≡ lookup k fs)

module _ {Bytes : Type 0} (codec : Codec Bytes) where
  -- json.Unmarshal into a struct whose fields `decode` reads.
  abbrev pub unmarshal {ℓ} : {A : Type ℓ} → (Fields → Option A) → Bytes → Option A
  unmarshal decode body = codec.parse body >>= fields_of >>= decode

  -- json.Unmarshal into a value that is no struct.
  abbrev pub unmarshal_json {ℓ} : {A : Type ℓ} → (Json → Option A) → Bytes → Option A
  unmarshal_json decode body = codec.parse body >>= decode

  abbrev pub to_time : Json → Option ℤ
  to_time (str s) = codec.parse_time s
  to_time _ = none

  abbrev pub time_field : String → Fields → Option ℤ
  time_field = field_or (pos 0) to_time

  abbrev pub time_pointer : String → Fields → Option (Option ℤ)
  time_pointer = pointer to_time
