-- ===== src/Github/Decode.antt =====
-- The decoding of the payloads: the names of the fields are the `json` tags of the structs.
pub mod Pulls
pub mod Issues
pub mod Commits
use dev_intel_platform.Base.{String, Bool, List, [], Option, some, ◌>>=◌}
use dev_intel_platform.Base.Int.{ℤ, pos}
use dev_intel_platform.Json.{
  Json, Fields, Codec, fields_of, sub_struct, field_or, pointer, lookup, to_string, to_int, to_list,
  string_field, int_field, bool_field, time_field, time_pointer,
}

-- installation.ID, repository.FullName and actor.Login under their keys.
unfoldable pub decode_installation : Fields → Option ℤ
decode_installation fs = do g ← sub_struct "installation" fs; int_field "id" g

unfoldable pub decode_repository : Fields → Option String
decode_repository fs = do g ← sub_struct "repository" fs; string_field "full_name" g

unfoldable pub decode_actor : Fields → Option String
decode_actor fs = do g ← sub_struct "user" fs; string_field "login" g
