-- ===== src/Config.antt =====
-- libs/go/config/config.go: settings from the environment, with defaults.
--
-- The environment is a function, whose value is empty where a variable is not set. The parsers of
-- strconv and time, and strings.TrimSpace, are parameters.
pub mod Lists
use Prim.Native.String.{[], ◌∷◌}
use Prim.Native.Char.{Char, code}
use mathlib.Core.List
use dev_intel_platform.Base.{
  ℕ, String, Bool, true, false, List, Option, none, some, ◌==◌, eqb, map, if◌then◌else◌,
}
use dev_intel_platform.Base.Int.{ℤ}

-- strings.Split at a separator of one character, which is given by its code.
abbrev pub split_here : Char → Bool → List String → List String
split_here c true parts = List.◌∷◌ "" parts
split_here c false List.[] = List.[]
split_here c false (List.◌∷◌ p ps) = List.◌∷◌ (c ∷ p) ps

unfoldable pub split : ℕ → String → List String
split sep [] = List.◌∷◌ "" List.[]
split sep (c ∷ s) = split_here c (eqb (code c) sep) (split sep s)

module _ (env : String → String) where
  -- `String`.
  unfoldable pub string_of : String → String → String
  string_of key default = if env key == "" then default else env key

  -- `List`: the parts between commas, trimmed.
  unfoldable pub list_of : (String → String) → String → String → List String
  unfolding string_of split
  list_of trim_space key default = map trim_space (split 44 (string_of key default))

  abbrev parsed : {A : Type 0} → (String → Option A) → A → String → A
  parsed parse default v = elim (parse v) [ none ↦ default | some a ↦ a ]

  unfoldable pub int_of : (String → Option ℤ) → String → ℤ → ℤ
  int_of parse_int key default =
      if env key == "" then default else parsed parse_int default (env key)

  unfoldable pub duration_of : (String → Option ℤ) → String → ℤ → ℤ
  duration_of parse_duration key default =
      if env key == "" then default else parsed parse_duration default (env key)
