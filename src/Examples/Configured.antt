-- ===== src/Examples/Configured.antt =====
-- A list of brokers in the environment.
use Prim.Native.String.{[], ◌∷◌}
use Prim.Native.Char.{Char, code}
use mathlib.Core.List
use dev_intel_platform.Base.{String, Bool, ◌≡◌, refl, ◌==◌, ◌&&◌, eqb, if◌then◌else◌}
use dev_intel_platform.Config.{list_of}
use dev_intel_platform.Config.Lists.{list_of-joined, named}

abbrev environment : String → String
environment key = if key == "KAFKA_BROKERS" then "a:9092, b:9092 " else ""

abbrev blank : Char → Bool
blank c = eqb (code c) 32

abbrev trim_left : String → String
trim_left [] = []
trim_left (c ∷ s) = let rest = trim_left s in if blank c then rest else c ∷ s

-- A character in front of what is left of the text behind it.
abbrev kept : Char → String → String
kept c rest = if blank c && rest == "" then "" else c ∷ rest

abbrev trim_right : String → String
trim_right [] = []
trim_right (c ∷ s) = kept c (trim_right s)

-- Without blanks at either end.
abbrev trim : String → String
trim s = trim_right (trim_left s)

list_of-joined_example :
    list_of environment trim "KAFKA_BROKERS" "localhost:9092"
    ≡ List.◌∷◌ "a:9092" (List.◌∷◌ "b:9092" List.[])
list_of-joined_example =
    list_of-joined environment trim "KAFKA_BROKERS" "localhost:9092" "a:9092, b:9092 "
      ("a:9092", "a:9092") (List.◌∷◌ (" b:9092 ", "b:9092") List.[]) (refl, refl) ((refl, refl), tt)
      (named refl) refl
