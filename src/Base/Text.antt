-- ===== src/Base/Text.antt =====
-- Native texts: joining them, and the decimal text of an integer, as `%d` prints it.
use Prim.Native.Nat.{ℕ, zero, suc, ◌/◌, ◌%◌}
use Prim.Native.String
use Prim.Native.String.{String, [], ◌∷◌, len}
use Prim.Native.Char.{Char, code}
use mathlib.Core.Path.{◌≡◌, refl, sym}
use mathlib.Core.Bool.{Bool, true, false, ◌&&◌, not}
use mathlib.Core.Option.{Option, none, some}
use dev_intel_platform.Base.Tests.{eqb, ltb, if◌then◌else◌}
use dev_intel_platform.Base.Int.{ℤ, pos, negsuc}

abbrev pub concat : String → String → String
concat s t = String.◌++◌ s t

abbrev pub digit : ℕ → String
digit d =
    if eqb d 0
    then "0"
    else if eqb d 1
    then "1"
    else if eqb d 2
    then "2"
    else if eqb d 3
    then "3"
    else if eqb d 4
    then "4"
    else if eqb d 5
    then "5"
    else if eqb d 6
    then "6"
    else if eqb d 7
    then "7"
    else if eqb d 8
    then "8"
    else "9"

-- More fuel than digits: a number has at most as many digits as its successor counts.
digits : ℕ → ℕ → String
digits zero n = ""
digits (suc fuel) n =
    let rest = digits fuel (n / 10) in if ltb n 10 then digit n else concat rest (digit (n % 10))

unfoldable pub show_int : ℤ → String
unfolding digits
show_int (pos n) = digits (suc n) n
show_int (negsuc n) = concat "-" (digits (suc (suc n)) (suc n))

-- Go's `len`: the bytes of the UTF-8 text.
abbrev pub byte_length : String → ℕ
byte_length = len

-- strings.Cut at a separator of one character, which is given by its code: the texts before and
-- after the first one.
abbrev pub cut_here : Char → Bool → Option (String × String) → String → Option (String × String)
cut_here c true rest s = some ("", s)
cut_here c false none s = none
cut_here c false (some (a, b)) s = some (c ∷ a, b)

unfoldable pub cut : ℕ → String → Option (String × String)
cut sep [] = none
cut sep (c ∷ s) = cut_here c (eqb (code c) sep) (cut sep s) s

-- The text does not have the separator.
abbrev pub free : ℕ → String → Bool
free sep [] = true
free sep (c ∷ s) = not (eqb (code c) sep) && free sep s

pub and_true : (a b : Bool) → (not a && b) ≡ true → (a ≡ false) × (b ≡ true)
and_true false true e = (refl, refl)
and_true false false e = (refl, e)
and_true true b e = (sym e, cc)
