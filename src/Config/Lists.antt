-- ===== src/Config/Lists.antt =====
-- A list in the environment reads back as its parts.
use Prim.Native.String.{[], ◌∷◌}
use Prim.Native.String.append
use Prim.Native.Char.{Char, code}
use dev_intel_platform.Base.{ℕ, String, ◌≡◌, refl, ◌∙◌, ap, true, false, List, ◌==◌, eqb, map, All}
use dev_intel_platform.Base.Text.{concat, free, and_true}
use dev_intel_platform.Config.{split, string_of, list_of}

-- The parts with a comma between two of them; the first one is given by itself.
abbrev pub joined : String → List String → String
joined p List.[] = p
joined p (List.◌∷◌ q qs) = concat p ("," ∷ joined q qs)

split-free : (sep : ℕ) (a : String) → free sep a ≡ true → split sep a ≡ List.◌∷◌ a List.[]
unfolding split
split-free sep [] f = refl
split-free sep (c ∷ a) f =
    let g = and_true (eqb (code c) sep) (free sep a) f in rw (g.0, split-free sep a g.1)

split-concat :
    (sep : ℕ) (a : String) (c : Char) (b : String)
    → free sep a ≡ true
    → eqb (code c) sep ≡ true
    → split sep (concat a (c ∷ b)) ≡ List.◌∷◌ a (split sep b)
unfolding split
split-concat sep [] c b f e = ap (split sep) (append.nil (c ∷ b)) ∙ rw e
split-concat sep (d ∷ a) c b f e =
    let g = and_true (eqb (code d) sep) (free sep a) f in
    ap (split sep) (append.cons d a (c ∷ b)) ∙ rw (g.0, split-concat sep a c b g.1 e)

-- A part as it stands in a list, without commas, and what is left of it once it is trimmed.
abbrev pub IsPart : (String → String) → String × String → Type 0
IsPart trim_space (raw, clean) = (free 44 raw ≡ true) × (trim_space raw ≡ clean)

-- What a setting is: the variable's value, or the default where that is empty.
pub data Setting (env : String → String) (key default : String) : String → Type 0 where
  named : (env key == "") ≡ false → Setting env key default (env key)
  unnamed : (env key == "") ≡ true → Setting env key default default

string_of-Setting :
    (env : String → String) (key default text : String)
    → Setting env key default text
    → string_of env key default ≡ text
unfolding string_of
string_of-Setting env key default _ (named e) = rw e
string_of-Setting env key default _ (unnamed e) = rw e

abbrev pub raws : List (String × String) → List String
raws List.[] = List.[]
raws (List.◌∷◌ (raw, clean) ps) = List.◌∷◌ raw (raws ps)

abbrev pub cleans : List (String × String) → List String
cleans List.[] = List.[]
cleans (List.◌∷◌ (raw, clean) ps) = List.◌∷◌ clean (cleans ps)

split-joined :
    (trim_space : String → String) (p : String × String) (ps : List (String × String))
    → IsPart trim_space p
    → All (IsPart trim_space) ps
    → map trim_space (split 44 (joined p.0 (raws ps))) ≡ List.◌∷◌ p.1 (cleans ps)
split-joined trim_space (p, c) List.[] h hs =
    ap (map trim_space) (split-free 44 p h.0) ∙ ap (λ q. List.◌∷◌ q List.[]) h.1
split-joined trim_space (p, c) (List.◌∷◌ (q, d) qs) h hs =
    ap (map trim_space) (split-concat 44 p "," (joined q (raws qs)) h.0 refl)
    ∙ ap (λ r. List.◌∷◌ r (map trim_space (split 44 (joined q (raws qs))))) h.1
    ∙ ap (λ rs. List.◌∷◌ c rs) (split-joined trim_space (q, d) qs hs.0 hs.1)

-- A setting, which is the variable's value or, where that is empty, the default, is read as its parts
-- between the commas, each of them trimmed, and in their order.
pub list_of-joined :
    (env : String → String) (trim_space : String → String) (key default text : String)
    (p : String × String) (ps : List (String × String))
    → IsPart trim_space p
    → All (IsPart trim_space) ps
    → Setting env key default text
    → text ≡ joined p.0 (raws ps)
    → list_of env trim_space key default ≡ List.◌∷◌ p.1 (cleans ps)
unfolding list_of
list_of-joined env trim_space key default text p ps h hs set e =
    ap (λ t. map trim_space (split 44 t)) (string_of-Setting env key default text set ∙ e)
    ∙ split-joined trim_space p ps h hs
