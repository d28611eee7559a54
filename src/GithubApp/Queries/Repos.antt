-- ===== src/GithubApp/Queries/Repos.antt =====
-- The parts of "owner/name".
use Prim.Native.String.{[], ◌∷◌}
use Prim.Native.String.append
use Prim.Native.Char.{Char, code}
use mathlib.Core.Option.{some-injective}
use dev_intel_platform.Base.{
  ℕ, String, ◌≡◌, refl, sym, ◌∙◌, ap, subst, Bool, true, false, ◌||◌, eqb, Option, none, some, ◌==◌,
  arith, if◌then◌else◌,
}
use dev_intel_platform.Base.Text.{concat, cut, cut_here, free, and_true}
use dev_intel_platform.GithubApp.Queries.{split_repo, named}

cut-concat :
    (sep : ℕ) (c : Char) (a b : String)
    → eqb (code c) sep ≡ true
    → free sep a ≡ true
    → cut sep (concat a (c ∷ b)) ≡ some (a, b)
unfolding cut
cut-concat sep c [] b e f = ap (cut sep) (append.nil (c ∷ b)) ∙ rw e
cut-concat sep c (d ∷ a) b e f =
    let g = and_true (eqb (code d) sep) (free sep a) f in
    ap (cut sep) (append.cons d a (c ∷ b)) ∙ rw (g.0, cut-concat sep c a b e g.1)

-- A text that is a part, the separator, and another part, where the first has no separator.
record IsCut (sep : ℕ) (s a b : String) : Type 0 where
  separator : Char
  its_code : eqb (code separator) sep ≡ true
  joined : s ≡ concat a (separator ∷ b)
  first : free sep a ≡ true

first-IsCut :
    (sep : ℕ) (c : Char) (s a b : String)
    → eqb (code c) sep ≡ true
    → ◌≡◌ {A = Option (String × String)} (some ("", s)) (some (a, b))
    → IsCut sep (c ∷ s) a b
first-IsCut sep c s a b e h =
    let g = some-injective ("", s) (a, b) h in
    subst (λ q. IsCut sep (c ∷ s) q.0 q.1) g
      (record { separator = c; its_code = e; joined = sym (append.nil (c ∷ s)); first = refl })

later-IsCut :
    (sep : ℕ) (c : Char) (s a b : String)
    → eqb (code c) sep ≡ false
    → IsCut sep s a b
    → IsCut sep (c ∷ s) (c ∷ a) b
later-IsCut sep c s a b e k = record {
  separator = k.separator;
  its_code = k.its_code;
  joined = ap (λ t. c ∷ t) k.joined ∙ sym (append.cons c a (k.separator ∷ b));
  first = rw (e, k.first);
}

IsCut-step :
    (sep : ℕ) (c : Char) (s a b : String) (t : Bool) (o : Option (String × String))
    → eqb (code c) sep ≡ t
    → ((a' b' : String) → o ≡ some (a', b') → IsCut sep s a' b')
    → cut_here c t o s ≡ some (a, b)
    → IsCut sep (c ∷ s) a b
IsCut-step sep c s a b true o e ih h = first-IsCut sep c s a b e h
IsCut-step sep c s a b false none e ih h = absurd (ground arith)
IsCut-step sep c s a b false (some (a', b')) e ih h =
    subst (λ q. IsCut sep (c ∷ s) q.0 q.1) (some-injective (c ∷ a', b') (a, b) h)
      (later-IsCut sep c s a' b' e (ih a' b' refl))

cut-IsCut : (sep : ℕ) (s a b : String) → cut sep s ≡ some (a, b) → IsCut sep s a b
unfolding cut
cut-IsCut sep [] a b h = absurd (ground arith)
cut-IsCut sep (c ∷ s) a b h =
    IsCut-step sep c s a b (eqb (code c) sep) (cut sep s) refl (cut-IsCut sep s) h

-- An owner and a name, neither of them empty, with a slash between them; no slash in the owner.
pub record IsRepo (repo owner name : String) : Type 0 where
  pub slash : Char
  pub its_code : eqb (code slash) 47 ≡ true
  pub joined : repo ≡ concat owner (slash ∷ name)
  pub first : free 47 owner ≡ true
  pub owner_named : (owner == "") ≡ false
  pub name_named : (name == "") ≡ false

or_false : (a b : Bool) → (a || b) ≡ false → (a ≡ false) × (b ≡ false)
or_false false b e = (refl, e)
or_false true b e = (cc, cc)

both_step :
    (a b owner name : String) (t : Bool)
    → (a == "" || b == "") ≡ t
    → (let o : Option (String × String) = if t then none else some (a, b) in o) ≡ some (owner, name)
    → (◌≡◌ {A = String × String} (a, b) (owner, name)) × ((a == "" || b == "") ≡ false)
both_step a b owner name true e h = absurd (ground arith)
both_step a b owner name false e h = (some-injective (a, b) (owner, name) h, e)

named_step :
    (repo owner name : String) (o : Option (String × String))
    → cut 47 repo ≡ o
    → named o ≡ some (owner, name)
    → IsRepo repo owner name
named_step repo owner name none e h = absurd (ground arith)
named_step repo owner name (some (a, b)) e h =
    let s = both_step a b owner name (a == "" || b == "") refl h in
    let n = or_false (a == "") (b == "") s.1 in
    let k = cut-IsCut 47 repo a b e in
    subst (λ q. IsRepo repo q.0 q.1) s.0
      (record {
        slash = k.separator;
        its_code = k.its_code;
        joined = k.joined;
        first = k.first;
        owner_named = n.0;
        name_named = n.1;
      })

-- A repository is split into an owner and a name exactly if it is the two with a slash between
-- them, neither is empty, and the owner has no slash.
pub split_repo-IsRepo :
    (repo owner name : String)
    → (split_repo repo ≡ some (owner, name) → IsRepo repo owner name)
      × (IsRepo repo owner name → split_repo repo ≡ some (owner, name))
unfolding split_repo
split_repo-IsRepo repo owner name = (
  λ h. named_step repo owner name (cut 47 repo) refl h,
  λ r.
      ap named (ap (cut 47) r.joined ∙ cut-concat 47 r.slash owner name r.its_code r.first)
      ∙ rw (r.owner_named, r.name_named),
)
