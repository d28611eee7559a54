-- ===== src/GithubApp/Tokens/Served.antt =====
-- What `Token` leaves in the cache.
use dev_intel_platform.Base.{
  String, ◌≡◌, refl, sym, ◌∙◌, ap, Bool, true, false, not, ◌&&◌, List, [], ◌∷◌, Option, none, some,
  ◌==◌, arith, Bool-cases, inl, inr, if◌then◌else◌, if_ind,
}
use dev_intel_platform.Base.Int.{ℤ, pos, eqb_ℤ, eqb_ℤ-eq}
use dev_intel_platform.GithubApp.Outside.{
  Request, Response, InstallationToken, Failure, Answer, ok, err, App, Process, Call, after_ind,
  require, answered, give, fail, empty_token, undecodable, not_signed,
}
use dev_intel_platform.Base.Text.{concat, show_int}
use dev_intel_platform.Json.{unmarshal}
use dev_intel_platform.GithubApp.Jwt.{app_jwt, max_ttl}
use dev_intel_platform.GithubApp.Replies.{decode_token}
use dev_intel_platform.GithubApp.Tokens.{
  valid, find_token, put_token, still_valid, cached, app_request, minted, mint, keep_token, or_else,
  token, send_valid,
}

-- The caches are those before.
abbrev Quiet : {S : Type 0} → Process S → Process S → Type 0
Quiet p q = (q.tokens ≡ p.tokens) × (q.budgets ≡ p.budgets)

named_if : (a b : Bool) → (not a && b) ≡ true → a ≡ false
named_if false b e = refl
named_if true b e = sym e

eqb_ℤ-refl : (i : ℤ) → eqb_ℤ i i ≡ true
eqb_ℤ-refl i = ground arith

valid-named : (t : InstallationToken) (now : ℤ) → valid t now ≡ true → (t.token == "") ≡ false
unfolding valid
valid-named t now e = named_if (t.token == "") _ e

find_token-put_token :
    (id : ℤ) (t : InstallationToken) (ts : List (ℤ × InstallationToken))
    → find_token id (put_token id t ts) ≡ some t
find_token-put_token id t [] = rw (eqb_ℤ-refl id)
find_token-put_token id t ((j, u) ∷ ts) = elim (Bool-cases (eqb_ℤ j id)) [
  | inl e ↦ rw (e, e)
  | inr e ↦ rw (e, e, find_token-put_token id t ts)
]

find_token-other :
    (id k : ℤ) (t : InstallationToken) (ts : List (ℤ × InstallationToken))
    → eqb_ℤ id k ≡ false
    → find_token k (put_token id t ts) ≡ find_token k ts
find_token-other id k t [] d = rw d
find_token-other id k t ((j, u) ∷ ts) d = elim (Bool-cases (eqb_ℤ j id)) [
  | inl e ↦ rw (e, ap (λ n. eqb_ℤ n k) (eqb_ℤ-eq j id e) ∙ d)
  | inr e ↦ elim (Bool-cases (eqb_ℤ j k)) [
    | inl f ↦ rw (e, f)
    | inr f ↦ rw (e, f, find_token-other id k t ts d)
  ]
]

module _ {Bytes S : Type 0} (p : Process S) where
  -- A call that leaves the caches alone.
  abbrev Silent : {A : Type 0} → Answer Bytes A × Process S → Type 0
  Silent x = Quiet p x.1

  abbrev HasText : Answer Bytes InstallationToken × Process S → Type 0
  HasText (ok t, q) = ((t.token == "") ≡ false) × Quiet p q
  HasText (err e, q) = Quiet p q

  -- A token that is found is the cached one.
  abbrev Found : ℤ → Answer Bytes (Option InstallationToken) × Process S → Type 0
  Found id (ok none, q) = Quiet p q
  Found id (ok (some t), q) =
      ((t.token == "") ≡ false) × (find_token id p.tokens ≡ some t) × Quiet p q
  Found id (err e, q) = Quiet p q

  -- What a call of `Token` for an installation may come to: a token with a text, which is then the
  -- cached one, where the tokens of the other installations stay; or an error, where all of them stay.
  abbrev pub Served : ℤ → Answer Bytes InstallationToken × Process S → Type 0
  Served id (ok t, q) =
      ((t.token == "") ≡ false)
      × (find_token id q.tokens ≡ some t)
      × ((j : ℤ) → eqb_ℤ id j ≡ false → find_token j q.tokens ≡ find_token j p.tokens)
      × (q.budgets ≡ p.budgets)
  Served id (err e, q) = (q.tokens ≡ p.tokens) × (q.budgets ≡ p.budgets)

  require-Silent :
      {A : Type 0} (e : Failure Bytes) (o : Option A) (q : Process S)
      → Quiet p q
      → Silent (require e o q)
  require-Silent e none q h = h
  require-Silent e (some a) q h = h

  answered-Silent :
      (app : App Bytes S) (o : Option (Response Bytes)) (q : Process S)
      → Quiet p q
      → Silent (answered app (o, q))
  answered-Silent app none q h = h
  answered-Silent app (some r) q h = h

  send_valid-Silent :
      (app : App Bytes S) (req : Request Bytes) (q : Process S)
      → Quiet p q
      → Silent (send_valid app req q)
  send_valid-Silent app req q h =
      if_ind {A = Call Bytes S (Response Bytes)} (λ m. Silent (m q)) (app.net.valid_url req.url)
        (answered-Silent app (app.net.send req q.outer).0
          (record q { outer = (app.net.send req q.outer).1 }) h)
        h

  named_token :
      (app : App Bytes S) (t : InstallationToken) (b : Bool) (q : Process S)
      → (t.token == "") ≡ b
      → Quiet p q
      → HasText
          (let m : Call Bytes S InstallationToken = if b then fail empty_token else give t in m q)
  named_token app t true q e h = h
  named_token app t false q e h = (e, h)

  checked-Found :
      (app : App Bytes S) (id : ℤ) (t : InstallationToken) (now : ℤ) (b : Bool) (q : Process S)
      → valid t now ≡ b
      → find_token id p.tokens ≡ some t
      → Quiet p q
      → Found id (ok (if b then some t else none), q)
  checked-Found app id t now true q e f h = (valid-named t now e, f, h)
  checked-Found app id t now false q e f h = h

  still_valid-Found :
      (app : App Bytes S) (id : ℤ) (o : Option InstallationToken) (q : Process S)
      → find_token id p.tokens ≡ o
      → Quiet p q
      → Found id (still_valid app o q)
  unfolding still_valid
  still_valid-Found app id none q f h = h
  still_valid-Found app id (some t) q f h =
      let now = app.net.now q.outer in
      checked-Found app id t now.0 (valid t now.0) (record q { outer = now.1 }) refl f h

  app_request-Silent :
      (app : App Bytes S) (method path : String) (q : Process S)
      → Quiet p q
      → Silent (app_request app method path q)
  unfolding app_request
  app_request-Silent app method path q h =
      let now = app.net.now q.outer in
      let q' = record q { outer = now.1 } in
      after_ind Silent Silent _ (require not_signed (app_jwt app now.0 max_ttl) q')
        (require-Silent not_signed (app_jwt app now.0 max_ttl) q' h)
        (λ jwt r k. send_valid-Silent app _ r k) (λ e r k. k)

  minted-HasText :
      (app : App Bytes S) (resp : Response Bytes) (q : Process S)
      → Quiet p q
      → HasText (minted app resp q)
  unfolding minted
  minted-HasText app resp q h =
      let body = app.net.limited 1048576 resp.body in
      if_ind {A = Call Bytes S InstallationToken} (λ m. HasText (m q))
        (not (eqb_ℤ resp.status (pos 201))) h
        (after_ind Silent HasText _
          (require undecodable (unmarshal app.codec (decode_token app.codec) body) q)
          (require-Silent undecodable (unmarshal app.codec (decode_token app.codec) body) q h)
          (λ t r k. named_token app t (t.token == "") r refl k) (λ e r k. k))

  mint-HasText : (app : App Bytes S) (id : ℤ) (q : Process S) → Quiet p q → HasText (mint app id q)
  unfolding mint
  mint-HasText app id q h =
      let path = concat "/app/installations/" (concat (show_int id) "/access_tokens") in
      after_ind Silent HasText _ (app_request app "POST" path q)
        (app_request-Silent app "POST" path q h) (λ resp r k. minted-HasText app resp r k)
        (λ e r k. k)

  cached-Found :
      (app : App Bytes S) (id : ℤ) (q : Process S) → Quiet p q → Found id (cached app id q)
  unfolding cached
  cached-Found app id q h =
      still_valid-Found app id (find_token id q.tokens) q (ap (find_token id) (sym h.0)) h

  keep_token-Served :
      (app : App Bytes S) (id : ℤ) (t : InstallationToken) (q : Process S)
      → (t.token == "") ≡ false
      → Quiet p q
      → Served id (keep_token app id t q)
  unfolding keep_token
  keep_token-Served app id t q n h = (
    n,
    find_token-put_token id t q.tokens,
    λ j d. find_token-other id j t q.tokens d ∙ ap (find_token j) h.0,
    h.1,
  )

  Found-Quiet :
      (app : App Bytes S) (id : ℤ) (o : Option InstallationToken) (q : Process S)
      → Found id (ok o, q)
      → Quiet p q
  Found-Quiet app id none q f = f
  Found-Quiet app id (some t) q f = f.2

  Found-Served :
      (id : ℤ) (o : Option InstallationToken) (k : Call Bytes S InstallationToken) (q : Process S)
      → (app : App Bytes S) → Found id (ok o, q)
      → Served id (k q)
      → Served id (or_else app o k q)
  unfolding or_else
  Found-Served id none k q app f h = h
  Found-Served id (some t) k q app f h =
      (f.0, ap (find_token id) f.2.0 ∙ f.1, λ j d. ap (find_token j) f.2.0, f.2.1)

-- A call of `Token` that answers with a token has it in the cache for its installation, and the text
-- is not empty; the tokens of the other installations are those before. A call that fails leaves the
-- cache as it was. The rate budgets are not touched.
pub token-Served :
    {Bytes S : Type 0} (app : App Bytes S) (id : ℤ) (p : Process S) → Served p id (token app id p)
unfolding token
token-Served app id p =
    after_ind (Found p id) (Served p id) _ (cached app id p) (cached-Found p app id p (refl, refl))
      (λ o q f. Found-Served p id o _ q app f (
        after_ind (Found p id) (Served p id) _ (cached app id q)
          (cached-Found p app id q (Found-Quiet p app id o q f))
          (λ o' r g. Found-Served p id o' _ r app g (
            after_ind (HasText p) (Served p id) _ (mint app id r)
              (mint-HasText p app id r (Found-Quiet p app id o' r g))
              (λ t u m. keep_token-Served p app id t u m.0 m.1) (λ e u m. m)))
          (λ e r g. g)))
      (λ e q f. f)
