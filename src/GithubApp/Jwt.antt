-- ===== src/GithubApp/Jwt.antt =====
-- libs/go/githubapp/jwt.go: the credentials of the app and the JWT that it signs.
pub mod Lifetime
use dev_intel_platform.Base.{String, ◌||◌, not, ◌/◌, Option, none, some, ◌>>=◌, if◌then◌else◌}
use dev_intel_platform.Base.Int.{ℤ, pos, negsuc, ltb_ℤ, eqb_ℤ, ◌-ℤ◌, ◌+ℤ◌}
use dev_intel_platform.Base.Text.{concat}
use dev_intel_platform.Json.{num, str, Fields, end, field}
use dev_intel_platform.GithubApp.Outside.{App}

-- A private key of any algorithm, as PKCS#8 holds it.
pub data AnyKey (Rsa : Type 0) : Type 0 where
  rsa : Rsa → AnyKey Rsa
  another : AnyKey Rsa

-- The parsers of encoding/pem and crypto/x509.
pub record KeyParsers (Bytes Rsa : Type 0) : Type 0 where
  pub decode_pem : Bytes → Option Bytes
  pub parse_pkcs1 : Bytes → Option Rsa
  pub parse_pkcs8 : Bytes → Option (AnyKey Rsa)

pub record AppCredentials (Rsa : Type 0) : Type 0 where
  pub app_id : ℤ
  pub private_key : Rsa

abbrev pub only_rsa : {Rsa : Type 0} → AnyKey Rsa → Option Rsa
only_rsa (rsa k) = some k
only_rsa another = none

-- PKCS#1, or else PKCS#8.
abbrev pub first_of : {Rsa : Type 0} → Option Rsa → Option (AnyKey Rsa) → Option Rsa
first_of (some k) _ = some k
first_of none any = do k ← any; only_rsa k

module _ {Bytes Rsa : Type 0} (parsers : KeyParsers Bytes Rsa) where
  unfoldable pub parse_rsa_private_key : Bytes → Option Rsa
  parse_rsa_private_key pem_bytes = do
    block ← parsers.decode_pem pem_bytes
    first_of (parsers.parse_pkcs1 block) (parsers.parse_pkcs8 block)

  unfoldable pub new_app_credentials : ℤ → Bytes → Option (AppCredentials Rsa)
  unfolding parse_rsa_private_key
  new_app_credentials app_id pem_bytes = if eqb_ℤ app_id (pos 0) then none else do
    key ← parse_rsa_private_key pem_bytes
    some (record { app_id = app_id; private_key = key })

-- Ten minutes.
abbrev pub max_ttl : ℤ
max_ttl = pos 600000000000

-- time.Time.Unix: the whole seconds since 1970, rounded down.
unfoldable pub seconds : ℤ → ℤ
seconds (pos n) = pos (n / 1000000000)
seconds (negsuc n) = negsuc (n / 1000000000)

unfoldable pub unix : ℤ → ℤ
unfolding seconds
unix t = seconds t -ℤ pos 62135596800

unfoldable pub clamp_ttl : ℤ → ℤ
clamp_ttl ttl = if not (ltb_ℤ (pos 0) ttl) || ltb_ℤ max_ttl ttl then max_ttl else ttl

unfoldable pub issued_at : ℤ → ℤ
unfolding unix
issued_at now = unix (now -ℤ pos 60000000000)

unfoldable pub expires : ℤ → ℤ → ℤ
unfolding unix clamp_ttl
expires now ttl = unix (now +ℤ clamp_ttl ttl)

unfoldable pub jwt_header : Fields
jwt_header = field "alg" (str "RS256") (field "typ" (str "JWT") end)

-- The claims, in the order of their keys.
unfoldable pub claims : ℤ → ℤ → ℤ → Fields
unfolding issued_at expires
claims app_id now ttl =
    field "exp" (num (expires now ttl))
      (field "iat" (num (issued_at now)) (field "iss" (num app_id) end))

module _ {Bytes S : Type 0} (app : App Bytes S) where
  unfoldable pub part : Fields → String
  part fs = app.encode (app.codec.print_fields fs)

  unfoldable pub signing_input : ℤ → ℤ → String
  unfolding part jwt_header claims
  signing_input now ttl = concat (part jwt_header) (concat "." (part (claims app.app_id now ttl)))

  -- `AppJWT`.
  unfoldable pub app_jwt : ℤ → ℤ → Option String
  unfolding signing_input
  app_jwt now ttl = do
    signature ← app.sign (signing_input now ttl)
    some (concat (signing_input now ttl) (concat "." signature))
