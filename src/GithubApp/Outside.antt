-- ===== src/GithubApp/Outside.antt =====
-- What the GitHub App client calls: the clock, HTTP, and the signature of RSA.
--
-- `Call` is an action of the client that may fail. Its state is that of the process: the caches of
-- the client, and all that is outside of it. An error is a value, with what the caller may see of it.
use dev_intel_platform.Base.{ℕ, String, Bool, List, Option, none, some}
use dev_intel_platform.Base.Int.{ℤ}
use dev_intel_platform.Json.{Codec}
use dev_intel_platform.GithubApp.RateLimit.{Resource, Registry}

pub record Request (Bytes : Type 0) : Type 0 where
  pub method : String
  pub url : String
  pub headers : List (String × String)
  pub body : Option Bytes

pub record Response (Bytes : Type 0) : Type 0 where
  pub status : ℤ
  pub header : String → String
  pub body : Bytes

-- `InstallationToken`, whose permissions are a map.
pub record InstallationToken : Type 0 where
  pub token : String
  pub expires_at : ℤ
  pub permissions : List (String × String)

pub data Failure (Bytes : Type 0) : Type 0 where
  not_signed : Failure Bytes
  bad_request : Failure Bytes
  unreachable : Failure Bytes
  bad_status : ℤ → Bytes → Failure Bytes
  undecodable : Failure Bytes
  empty_token : Failure Bytes
  rate_limited : Resource → ℤ → Failure Bytes  -- `RateLimitedError`
  graph_ql_failed : List String → Failure Bytes  -- `GraphQLError`
  bad_repo : Failure Bytes

pub data Answer (Bytes A : Type 0) : Type 0 where
  ok : A → Answer Bytes A
  err : Failure Bytes → Answer Bytes A

-- The clock, an HTTP client, http.NewRequest's check of a URL, io.LimitReader, and strconv.Atoi.
pub record Outside (Bytes S : Type 0) : Type 0 where
  pub now : S → ℤ × S
  pub send : Request Bytes → S → Option (Response Bytes) × S
  pub valid_url : String → Bool
  pub limited : ℕ → Bytes → Bytes
  pub parse_int : String → Option ℤ

-- What a TokenSource and a Client are made of.
pub record App (Bytes S : Type 0) : Type 0 where
  pub codec : Codec Bytes
  pub net : Outside Bytes S
  pub app_id : ℤ
  pub encode : Bytes → String  -- base64, URL alphabet, no padding
  pub sign : String → Option String  -- RS256 with the private key, then base64
  pub api_base : String

-- The cache of tokens, the budgets, and all that is outside.
pub record Process (S : Type 0) : Type 0 where
  pub outer : S
  pub tokens : List (ℤ × InstallationToken)
  pub budgets : Registry

abbrev pub Call : Type 0 → Type 0 → Type 0 → Type 0
Call Bytes S A = Process S → Answer Bytes A × Process S

abbrev pub give : {Bytes S A : Type 0} → A → Call Bytes S A
give a p = (ok a, p)

abbrev pub fail : {Bytes S A : Type 0} → Failure Bytes → Call Bytes S A
fail e p = (err e, p)

abbrev pub after :
    {Bytes S A B : Type 0}
    → Answer Bytes A × Process S
    → (A → Call Bytes S B)
    → Answer Bytes B × Process S
after (ok a, p) k = k a p
after (err e, p) k = (err e, p)

infixl 5 ◌>>=◌
abbrev pub ◌>>=◌ : {Bytes S A B : Type 0} → Call Bytes S A → (A → Call Bytes S B) → Call Bytes S B
(m >>= k) p = after (m p) k

-- A property of what comes after an action, from one of the action.
pub after_ind :
    {Bytes S A B : Type 0} (Q : Answer Bytes A × Process S → Type 0)
    (P : Answer Bytes B × Process S → Type 0) (k : A → Call Bytes S B)
    (x : Answer Bytes A × Process S)
    → Q x
    → ((a : A) (q : Process S) → Q (ok a, q) → P (k a q))
    → ((e : Failure Bytes) (q : Process S) → Q (err e, q) → P (err e, q))
    → P (after x k)
after_ind Q P k (ok a, q) h f g = f a q h
after_ind Q P k (err e, q) h f g = g e q h

-- A value that has to be there.
abbrev pub require : {Bytes S A : Type 0} → Failure Bytes → Option A → Call Bytes S A
require e none p = (err e, p)
require e (some a) p = (ok a, p)

module _ {Bytes S : Type 0} (app : App Bytes S) where
  abbrev pub in_process : {A : Type 0} → A × S → Process S → A × Process S
  in_process (a, s) p = (a, record p { outer = s })

  abbrev pub clock : Call Bytes S ℤ
  clock p = let (t, p') = in_process (app.net.now p.outer) p in (ok t, p')

  -- http.NewRequest, then the client's Do.
  abbrev pub answered :
      Option (Response Bytes) × Process S → Answer Bytes (Response Bytes) × Process S
  answered (none, p) = (err unreachable, p)
  answered (some r, p) = (ok r, p)

  abbrev pub transmit : Request Bytes → Call Bytes S (Response Bytes)
  transmit req p = answered (in_process (app.net.send req p.outer) p)
