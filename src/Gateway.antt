-- ===== src/Gateway.antt =====
-- services/webhook-gateway/main.go: the handler of GitHub's webhooks.
--
-- Parameters are the hexadecimal decoder, HMAC-SHA256 and its comparison, the reader's limit of the
-- body, and what observability.Inject does to the headers. The routing and the shutdown of main
-- call the standard library.
pub mod Authentic
use Prim.Native.Char.{code}
use dev_intel_platform.Base.{
  ℕ, String, Bool, true, false, not, eqb, List, [], ◌∷◌, ◌++◌, Option, none, some, ◌==◌,
  if◌then◌else◌,
}
use dev_intel_platform.Events.{header_git_hub_event, header_git_hub_deliv, header_trace_id}
use dev_intel_platform.Kafka.{Headers, Message, put}
use dev_intel_platform.Tenancy.{Call, done, refused, lost}

pub record Crypto (Bytes : Type 0) : Type 0 where
  pub hex_decode : String → Option Bytes
  pub hmac_sha256 : Bytes → Bytes → Bytes
  pub equal : Bytes → Bytes → Bool

-- The request: its method, what reading its body gives under the cap, and its headers.
pub record Request (Bytes : Type 0) : Type 0 where
  pub method : String
  pub body : Option Bytes
  pub signature : String
  pub delivery : String
  pub event : String

-- strings.HasPrefix and strings.TrimPrefix.
unfoldable pub after_prefix : String → String → Option String
after_prefix String.[] s = some s
after_prefix (String.◌∷◌ c p) String.[] = none
after_prefix (String.◌∷◌ c p) (String.◌∷◌ d s) =
    let rest = after_prefix p s in if eqb (code c) (code d) then rest else none

abbrev pub accepted : ℕ
accepted = 202

module _ {Bytes : Type 0} (crypto : Crypto Bytes) (secret : Bytes) where
  unfoldable pub matches : Bytes → Option Bytes → Bool
  matches body none = false
  matches body (some want) = crypto.equal (crypto.hmac_sha256 secret body) want

  unfoldable pub decoded : Bytes → Option String → Bool
  unfolding matches
  decoded body none = false
  decoded body (some hex) = matches body (crypto.hex_decode hex)

  unfoldable pub valid_signature : String → Bytes → Bool
  unfolding decoded after_prefix
  valid_signature header body = decoded body (after_prefix "sha256=" header)

  module _ (inject : Headers → Headers) (trace_id : String) where
    -- The message that is put on the topic of raw events.
    unfoldable pub raw_message : Request Bytes → Bytes → Message Bytes
    raw_message req body = record {
      key = req.delivery;
      value = body;
      headers = inject (
          (header_git_hub_event, req.event)
          ∷ (header_git_hub_deliv, req.delivery)
          ∷ (header_trace_id, trace_id)
          ∷ []);
    }

    -- The status of a write, and what the topic holds after it.
    unfoldable pub enqueue : Message Bytes → Call → List (Message Bytes) → ℕ × List (Message Bytes)
    enqueue m done log = (accepted, log ++ m ∷ [])
    enqueue m refused log = (503, log)
    enqueue m lost log = (503, log ++ m ∷ [])

    unfoldable pub with_body :
        Request Bytes → Call → List (Message Bytes) → Option Bytes → ℕ × List (Message Bytes)
    unfolding enqueue raw_message valid_signature
    with_body req call log none = (400, log)
    with_body req call log (some body) =
        if not (valid_signature req.signature body)
        then (401, log)
        else enqueue (raw_message req body) call log

    unfoldable pub handle_git_hub :
        Request Bytes → Call → List (Message Bytes) → ℕ × List (Message Bytes)
    unfolding with_body
    handle_git_hub req call log =
        if not (req.method == "POST") then (405, log) else with_body req call log req.body
