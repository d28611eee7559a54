-- ===== src/Examples/Receiving.antt =====
-- A webhook that arrives with a valid signature.
use dev_intel_platform.Base.{◌≡◌, refl, [], some, ◌==◌}
use dev_intel_platform.Base.Text.{concat}
use dev_intel_platform.Base.{String}
use dev_intel_platform.Tenancy.{done}
use dev_intel_platform.Gateway.{Crypto, Request, accepted, handle_git_hub}
use dev_intel_platform.Gateway.Authentic.{Handled, handle_git_hub-Handled}

-- Bytes are texts, and a signature is the secret before the body.
abbrev plain_crypto : Crypto String
plain_crypto = record {
  hex_decode = λ s. some s;
  hmac_sha256 = λ secret body. concat secret body;
  equal = λ a b. a == b;
}

abbrev request : Request String
request = record {
  method = "POST";
  body = some "{}";
  signature = "sha256=key{}";
  delivery = "d-1";
  event = "push";
}

request-accepted : (handle_git_hub plain_crypto "key" (λ hs. hs) "t1" request done []).0 ≡ accepted
unfolding handle_git_hub
request-accepted = refl

handle_git_hub-Handled_example :
    Handled plain_crypto "key"
      (λ hs. hs)
      "t1"
      request
      []
      (handle_git_hub plain_crypto "key" (λ hs. hs) "t1" request done []).0
      (handle_git_hub plain_crypto "key" (λ hs. hs) "t1" request done []).1
handle_git_hub-Handled_example =
    handle_git_hub-Handled plain_crypto "key" (λ hs. hs) "t1" request done []
