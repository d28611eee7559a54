-- ===== src/Gateway/Authentic.antt =====
-- What reaches the topic was signed, and what is answered as accepted has reached it.
use dev_intel_platform.Base.{
  ℕ, String, ◌≡◌, ◌≢◌, refl, true, List, [], ◌∷◌, ◌++◌, Option, none, some, ◌==◌, inl, inr, arith,
  eq_iff, Bool-cases,
}
use dev_intel_platform.Kafka.{Headers, Message}
use dev_intel_platform.Tenancy.{Call, done, refused, lost}
use dev_intel_platform.Gateway.{
  Crypto, Request, accepted, valid_signature, raw_message, enqueue, with_body, handle_git_hub,
}

module _ {Bytes : Type 0} (crypto : Crypto Bytes) (secret : Bytes) (inject : Headers → Headers)
    (trace_id : String) where
  -- The answer to a request and the topic after it: another status than accepted, and the topic as
  -- before; or a POST with a body that its signature is valid for, and the topic with the message of
  -- that body, under the delivery as its key. The latter may be answered as a failure.
  pub data Handled (req : Request Bytes) (log : List (Message Bytes))
      : ℕ → List (Message Bytes) → Type 0 where
    declined : (status : ℕ) → status ≢ accepted → Handled req log status log
    enqueued :
        (status : ℕ) (body : Bytes)
        → req.method ≡ "POST"
        → req.body ≡ some body
        → valid_signature crypto secret req.signature body ≡ true
        → Handled req log status (log ++ raw_message crypto secret inject trace_id req body ∷ [])

  enqueue-Handled :
      (req : Request Bytes) (call : Call) (log : List (Message Bytes)) (body : Bytes)
      → req.method ≡ "POST"
      → req.body ≡ some body
      → valid_signature crypto secret req.signature body ≡ true
      → let t =
          enqueue crypto secret inject trace_id
            (raw_message crypto secret inject trace_id req body)
            call
            log in
        Handled req log t.0 t.1
  unfolding enqueue
  enqueue-Handled req done log body p b v = enqueued accepted body p b v
  enqueue-Handled req refused log body p b v = declined 503 (λ e. ground arith)
  enqueue-Handled req lost log body p b v = enqueued 503 body p b v

  with_body-Handled :
      (req : Request Bytes) (call : Call) (log : List (Message Bytes)) (found : Option Bytes)
      → req.method ≡ "POST"
      → req.body ≡ found
      → let t = with_body crypto secret inject trace_id req call log found in
        Handled req log t.0 t.1
  unfolding with_body
  with_body-Handled req call log none p b = declined 400 (λ e. ground arith)
  with_body-Handled req call log (some body) p b =
      elim (Bool-cases (valid_signature crypto secret req.signature body)) [
        | inl v ↦ rw v (enqueue-Handled req call log body p b v)
        | inr n ↦ rw n (declined 401 (λ e. ground arith))
      ]

  -- For every request and every fate of the write: the topic is as before and the answer is not
  -- "accepted", or the request is a POST whose body its signature is valid for, and the topic has
  -- gained the message of that body.
  pub handle_git_hub-Handled :
      (req : Request Bytes) (call : Call) (log : List (Message Bytes))
      → let t = handle_git_hub crypto secret inject trace_id req call log in Handled req log t.0 t.1
  unfolding handle_git_hub
  handle_git_hub-Handled req call log = elim (Bool-cases (req.method == "POST")) [
    | inl e ↦
        rw e (
          with_body-Handled req call log req.body (ground (arith, eq_iff req.method "POST", e))
            refl)
    | inr n ↦ rw n (declined 405 (λ e. ground arith))
  ]
