-- ===== src/Github/Dispatch.antt =====
-- Rules by which a property of the outcomes follows for every event type of `Normalize`.
use dev_intel_platform.Base.{
  String, ◌≡◌, ◌≢◌, ap, ◌∙◌, inl, inr, Bool, true, false, Option, none, some, arith, Bool-cases,
  subst, ◌==◌, if◌then◌else◌,
}
use dev_intel_platform.Base.Int.{ℤ, pos, pos_part, eqb_ℤ}
use dev_intel_platform.Json.{Codec, unmarshal}
use dev_intel_platform.Connector.{RawEvent, Outcome}
use dev_intel_platform.Github.{
  Normalized, ok, skipped, checked, pull_request_outcome, review_outcome, review_comment_outcome,
  issue_comment_outcome, issue_outcome, push_outcome, check_run_outcome, status_outcome,
  normalize_pull_request, normalize_review, normalize_review_comment, normalize_issue_comment,
  normalize_issue, normalize_push, normalize_check_run, normalize_status, normalize,
}
use dev_intel_platform.Github.Payload.{
  PrPayload, ReviewPayload, ReviewCommentPayload, IssueCommentPayload, IssuePayload, PushPayload,
  CheckRunPayload, StatusPayload,
}
use dev_intel_platform.Github.Decode.Pulls.{decode_pr_payload, decode_review_payload}
use dev_intel_platform.Github.Decode.Issues.{
  decode_review_comment_payload, decode_issue_comment_payload, decode_issue_payload,
}
use dev_intel_platform.Github.Decode.Commits.{
  decode_push_payload, decode_check_run_payload, decode_status_payload,
}

-- `P` holds of the outcome, if there is one and it is not skipped.
abbrev pub Ensures {κ} : (Outcome → Type κ) → Normalized → Type κ
Ensures P n = (r : Outcome) → n ≡ ok r → r.skip ≡ false → P r

Ensures-if {κ} :
    (P : Outcome → Type κ) (b : Bool) (m n : Normalized)
    → Ensures P m
    → Ensures P n
    → Ensures P (if b then m else n)
Ensures-if P true m n hm hn = hm
Ensures-if P false m n hm hn = hn

Ensures-skipped {κ} : (P : Outcome → Type κ) → Ensures P (ok skipped)
unfolding skipped
Ensures-skipped P r e s = absurd (ground arith)

ok-injective : (o r : Outcome) → ok o ≡ ok r → o ≡ r
ok-injective o r e = cc

Ensures-ok {κ} : (P : Outcome → Type κ) (o : Outcome) → (o.skip ≡ false → P o) → Ensures P (ok o)
Ensures-ok P o h r e s =
    let q = ok-injective o r e in subst P q (h (ap (λ (x : Outcome). x.skip) q ∙ s))

Ensures-checked {ℓ κ} :
    (P : Outcome → Type κ) {A : Type ℓ} (what : String) (installation : A → ℤ)
    (handle : A → Outcome)
    → ((p : A) → installation p ≢ pos 0 → (handle p).skip ≡ false → P (handle p))
    → (o : Option A) → Ensures P (checked what installation handle o)
unfolding checked
Ensures-checked P what installation handle h none = λ r e s. absurd (ground arith)
Ensures-checked P what installation handle h (some p) =
    elim (Bool-cases (eqb_ℤ (installation p) (pos 0))) [
      | inl z ↦ rw z (λ r e s. absurd (ground arith))
      | inr z ↦ rw z (Ensures-ok P (handle p) (h p (λ q. ground (arith, ap pos_part q))))
    ]

-- A property of the outcomes of every event type: one premise for each handler.
pub record HandlersEnsure {κ} (P : Outcome → Type κ) (to_lower : String → String) : Type κ where
  pub pull_request : (p : PrPayload) → p.installation ≢ pos 0 → P (pull_request_outcome p)
  pub review :
      (p : ReviewPayload)
      → p.installation ≢ pos 0
      → (review_outcome to_lower p).skip ≡ false
      → P (review_outcome to_lower p)
  pub review_comment :
      (p : ReviewCommentPayload)
      → p.installation ≢ pos 0
      → (review_comment_outcome p).skip ≡ false
      → P (review_comment_outcome p)
  pub issue_comment :
      (p : IssueCommentPayload)
      → p.installation ≢ pos 0
      → (issue_comment_outcome p).skip ≡ false
      → P (issue_comment_outcome p)
  pub issue : (p : IssuePayload) → p.installation ≢ pos 0 → P (issue_outcome p)
  pub push :
      (p : PushPayload)
      → p.installation ≢ pos 0
      → (push_outcome p).skip ≡ false
      → P (push_outcome p)
  pub check_run :
      (p : CheckRunPayload)
      → p.installation ≢ pos 0
      → (check_run_outcome p).skip ≡ false
      → P (check_run_outcome p)
  pub status :
      (p : StatusPayload)
      → p.installation ≢ pos 0
      → (status_outcome p).skip ≡ false
      → P (status_outcome p)

module _ {κ} {Bytes : Type 0} (codec : Codec Bytes) (P : Outcome → Type κ)
    (h : HandlersEnsure P codec.to_lower) where
  pull_request-Ensures : (body : Bytes) → Ensures P (normalize_pull_request codec body)
  unfolding normalize_pull_request
  pull_request-Ensures body =
      Ensures-checked P "pull_request" (λ p. p.installation) pull_request_outcome
        (λ p i _. h.pull_request p i) (unmarshal codec (decode_pr_payload codec) body)

  review-Ensures : (body : Bytes) → Ensures P (normalize_review codec body)
  unfolding normalize_review
  review-Ensures body =
      Ensures-checked P "pull_request_review" (λ p. p.installation) (review_outcome codec.to_lower)
        h.review (unmarshal codec (decode_review_payload codec) body)

  review_comment-Ensures : (body : Bytes) → Ensures P (normalize_review_comment codec body)
  unfolding normalize_review_comment
  review_comment-Ensures body =
      Ensures-checked P "pull_request_review_comment" (λ p. p.installation) review_comment_outcome
        h.review_comment (unmarshal codec (decode_review_comment_payload codec) body)

  issue_comment-Ensures : (body : Bytes) → Ensures P (normalize_issue_comment codec body)
  unfolding normalize_issue_comment
  issue_comment-Ensures body =
      Ensures-checked P "issue_comment" (λ p. p.installation) issue_comment_outcome h.issue_comment
        (unmarshal codec (decode_issue_comment_payload codec) body)

  issue-Ensures : (body : Bytes) → Ensures P (normalize_issue codec body)
  unfolding normalize_issue
  issue-Ensures body =
      Ensures-checked P "issues" (λ p. p.installation) issue_outcome (λ p i _. h.issue p i)
        (unmarshal codec (decode_issue_payload codec) body)

  push-Ensures : (body : Bytes) → Ensures P (normalize_push codec body)
  unfolding normalize_push
  push-Ensures body =
      Ensures-checked P "push" (λ p. p.installation) push_outcome h.push
        (unmarshal codec (decode_push_payload codec) body)

  check_run-Ensures : (body : Bytes) → Ensures P (normalize_check_run codec body)
  unfolding normalize_check_run
  check_run-Ensures body =
      Ensures-checked P "check_run" (λ p. p.installation) check_run_outcome h.check_run
        (unmarshal codec (decode_check_run_payload codec) body)

  status-Ensures : (body : Bytes) → Ensures P (normalize_status codec body)
  unfolding normalize_status
  status-Ensures body =
      Ensures-checked P "status" (λ p. p.installation) status_outcome h.status
        (unmarshal codec (decode_status_payload codec) body)

  pub normalize-Ensures : (raw : RawEvent Bytes) → Ensures P (normalize codec raw)
  unfolding normalize
  normalize-Ensures raw =
      Ensures-if P (raw.event_type == "pull_request") _ _ (pull_request-Ensures raw.body) (
        Ensures-if P (raw.event_type == "pull_request_review") _ _ (review-Ensures raw.body) (
          Ensures-if P (raw.event_type == "pull_request_review_comment") _ _
            (review_comment-Ensures raw.body)
            (Ensures-if P (raw.event_type == "issue_comment") _ _ (issue_comment-Ensures raw.body) (
              Ensures-if P (raw.event_type == "issues") _ _ (issue-Ensures raw.body) (
                Ensures-if P (raw.event_type == "push") _ _ (push-Ensures raw.body) (
                  Ensures-if P (raw.event_type == "check_run") _ _ (check_run-Ensures raw.body) (
                    Ensures-if P (raw.event_type == "status") _ _ (status-Ensures raw.body)
                      (Ensures-skipped P))))))))

-- An outcome that a test may replace by the skipped one.
pub unless_skipped {κ} :
    (P : Outcome → Type κ) (b : Bool) (o : Outcome)
    → P o
    → (if b then skipped else o).skip ≡ false
    → P (if b then skipped else o)
unfolding skipped
unless_skipped P true o h s = absurd (ground arith)
unless_skipped P false o h s = h
