-- ===== src/Enrichment/Passing.antt =====
-- What enrichment does to a body: it stays as it is, or it gains one key.
use dev_intel_platform.Base.{
  String, ◌≡◌, refl, ◌∙◌, Bool, false, ◌||◌, not, Option, none, some, ◌>>=◌, ◌==◌, arith, eq_iff,
  if◌then◌else◌, if_ind,
}
use dev_intel_platform.Base.Int.{ℤ, pos, eqb_ℤ}
use dev_intel_platform.Json.{
  Json, null, bool, num, real, str, arr, obj, Fields, end, field, lookup, insert, Codec, unmarshal,
}
use dev_intel_platform.Enrichment.{
  Client, Fetch, fetched, rate_limited, failed, PullRequestEnrichment, PrEnvelope, enrichment_json,
  as_object, status_enriched, merge_enrichment, decode_pr_envelope, Enriched, merged, with_answer,
  with_client, enrich_envelope, enrich,
}

pub lookup-insert :
    (j k : String) (v : Json) (fs : Fields)
    → lookup j (insert k v fs) ≡ (if k == j then some v else lookup j fs)
lookup-insert j k v end = refl
lookup-insert j k v (field i w fs) =
    ground (arith, eq_iff k j, eq_iff i k, eq_iff i j, lookup-insert j k v fs)

module _ {Bytes : Type 0} (codec : Codec Bytes) (body : Bytes) where
  -- The body of a message and its status: another status than "enriched", and the body as it came;
  -- or "enriched", and an object that has every key of the body with its value, but for
  -- "_enrichment", which holds an enrichment.
  pub data Passed : Enriched Bytes → Type 0 where
    unchanged :
        (status : String) (at : ℤ) → (status == status_enriched) ≡ false → Passed (body, status, at)
    extended :
        (body' : Bytes) (at : ℤ) (enr : PullRequestEnrichment) (fs gs : Fields)
        → codec.parse body ≡ some (obj fs)
        → codec.parse body' ≡ some (obj gs)
        → ((k : String)
            → lookup k gs
              ≡ (if "_enrichment" == k then some (enrichment_json enr) else lookup k fs))
        → Passed (body', status_enriched, at)

  object-Passed :
      (at : ℤ) (enr : PullRequestEnrichment) (fs : Fields)
      → codec.parse body ≡ some (obj fs)
      → Passed
          (codec.print_fields (insert "_enrichment" (enrichment_json enr) fs), status_enriched, at)
  object-Passed at enr fs e =
      let new = insert "_enrichment" (enrichment_json enr) fs in
      let p = codec.parse-print_fields new in
      extended (codec.print_fields new) at enr fs p.0 e p.1
        (λ k. p.2 k ∙ lookup-insert k "_enrichment" (enrichment_json enr) fs)

  module _ {S : Type 0} (client : Option (Client S)) (fetch_patches : Bool)
      (patch_max_bytes : ℤ) where
    parsed-Passed :
        (at : ℤ) (enr : PullRequestEnrichment) (found : Option Json)
        → codec.parse body ≡ found
        → let print : Fields → Option Bytes =
            λ fs. some (codec.print_fields (insert "_enrichment" (enrichment_json enr) fs)) in
          Passed (
            merged codec client fetch_patches patch_max_bytes body at
              (found >>= λ v. as_object v >>= print))
    unfolding merged as_object
    parsed-Passed at enr none e = unchanged _ at refl
    parsed-Passed at enr (some (obj fs)) e = object-Passed at enr fs e
    parsed-Passed at enr (some null) e = unchanged _ at refl
    parsed-Passed at enr (some (bool b)) e = unchanged _ at refl
    parsed-Passed at enr (some (num n)) e = unchanged _ at refl
    parsed-Passed at enr (some (real r)) e = unchanged _ at refl
    parsed-Passed at enr (some (str t)) e = unchanged _ at refl
    parsed-Passed at enr (some (arr vs)) e = unchanged _ at refl

    with_answer-Passed :
        (at : ℤ) (t : Fetch PullRequestEnrichment × S)
        → Passed (with_answer codec client fetch_patches patch_max_bytes body at t).0
    unfolding with_answer merge_enrichment
    with_answer-Passed at (fetched enr, s) = parsed-Passed at enr (codec.parse body) refl
    with_answer-Passed at (rate_limited wait, s) = unchanged _ at refl
    with_answer-Passed at (failed, s) = unchanged _ at refl

    with_client-Passed :
        (c : Option (Client S)) (env : PrEnvelope) (s : S)
        → Passed (with_client codec client fetch_patches patch_max_bytes c body env s).0
    unfolding with_client
    with_client-Passed none env s = unchanged _ _ refl
    with_client-Passed (some c) env s = with_answer-Passed _ _

    enrich_envelope-Passed :
        (env : Option PrEnvelope) (s : S)
        → Passed (enrich_envelope codec client fetch_patches patch_max_bytes body env s).0
    unfolding enrich_envelope
    enrich_envelope-Passed none s = unchanged _ _ refl
    enrich_envelope-Passed (some env) s =
        if_ind (λ (t : Enriched Bytes × S). Passed t.0)
          (eqb_ℤ env.installation (pos 0) || env.repository == "") (unchanged _ _ refl)
          (with_client-Passed client env s)

    -- Whatever the client answers: a body keeps its bytes under every status but "enriched", and
    -- under that status it is an object, and the new one has each of its keys with the same value,
    -- but for "_enrichment", which holds an enrichment.
    pub enrich-Passed :
        (event_type : String) (s : S)
        → Passed (enrich codec client fetch_patches patch_max_bytes event_type body s).0
    unfolding enrich
    enrich-Passed event_type s =
        let env = unmarshal codec (decode_pr_envelope codec) body in
        if_ind (λ (t : Enriched Bytes × S). Passed t.0) (not (event_type == "pull_request"))
          {y = enrich_envelope codec client fetch_patches patch_max_bytes body env s}
          (unchanged _ _ refl) (enrich_envelope-Passed env s)
