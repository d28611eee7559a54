-- ===== src/Examples/Enriching.antt =====
-- The enrichment of one message, by a client that answers at once.
use dev_intel_platform.Base.{refl, arith, ◌≢◌, ◌≡◌, true, false, [], ◌∷◌, some, none, ℕ}
use dev_intel_platform.Base.Int.{pos}
use dev_intel_platform.Json.{Json, Fields, num, str, obj, field, end}
use dev_intel_platform.Github.{ok, pull_request_outcome, normalize}
use dev_intel_platform.Github.Payload.{PrPayload}
use dev_intel_platform.Github.Decode.Pulls.{decode_pr_payload}
use dev_intel_platform.Enrichment.{
  Client, fetched, PullRequestEnrichment, status_enriched, enrich, merge_enrichment,
}
use dev_intel_platform.Enrichment.RoundTrip.{Fits, as_read}
use dev_intel_platform.Enrichment.Composed.{merge_enrichment-normalize}
use dev_intel_platform.Enrichment.Passing.{Passed, enrich-Passed}
use dev_intel_platform.Examples.{plain_codec, pull_request_fields}

abbrev detail : PullRequestEnrichment
detail = record {
  additions = pos 10;
  deletions = pos 2;
  changed_files = pos 3;
  commit_oids = "c1" ∷ [];
  files = none;
}

-- Its state counts the calls.
abbrev client : Client ℕ
client = record {
  enrich_pull_request = λ installation repo number n. (fetched detail, ℕ.suc n);
  fetch_pull_request_patches = λ installation repo number limit n. (fetched [], ℕ.suc n);
  sleep = λ wait n. (true, n);
}

abbrev pull_request_body_fields : Fields
pull_request_body_fields = field "action" (str "opened") (
    field "number" (num (pos 7)) (
      field "pull_request" (obj pull_request_fields) (
        field "repository" (obj (field "full_name" (str "acme/app") end))
          (field "installation" (obj (field "id" (num (pos 42)) end)) end))))

abbrev pull_request_body : Json
pull_request_body = obj pull_request_body_fields

enriched-status :
    (enrich plain_codec (some client) false (pos 0) "pull_request" pull_request_body 0).0.1
    ≡ status_enriched
unfolding enrich
enriched-status = refl

enrich-Passed_example :
    Passed plain_codec pull_request_body
      (enrich plain_codec (some client) false (pos 0) "pull_request" pull_request_body 0).0
enrich-Passed_example =
    enrich-Passed plain_codec pull_request_body (some client) false (pos 0) "pull_request" 0

-- What the normalizer decodes from the body.
abbrev payload : PrPayload
payload = record {
  action = "opened";
  number = pos 7;
  pull_request = record {
    node_id = "PR_1";
    number = pos 7;
    title = "Fix";
    state = "closed";
    merged = true;
    changed_files = pos 0;
    additions = pos 0;
    deletions = pos 0;
    created_at = pos 0;
    merged_at = none;
    closed_at = none;
    user = "ada";
  };
  repository = "acme/app";
  installation = pos 42;
  enrichment = none;
}

payload-decoded : decode_pr_payload plain_codec pull_request_body_fields ≡ some payload
unfolding decode_pr_payload
payload-decoded = refl

named : payload.installation ≢ pos 0
named e = ground arith

detail-Fits : Fits detail
detail-Fits = record { additions = refl; deletions = refl; changed_files = refl; files = tt }

merge_enrichment-normalize_example :
    (body' : Json) × (merge_enrichment plain_codec pull_request_body detail ≡ some body')
    × (normalize plain_codec (record {
      delivery_id = "d-1";
      event_type = "pull_request";
      body = body';
      trace_id = "t1";
    })
        ≡ ok (pull_request_outcome (record payload { enrichment = some (as_read detail) })))
merge_enrichment-normalize_example =
    merge_enrichment-normalize plain_codec detail detail-Fits pull_request_body "d-1" "t1"
      pull_request_body_fields payload refl payload-decoded named
