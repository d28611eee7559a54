-- ===== src/Examples.antt =====
-- Concrete libraries, messages and tables, and the theorems on them.
pub mod Deliveries
pub mod Relaying
pub mod Enriching
pub mod Receiving
pub mod Calling
pub mod Bursting
pub mod Consuming
pub mod Configured
use dev_intel_platform.Base.{ℕ, String, refl, [], ◌∷◌, some, none, Bool}
use dev_intel_platform.Base.Int.{ℤ, pos}
use dev_intel_platform.Base.Text.{concat}
use dev_intel_platform.Json.{Json, num, str, bool, obj, Fields, end, field, Codec}
use dev_intel_platform.Events.{header_git_hub_event, header_git_hub_deliv}
use dev_intel_platform.Kafka.{Message}
use dev_intel_platform.Database.{Db}
use dev_intel_platform.Tenancy.{World}
use dev_intel_platform.Normalizer.{Library, Span}

-- Bytes that are their own JSON; every time is the first instant.
abbrev pub plain_codec : Codec Json
plain_codec = record {
  parse = λ v. some v;
  print_fields = λ fs. obj fs;
  parse_time = λ s. some (pos 1);
  to_lower = λ s. s;
  parse-print_fields = λ fs. (fs, refl, λ k. refl);
}

-- An event is printed as its payload and its tenant.
abbrev pub plain_library : Library Json
plain_library = record {
  codec = plain_codec;
  marshal = λ ev.
      some (obj (field "tenant_id" (str ev.tenant_id) (field "payload" (obj ev.payload) end)));
  sha256_hex = λ s. concat "sha256:" s;
  unmarshal_error = λ what body. "json: cannot unmarshal";
}

abbrev pub span_1 : Span
span_1 = record { trace_id = "t1"; traceparent = "00-t1-s1-01" }

abbrev pub span_2 : Span
span_2 = record { trace_id = "t2"; traceparent = "00-t2-s2-01" }

abbrev pub pull_request_fields : Fields
pull_request_fields = field "node_id" (str "PR_1") (
    field "number" (num (pos 7)) (
      field "title" (str "Fix") (
        field "state" (str "closed") (
          field "merged" (bool Bool.true)
            (field "user" (obj (field "login" (str "ada") end)) end)))))

-- A submitted review of a merged pull request, by "bob", in installation 42.
abbrev pub review_body : Json
review_body = obj (
    field "action" (str "submitted") (
      field "review"
        (obj (
          field "node_id" (str "R_1") (
            field "state" (str "approved")
              (field "user" (obj (field "login" (str "bob") end)) end))))
        (field "pull_request" (obj pull_request_fields) (
          field "repository" (obj (field "full_name" (str "acme/app") end))
            (field "installation" (obj (field "id" (num (pos 42)) end)) end)))))

abbrev pub review_message : Message Json
review_message = record {
  key = "acme/app";
  value = review_body;
  headers = (header_git_hub_event, "pull_request_review") ∷ (header_git_hub_deliv, "d-1") ∷ [];
}

-- The tables of two tenants, of which "acme" owns installation 42.
abbrev pub start_db : Db Json
start_db = record {
  installations =
      record { installation_id = pos 41; tenant_id = "globex" }
      ∷ record { installation_id = pos 42; tenant_id = "acme" }
      ∷ [];
  deliveries = [];
  work_items = [];
  reviews = [];
  check_runs = [];
  contributors = [];
  identity_links = [];
  outbox = [];
}

abbrev pub start_world : World Json
start_world = record { db = start_db; fresh = 100; now = pos 5; calls = [] }
