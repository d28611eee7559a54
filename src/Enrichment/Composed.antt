-- ===== src/Enrichment/Composed.antt =====
-- The connector and the normalizer together: a merged body normalizes to the enriched item.
use dev_intel_platform.Base.{
  String, ◌≡◌, ◌≢◌, refl, sym, ◌∙◌, ap, Bool, false, Option, none, some, ◌>>=◌, ◌==◌, if◌then◌else◌,
  Bool-cases, inl, inr,
}
use dev_intel_platform.Base.Int.{ℤ, pos, eqb_ℤ, eqb_ℤ-eq}
use dev_intel_platform.Json.{
  Json, Fields, obj, end, or_zero, field_or, to_string, to_int, lookup, fields_of, sub_struct,
  string_field, int_field, pointer, insert, Codec,
}
use dev_intel_platform.Github.{
  ok, err, missing_installation, checked, pull_request_outcome, normalize_pull_request, normalize,
}
use dev_intel_platform.Github.Payload.{PullRequest, PrEnrichment, PrPayload}
use dev_intel_platform.Github.Decode.{decode_repository, decode_installation}
use dev_intel_platform.Github.Decode.Pulls.{
  decode_pr_enrichment, decode_pull_request, decode_pr_payload,
}
use dev_intel_platform.Enrichment.{
  PullRequestEnrichment, enrichment_json, merge_enrichment, as_object,
}
use dev_intel_platform.Enrichment.Passing.{lookup-insert}
use dev_intel_platform.Enrichment.RoundTrip.{Fits, as_read, enrichment_json-decoded}

unfoldable join :
    Option String
    → Option ℤ
    → Option PullRequest
    → Option String
    → Option ℤ
    → Option (Option PrEnrichment)
    → Option PrPayload
join oa on op or oi oe = do
  action ← oa
  number ← on
  pull_request ← op
  repository ← or
  installation ← oi
  enrichment ← oe
  some (record {
    action = action;
    number = number;
    pull_request = pull_request;
    repository = repository;
    installation = installation;
    enrichment = enrichment;
  })

join-same :
    {oa oa' : Option String} {on on' : Option ℤ} {op op' : Option PullRequest}
    {or or' : Option String} {oi oi' : Option ℤ} {oe oe' : Option (Option PrEnrichment)}
    → oa ≡ oa'
    → on ≡ on'
    → op ≡ op'
    → or ≡ or'
    → oi ≡ oi'
    → oe ≡ oe'
    → join oa on op or oi oe ≡ join oa' on' op' or' oi' oe'
join-same a n p r i e = cc

some_inj : (a b : PrPayload) → some a ≡ some b → a ≡ b
some_inj a b e = cc

none≢some : (a : PrPayload) → none ≢ some a
none≢some a e = cc

join-replaced :
    (oa : Option String) (on : Option ℤ) (op : Option PullRequest) (or : Option String)
    (oi : Option ℤ) (oe : Option (Option PrEnrichment)) (e' : Option PrEnrichment) (p : PrPayload)
    → join oa on op or oi oe ≡ some p
    → join oa on op or oi (some e') ≡ some (record p { enrichment = e' })
unfolding join
join-replaced none on op or oi oe e' p h = absurd (none≢some p h)
join-replaced (some a) none op or oi oe e' p h = absurd (none≢some p h)
join-replaced (some a) (some n) none or oi oe e' p h = absurd (none≢some p h)
join-replaced (some a) (some n) (some pr) none oi oe e' p h = absurd (none≢some p h)
join-replaced (some a) (some n) (some pr) (some r) none oe e' p h = absurd (none≢some p h)
join-replaced (some a) (some n) (some pr) (some r) (some i) none e' p h = absurd (none≢some p h)
join-replaced (some a) (some n) (some pr) (some r) (some i) (some e) e' p h =
    ap (λ (q : PrPayload). some (record q { enrichment = e' })) (some_inj _ p h)

nonzero : (n : ℤ) → n ≢ pos 0 → eqb_ℤ n (pos 0) ≡ false
nonzero n h = elim (Bool-cases (eqb_ℤ n (pos 0))) [
  | inl e ↦ absurd (h (eqb_ℤ-eq n (pos 0) e))
  | inr e ↦ e
]

-- What a field of a struct is read as, from the value under its key.
abbrev read : {A : Type 0} → A → (Json → Option A) → Option Json → Option A
read z d none = some z
read z d (some v) = or_zero z d v

field_or-read :
    {A : Type 0} (z : A) (d : Json → Option A) (k : String) (fs : Fields)
    → field_or z d k fs ≡ read z d (lookup k fs)
field_or-read z d k fs =
    elim (lookup k fs) as (λ o. elim o [ none ↦ some z | some v ↦ or_zero z d v ] ≡ read z d o) [
      | none ↦ refl
      | some v ↦ refl
    ]

module _ (fs gs : Fields) (k : String) (e : lookup k gs ≡ lookup k fs) where
  same_field : {A : Type 0} (z : A) (d : Json → Option A) → field_or z d k gs ≡ field_or z d k fs
  same_field z d = field_or-read z d k gs ∙ ap (read z d) e ∙ sym (field_or-read z d k fs)

  same_struct : sub_struct k gs ≡ sub_struct k fs
  same_struct = ap (λ (o : Option Json). elim o [ none ↦ some end | some v ↦ fields_of v ]) e

module _ {Bytes : Type 0} (codec : Codec Bytes) (enr : PullRequestEnrichment)
    (fits : Fits enr) where
  block-decoded :
      (gs : Fields)
      → lookup "_enrichment" gs ≡ some (enrichment_json enr)
      → pointer (λ v. fields_of v >>= decode_pr_enrichment) "_enrichment" gs
        ≡ some (some (as_read enr))
  unfolding enrichment_json
  block-decoded gs e =
      let d : Json → Option (Option PrEnrichment) =
        λ v. (fields_of v >>= decode_pr_enrichment) >>= λ a. some (some a) in
      field_or-read none d "_enrichment" gs
      ∙ ap (read none d) e
      ∙ ap (λ (o : Option PrEnrichment). o >>= λ a. some (some a))
          (enrichment_json-decoded enr fits)

  payload-enriched :
      (fs gs : Fields) (p : PrPayload)
      → ((k : String)
          → lookup k gs ≡ (if "_enrichment" == k then some (enrichment_json enr) else lookup k fs))
      → decode_pr_payload codec fs ≡ some p
      → decode_pr_payload codec gs ≡ some (record p { enrichment = some (as_read enr) })
  unfolding decode_pr_payload join decode_repository decode_installation
  payload-enriched fs gs p k h =
      let oa = string_field "action" in
      let on = int_field "number" in
      let op = λ (f : Fields). sub_struct "pull_request" f >>= decode_pull_request codec in
      let old = pointer (λ v. fields_of v >>= decode_pr_enrichment) "_enrichment" fs in
      let same : join (oa gs) (on gs) (op gs) (decode_repository gs) (decode_installation gs)
            (pointer (λ v. fields_of v >>= decode_pr_enrichment) "_enrichment" gs)
          ≡ join (oa fs) (on fs) (op fs) (decode_repository fs) (decode_installation fs)
              (some (some (as_read enr))) =
        join-same (same_field fs gs "action" (k "action") "" to_string)
          (same_field fs gs "number" (k "number") (pos 0) to_int)
          (ap (λ o. o >>= decode_pull_request codec)
            (same_struct fs gs "pull_request" (k "pull_request")))
          (ap (λ o. o >>= string_field "full_name")
            (same_struct fs gs "repository" (k "repository")))
          (ap (λ o. o >>= int_field "id") (same_struct fs gs "installation" (k "installation")))
          (block-decoded gs (k "_enrichment")) in
      same
      ∙ join-replaced (oa fs) (on fs) (op fs) (decode_repository fs) (decode_installation fs) old
          (some (as_read enr)) p h

  -- A pull request whose payload decodes and names an installation: the merged body is made, and
  -- normalizes, under any delivery and trace, to the outcome of the payload with the enrichment in
  -- place of its own.
  pub merge_enrichment-normalize :
      (body : Bytes) (delivery trace : String) (fs : Fields) (p : PrPayload)
      → codec.parse body ≡ some (obj fs)
      → decode_pr_payload codec fs ≡ some p
      → p.installation ≢ pos 0
      → (body' : Bytes) × (merge_enrichment codec body enr ≡ some body')
        × (normalize codec (record {
          delivery_id = delivery;
          event_type = "pull_request";
          body = body';
          trace_id = trace;
        })
            ≡ ok (pull_request_outcome (record p { enrichment = some (as_read enr) })))
  unfolding merge_enrichment as_object normalize normalize_pull_request checked
  merge_enrichment-normalize body delivery trace fs p e h i =
      let block = enrichment_json enr in
      let law = codec.parse-print_fields (insert "_enrichment" block fs) in
      let p' : PrPayload = record p { enrichment = some (as_read enr) } in
      let decoded =
        payload-enriched fs law.0 p (λ k. law.2 k ∙ lookup-insert k "_enrichment" block fs) h in
      let kept : eqb_ℤ p.installation (pos 0) ≡ false = nonzero p.installation i in
      (
        codec.print_fields (insert "_enrichment" block fs),
        ap
            (λ (o : Option Json). o >>= λ v.
              as_object v >>= λ gs. some (codec.print_fields (insert "_enrichment" block gs)))
            e,
        ap
              (λ (o : Option Json).
                checked "pull_request" (λ (q : PrPayload). q.installation) pull_request_outcome
                  (o >>= fields_of >>= decode_pr_payload codec))
              law.1
            ∙ ap (checked "pull_request" (λ (q : PrPayload). q.installation) pull_request_outcome)
                decoded
            ∙ ap
                (λ (b : Bool). if b then err missing_installation else ok (pull_request_outcome p'))
                kept,
      )
