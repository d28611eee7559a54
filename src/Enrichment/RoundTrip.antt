-- ===== src/Enrichment/RoundTrip.antt =====
-- The block that the connector merges in is the one that the normalizer decodes.
use dev_intel_platform.Base.{
  String, ◌≡◌, refl, sym, ap, Bool, true, false, List, [], ◌∷◌, Option, none, some, ◌>>=◌, ◌==◌,
  arith, eq_iff, Bool-cases, inl, inr, All,
}
use dev_intel_platform.Base.Int.{ℤ, fits_int64}
use dev_intel_platform.Json.{fields_of, to_items, to_string}
use dev_intel_platform.Connector.{FileChange}
use dev_intel_platform.Github.Payload.{PrEnrichment}
use dev_intel_platform.Github.Decode.Pulls.{
  decode_file_change, no_file_change, decode_pr_enrichment,
}
use dev_intel_platform.Normalizer.Payloads.{strings, file_change, file_changes}
use dev_intel_platform.Enrichment.{
  PullRequestEnrichment, enrichment_json, commit_oids_json, files_json,
}

strings-decoded : (ss : List String) → to_items "" to_string (strings ss) ≡ some ss
unfolding strings
strings-decoded [] = refl
strings-decoded (s ∷ ss) = rw (strings-decoded ss)

-- The numbers of a file are of 64 bits.
abbrev pub FitsFile : FileChange → Type 0
FitsFile f = (fits_int64 f.additions ≡ true) × (fits_int64 f.deletions ≡ true)

is_empty : (s : String) → s == "" ≡ true → s ≡ ""
is_empty s e = ground (arith, eq_iff s "", e)

parts-decoded :
    (path : String) (a d : ℤ) (patch : String) (t : Bool)
    → fits_int64 a ≡ true
    → fits_int64 d ≡ true
    → let f : FileChange = record {
      path = path;
      additions = a;
      deletions = d;
      patch = patch;
      truncated = t;
    } in
      decode_file_change (file_change f) ≡ some f
unfolding file_change decode_file_change
parts-decoded path a d patch true ha hd = elim (Bool-cases (patch == "")) [
  | inl e ↦
      rw (ha, hd, e)
        (ap
          (λ (p : String).
            some
              (record { path = path; additions = a; deletions = d; patch = p; truncated = true }))
          (sym (is_empty patch e)))
  | inr e ↦ rw (ha, hd, e)
]
parts-decoded path a d patch false ha hd = elim (Bool-cases (patch == "")) [
  | inl e ↦
      rw (ha, hd, e)
        (ap
          (λ (p : String).
            some
              (record { path = path; additions = a; deletions = d; patch = p; truncated = false }))
          (sym (is_empty patch e)))
  | inr e ↦ rw (ha, hd, e)
]

pub file_change-decoded :
    (f : FileChange) → FitsFile f → decode_file_change (file_change f) ≡ some f
file_change-decoded f h = parts-decoded f.path f.additions f.deletions f.patch f.truncated h.0 h.1

files-decoded :
    (fs : List FileChange)
    → All FitsFile fs
    → to_items no_file_change (λ v. fields_of v >>= decode_file_change) (file_changes fs) ≡ some fs
unfolding file_changes
files-decoded [] h = refl
files-decoded (f ∷ fs) h = rw (file_change-decoded f h.0, files-decoded fs h.1)

abbrev pub or_nil : Option (List FileChange) → List FileChange
or_nil none = []
or_nil (some fs) = fs

-- What the normalizer reads.
abbrev pub as_read : PullRequestEnrichment → PrEnrichment
as_read enr = record {
  additions = some enr.additions;
  deletions = some enr.deletions;
  changed_files = some enr.changed_files;
  commit_oids = enr.commit_oids;
  files = or_nil enr.files;
}

-- The numbers of an enrichment are of 64 bits.
pub record Fits (enr : PullRequestEnrichment) : Type 0 where
  pub additions : fits_int64 enr.additions ≡ true
  pub deletions : fits_int64 enr.deletions ≡ true
  pub changed_files : fits_int64 enr.changed_files ≡ true
  pub files : All FitsFile (or_nil enr.files)

enrichment_decoded :
    (a d c : ℤ) (oids : List String) (files : Option (List FileChange))
    → let enr : PullRequestEnrichment = record {
      additions = a;
      deletions = d;
      changed_files = c;
      commit_oids = oids;
      files = files;
    } in
      Fits enr → (fields_of (enrichment_json enr) >>= decode_pr_enrichment) ≡ some (as_read enr)
unfolding enrichment_json decode_pr_enrichment commit_oids_json files_json strings
enrichment_decoded a d c [] none h = rw (h.additions, h.deletions, h.changed_files)
enrichment_decoded a d c (s ∷ ss) none h =
    rw (h.additions, h.deletions, h.changed_files, strings-decoded ss)
enrichment_decoded a d c [] (some fs) h =
    rw (h.additions, h.deletions, h.changed_files, files-decoded fs h.files)
enrichment_decoded a d c (s ∷ ss) (some fs) h =
    rw (h.additions, h.deletions, h.changed_files, strings-decoded ss, files-decoded fs h.files)

-- What the connector writes under "_enrichment", the normalizer decodes.
pub enrichment_json-decoded :
    (enr : PullRequestEnrichment)
    → Fits enr
    → (fields_of (enrichment_json enr) >>= decode_pr_enrichment) ≡ some (as_read enr)
enrichment_json-decoded enr h =
    enrichment_decoded enr.additions enr.deletions enr.changed_files enr.commit_oids enr.files h
