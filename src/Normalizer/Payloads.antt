-- ===== src/Normalizer/Payloads.antt =====
-- The payload maps of services/normalizer/main.go. The keys stand in the order of the source;
-- `json.Marshal` of the map prints them sorted.
use dev_intel_platform.Base.{String, true, List, [], ◌∷◌, ◌==◌, if◌then◌else◌}
use dev_intel_platform.Json.{Items, Fields, num, str, bool, arr, obj, nil, cons, end, field}
use dev_intel_platform.Connector.{FileChange, WorkItem, Review, CheckRun, Comment}

unfoldable pub strings : List String → Items
strings [] = nil
strings (s ∷ ss) = cons (str s) (strings ss)

-- `omitempty` on the patch and the mark of a truncated one.
unfoldable pub file_change : FileChange → Fields
file_change f =
    let marked = if f.truncated then field "truncated" (bool true) end else end in
    let patched = if f.patch == "" then marked else field "patch" (str f.patch) marked in
    field "path" (str f.path)
      (field "additions" (num f.additions) (field "deletions" (num f.deletions) patched))

unfoldable pub file_changes : List FileChange → Items
unfolding file_change
file_changes [] = nil
file_changes (f ∷ fs) = cons (obj (file_change f)) (file_changes fs)

-- The enriched detail, where there is any.
unfoldable pub enriched_detail : List String → List FileChange → Fields
unfolding strings file_changes
enriched_detail [] [] = end
enriched_detail [] (f ∷ fs) = field "files" (arr (file_changes (f ∷ fs))) end
enriched_detail (s ∷ ss) [] = field "commit_oids" (arr (strings (s ∷ ss))) end
enriched_detail (s ∷ ss) (f ∷ fs) =
    field "commit_oids" (arr (strings (s ∷ ss))) (field "files" (arr (file_changes (f ∷ fs))) end)

unfoldable pub work_item_payload : WorkItem → Fields
unfolding enriched_detail
work_item_payload wi = field "type" (str wi.type) (
    field "repo" (str wi.repo) (
      field "node_id" (str wi.node_id) (
        field "number" (num wi.number) (
          field "title" (str wi.title) (
            field "status" (str wi.status) (
              field "current_stage" (str wi.current_stage) (
                field "author_login" (str wi.author_login) (
                  field "changed_files" (num wi.changed_files) (
                    field "additions" (num wi.additions) (
                      field "deletions" (num wi.deletions)
                        (enriched_detail wi.commit_oids wi.files)))))))))))

unfoldable pub review_payload : Review → Fields
review_payload rv = field "repo" (str rv.repo) (
    field "pr_node_id" (str rv.pr_node_id) (
      field "source_id" (str rv.source_id) (
        field "reviewer_login" (str rv.reviewer_login)
          (field "state" (str rv.state) (field "comment_count" (num rv.comment_count) end)))))

unfoldable pub check_run_payload : CheckRun → Fields
check_run_payload cr = field "repo" (str cr.repo) (
    field "source_id" (str cr.source_id) (
      field "head_sha" (str cr.head_sha)
        (field "name" (str cr.name) (field "conclusion" (str cr.conclusion) end))))

unfoldable pub comment_payload : Comment → Fields
comment_payload cm = field "repo" (str cm.repo) (
    field "source_id" (str cm.source_id) (
      field "parent_type" (str cm.parent_type) (
        field "parent_number" (num cm.parent_number)
          (field "author_login" (str cm.author_login) (field "body" (str cm.body) end)))))
