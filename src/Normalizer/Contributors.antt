-- ===== src/Normalizer/Contributors.antt =====
-- With no call failing, the contributor of a login is resolved.
use dev_intel_platform.Base.{
  ℕ, String, ◌≡◌, sym, Bool, true, [], Option, none, some, eq_refl, refl, arith,
}
use dev_intel_platform.Database.{IdentityLinkRow, find, same_link}
use dev_intel_platform.Database.Rows.{is_some, found_inserted}
use dev_intel_platform.Tenancy.{World, scoped, ◌>>=◌}
use dev_intel_platform.Tenancy.Runs.{Runs, Runs-pure, Runs-scoped, Runs-bind}
use dev_intel_platform.Normalizer.{
  Library, Span, reread, linked_or_winner, link_contributor, resolve_contributor,
}
use dev_intel_platform.Normalizer.Tables.{
  find_contributor, insert_contributor, insert_link, is_link, link_row, contributor_of,
}
use dev_intel_platform.Normalizer.Persists.{Any, Runs-if}
use mathlib.Core.List.{append-nil}

contributor_of-some :
    (found : Option IdentityLinkRow) → is_some found ≡ true → is_some (contributor_of found) ≡ true
unfolding contributor_of
contributor_of-some none h = h
contributor_of-some (some row) h = refl

own_link :
    (tenant hash : String) (contributor id : ℕ)
    → is_link tenant hash (link_row tenant contributor hash id) ≡ true
unfolding is_link link_row
own_link tenant hash contributor id = simp eq_refl

module _ {Bytes : Type 0} (lib : Library Bytes) (span : Span) (tenant : String) where
  reread-Runs :
      (found : Option ℕ) (w : World Bytes)
      → w.calls ≡ []
      → is_some found ≡ true
      → Runs Any (reread lib span tenant tenant found) w []
  unfolding reread
  reread-Runs none w q h = absurd (ground arith)
  reread-Runs (some winner) w q h = Runs-pure Any w q winner tt

  linked_or_winner-Runs :
      (id : ℕ) (hash : String) (linked : Bool) (w : World Bytes)
      → w.calls ≡ []
      → is_some (find (is_link tenant hash) w.db.identity_links) ≡ true
      → Runs Any (linked_or_winner lib span tenant tenant id hash linked) w []
  unfolding linked_or_winner find_contributor
  linked_or_winner-Runs id hash linked w q h =
      let x =
        Runs-scoped (λ (found : Option ℕ) db. is_some found ≡ true) w q
          (find_contributor tenant hash) tenant [] (sym (append-nil w.db.outbox))
          (contributor_of-some (find (is_link tenant hash) w.db.identity_links) h) in
      Runs-if linked (Runs-pure Any w q id tt) (
        Runs-bind Any (scoped tenant tenant (find_contributor tenant hash))
          (reread lib span tenant tenant) w x (reread-Runs x.value x.world x.quiet x.good))

  link_contributor-Runs :
      (login hash : String) (found : Option ℕ) (w : World Bytes)
      → w.calls ≡ []
      → Runs Any (link_contributor lib span tenant tenant login hash found) w []
  unfolding link_contributor insert_contributor insert_link same_link is_link
  link_contributor-Runs login hash (some id) w q = Runs-pure Any w q id tt
  link_contributor-Runs login hash none w q =
      let x =
        Runs-scoped Any w q (insert_contributor tenant login) tenant []
          (sym (append-nil w.db.outbox)) tt in
      let v = x.world in
      let y =
        Runs-scoped
          (λ (linked : Bool) db. is_some (find (is_link tenant hash) db.identity_links) ≡ true) v
          x.quiet (insert_link tenant x.value hash) tenant [] (sym (append-nil v.db.outbox))
          (found_inserted (is_link tenant hash) (link_row tenant x.value hash v.fresh)
            (own_link tenant hash x.value v.fresh) v.db.identity_links) in
      Runs-bind Any (scoped tenant tenant (insert_contributor tenant login))
        (λ id.
          scoped tenant tenant (insert_link tenant id hash)
          >>= linked_or_winner lib span tenant tenant id hash)
        w x
        (Runs-bind Any (scoped tenant tenant (insert_link tenant x.value hash))
          (linked_or_winner lib span tenant tenant x.value hash) v y
          (linked_or_winner-Runs x.value hash y.value y.world y.quiet y.good))

  pub resolve_contributor-Runs :
      (login : String) (w : World Bytes)
      → w.calls ≡ []
      → Runs Any (resolve_contributor lib span tenant tenant login) w []
  unfolding resolve_contributor find_contributor
  resolve_contributor-Runs login w q =
      let hash = lib.sha256_hex login in
      let x =
        Runs-scoped Any w q (find_contributor tenant hash) tenant [] (sym (append-nil w.db.outbox))
          tt in
      Runs-bind Any (scoped tenant tenant (find_contributor tenant hash))
        (link_contributor lib span tenant tenant login hash) w x
        (link_contributor-Runs login hash x.value x.world x.quiet)
