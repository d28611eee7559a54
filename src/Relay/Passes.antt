-- ===== src/Relay/Passes.antt =====
-- A pass of the relay: published rows are marked, and only those, or the pass failed.
use dev_intel_platform.Base.{
  ℕ, String, ◌≡◌, refl, sym, ◌∙◌, ap, subst, Bool, List, [], ◌∷◌, map, length, if◌then◌else◌, some,
  inl,
}
use dev_intel_platform.Base.Int.{ℤ, pos}
use dev_intel_platform.Kafka.{Headers}
use dev_intel_platform.Database.{Db, OutboxRow}
use dev_intel_platform.Tenancy.{
  Call, done, refused, lost, Error, transient, Result, ok, err, World, Action, next_call, run_call,
  statement, close, commit_call, ◌>>◌, pure, ◌>>=◌,
}
use dev_intel_platform.Tenancy.Keeps.{db-next_call, Keeps-bind, Keeps-statement}
use dev_intel_platform.Tenancy.Atomic.{unchanged, db-probe}
use dev_intel_platform.Tenancy.Steps.{>>=-ok, statement-ok}
use dev_intel_platform.Relay.{
  Sent, State, mark_published, publish, confirm, count, drain_selected, batch, drain_batch, is_in,
}
use dev_intel_platform.Relay.Draining.{Publication, publish-Publication, retable}
use mathlib.Core.List.{append-nil}

-- The end of a pass: it failed and the tables are as before; or it succeeded with the count, and
-- the tables are the ones after; or these were committed and the answer was lost.
pub data Closed {Bytes : Type 0} (before after : Db Bytes) (n : ℕ)
    : Result ℕ → Db Bytes → Type 0 where
  failed : (e : Error) → Closed before after n (err e) before
  counted : Closed before after n (ok n) after
  unheard : (e : Error) → Closed before after n (err e) after

module _ {Bytes : Type 0} where
  -- The tables where these ids are marked at an instant.
  abbrev pub marked_at : List ℕ → ℤ → Db Bytes → Db Bytes
  unfolding mark_published
  marked_at ids now db = (mark_published ids 0 now db).1

  unmarked :
      (now : ℤ) (rows : List (OutboxRow Bytes))
      → map (λ r. if is_in r.outbox_id [] then record r { published_at = some now } else r) rows
        ≡ rows
  unmarked now [] = refl
  unmarked now (r ∷ rs) = ap (λ t. r ∷ t) (unmarked now rs)

  marked_at-none : (now : ℤ) (db : Db Bytes) → marked_at [] now db ≡ db
  unfolding marked_at
  marked_at-none now db =
      ap (λ (o : List (OutboxRow Bytes)). record db { outbox = o }) (unmarked now db.outbox)

  commit-Closed :
      (ids : List ℕ) (before : Db Bytes) (log : List (Sent Bytes)) (c : Call × World Bytes)
      → let t = count ids log (commit_call before tt c) in
        Closed before c.1.db (length ids) t.0 t.1.world.db
  unfolding commit_call count
  commit-Closed ids before log (done, w) = counted
  commit-Closed ids before log (refused, w) = failed transient
  commit-Closed ids before log (lost, w) = unheard transient

  update-Closed :
      (ids : List ℕ) (before : Db Bytes) (log : List (Sent Bytes)) (c : Call × World Bytes)
      → c.1.db ≡ before
      → let t = count ids log (close before (run_call (mark_published ids) c)) in
        Closed before (marked_at ids c.1.now before) (length ids) t.0 t.1.world.db
  unfolding close run_call count marked_at
  update-Closed ids before log (done, w) e =
      let v : World Bytes = record w { db = marked_at ids w.now w.db; fresh = ℕ.suc w.fresh } in
      subst
        (λ d.
          let t = count ids log (commit_call before tt (next_call v)) in
          Closed before d (length ids) t.0 t.1.world.db)
        (db-next_call v ∙ ap (marked_at ids w.now) e) (commit-Closed ids before log (next_call v))
  update-Closed ids before log (refused, w) e = failed transient
  update-Closed ids before log (lost, w) e = failed transient

  -- The end of a pass in which these ids were published, at the instant of the UPDATE.
  pub record Ended (ids : List ℕ) (before : Db Bytes) (r : Result ℕ) (after : Db Bytes)
      : Type 0 where
    pub now : ℤ
    pub closed : Closed before (marked_at ids now before) (length ids) r after

  confirm-Ended :
      (ids : List ℕ) (before : Db Bytes) (log : List (Sent Bytes)) (w : World Bytes)
      → w.db ≡ before
      → let t = count ids log (close before (confirm ids w)) in Ended ids before t.0 t.1.world.db
  unfolding confirm close statement pure
  confirm-Ended [] before log w e = record {
    now = pos 0;
    closed =
        subst
          (λ d.
            let t = count [] log (commit_call before tt (next_call w)) in
            Closed before d 0 t.0 t.1.world.db)
          (db-next_call w ∙ e ∙ sym (marked_at-none (pos 0) before))
          (commit-Closed [] before log (next_call w));
  }
  confirm-Ended (id ∷ ids) before log w e =
      let c = next_call w in
      record { now = c.1.now; closed = update-Closed (id ∷ ids) before log c (db-next_call w ∙ e) }

module _ {Bytes : Type 0} (inject : String → Headers) where
  -- What a pass over the rows does: these are published as `Publication` says, and the pass ends as
  -- `Ended` says.
  pub record Drained (rows : List (OutboxRow Bytes)) (s : State Bytes) (r : Result ℕ)
      (after : State Bytes) : Type 0 where
    pub ids : List ℕ
    pub broker : State Bytes
    pub publication : Publication inject rows s ids broker
    pub log : after.log ≡ broker.log
    pub ended : Ended ids s.world.db r after.world.db

  count-log :
      (ids : List ℕ) (log : List (Sent Bytes)) (t : Result (Unit {0}) × World Bytes)
      → (count ids log t).1.log ≡ log
  unfolding count
  count-log ids log (ok _, w) = refl
  count-log ids log (err e, w) = refl

  -- Nothing was published.
  abbrev idle : (rows : List (OutboxRow Bytes)) (s : State Bytes) → Publication inject rows s [] s
  idle rows s = record {
    sent = [];
    rest = rows;
    extra = [];
    split = refl;
    log = sym (append-nil s.log);
    unheard = inl refl;
    published = refl;
    tables = refl;
  }

  drain_selected-Drained :
      (rows : List (OutboxRow Bytes)) (s : State Bytes) (w : World Bytes)
      → w.db ≡ s.world.db
      → let t = drain_selected inject s.world.db s.log (ok rows, w) in Drained rows s t.0 t.1
  unfolding drain_selected
  drain_selected-Drained [] s w e = record {
    ids = [];
    broker = s;
    publication = idle [] s;
    log = refl;
    ended = record {
      now = pos 0;
      closed =
          subst (λ d. Closed s.world.db d 0 (ok 0) s.world.db)
            (sym (marked_at-none (pos 0) s.world.db)) counted;
    };
  }
  drain_selected-Drained (o ∷ os) s w e =
      let now : State Bytes = record { world = w; log = s.log } in
      let x = publish-Publication inject (o ∷ os) now in
      let p = publish inject (o ∷ os) now in
      record {
        ids = p.0;
        broker = p.1;
        publication = retable inject (o ∷ os) w s p.0 p.1 e x;
        log = count-log p.0 p.1.log (close s.world.db (confirm p.0 p.1.world));
        ended = confirm-Ended p.0 s.world.db p.1.log p.1.world (x.tables ∙ e);
      }

  read-Drained :
      (rows : List (OutboxRow Bytes)) (s : State Bytes) (r : Result (List (OutboxRow Bytes)))
      (w : World Bytes)
      → w.db ≡ s.world.db
      → ((read : List (OutboxRow Bytes)) → r ≡ ok read → rows ≡ read)
      → let t = drain_selected inject s.world.db s.log (r, w) in Drained rows s t.0 t.1
  unfolding drain_selected
  read-Drained rows s (err f) w e h = record {
    ids = [];
    broker = s;
    publication = idle rows s;
    log = refl;
    ended = record { now = pos 0; closed = failed f };
  }
  read-Drained rows s (ok read) w e h =
      let t = drain_selected inject s.world.db s.log (ok read, w) in
      subst (λ rs. Drained rs s t.0 t.1) (sym (h read refl)) (drain_selected-Drained read s w e)

  -- A pass of the relay publishes a first part of the batch, one message for each row in the order
  -- of the ids, and perhaps one more, of the next row, where the broker's answer was lost. If it
  -- succeeds, the rows of that first part are marked as published, no other row is, and their
  -- number is returned; if it fails, either no row is marked or exactly those are.
  pub drain_batch-Drained :
      (limit : ℕ) (locked : ℕ → Bool) (s : State Bytes)
      → let t = drain_batch inject limit locked s in
        Drained (batch limit locked s.world.db) s t.0 t.1
  unfolding drain_batch ◌>>◌
  drain_batch-Drained limit locked s =
      let probe : Action Bytes Unit = statement (λ _ _ db. (tt {0}, db)) in
      let look : ℕ → ℤ → Db Bytes → List (OutboxRow Bytes) × Db Bytes =
        λ _ _ db. (batch limit locked db, db) in
      let rest : Unit {0} → Action Bytes (List (OutboxRow Bytes)) = λ _. statement look in
      let t = (probe >>= rest) s.world in
      let kept =
        Keeps-bind (unchanged Bytes) probe rest
          (Keeps-statement (unchanged Bytes) _ (λ _ _ db. refl))
          (λ _. Keeps-statement (unchanged Bytes) look (λ _ _ db. refl)) in
      read-Drained (batch limit locked s.world.db) s t.0 t.1 (kept.at s.world) (λ read h.
        let b = >>=-ok probe rest s.world read h in
        let r = statement-ok look (probe s.world).1 read b.second in
        ap (batch limit locked) (sym (db-probe tt s.world)) ∙ r.answer)
