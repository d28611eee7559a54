-- ===== src/Relay/Draining.antt =====
-- What a pass of the relay publishes, and what it marks.
use dev_intel_platform.Base.{
  ℕ, String, ◌≡◌, refl, sym, ◌∙◌, ap, List, [], ◌∷◌, ◌++◌, ◌⊎◌, inl, inr, map, if◌then◌else◌,
}
use dev_intel_platform.Kafka.{Headers}
use dev_intel_platform.Database.{OutboxRow}
use dev_intel_platform.Tenancy.{Call, done, refused, lost, World, next_call}
use dev_intel_platform.Tenancy.Keeps.{db-next_call}
use dev_intel_platform.Relay.{Sent, State, message, write, publish}
use mathlib.Core.List.{append-nil, append_assoc}

module _ {Bytes : Type 0} (inject : String → Headers) where
  -- The rows of a list were published from the first on, up to some row: what the broker has
  -- accepted are their messages in their order, and perhaps one more, of the row at which the loop
  -- stopped because the answer was lost. The tables are as before.
  pub record Publication (rows : List (OutboxRow Bytes)) (s : State Bytes) (ids : List ℕ)
      (after : State Bytes) : Type 0 where
    pub sent : List (OutboxRow Bytes)
    pub rest : List (OutboxRow Bytes)
    pub extra : List (OutboxRow Bytes)
    pub split : rows ≡ sent ++ rest
    pub log : after.log ≡ s.log ++ (map (message inject) sent ++ map (message inject) extra)
    pub unheard :
        (extra ≡ [])
        ⊎ ((o : OutboxRow Bytes) × (os : List (OutboxRow Bytes)) × (rest ≡ o ∷ os)
            × (extra ≡ o ∷ []))
    pub published : ids ≡ map (λ o. o.outbox_id) sent
    pub tables : after.world.db ≡ s.world.db

  publish_one :
      (o : OutboxRow Bytes) (os : List (OutboxRow Bytes)) (c : Call) (w : World Bytes)
      (log : List (Sent Bytes))
      → ((v : State Bytes) → Publication os v (publish inject os v).0 (publish inject os v).1)
      → let t = write (message inject o) c log in
        let now : State Bytes = record { world = w; log = t.1 } in
        let later = publish inject os now in
        let out : List ℕ × State Bytes =
          if t.0 then (o.outbox_id ∷ later.0, later.1) else ([], now) in
        Publication (o ∷ os) (record { world = w; log = log }) out.0 out.1
  unfolding write
  publish_one o os done w log h =
      let x = h (record { world = w; log = log ++ message inject o ∷ [] }) in
      record {
        sent = o ∷ x.sent;
        rest = x.rest;
        extra = x.extra;
        split = ap (λ rs. o ∷ rs) x.split;
        log = x.log ∙ append_assoc log (message inject o ∷ []) _;
        unheard = x.unheard;
        published = ap (λ ids. o.outbox_id ∷ ids) x.published;
        tables = x.tables;
      }
  publish_one o os refused w log h = record {
    sent = [];
    rest = o ∷ os;
    extra = [];
    split = refl;
    log = sym (append-nil log);
    unheard = inl refl;
    published = refl;
    tables = refl;
  }
  publish_one o os lost w log h = record {
    sent = [];
    rest = o ∷ os;
    extra = o ∷ [];
    split = refl;
    log = refl;
    unheard = inr (o, os, refl, refl);
    published = refl;
    tables = refl;
  }

  pub retable :
      (rows : List (OutboxRow Bytes)) (v : World Bytes) (s : State Bytes) (ids : List ℕ)
      (after : State Bytes)
      → v.db ≡ s.world.db
      → Publication rows (record { world = v; log = s.log }) ids after
      → Publication rows s ids after
  retable rows v s ids after e x = record {
    sent = x.sent;
    rest = x.rest;
    extra = x.extra;
    split = x.split;
    log = x.log;
    unheard = x.unheard;
    published = x.published;
    tables = x.tables ∙ e;
  }

  pub publish-Publication :
      (rows : List (OutboxRow Bytes)) (s : State Bytes)
      → Publication rows s (publish inject rows s).0 (publish inject rows s).1
  unfolding publish
  publish-Publication [] s = record {
    sent = [];
    rest = [];
    extra = [];
    split = refl;
    log = sym (append-nil s.log);
    unheard = inl refl;
    published = refl;
    tables = refl;
  }
  publish-Publication (o ∷ os) s =
      let c = next_call s.world in
      retable (o ∷ os) c.1 s _ _ (db-next_call s.world)
        (publish_one o os c.0 c.1 s.log (publish-Publication os))
