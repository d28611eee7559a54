-- ===== src/Relay.antt =====
-- services/outbox-relay/main.go: the relay that publishes the pending rows of the outbox.
--
-- The calls of the database and of the broker take their fates from one script. Spans and logging
-- are left out; the headers that observability.Inject makes are a parameter.
pub mod Draining
pub mod Order
pub mod Passes
use dev_intel_platform.Base.{
  ℕ, suc, String, Bool, true, false, ◌&&◌, not, leb, eqb, List, [], ◌∷◌, ◌++◌, Option, none, some,
  ◌==◌, if◌then◌else◌, map, take, length,
}
use dev_intel_platform.Base.Int.{ℤ}
use dev_intel_platform.Events.{header_trace_id}
use dev_intel_platform.Kafka.{Headers, put}
use dev_intel_platform.Database.{Db, OutboxRow}
use dev_intel_platform.Tenancy.{
  Call, done, refused, lost, transient, Result, ok, err, World, Action, pure, ◌>>◌, next_call,
  statement, close,
}

-- A message on a topic of the broker.
pub record Sent (Bytes : Type 0) : Type 0 where
  pub topic : String
  pub key : String
  pub value : Bytes
  pub headers : Headers

-- The database, and what the broker has accepted, in its order.
pub record State (Bytes : Type 0) : Type 0 where
  pub world : World Bytes
  pub log : List (Sent Bytes)

unfoldable pub pending : {Bytes : Type 0} → OutboxRow Bytes → Bool
pending row = elim row.published_at [ none ↦ true | some _ ↦ false ]

-- ORDER BY outbox_id.
unfoldable pub place :
    {Bytes : Type 0} → OutboxRow Bytes → List (OutboxRow Bytes) → List (OutboxRow Bytes)
place row [] = row ∷ []
place row (r ∷ rs) = if leb row.outbox_id r.outbox_id then row ∷ r ∷ rs else r ∷ place row rs

-- The pending rows that no other relay has locked, in the order of their ids.
unfoldable pub queue :
    {Bytes : Type 0} → (ℕ → Bool) → List (OutboxRow Bytes) → List (OutboxRow Bytes)
unfolding pending place
queue locked [] = []
queue locked (r ∷ rs) =
    if pending r && not (locked r.outbox_id) then place r (queue locked rs) else queue locked rs

abbrev pub is_in : ℕ → List ℕ → Bool
is_in n [] = false
is_in n (m ∷ ms) = if eqb m n then true else is_in n ms

-- UPDATE outbox SET published_at = now() WHERE outbox_id = ANY(ids).
unfoldable pub mark_published : {Bytes : Type 0} → List ℕ → ℕ → ℤ → Db Bytes → Unit {0} × Db Bytes
mark_published ids id now db = (
  tt,
  record db {
    outbox =
        map (λ r. if is_in r.outbox_id ids then record r { published_at = some now } else r)
          db.outbox;
  },
)

module _ {Bytes : Type 0} where
  -- One write of the broker: accepted; refused; or accepted, with the answer lost.
  unfoldable pub write : Sent Bytes → Call → List (Sent Bytes) → Bool × List (Sent Bytes)
  write m done log = (true, log ++ m ∷ [])
  write m refused log = (false, log)
  write m lost log = (false, log ++ m ∷ [])

  -- The UPDATE, where anything was published.
  unfoldable pub confirm : List ℕ → Action Bytes Unit
  unfolding mark_published
  confirm [] = pure tt
  confirm (id ∷ ids) = statement (mark_published (id ∷ ids))

  unfoldable pub count :
      List ℕ → List (Sent Bytes) → Result (Unit {0}) × World Bytes → Result ℕ × State Bytes
  count ids log (ok _, w) = (ok (length ids), record { world = w; log = log })
  count ids log (err e, w) = (err e, record { world = w; log = log })

  -- The batch of a pass.
  unfoldable pub batch : ℕ → (ℕ → Bool) → Db Bytes → List (OutboxRow Bytes)
  unfolding queue
  batch limit locked db = take limit (queue locked db.outbox)

module _ {Bytes : Type 0} (inject : String → Headers) where
  -- The message of a row.
  unfoldable pub message : OutboxRow Bytes → Sent Bytes
  message o =
      let headers = inject o.traceparent in
      record {
        topic = o.topic;
        key = o.kafka_key;
        value = o.payload;
        headers = if o.trace_id == "" then headers else put header_trace_id o.trace_id headers;
      }

  -- The loop over the batch, which stops at the first failure, with the ids that were published.
  unfoldable pub publish : List (OutboxRow Bytes) → State Bytes → List ℕ × State Bytes
  unfolding write message
  publish [] s = ([], s)
  publish (o ∷ os) s =
      let (c, w) = next_call s.world in
      let (accepted, log) = write (message o) c s.log in
      let now : State Bytes = record { world = w; log = log } in
      let (ids, later) = publish os now in
      if accepted then (o.outbox_id ∷ ids, later) else ([], now)

  -- What follows the SELECT: the deferred rollback ends a pass that failed or found nothing.
  unfoldable pub drain_selected :
      Db Bytes
      → List (Sent Bytes)
      → Result (List (OutboxRow Bytes)) × World Bytes
      → Result ℕ × State Bytes
  unfolding publish confirm count
  drain_selected before log (err e, w) =
      (err e, record { world = record w { db = before }; log = log })
  drain_selected before log (ok [], w) =
      (ok 0, record { world = record w { db = before }; log = log })
  drain_selected before log (ok (o ∷ os), w) =
      let (ids, s) = publish (o ∷ os) (record { world = w; log = log }) in
      count ids s.log (close before (confirm ids s.world))

  unfoldable pub drain_batch : ℕ → (ℕ → Bool) → State Bytes → Result ℕ × State Bytes
  unfolding drain_selected batch
  drain_batch limit locked s = drain_selected s.world.db s.log (
      (statement (λ _ _ db. (tt {0}, db)) >> statement (λ _ _ db. (batch limit locked db, db)))
        s.world)
