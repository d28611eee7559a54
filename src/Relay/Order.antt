-- ===== src/Relay/Order.antt =====
-- The batch of a pass: which rows, in which order, and how many.
use dev_intel_platform.Base.{
  ℕ, zero, suc, ◌≤◌, ◌≡◌, refl, sym, Bool, true, false, ◌&&◌, not, leb, List, [], ◌∷◌, All, length,
  take, arith, inl, inr, Bool-cases, if_ind,
}
use dev_intel_platform.Database.{Db, OutboxRow}
use dev_intel_platform.Relay.{pending, place, queue, batch}

both : (p q : Bool) → (p && not q) ≡ true → (p ≡ true) × (q ≡ false)
both true true h = (refl, sym h)
both true false h = (refl, refl)
both false q h = absurd (ground arith)

module _ {Bytes : Type 0} where
  -- Each id is at most those after it.
  abbrev pub IsOrdered : List (OutboxRow Bytes) → Type 0
  IsOrdered [] = Unit
  IsOrdered (r ∷ rs) = All (λ q. r.outbox_id ≤ q.outbox_id) rs × IsOrdered rs

  place-All :
      (P : OutboxRow Bytes → Type 0) (row : OutboxRow Bytes) (rs : List (OutboxRow Bytes))
      → P row
      → All P rs
      → All P (place row rs)
  unfolding place
  place-All P row [] p h = (p, tt)
  place-All P row (r ∷ rs) p h =
      if_ind (All P) (leb row.outbox_id r.outbox_id) (p, h) (h.0, place-All P row rs p h.1)

  at_least :
      (m n : ℕ) (rs : List (OutboxRow Bytes))
      → m ≤ n
      → All (λ q. n ≤ q.outbox_id) rs
      → All (λ q. m ≤ q.outbox_id) rs
  at_least m n [] l h = tt
  at_least m n (r ∷ rs) l h = (omega (arith, l, h.0), at_least m n rs l h.1)

  place-IsOrdered :
      (row : OutboxRow Bytes) (rs : List (OutboxRow Bytes))
      → IsOrdered rs
      → IsOrdered (place row rs)
  unfolding place
  place-IsOrdered row [] h = (tt, tt)
  place-IsOrdered row (r ∷ rs) h = elim (Bool-cases (leb row.outbox_id r.outbox_id)) [
    | inl e ↦
        let l : row.outbox_id ≤ r.outbox_id = ground (arith, e) in
        rw e ((l, at_least row.outbox_id r.outbox_id rs l h.0), h)
    | inr e ↦ rw e (
      place-All (λ q. r.outbox_id ≤ q.outbox_id) row rs (ground (arith, e)) h.0,
      place-IsOrdered row rs h.1,
    )
  ]

  -- A row that the relay may publish now.
  abbrev pub IsReady : (ℕ → Bool) → OutboxRow Bytes → Type 0
  unfolding pending
  IsReady locked r = (pending r ≡ true) × (locked r.outbox_id ≡ false)

  selected-IsReady :
      (locked : ℕ → Bool) (r : OutboxRow Bytes)
      → (pending r && not (locked r.outbox_id)) ≡ true
      → IsReady locked r
  unfolding IsReady
  selected-IsReady locked r h = both (pending r) (locked r.outbox_id) h

  queue-All :
      (locked : ℕ → Bool) (rs : List (OutboxRow Bytes)) → All (IsReady locked) (queue locked rs)
  unfolding queue
  queue-All locked [] = tt
  queue-All locked (r ∷ rs) = elim (Bool-cases (pending r && not (locked r.outbox_id))) [
    | inl e ↦ rw e (
        place-All (IsReady locked) r (queue locked rs) (selected-IsReady locked r e)
          (queue-All locked rs))
    | inr e ↦ rw e (queue-All locked rs)
  ]

  queue-IsOrdered : (locked : ℕ → Bool) (rs : List (OutboxRow Bytes)) → IsOrdered (queue locked rs)
  unfolding queue
  queue-IsOrdered locked [] = tt
  queue-IsOrdered locked (r ∷ rs) =
      if_ind IsOrdered (pending r && not (locked r.outbox_id))
        (place-IsOrdered r (queue locked rs) (queue-IsOrdered locked rs))
        (queue-IsOrdered locked rs)

  take-All :
      (P : OutboxRow Bytes → Type 0) (n : ℕ) (rs : List (OutboxRow Bytes))
      → All P rs
      → All P (take n rs)
  take-All P zero rs h = tt
  take-All P (suc n) [] h = tt
  take-All P (suc n) (r ∷ rs) h = (h.0, take-All P n rs h.1)

  take-IsOrdered : (n : ℕ) (rs : List (OutboxRow Bytes)) → IsOrdered rs → IsOrdered (take n rs)
  take-IsOrdered zero rs h = tt
  take-IsOrdered (suc n) [] h = tt
  take-IsOrdered (suc n) (r ∷ rs) h =
      (take-All (λ q. r.outbox_id ≤ q.outbox_id) n rs h.0, take-IsOrdered n rs h.1)

  length-take : (n : ℕ) (rs : List (OutboxRow Bytes)) → length (take n rs) ≤ n
  length-take zero rs = omega arith
  length-take (suc n) [] = omega arith
  length-take (suc n) (r ∷ rs) = omega (arith, length-take n rs)

  -- The batch of a pass holds at most the limit of rows, in the order of their ids, and each of
  -- them is pending and not locked by another relay.
  pub batch-IsOrdered :
      (limit : ℕ) (locked : ℕ → Bool) (db : Db Bytes)
      → IsOrdered (batch limit locked db)
        × All (IsReady locked) (batch limit locked db)
        × (length (batch limit locked db) ≤ limit)
  unfolding batch
  batch-IsOrdered limit locked db =
      let rows = queue locked db.outbox in
      (
        take-IsOrdered limit rows (queue-IsOrdered locked db.outbox),
        take-All (IsReady locked) limit rows (queue-All locked db.outbox),
        length-take limit rows,
      )
