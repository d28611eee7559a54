-- ===== src/Normalizer/Repeats.antt =====
-- A delivery that is reported as a duplicate is marked.
use dev_intel_platform.Base.{
  ℕ, String, ◌≡◌, ◌≢◌, refl, sym, ◌∙◌, ap, Bool, true, false, arith, if◌then◌else◌,
}
use dev_intel_platform.Base.Int.{ℤ}
use dev_intel_platform.Connector.{Outcome, RawEvent}
use dev_intel_platform.Database.{Db, insert_unless, insert_absent, same_delivery}
use dev_intel_platform.Tenancy.{Result, ok, err, duplicate, World, continue, ◌>>=◌, raise}
use dev_intel_platform.Tenancy.Avoids.{reports_duplicate}
use dev_intel_platform.Normalizer.{Library, Span, persist, deliver}
use dev_intel_platform.Normalizer.Errors.{persist-Avoids, mark_delivery-Avoids}
use dev_intel_platform.Normalizer.Redelivery.{marked, mark, mark-ok}
use dev_intel_platform.Normalizer.Tables.{mark_row}

-- The mark is not fresh only where there was one.
mark_row-old :
    {Bytes : Type 0} (tenant delivery_id event_type : String) (id : ℕ) (now : ℤ) (db : Db Bytes)
    → (mark_row tenant delivery_id event_type id now db).0 ≡ false
    → marked tenant delivery_id db ≡ true
unfolding marked mark_row same_delivery insert_absent insert_unless
mark_row-old tenant delivery_id event_type id now db h = ground arith

differs : {A : Type 0} {b : Bool} → b ≡ false → b ≡ true → A
differs f t = cc

module _ {Bytes : Type 0} (lib : Library Bytes) (span : Span) (tenant : String)
    (raw : RawEvent Bytes) (res : Outcome) (identified : raw.delivery_id ≢ "") where
  continue-repeats :
      (w : World Bytes) (r : Result Bool)
      → (mark lib span tenant raw res identified w).0 ≡ r
      → reports_duplicate
          (continue r
            (λ is_new. if is_new then persist lib span tenant tenant res else raise duplicate)
            (mark lib span tenant raw res identified w).1).0
        ≡ true
      → marked tenant raw.delivery_id w.db ≡ true
  unfolding continue
  continue-repeats w (err e) f h =
      differs
        (ap reports_duplicate (sym f)
          ∙ (mark_delivery-Avoids lib span tenant tenant raw.delivery_id raw.event_type).at w)
        h
  continue-repeats w (ok true) f h =
      differs
        ((persist-Avoids lib span tenant tenant res).at
          (mark lib span tenant raw res identified w).1)
        h
  continue-repeats w (ok false) f h =
      let r = mark-ok lib span tenant raw res identified w false f in
      mark_row-old tenant raw.delivery_id raw.event_type r.fresh r.now w.db r.answer

  pub deliver-repeats :
      (w : World Bytes)
      → reports_duplicate (deliver lib span tenant tenant raw res w).0 ≡ true
      → marked tenant raw.delivery_id w.db ≡ true
  unfolding deliver ◌>>=◌
  deliver-repeats w h = continue-repeats w (mark lib span tenant raw res identified w).0 refl h
