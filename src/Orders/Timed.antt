-- ===== src/Orders/Timed.antt =====
-- A confirming order knows since when: the error for a null `confirming_at` does not occur.
use ucollection.Base.{
  ℕ, ◌≡◌, ◌≢◌, refl, Text, List, Bool, true, false, Option, none, some, nat_eq, if◌then◌else◌,
  arith,
}
use ucollection.Orders.{
  Status, is_terminal, Order, Snapshot, Db, Error, confirming_at_null, Outcome, ok, err, ◌>>=◌,
  ◌>>◌, check, find_order,
}
use ucollection.Orders.Changes.{
  Statement, Decide, status_in, found, met, drawn, committed, stalled_since,
  insert_webhook_delivery, transition_rows, transition, mark_stalled,
}
use ucollection.Orders.Steps.{Reach, no_orders}
use ucollection.Orders.Consistent.{HasTime, find_order-All}
use ucollection.Orders.Sources.{in_confirming}
use ucollection.Orders.Reaches.{Reach-no_orders-Consistent}

-- A chain that does not fail with the error that a null confirming_at gives.
record Passes {A : Type 0} (m : Outcome A) : Type 0 where
  at : m ≢ err confirming_at_null

Passes-ok : {A : Type 0} (a : A) → Passes (ok a)
Passes-ok a = record { at = λ e. cc e }

Passes-check :
    {A : Type 0} (b : Bool) (e : Error) (m : Outcome A)
    → e ≢ confirming_at_null
    → Passes m
    → Passes (check b e >> m)
unfolding ◌>>=◌ ◌>>◌
Passes-check true e m other h = h
Passes-check false e m other h = record { at = λ q. other (ground (arith, q)) }

Passes-guard :
    {A : Type 0} (b : Bool) (e : Error) (m : Outcome A)
    → e ≢ confirming_at_null
    → (b ≡ true → Passes m)
    → Passes (check b e >> m)
unfolding ◌>>=◌ ◌>>◌
Passes-guard true e m other h = h refl
Passes-guard false e m other h = record { at = λ q. other (ground (arith, q)) }

Passes-bind :
    {A B : Type 0} (m : Outcome A) (f : A → Outcome B)
    → Passes m
    → ((a : A) → m ≡ ok a → Passes (f a))
    → Passes (m >>= f)
unfolding ◌>>=◌
Passes-bind (err e) f p h = record { at = λ q. p.at (ground (arith, q)) }
Passes-bind (ok a) f p h = h a refl

Passes-found : (o : Option Order) → Passes (found o)
Passes-found none = record { at = λ e. cc e }
Passes-found (some o) = Passes-ok o

Passes-met : (o : Option (Status × Snapshot)) → Passes (met o)
Passes-met none = record { at = λ e. cc e }
Passes-met (some o) = Passes-ok o

Passes-drawn : (o : Option Text) → Passes (drawn o)
Passes-drawn none = record { at = λ e. cc e }
Passes-drawn (some o) = Passes-ok o

module _ (works : Statement → Bool) (now : ℕ) (event_id : Option Text) where
  Passes-insert :
      (o : Order) (to : Status) (db : Db)
      → Passes (insert_webhook_delivery works now event_id o to db)
  unfolding insert_webhook_delivery
  Passes-insert o to db = Passes-check _ _ _ (cc) (
      Passes-check _ _ _ (cc)
        (Passes-bind _ _ (Passes-drawn event_id) λ id d. Passes-check _ _ _ (cc) (Passes-ok _)))

  Passes-if :
      (b : Bool) (o : Order) (to : Status) (db : Db)
      → Passes (if b then insert_webhook_delivery works now event_id o to db else ok db)
  Passes-if true o to db = Passes-insert o to db
  Passes-if false o to db = Passes-ok db

  rows-Passes :
      (order_id : ℕ) (allowed_from : List Status) (decide : Decide) (changed_by note : Text)
      (db : Db)
      → ((o : Order)
          → find_order order_id db.orders ≡ some o
          → status_in o.status allowed_from ≡ true
          → Passes (decide db o))
      → Passes (transition_rows works now event_id order_id allowed_from decide changed_by note db)
  unfolding transition_rows
  rows-Passes order_id allowed_from decide changed_by note db h = Passes-check _ _ _ (cc) (
      Passes-check _ _ _ (cc) (
        Passes-bind _ _ (Passes-found _) λ o f. Passes-guard _ _ _ (cc) λ allowed.
          Passes-bind _ _ (h o (found_some _ o f) allowed) λ decided d.
            Passes-bind _ _ (Passes-met decided) λ (to, snapshot) m. Passes-check _ _ _ (cc) (
              Passes-check _ _ _ (cc) (
                Passes-bind _ _ (Passes-if (is_terminal to) o to _)
                  λ last a. Passes-check _ _ _ (cc) (Passes-ok last)))))
    where
      found_some : (r : Option Order) (a : Order) → found r ≡ ok a → r ≡ some a
      found_some none a e = cc
      found_some (some b) a e = ground arith

committed-Passes : (db : Db) (r : Outcome Db) → Passes r → Passes (committed db r).0
committed-Passes db (err e) p = record { at = λ q. p.at (ground (arith, q)) }
committed-Passes db (ok after) p = Passes-ok tt

stalled_since-Passes :
    (now : ℕ) (o : Order) (at : ℕ)
    → o.confirming_at ≡ some at
    → Passes (stalled_since now o o.confirming_at)
stalled_since-Passes now o at e = rw e (Passes-ok _)

module _ (derive_address : Text → ℕ → Option Text) where
  -- From tables with no order on, whatever operations on orders come in any order, marking an order
  -- as stalled never fails with the error for a confirming order without its time.
  pub mark_stalled_has_time :
      (url secret : Option Text) {db : Db}
      → Reach derive_address (no_orders url secret) db
      → (works : Statement → Bool) (now : ℕ) (event_id : Option Text) (order_id : ℕ)
      → (mark_stalled works now event_id order_id db).0 ≢ err confirming_at_null
  unfolding mark_stalled transition
  mark_stalled_has_time url secret {db} r works now event_id order_id =
      let c = Reach-no_orders-Consistent derive_address url secret r in
      (committed-Passes db _ (
        rows-Passes works now event_id order_id _ _ _ _ db λ o row allowed.
          let (at, e) =
            (find_order-All HasTime order_id db.orders o row c.timed).0
              (in_confirming o.status allowed) in
          stalled_since-Passes now o at e)).at
