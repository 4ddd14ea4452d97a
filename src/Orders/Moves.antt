-- ===== src/Orders/Moves.antt =====
-- What a change of state that was committed has done.
use mathlib.Core.Path.{subst}
use ucollection.Base.{
  ℕ, ◌≡◌, refl, sym, ap, ◌∙◌, ◌⊎◌, inl, inr, Text, List, Bool, true, false, Option, none, some,
  if◌then◌else◌, Bool-cases, arith,
}
use ucollection.Orders.{
  Status, is_terminal, Order, Snapshot, Db, Error, database, Outcome, ok, err, ◌>>◌, check,
  find_order,
}
use ucollection.Orders.Ensures.{Ensures, Ensures-ok, Ensures-check, Ensures-guard, Ensures-bind}
use ucollection.Orders.Changes.{
  Statement, Decide, sum, params, deliver, status_in, found, met, moved, drawn, delivered,
  committed, insert_webhook_delivery, transition_rows, transition,
}

found-some : (o : Option Order) (a : Order) → found o ≡ ok a → o ≡ some a
found-some none a h = cc
found-some (some o) a h = ground arith

met-some : (o : Option (Status × Snapshot)) (a : Status × Snapshot) → met o ≡ ok a → o ≡ some a
met-some none a h = cc
met-some (some o) a h = ground arith

drawn-some : (o : Option Text) (a : Text) → drawn o ≡ ok a → o ≡ some a
drawn-some none a h = cc
drawn-some (some o) a h = ground arith

-- The webhook row that goes with entering a terminal state, and only with that.
abbrev pub Announced : (now : ℕ) (event_id : Option Text) → Order → Status → Db → Db → Type 0
Announced now event_id o to rows after =
    ((is_terminal to ≡ false) × (after ≡ rows))
    ⊎ ((is_terminal to ≡ true)
        × ((id : Text) × (event_id ≡ some id) × (after ≡ delivered now id o to rows)))

module _ (now : ℕ) (event_id : Option Text) (order_id : ℕ) (allowed_from : List Status)
    (decide : Decide) (changed_by note : Text) (db : Db) where
  -- A change of state that was committed.
  pub record Moved (after : Db) : Type 0 where
    pub current : Order
    pub to : Status
    pub snapshot : Snapshot
    pub is_row : find_order order_id db.orders ≡ some current
    pub is_allowed : status_in current.status allowed_from ≡ true
    pub is_decided : decide db current ≡ ok (some (to, snapshot))
    pub is_announced :
        Announced now event_id current to (moved now changed_by note current to snapshot db) after

  module _ (works : Statement → Bool) where
    inserted :
        (o : Order) (to : Status) (rows : Db)
        → is_terminal to ≡ true
        → Ensures
            (Announced now event_id o to rows)
            (insert_webhook_delivery works now event_id o to rows)
    unfolding insert_webhook_delivery
    inserted o to rows e =
        let last =
          λ (id : Text). check (works deliver) database >> ok (delivered now id o to rows) in
        Ensures-check (works sum) database _ (
          Ensures-check (works params) database _ (
            Ensures-bind (drawn event_id) last λ id d.
              Ensures-check (works deliver) database _
                (Ensures-ok _ (inr (e, (id, drawn-some event_id id d, refl))))))

    announced :
        (o : Order) (to : Status) (rows : Db)
        → Ensures (Announced now event_id o to rows) (
            if is_terminal to
            then insert_webhook_delivery works now event_id o to rows
            else ok rows)
    announced o to rows = elim (Bool-cases (is_terminal to)) [
      | inr e ↦ rw e (Ensures-ok rows (inl (e, refl)))
      | inl e ↦
          subst
            (λ b.
              Ensures (Announced now event_id o to rows)
                (if b then insert_webhook_delivery works now event_id o to rows else ok rows))
            (sym e) (inserted o to rows e)
    ]

    rows-Moved :
        Ensures Moved
          (transition_rows works now event_id order_id allowed_from decide changed_by note db)
    unfolding transition_rows
    rows-Moved = Ensures-check _ _ _ (
        Ensures-check _ _ _ (
          Ensures-bind _ _ λ current f. Ensures-guard _ _ _ λ allowed. Ensures-bind _ _ λ decided d.
            Ensures-bind _ _ λ (to, snapshot) m. Ensures-check _ _ _ (
              Ensures-check _ _ _ (
                Ensures-bind _ _ λ last a. Ensures-check _ _ _ (
                  Ensures-ok last (record {
                    current = current;
                    to = to;
                    snapshot = snapshot;
                    is_row = found-some _ current f;
                    is_allowed = allowed;
                    is_decided = d ∙ ap ok (met-some decided (to, snapshot) m);
                    is_announced = (announced current to _).at last a;
                  }))))))

    committed_lem :
        (r : Outcome Db)
        → Ensures Moved r
        → ((e : Error) × (committed db r ≡ (err e, db)))
          ⊎ ((after : Db) × (committed db r ≡ (ok tt, after)) × Moved after)
    committed_lem (err e) h = inl (e, refl)
    committed_lem (ok after) h = inr (after, refl, h.at after refl)

    -- A change of state fails and leaves the tables alone, or is committed.
    pub transition_lem :
        ((e : Error) × (transition works now event_id order_id allowed_from decide changed_by note
              db
            ≡ (err e, db)))
        ⊎ ((after : Db) × (transition works now event_id order_id allowed_from decide changed_by
                note db
              ≡ (ok tt, after))
            × Moved after)
    unfolding transition
    transition_lem = committed_lem _ rows-Moved
