-- ===== src/Orders/Judged.antt =====
-- What the final evaluation of a confirming order goes by, and what it leaves.
use mathlib.Core.Path.{subst}
use ucollection.Base.{
  ℕ, ◌≡◌, refl, sym, ap, ◌∙◌, ◌⊎◌, inl, inr, Text, List, [], ◌∷◌, Bool, true, false, if◌then◌else◌,
  Option, some, ◌==◌, nat_eq, Bool-cases, All, codes, arith,
}
use ucollection.Base.Decimal.{to_string}
use ucollection.Base.Int.{pos}
use ucollection.Base.Words.{ltb_int64}
use ucollection.Orders.{
  Status, confirming, completed, overpaid, is_terminal, Order, Snapshot, Db, ok, find_order,
  sum_confirmed_amount, update_order, status_text, Delivery,
}
use ucollection.Orders.Changes.{
  Statement, found, decide_final, evaluate_final, with_status, delivery, moved,
}
use ucollection.Orders.Moves.{Moved, transition_lem}
use ucollection.Orders.Consistent.{find_order-All}
use ucollection.Orders.Sources.{in_confirming, checked, chosen}

find_order-update_order :
    (id : ℕ) (f : Order → Order) (os : List Order) (o : Order)
    → ((r : Order) → (f r).id ≡ r.id)
    → find_order id os ≡ some o
    → find_order id (update_order id f os) ≡ some (f o)
unfolding find_order update_order
find_order-update_order id f [] o same e = cc
find_order-update_order id f (x ∷ os) o same e = elim (Bool-cases (x.id == id)) [
  | inl found ↦
      let k : ((f x).id == id) ≡ true = rw (same x) found in
      rw (found, k) (ap (λ r. some (f r)) (ground (arith, e, found)))
  | inr other ↦
      rw (other, other) (find_order-update_order id f os o same (ground (arith, e, other)))
]

-- The verdict on a confirmed amount.
abbrev pub Verdict : Order → ℕ → Status → Type 0
Verdict o total to =
    (ltb_int64 (pos total) o.amount_lower_bound ≡ false)
    × (((ltb_int64 o.amount_upper_bound (pos total) ≡ false) × (to ≡ completed))
        ⊎ ((ltb_int64 o.amount_upper_bound (pos total) ≡ true) × (to ≡ overpaid)))

over :
    (b : Bool) (to : Status)
    → (if b then overpaid else completed) ≡ to
    → ((b ≡ false) × (to ≡ completed)) ⊎ ((b ≡ true) × (to ≡ overpaid))
over true to e = inr (refl, sym e)
over false to e = inl (refl, sym e)

verdict_lem :
    (works : Statement → Bool) (db : Db) (o : Order) (to : Status) (snapshot : Snapshot)
    → decide_final works db o ≡ ok (some (to, snapshot))
    → Verdict o (sum_confirmed_amount o.id db.incoming_transactions) to
verdict_lem works db o to snapshot decided =
    let (_, d) = checked _ _ _ decided in
    let (least, e) = chosen _ _ d in (least, over _ to (ap (λ p. p.0) e))

Verdict-is_terminal :
    (o : Order) (total : ℕ) (to : Status) → Verdict o total to → is_terminal to ≡ true
Verdict-is_terminal o total to (least, inl (_, e)) = rw e refl
Verdict-is_terminal o total to (least, inr (_, e)) = rw e refl

module _ (now order_id : ℕ) (db after : Db) where
  -- The order was confirming; its confirmed amount has decided where it goes, and the latest webhook
  -- says so.
  pub record Judged : Type 0 where
    pub order : Order
    pub to : Status
    pub webhook : Delivery
    pub is_row : find_order order_id db.orders ≡ some order
    pub was_confirming : order.status ≡ confirming
    pub verdict : Verdict order (sum_confirmed_amount order_id db.incoming_transactions) to
    pub new_row : find_order order_id after.orders ≡ some (with_status now to order)
    pub announced : after.webhook_deliveries ≡ webhook ∷ db.webhook_deliveries
    pub is_about : webhook.order_id ≡ order_id
    pub says : webhook.status ≡ status_text to
    pub total :
        webhook.total_confirmed_amount
        ≡ to_string (sum_confirmed_amount order_id db.incoming_transactions)

  Moved-Judged :
      (works : Statement → Bool) (event_id : Option Text) (changed_by note : Text)
      → Moved now event_id order_id (confirming ∷ []) (decide_final works) changed_by note db after
      → Judged
  Moved-Judged works event_id changed_by note m =
      let o = m.current in
      let id =
        (find_order-All (λ r. Unit {0}) order_id db.orders o m.is_row (all_unit db.orders)).1 in
      let v = verdict_lem works db o m.to m.snapshot m.is_decided in
      let sums = λ (k : ℕ). sum_confirmed_amount k db.incoming_transactions in
      elim (m.is_announced) [
        | inl (open_end, _) ↦ absurd (cc (open_end, Verdict-is_terminal o _ m.to v))
        | inr (_, (event, _, e)) ↦ record {
          order = o;
          to = m.to;
          webhook =
              delivery now event o m.to (sums o.id)
                (moved now changed_by note o m.to m.snapshot db);
          is_row = m.is_row;
          was_confirming = in_confirming o.status m.is_allowed;
          verdict = subst (λ k. Verdict o (sums k) m.to) id v;
          new_row = rw e (
              subst
                (λ k.
                  find_order order_id (update_order k (with_status now m.to) db.orders)
                  ≡ some (with_status now m.to o))
                (sym id)
                (find_order-update_order order_id (with_status now m.to) db.orders o (λ r. refl)
                  m.is_row));
          announced = ap (λ (d : Db). d.webhook_deliveries) e;
          is_about = id;
          says = refl;
          total = ap (λ k. to_string (sums k)) id;
        }
      ]
    where
      all_unit : (os : List Order) → All (λ r. Unit {0}) os
      all_unit [] = tt
      all_unit (r ∷ os) = (tt, all_unit os)

-- If the final evaluation of an order is committed, the order was confirming and its confirmed
-- amount is not under the lower bound; the order becomes completed if the amount is not over the
-- upper bound and overpaid if it is, with no other change to its row but the time; and one webhook
-- is added, for this order, with the new state and the confirmed amount.
pub evaluate_final-Judged :
    (works : Statement → Bool) (now : ℕ) (event_id : Option Text) (order_id : ℕ) (db after : Db)
    → evaluate_final works now event_id order_id db ≡ (ok tt, after)
    → Judged now order_id db after
unfolding evaluate_final
evaluate_final-Judged works now event_id order_id db after e =
    elim (transition_lem now event_id order_id (confirming ∷ []) (decide_final works)
      (codes "system") (codes "鏈上最終確定金額判定") db works) [
        | inl (f, failed) ↦ absurd (cc (e, failed))
        | inr (rows, done, m) ↦
            let q : rows ≡ after = ap (λ p. p.1) (sym done ∙ e) in
            subst (Judged now order_id db) q
              (Moved-Judged now order_id db rows works event_id _ _ m)
      ]
