-- ===== src/Orders/Consistent.antt =====
-- What the tables of the orders agree on, and that a change of state keeps it.
use mathlib.Core.Path.{subst}
use ucollection.Base.{
  ℕ, ◌<◌, ◌≡◌, refl, sym, ap, ◌∙◌, inl, inr, Text, List, [], ◌∷◌, Bool, true, false, Option, some,
  All, map, ◌==◌, nat_eq, text_eq, if◌then◌else◌, Bool-cases, arith,
}
use ucollection.Orders.{
  Status, pending, confirming, completed, overpaid, confirmation_stalled, expired, status_text,
  is_terminal, Order, Snapshot, Transition, Delivery, Db, ok, find_order, update_order,
}
use ucollection.Orders.Changes.{Decide, status_in, with_status, confirming_from, moved}
use ucollection.Orders.Moves.{Moved, Announced}

-- The changes of state that there are.
abbrev pub leads_to : Status → Status → Bool
leads_to pending confirming = true
leads_to pending expired = true
leads_to confirming completed = true
leads_to confirming overpaid = true
leads_to confirming confirmation_stalled = true
leads_to confirmation_stalled completed = true
leads_to confirmation_stalled overpaid = true
leads_to confirmation_stalled expired = true
leads_to expired completed = true
leads_to expired overpaid = true
leads_to _ _ = false

-- The state that the journal says an order is in.
unfoldable pub latest : ℕ → List Transition → Status
latest id [] = pending
latest id (t ∷ ts) = if t.order_id == id then t.to_status else latest id ts

-- Each entry of the journal leads on from the one before it for the same order.
abbrev pub IsChain : List Transition → Type 0
IsChain [] = Unit
IsChain (t ∷ ts) =
    (t.from_status ≡ latest t.order_id ts)
    × (leads_to t.from_status t.to_status ≡ true)
    × IsChain ts

-- The entries into a terminal state, and what the webhooks announce.
unfoldable pub endings : List Transition → List (ℕ × Text)
endings [] = []
endings (t ∷ ts) =
    if is_terminal t.to_status
    then (t.order_id, status_text t.to_status) ∷ endings ts
    else endings ts

abbrev pub announcement : Delivery → ℕ × Text
announcement d = (d.order_id, d.status)

abbrev pub AgreesWith : List Transition → Order → Type 0
AgreesWith journal o = o.status ≡ latest o.id journal

abbrev pub HasTime : Order → Type 0
HasTime o = o.status ≡ confirming → (at : ℕ) × (o.confirming_at ≡ some at)

pub record Consistent (db : Db) : Type 0 where
  pub orders_below : All (λ (o : Order). o.id < db.next_order_id) db.orders
  pub journal_below :
      All (λ (t : Transition). t.order_id < db.next_order_id) db.order_state_transitions
  pub agrees : All (AgreesWith db.order_state_transitions) db.orders
  pub timed : All HasTime db.orders
  pub chain : IsChain db.order_state_transitions
  pub announced : map announcement db.webhook_deliveries ≡ endings db.order_state_transitions

-- The row that is found is one of the rows.
pub find_order-All :
    (P : Order → Type 0) (id : ℕ) (os : List Order) (o : Order)
    → find_order id os ≡ some o
    → All P os
    → P o × (o.id ≡ id)
unfolding find_order
find_order-All P id [] o e _ = cc
find_order-All P id (x ∷ os) o e (h, hs) = elim (Bool-cases (x.id == id)) [
  | inl same ↦ let q : x ≡ o = ground (arith, e, same) in (rw (← q) h, rw (← q) (ground arith))
  | inr other ↦ find_order-All P id os o (ground (arith, e, other)) hs
]

pub update_order-All :
    (P Q : Order → Type 0) (id : ℕ) (f : Order → Order)
    → ((o : Order) → P o → o.id ≡ id → Q (f o))
    → ((o : Order) → P o → (o.id == id) ≡ false → Q o)
    → (os : List Order) → All P os
    → All Q (update_order id f os)
unfolding update_order
update_order-All P Q id f changed kept [] _ = tt
update_order-All P Q id f changed kept (x ∷ os) (h, hs) = elim (Bool-cases (x.id == id)) [
  | inl same ↦ rw same (changed x h (ground arith), update_order-All P Q id f changed kept os hs)
  | inr other ↦ rw other (kept x h other, update_order-All P Q id f changed kept os hs)
]

confirming_from-some :
    (to : Status) (now : ℕ) (old : Option ℕ)
    → to ≡ confirming
    → (at : ℕ) × (confirming_from to now old ≡ some at)
confirming_from-some pending now old e = absurd (cc e)
confirming_from-some confirming now old e = (now, refl)
confirming_from-some completed now old e = absurd (cc e)
confirming_from-some overpaid now old e = absurd (cc e)
confirming_from-some confirmation_stalled now old e = absurd (cc e)
confirming_from-some expired now old e = absurd (cc e)

-- The rows that a change of state leaves, before the webhook.
record HasMoved (db rows : Db) (current : Order) (to : Status) : Type 0 where
  orders_below : All (λ (o : Order). o.id < rows.next_order_id) rows.orders
  journal_below :
      All (λ (t : Transition). t.order_id < rows.next_order_id) rows.order_state_transitions
  agrees : All (AgreesWith rows.order_state_transitions) rows.orders
  timed : All HasTime rows.orders
  chain : IsChain rows.order_state_transitions
  same_deliveries : rows.webhook_deliveries ≡ db.webhook_deliveries
  ends : endings rows.order_state_transitions ≡ (
      if is_terminal to
      then (current.id, status_text to) ∷ endings db.order_state_transitions
      else endings db.order_state_transitions)

module _ (now : ℕ) (changed_by note : Text) (db : Db) (current : Order) (to : Status)
    (snapshot : Snapshot) where
  moved-HasMoved :
      Consistent db
      → find_order current.id db.orders ≡ some current
      → leads_to current.status to ≡ true
      → HasMoved db (moved now changed_by note current to snapshot db) current to
  unfolding latest endings
  moved-HasMoved c row edge = record {
    orders_below =
        update_order-All _ _ current.id (with_status now to) (λ o h e. h) (λ o h e. h) db.orders
          c.orders_below;
    journal_below =
        ((find_order-All _ current.id db.orders current row c.orders_below).0, c.journal_below);
    agrees =
        update_order-All _ _ current.id (with_status now to) (λ o h e. ground (arith, e))
          (λ o h e. ground (arith, h, e)) db.orders c.agrees;
    timed =
        update_order-All _ _ current.id (with_status now to)
          (λ o h e. confirming_from-some to now o.confirming_at) (λ o h e. h) db.orders c.timed;
    chain = ((find_order-All _ current.id db.orders current row c.agrees).0, edge, c.chain);
    same_deliveries = refl;
    ends = refl;
  }

Announced-Consistent :
    (now : ℕ) (event_id : Option Text) (db rows after : Db) (current : Order) (to : Status)
    → Consistent db
    → HasMoved db rows current to
    → Announced now event_id current to rows after
    → Consistent after
Announced-Consistent now event_id db rows after current to c m (inl (open_end, e)) = rw e (record {
  orders_below = m.orders_below;
  journal_below = m.journal_below;
  agrees = m.agrees;
  timed = m.timed;
  chain = m.chain;
  announced =
      ap (map announcement) m.same_deliveries ∙ c.announced ∙ sym (m.ends ∙ rw open_end refl);
})
Announced-Consistent now event_id db rows after current to c m (inr (terminal, (id, drawn, e))) =
    rw e (record {
      orders_below = m.orders_below;
      journal_below = m.journal_below;
      agrees = m.agrees;
      timed = m.timed;
      chain = m.chain;
      announced =
          ap (λ (l : List (ℕ × Text)). (current.id, status_text to) ∷ l)
            (ap (map announcement) m.same_deliveries ∙ c.announced)
          ∙ sym (m.ends ∙ rw terminal refl);
    })

-- A decision that only leads where the states lead.
abbrev pub Leads : List Status → Decide → Type 0
Leads allowed_from decide =
    (db : Db) (current : Order) (to : Status) (snapshot : Snapshot)
    → status_in current.status allowed_from ≡ true
    → decide db current ≡ ok (some (to, snapshot))
    → leads_to current.status to ≡ true

pub Moved-Consistent :
    (now : ℕ) (event_id : Option Text) (order_id : ℕ) (allowed_from : List Status) (decide : Decide)
    (changed_by note : Text) (db after : Db)
    → Leads allowed_from decide
    → Consistent db
    → Moved now event_id order_id allowed_from decide changed_by note db after
    → Consistent after
Moved-Consistent now event_id order_id allowed_from decide changed_by note db after leads c m =
    let same = (find_order-All _ order_id db.orders m.current m.is_row c.agrees).1 in
    Announced-Consistent now event_id db _ after m.current m.to c
      (moved-HasMoved now changed_by note db m.current m.to m.snapshot c
        (subst (λ (k : ℕ). find_order k db.orders ≡ some m.current) (sym same) m.is_row)
        (leads db m.current m.to m.snapshot m.is_allowed m.is_decided))
      m.is_announced
