-- ===== src/Orders/Final.antt =====
-- How far an order goes: its changes of state end, and completed and overpaid orders stay as they are.
use ucollection.Base.{
  ℕ, ◌+◌, ◌≤◌, ◌<◌, ◌≡◌, refl, ap, ◌∙◌, inl, inr, Text, List, [], ◌∷◌, Bool, true, false, Option,
  map, ◌==◌, nat_eq, if◌then◌else◌, Bool-cases, arith,
}
use ucollection.Orders.{
  Status, pending, confirming, completed, overpaid, confirmation_stalled, expired, status_text,
  is_terminal, Transition, Db,
}
use ucollection.Orders.Steps.{Reach, no_orders}
use ucollection.Orders.Consistent.{leads_to, latest, IsChain, endings, announcement}
use ucollection.Orders.Reaches.{Reach-no_orders-Consistent}

-- How many entries the journal has for an order, and how many webhooks there are.
pub changes_of : ℕ → List Transition → ℕ
changes_of id [] = 0
changes_of id (t ∷ ts) = (if t.order_id == id then 1 else 0) + changes_of id ts

pub webhooks_of : ℕ → List (ℕ × Text) → ℕ
webhooks_of id [] = 0
webhooks_of id ((k, s) ∷ es) = (if k == id then 1 else 0) + webhooks_of id es

rank : Status → ℕ
rank pending = 0
rank confirming = 1
rank confirmation_stalled = 2
rank expired = 3
rank completed = 4
rank overpaid = 4

-- The terminal states that may lie behind an order.
endings_before : Status → ℕ
endings_before pending = 0
endings_before confirming = 0
endings_before confirmation_stalled = 1
endings_before expired = 2
endings_before completed = 3
endings_before overpaid = 3

rank-leads_to : (s t : Status) → leads_to s t ≡ true → rank s < rank t
unfolding rank
rank-leads_to s t h = ground arith

endings_before-leads_to :
    (s t : Status)
    → leads_to s t ≡ true
    → (if is_terminal t then 1 else 0) + endings_before s ≤ endings_before t
unfolding endings_before
endings_before-leads_to s t h = ground arith

changes_of-le-rank :
    (id : ℕ) (ts : List Transition) → IsChain ts → changes_of id ts ≤ rank (latest id ts)
unfolding changes_of latest
changes_of-le-rank id [] _ = omega arith
changes_of-le-rank id (t ∷ ts) (from, leads, c) = elim (Bool-cases (t.order_id == id)) [
  | inl same ↦
      let k : t.order_id ≡ id = ground arith in
      let e : t.from_status ≡ latest id ts = from ∙ ap (λ i. latest i ts) k in
      rw same (omega (arith, changes_of-le-rank id ts c, rank-leads_to _ _ leads, ap rank e))
  | inr other ↦ rw other (omega (arith, changes_of-le-rank id ts c))
]

webhooks_of-if :
    (id k : ℕ) (b : Bool) (s : Text) (es : List (ℕ × Text))
    → webhooks_of id (if b then (k, s) ∷ es else es)
      ≡ (if k == id then (if b then 1 else 0) else 0) + webhooks_of id es
unfolding webhooks_of
webhooks_of-if id k true s es = refl
webhooks_of-if id k false s es = ground arith

webhooks_of-le-endings :
    (id : ℕ) (ts : List Transition)
    → IsChain ts
    → webhooks_of id (endings ts) ≤ endings_before (latest id ts)
unfolding endings latest
webhooks_of-le-endings id [] _ = unfold webhooks_of in (omega arith)
webhooks_of-le-endings id (t ∷ ts) (from, leads, c) =
    let more =
      webhooks_of-if id t.order_id (is_terminal t.to_status) (status_text t.to_status)
        (endings ts) in
    elim (Bool-cases (t.order_id == id)) [
      | inl same ↦
          let k : t.order_id ≡ id = ground arith in
          let e : t.from_status ≡ latest id ts = from ∙ ap (λ i. latest i ts) k in
          rw (more, same)
            (omega (
              arith,
              webhooks_of-le-endings id ts c,
              endings_before-leads_to _ _ leads,
              ap endings_before e,
            ))
      | inr other ↦ rw (more, other) (omega (arith, webhooks_of-le-endings id ts c))
    ]

rank_bound : (s : Status) → (rank s ≤ 4) × (endings_before s ≤ 3)
unfolding rank endings_before
rank_bound s = ground arith

module _ (derive_address : Text → ℕ → Option Text) where
  -- From tables with no order on, whatever operations on orders come in any order, an order changes
  -- its state at most four times, and at most three webhooks announce it.
  pub changes_bounded :
      (url secret : Option Text) {db : Db} (id : ℕ)
      → Reach derive_address (no_orders url secret) db
      → (changes_of id db.order_state_transitions ≤ 4)
        × (webhooks_of id (map announcement db.webhook_deliveries) ≤ 3)
  changes_bounded url secret {db} id r =
      let c = Reach-no_orders-Consistent derive_address url secret r in
      let journal = db.order_state_transitions in
      let b = rank_bound (latest id journal) in
      (
        omega (arith, changes_of-le-rank id journal c.chain, b),
        rw c.announced (omega (arith, webhooks_of-le-endings id journal c.chain, b)),
      )
