-- ===== src/Orders/Kept.antt =====
-- A completed or overpaid order stays as it is, and a confirming one knows since when.
use mathlib.Core.Path.{subst}
use ucollection.Base.{
  ℕ, ◌≡◌, refl, sym, ap, ◌∙◌, ◌⊎◌, inl, inr, Text, List, ◌∷◌, Bool, true, false, Option, some, ◌==◌,
  nat_eq, is_empty, Bool-cases, arith,
}
use ucollection.Orders.{Status, completed, overpaid, Order, Transition, Db, find_order}
use ucollection.Orders.Changes.{
  Statement, Decide, manual_sources, transition, evaluate_confirming, evaluate_final, expire_if_due,
  mark_stalled, manual_transition,
}
use ucollection.Orders.Moves.{transition_lem, Announced}
use ucollection.Orders.Allocation.{create_order_lem}
use ucollection.Orders.Steps.{
  Step, evaluates_confirming, evaluates_final, expires, stalls, overrides, creates, adds_wallet,
  scans, configures, Reach, here, next,
}
use ucollection.Orders.Consistent.{leads_to, latest, IsChain, Consistent, find_order-All}
use ucollection.Orders.Reaches.{Reach-Consistent}

-- The journal is as before, or has one more entry.
abbrev Grows : List Transition → List Transition → Type 0
Grows old new = (new ≡ old) ⊎ ((t : Transition) × (new ≡ t ∷ old))

Announced-Grows :
    (now : ℕ) (event_id : Option Text) (o : Order) (to : Status) (old : List Transition)
    (rows after : Db)
    → Grows old rows.order_state_transitions
    → Announced now event_id o to rows after
    → Grows old after.order_state_transitions
Announced-Grows now event_id o to old rows after g (inl (_, e)) = rw e g
Announced-Grows now event_id o to old rows after g (inr (_, (id, _, e))) = rw e g

module _ (works : Statement → Bool) (now : ℕ) (event_id : Option Text) where
  transition-Grows :
      (order_id : ℕ) (allowed_from : List Status) (decide : Decide) (changed_by note : Text)
      (db : Db)
      → Grows db.order_state_transitions
          (transition works now event_id order_id allowed_from decide changed_by note
            db).1.order_state_transitions
  transition-Grows order_id allowed_from decide changed_by note db =
      elim (transition_lem now event_id order_id allowed_from decide changed_by note db works) [
        | inl (e, failed) ↦ rw failed (inl refl)
        | inr (after, done, m) ↦ rw done (
            Announced-Grows now event_id m.current m.to db.order_state_transitions _ after
              (inr (_, refl)) m.is_announced)
      ]

  manual_transition-Grows :
      (order_id : ℕ) (to : Status) (actor note : Text) (db : Db)
      → Grows db.order_state_transitions
          (manual_transition works now event_id order_id to actor note db).1.order_state_transitions
  unfolding manual_transition
  manual_transition-Grows order_id to actor note db =
      elim (Bool-cases (is_empty (manual_sources to))) [
        | inl never ↦ rw never (inl refl)
        | inr some_source ↦ rw some_source (transition-Grows order_id _ _ actor note db)
      ]

abbrev pub is_final : Status → Bool
is_final completed = true
is_final overpaid = true
is_final _ = false

final_leads : (s t : Status) → is_final s ≡ true → leads_to s t ≡ false
final_leads s t h = ground arith

Grows-final :
    (id : ℕ) (old new : List Transition)
    → Grows old new
    → IsChain new
    → is_final (latest id old) ≡ true
    → latest id new ≡ latest id old
unfolding latest
Grows-final id old new (inl e) c f = ap (latest id) e
Grows-final id old new (inr (t, e)) c f =
    let (from, leads, _) = subst IsChain e c in
    elim (Bool-cases (t.order_id == id)) [
      | inl same ↦
          let k : t.order_id ≡ id = ground arith in
          let q : t.from_status ≡ latest id old = from ∙ ap (λ i. latest i old) k in
          absurd (cc (leads, final_leads t.from_status t.to_status (ap is_final q ∙ f)))
      | inr other ↦ rw (e, other) refl
    ]

module _ (derive_address : Text → ℕ → Option Text) where
  Step-Grows :
      {db after : Db}
      → Step derive_address db after
      → Grows db.order_state_transitions after.order_state_transitions
  unfolding evaluate_confirming evaluate_final expire_if_due mark_stalled
  Step-Grows {db} (evaluates_confirming works now event_id order_id) =
      transition-Grows works now event_id order_id _ _ _ _ db
  Step-Grows {db} (evaluates_final works now event_id order_id) =
      transition-Grows works now event_id order_id _ _ _ _ db
  Step-Grows {db} (expires works now event_id order_id) =
      transition-Grows works now event_id order_id _ _ _ _ db
  Step-Grows {db} (stalls works now event_id order_id) =
      transition-Grows works now event_id order_id _ _ _ _ db
  Step-Grows {db} (overrides works now event_id order_id to actor note) =
      manual_transition-Grows works now event_id order_id to actor note db
  Step-Grows {db} (creates works now public_token p) =
      elim (create_order_lem derive_address now public_token p db works) [
        | inl (e, failed) ↦ rw failed (inl refl)
        | inr (o, (after, done, a)) ↦ rw (done, a.rows) (inl refl)
      ]
  Step-Grows (adds_wallet id xpub fresh) = inl refl
  Step-Grows (scans rows) = inl refl
  Step-Grows (configures url secret) = inl refl

  latest_kept :
      {db after : Db} (id : ℕ)
      → Consistent db
      → Reach derive_address db after
      → is_final (latest id db.order_state_transitions) ≡ true
      → latest id after.order_state_transitions ≡ latest id db.order_state_transitions
  latest_kept id c here f = refl
  latest_kept {db} id c (next {x} {y} r st) f =
      let e = latest_kept id c r f in
      Grows-final id x.order_state_transitions y.order_state_transitions (Step-Grows st)
        (Reach-Consistent derive_address c (next r st)).chain (ap is_final e ∙ f)
      ∙ e

  -- In tables that agree, an order that is completed or overpaid still is, and as which, after any
  -- operations, the manual change of state included.
  pub final_orders_kept :
      {db after : Db} (id : ℕ) (o o' : Order)
      → Consistent db
      → Reach derive_address db after
      → find_order id db.orders ≡ some o
      → is_final o.status ≡ true
      → find_order id after.orders ≡ some o'
      → o'.status ≡ o.status
  final_orders_kept {db} {after} id o o' c r row f row' =
      let (s, k) = find_order-All _ id db.orders o row c.agrees in
      let c' = Reach-Consistent derive_address c r in
      let (s', k') = find_order-All _ id after.orders o' row' c'.agrees in
      let e : o.status ≡ latest id db.order_state_transitions =
        s ∙ ap (λ i. latest i db.order_state_transitions) k in
      s'
      ∙ ap (λ i. latest i after.order_state_transitions) k'
      ∙ latest_kept id c r (sym (ap is_final e) ∙ f)
      ∙ sym e
