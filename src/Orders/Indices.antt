-- ===== src/Orders/Indices.antt =====
-- The derivation indices of the orders: index 0 is never given out, and no index of a wallet twice.
use mathlib.Core.Path.{subst}
use ucollection.Base.{
  ℕ, suc, ◌≤◌, ◌≡◌, refl, sym, ap, ◌∙◌, inl, inr, Text, List, [], ◌∷◌, Bool, false, Option, none,
  some, All, All-map, map, ◌==◌, nat_eq, is_empty, if◌then◌else◌, Bool-cases, arith,
}
use ucollection.Orders.{Status, Order, Wallet, Db, update_order}
use ucollection.Orders.Changes.{
  Statement, Decide, with_status, manual_sources, transition, moved, evaluate_confirming,
  evaluate_final, expire_if_due, mark_stalled, manual_transition,
}
use ucollection.Orders.Moves.{transition_lem, Announced}
use ucollection.Orders.Create.{CreateParams, max_int32, find_wallet, advance_wallet}
use ucollection.Orders.Allocation.{Allocated, create_order_lem}
use ucollection.Orders.Steps.{
  Step, evaluates_confirming, evaluates_final, expires, stalls, overrides, creates, adds_wallet,
  scans, configures, Reach, here, next, no_orders,
}

-- The wallet and the index of an order, which lead to its address.
abbrev pub key : Order → ℕ × ℕ
key o = (o.master_wallet_id, o.derivation_index)

-- The index is one that the wallet has given out.
abbrev pub IsGiven : List Wallet → ℕ × ℕ → Type 0
IsGiven ws (id, index) =
    (w : Wallet) × (find_wallet id ws ≡ some w)
    × (1 ≤ index)
    × (index ≤ w.last_derived_index)
    × (index ≤ max_int32)

abbrev pub AreDistinct : List (ℕ × ℕ) → Type 0
AreDistinct [] = Unit
AreDistinct ((id, index) ∷ ks) =
    All (λ (k : ℕ × ℕ). ¬ ((k.0 ≡ id) × (k.1 ≡ index))) ks × AreDistinct ks

abbrev pub Numbered : List Wallet → List (ℕ × ℕ) → Type 0
Numbered ws ks = All (IsGiven ws) ks × AreDistinct ks

keys-update_order :
    (id now : ℕ) (to : Status) (os : List Order)
    → map key (update_order id (with_status now to) os) ≡ map key os
unfolding update_order
keys-update_order id now to [] = refl
keys-update_order id now to (o ∷ os) = elim (Bool-cases (o.id == id)) [
  | inl same ↦ rw same (ap (λ ks. key o ∷ ks) (keys-update_order id now to os))
  | inr other ↦ rw other (ap (λ ks. key o ∷ ks) (keys-update_order id now to os))
]

advance_wallet_other :
    (id index k : ℕ) (ws : List Wallet)
    → (id == k) ≡ false
    → find_wallet k (advance_wallet id index ws) ≡ find_wallet k ws
unfolding find_wallet advance_wallet
advance_wallet_other id index k [] e = refl
advance_wallet_other id index k (x ∷ ws) e = elim (Bool-cases (x.id == id)) [
  | inl same ↦
      let q : (x.id == k) ≡ false = ground (arith, same, e) in
      rw (same, q) (advance_wallet_other id index k ws e)
  | inr other ↦
      rw other (ap (λ r. if x.id == k then some x else r) (advance_wallet_other id index k ws e))
]

advance_wallet_self :
    (id index : ℕ) (ws : List Wallet) (w : Wallet)
    → find_wallet id ws ≡ some w
    → find_wallet id (advance_wallet id index ws) ≡ some (record w { last_derived_index = index })
unfolding find_wallet advance_wallet
advance_wallet_self id index [] w e = cc
advance_wallet_self id index (x ∷ ws) w e = elim (Bool-cases (x.id == id)) [
  | inl same ↦
      let q : x ≡ w = ground (arith, e, same) in
      rw (same, same) (ap (λ (r : Wallet). some (record r { last_derived_index = index })) q)
  | inr other ↦ rw (other, other) (advance_wallet_self id index ws w (ground (arith, e, other)))
]

-- An index that was given out stays so when the wallet goes on to its next one.
IsGiven-advance :
    (id : ℕ) (ws : List Wallet) (w : Wallet) (k : ℕ × ℕ)
    → find_wallet id ws ≡ some w
    → IsGiven ws k
    → IsGiven (advance_wallet id (suc w.last_derived_index) ws) k
IsGiven-advance id ws w (j, index) e (v, f, least, most, bound) = elim (Bool-cases (id == j)) [
  | inl same ↦
      let q : id ≡ j = ground arith in
      let x : v ≡ w = ground (arith, sym f ∙ ap (λ i. find_wallet i ws) (sym q) ∙ e) in
      let last = suc w.last_derived_index in
      (
        record w { last_derived_index = last },
        ap (λ i. find_wallet i (advance_wallet id last ws)) (sym q)
            ∙ advance_wallet_self id last ws w e,
        least,
        omega (arith, most, ap (λ (r : Wallet). r.last_derived_index) x),
        bound,
      )
  | inr other ↦ (v, advance_wallet_other id _ j ws other ∙ f, least, most, bound)
]

-- The next index differs from all that were given out.
next_is_new :
    (id : ℕ) (ws : List Wallet) (w : Wallet) (k : ℕ × ℕ)
    → find_wallet id ws ≡ some w
    → IsGiven ws k
    → ¬ ((k.0 ≡ id) × (k.1 ≡ suc w.last_derived_index))
next_is_new id ws w (j, index) e (v, f, least, most, bound) (p, q) =
    let x : v ≡ w = ground (arith, sym f ∙ ap (λ i. find_wallet i ws) p ∙ e) in
    absurd (omega (arith, most, q, ap (λ (r : Wallet). r.last_derived_index) x))

abbrev pub AreNumbered : Db → Type 0
AreNumbered db = Numbered db.master_wallets (map key db.orders)

-- A change of state leaves the wallets and the keys alone.
abbrev SameKeys : Db → Db → Type 0
SameKeys db after =
    (after.master_wallets ≡ db.master_wallets) × (map key after.orders ≡ map key db.orders)

Announced-SameKeys :
    (now : ℕ) (event_id : Option Text) (o : Order) (to : Status) (db rows after : Db)
    → SameKeys db rows
    → Announced now event_id o to rows after
    → SameKeys db after
Announced-SameKeys now event_id o to db rows after k (inl (_, e)) = rw e k
Announced-SameKeys now event_id o to db rows after k (inr (_, (id, _, e))) = rw e k

SameKeys-AreNumbered : (db after : Db) → SameKeys db after → AreNumbered db → AreNumbered after
SameKeys-AreNumbered db after (w, k) h =
    subst (λ ws. Numbered ws (map key after.orders)) (sym w)
      (subst (Numbered db.master_wallets) (sym k) h)

module _ (works : Statement → Bool) (now : ℕ) (event_id : Option Text) where
  transition-SameKeys :
      (order_id : ℕ) (allowed_from : List Status) (decide : Decide) (changed_by note : Text)
      (db : Db)
      → SameKeys db
          (transition works now event_id order_id allowed_from decide changed_by note db).1
  transition-SameKeys order_id allowed_from decide changed_by note db =
      elim (transition_lem now event_id order_id allowed_from decide changed_by note db works) [
        | inl (e, failed) ↦ rw failed (refl, refl)
        | inr (after, done, m) ↦ rw done (
            Announced-SameKeys now event_id m.current m.to db
              (moved now changed_by note m.current m.to m.snapshot db) after
              (refl, keys-update_order m.current.id now m.to db.orders) m.is_announced)
      ]

  transition-AreNumbered :
      (order_id : ℕ) (allowed_from : List Status) (decide : Decide) (changed_by note : Text)
      (db : Db)
      → AreNumbered db
      → AreNumbered
          (transition works now event_id order_id allowed_from decide changed_by note db).1
  transition-AreNumbered order_id allowed_from decide changed_by note db h =
      SameKeys-AreNumbered db
        (transition works now event_id order_id allowed_from decide changed_by note db).1
        (transition-SameKeys order_id allowed_from decide changed_by note db) h

  manual_transition-AreNumbered :
      (order_id : ℕ) (to : Status) (actor note : Text) (db : Db)
      → AreNumbered db
      → AreNumbered (manual_transition works now event_id order_id to actor note db).1
  unfolding manual_transition
  manual_transition-AreNumbered order_id to actor note db h =
      elim (Bool-cases (is_empty (manual_sources to))) [
        | inl never ↦ rw never h
        | inr some_source ↦ rw some_source (transition-AreNumbered order_id _ _ actor note db h)
      ]

IsGiven-new_wallet :
    (id : ℕ) (ws : List Wallet) (w : Wallet) (k : ℕ × ℕ)
    → find_wallet w.id ws ≡ none
    → IsGiven ws k
    → IsGiven (w ∷ ws) k
unfolding find_wallet
IsGiven-new_wallet id ws w (j, index) fresh (v, f, least, most, bound) =
    elim (Bool-cases (w.id == j)) [
      | inl same ↦
          let q : w.id ≡ j = ground arith in absurd (cc (fresh, ap (λ i. find_wallet i ws) q, f))
      | inr other ↦ (v, rw other f, least, most, bound)
    ]

module _ (derive_address : Text → ℕ → Option Text) where
  Allocated-AreNumbered :
      (now : ℕ) (public_token : Option Text) (p : CreateParams) (db : Db) (o : Order) (after : Db)
      → Allocated derive_address now public_token p db o after
      → AreNumbered db
      → AreNumbered after
  Allocated-AreNumbered now public_token p db o after a (given, distinct) =
      let ws = db.master_wallets in
      let last = suc a.wallet.last_derived_index in
      let new : key o ≡ (p.master_wallet_id, last) = ap key a.is_order in
      let given_after =
        All-map _ _ (λ k h. IsGiven-advance p.master_wallet_id ws a.wallet k a.is_wallet h)
          (map key db.orders) given in
      let others =
        All-map (IsGiven ws) _ (λ k h. next_is_new p.master_wallet_id ws a.wallet k a.is_wallet h)
          (map key db.orders) given in
      let first : IsGiven (advance_wallet p.master_wallet_id last ws) (p.master_wallet_id, last) = (
        record a.wallet { last_derived_index = last },
        advance_wallet_self p.master_wallet_id last ws a.wallet a.is_wallet,
        omega arith,
        omega arith,
        a.in_range,
      ) in
      subst AreNumbered (sym a.rows) (
        subst (λ k. Numbered (advance_wallet p.master_wallet_id last ws) (k ∷ map key db.orders))
          (sym new) ((first, given_after), (others, distinct)))

  Step-AreNumbered :
      {db after : Db} → Step derive_address db after → AreNumbered db → AreNumbered after
  unfolding evaluate_confirming evaluate_final expire_if_due mark_stalled
  Step-AreNumbered {db} (evaluates_confirming works now event_id order_id) h =
      transition-AreNumbered works now event_id order_id _ _ _ _ db h
  Step-AreNumbered {db} (evaluates_final works now event_id order_id) h =
      transition-AreNumbered works now event_id order_id _ _ _ _ db h
  Step-AreNumbered {db} (expires works now event_id order_id) h =
      transition-AreNumbered works now event_id order_id _ _ _ _ db h
  Step-AreNumbered {db} (stalls works now event_id order_id) h =
      transition-AreNumbered works now event_id order_id _ _ _ _ db h
  Step-AreNumbered {db} (overrides works now event_id order_id to actor note) h =
      manual_transition-AreNumbered works now event_id order_id to actor note db h
  Step-AreNumbered {db} (creates works now public_token p) h =
      elim (create_order_lem derive_address now public_token p db works) [
        | inl (e, failed) ↦ rw failed h
        | inr (o, (after, done, a)) ↦
            rw done (Allocated-AreNumbered now public_token p db o after a h)
      ]
  Step-AreNumbered {db} (adds_wallet id xpub fresh) (given, distinct) = (
    All-map (IsGiven db.master_wallets) _
        (λ k h. IsGiven-new_wallet id db.master_wallets _ k fresh h) (map key db.orders) given,
    distinct,
  )
  Step-AreNumbered (scans rows) h = h
  Step-AreNumbered (configures url secret) h = h

  -- From tables with no order on, whatever operations on orders come in any order, and whichever
  -- statements of the database fail, no two orders have the same wallet and the same derivation
  -- index, and each index is at least 1, at most the last one of its wallet, and at most
  -- 2147483647.
  pub Reach-AreNumbered :
      (url secret : Option Text) {db : Db}
      → Reach derive_address (no_orders url secret) db
      → AreNumbered db
  Reach-AreNumbered url secret here = (tt, tt)
  Reach-AreNumbered url secret (next r st) = Step-AreNumbered st (Reach-AreNumbered url secret r)
