-- ===== src/Orders/Reaches.antt =====
-- The tables of the orders stay consistent, whatever happens and whatever the database answers.
use ucollection.Base.{
  ℕ, suc, ◌<◌, ◌≡◌, refl, sym, ap, ◌∙◌, inl, inr, Text, List, [], ◌∷◌, Bool, Option, All, All-map,
  is_empty, Bool-cases, arith, nat_eq,
}
use ucollection.Orders.{Status, pending, Order, Transition, Db}
use ucollection.Orders.Changes.{
  Statement, Decide, manual_sources, decide_manual, transition, evaluate_confirming, evaluate_final,
  expire_if_due, mark_stalled, manual_transition,
}
use ucollection.Orders.Moves.{transition_lem}
use ucollection.Orders.Create.{CreateParams}
use ucollection.Orders.Allocation.{Allocated, create_order_lem}
use ucollection.Orders.Steps.{
  Step, evaluates_confirming, evaluates_final, expires, stalls, overrides, creates, adds_wallet,
  scans, configures, Reach, here, next, no_orders,
}
use ucollection.Orders.Consistent.{latest, endings, Consistent, Leads, Moved-Consistent}
use ucollection.Orders.Sources.{
  Leads-confirming, Leads-final, Leads-expired, Leads-stalled, Leads-manual,
}

module _ (works : Statement → Bool) (now : ℕ) (event_id : Option Text) where
  transition-Consistent :
      (order_id : ℕ) (allowed_from : List Status) (decide : Decide) (changed_by note : Text)
      (db : Db)
      → Leads allowed_from decide
      → Consistent db
      → Consistent (transition works now event_id order_id allowed_from decide changed_by note db).1
  transition-Consistent order_id allowed_from decide changed_by note db leads c =
      elim (transition_lem now event_id order_id allowed_from decide changed_by note db works) [
        | inl (e, failed) ↦ rw failed c
        | inr (after, done, m) ↦ rw done (
            Moved-Consistent now event_id order_id allowed_from decide changed_by note db after
              leads c m)
      ]

  manual_transition-Consistent :
      (order_id : ℕ) (to : Status) (actor note : Text) (db : Db)
      → Consistent db
      → Consistent (manual_transition works now event_id order_id to actor note db).1
  unfolding manual_transition
  manual_transition-Consistent order_id to actor note db c =
      elim (Bool-cases (is_empty (manual_sources to))) [
        | inl never ↦ rw never c
        | inr some_source ↦ rw some_source (
            transition-Consistent order_id (manual_sources to) (decide_manual to) actor note db
              (Leads-manual to) c)
      ]

latest_below : (n : ℕ) (ts : List Transition) → All (λ t. t.order_id < n) ts → latest n ts ≡ pending
unfolding latest
latest_below n [] _ = refl
latest_below n (t ∷ ts) (h, hs) = ground (arith, latest_below n ts hs)

below_suc : (n : ℕ) (k : ℕ) → k < n → k < suc n
below_suc n k h = omega arith

module _ (derive_address : Text → ℕ → Option Text) where
  Allocated-Consistent :
      (now : ℕ) (public_token : Option Text) (p : CreateParams) (db : Db) (o : Order) (after : Db)
      → Allocated derive_address now public_token p db o after
      → Consistent db
      → Consistent after
  Allocated-Consistent now public_token p db o after a c =
      let id : o.id ≡ db.next_order_id = ap (λ (r : Order). r.id) a.is_order in
      let status : o.status ≡ pending = ap (λ (r : Order). r.status) a.is_order in
      rw (a.rows) (record {
        orders_below =
            (omega (arith, id), All-map _ _ (λ r h. below_suc _ _ h) db.orders c.orders_below);
        journal_below =
            All-map _ _ (λ t h. below_suc _ _ h) db.order_state_transitions c.journal_below;
        agrees = (
          status
              ∙ sym (
                  ap (λ k. latest k db.order_state_transitions) id
                  ∙ latest_below _ db.order_state_transitions c.journal_below),
          c.agrees,
        );
        timed = (λ q. absurd (cc (q, status)), c.timed);
        chain = c.chain;
        announced = c.announced;
      })

  Step-Consistent :
      {db after : Db} → Step derive_address db after → Consistent db → Consistent after
  unfolding evaluate_confirming evaluate_final expire_if_due mark_stalled
  Step-Consistent {db} (evaluates_confirming works now event_id order_id) c =
      transition-Consistent works now event_id order_id _ _ _ _ db (Leads-confirming works) c
  Step-Consistent {db} (evaluates_final works now event_id order_id) c =
      transition-Consistent works now event_id order_id _ _ _ _ db (Leads-final works) c
  Step-Consistent {db} (expires works now event_id order_id) c =
      transition-Consistent works now event_id order_id _ _ _ _ db (Leads-expired now) c
  Step-Consistent {db} (stalls works now event_id order_id) c =
      transition-Consistent works now event_id order_id _ _ _ _ db (Leads-stalled now) c
  Step-Consistent {db} (overrides works now event_id order_id to actor note) c =
      manual_transition-Consistent works now event_id order_id to actor note db c
  Step-Consistent {db} (creates works now public_token p) c =
      elim (create_order_lem derive_address now public_token p db works) [
        | inl (e, failed) ↦ rw failed c
        | inr (o, (after, done, a)) ↦
            rw done (Allocated-Consistent now public_token p db o after a c)
      ]
  Step-Consistent (adds_wallet id xpub fresh) c = record {
    orders_below = c.orders_below;
    journal_below = c.journal_below;
    agrees = c.agrees;
    timed = c.timed;
    chain = c.chain;
    announced = c.announced;
  }
  Step-Consistent (scans rows) c = record {
    orders_below = c.orders_below;
    journal_below = c.journal_below;
    agrees = c.agrees;
    timed = c.timed;
    chain = c.chain;
    announced = c.announced;
  }
  Step-Consistent (configures url secret) c = record {
    orders_below = c.orders_below;
    journal_below = c.journal_below;
    agrees = c.agrees;
    timed = c.timed;
    chain = c.chain;
    announced = c.announced;
  }

  pub Reach-Consistent :
      {db after : Db} → Consistent db → Reach derive_address db after → Consistent after
  Reach-Consistent c here = c
  Reach-Consistent c (next r st) = Step-Consistent st (Reach-Consistent c r)

  no_orders-Consistent : (url secret : Option Text) → Consistent (no_orders url secret)
  unfolding endings
  no_orders-Consistent url secret = record {
    orders_below = tt;
    journal_below = tt;
    agrees = tt;
    timed = tt;
    chain = tt;
    announced = refl;
  }

  -- From tables with no order on, whatever operations on orders come in any order, and whichever
  -- statements of the database fail, the tables agree: the state of each order is the one that its
  -- latest entry in the journal leads to, each entry leads on from the one before it by one of the
  -- ten changes of state that there are, the webhooks are exactly the entries into a terminal
  -- state, in their order, and an order that is confirming knows since when.
  pub Reach-no_orders-Consistent :
      (url secret : Option Text) {db : Db}
      → Reach derive_address (no_orders url secret) db
      → Consistent db
  Reach-no_orders-Consistent url secret r = Reach-Consistent (no_orders-Consistent url secret) r
