-- ===== src/Page/Combined/Invariant.antt =====
-- An invariant is kept by the combined flow if its parts keep it: the status texts, the requests that
-- are allowed, and the uses of the two keys.
use ucollection.Base.{
  ℕ, zero, suc, Text, List, [], ◌∷◌, Option, none, ◌≡◌, refl, inl, inr, Bool-cases,
}
use ucollection.Base.Result.{ok}
use ucollection.Crypto.{Bytes, Crypto}
use ucollection.Sign.{Transaction}
use ucollection.Page.{
  trx_waiting, trx_arrived, consolidating_first, first_sent, consolidating, PageData, Item, Flow,
  consolidation_flow, fee_topup_flow, Asset, usdt, trx, Call, prepare, broadcast, Request, Body,
  Reply, Exchange, Session, Note, transaction_info,
}
use ucollection.Page.Run.{
  Run, Maintains, Maintains-bind, Maintains-lift, maintains_rules, set_note, body_of, post,
}
use ucollection.Page.Gate.{authorise}
use ucollection.Page.Gate.Laws.{authorise-Passed}
use ucollection.Page.Gate.Log.{Any, IsExpected, IsGated}
use ucollection.Page.Combined.TopUps.{prepare_sign_broadcast-Maintains, top_up_all-Maintains}
use ucollection.Page.Combined.{
  is_pending, pending_among, fee_source_key, master_key, wipe_fee_source_key, seen, Seen, confirmed,
  reverted, not_yet, react, sleep, poll, max_tries, top_up_all, wait_all, collect, show_outcome,
  collect_first, collect_rest, combined_steps,
}

module _ (c : Crypto) (page : PageData) where
  abbrev pub Among : Item → Type 0
  Among item = Any (λ (i : Item). i ≡ item) page.items

  address-IsExpected : (item : Item) → Among item → IsExpected page consolidation_flow item.address
  address-IsExpected item = go page.items
    where
      go :
          (items : List Item)
          → Any (λ (i : Item). i ≡ item) items
          → Any (λ (i : Item). i.address ≡ item.address) items
      go [] m = m
      go (i ∷ items) (inl e) = inl cc
      go (i ∷ items) (inr m) = inr (go items m)

  pub pending_among-sub :
      (items : List Item) (item : Item)
      → Any (λ (i : Item). i ≡ item) (pending_among items)
      → Any (λ (i : Item). i ≡ item) items
  unfolding pending_among
  pending_among-sub [] item m = m
  pending_among-sub (i ∷ items) item m = elim (Bool-cases (is_pending i)) [
    | inl chosen ↦ of_chosen (rw chosen at m) (pending_among-sub items item)
    | inr passed ↦ inr (pending_among-sub items item (rw passed at m))
  ]
    where
      of_chosen :
          Any (λ (i : Item). i ≡ item) (i ∷ pending_among items)
          → (Any (λ (i : Item). i ≡ item) (pending_among items)
              → Any (λ (i : Item). i ≡ item) items)
          → Any (λ (i : Item). i ≡ item) (i ∷ items)
      of_chosen (inl e) sub = inl e
      of_chosen (inr m) sub = inr (sub m)

module _ {P : Session → Type 0} (c : Crypto) (server : List Exchange → Request → Reply)
    (page : PageData) (Allowed : Call → Type 0)
    (note : (id : ℕ) (n : Note) → Maintains P (set_note id n))
    (sends : (call : Call) → Allowed call → Maintains P (post server call))
    (fee_key : Maintains P fee_source_key) (master : (item : Item) → Maintains P (master_key item))
    (rest : (ms : ℕ) → Maintains P (sleep ms))
    (top_ups : (order : ℕ) (amount : Option ℕ)
      → Allowed (prepare fee_topup_flow page.fee_topup_batch_id order amount))
    (asks : (tx_id : Option Text) (kind : Asset) → Allowed (transaction_info tx_id kind))
    (broadcasts : (flow : Flow) (expected : Text) (key : Bytes) (item_id : Option ℕ)
        (t sent : Option Transaction)
      → IsExpected page flow expected
      → authorise c t key expected ≡ ok sent
      → Allowed (broadcast flow item_id sent)) where
  react-Maintains :
      (tx_id : Option Text) (kind : Asset) (again : Run (Unit {0})) (r : Seen)
      → Maintains (P) again
      → Maintains (P) (react c server page tx_id kind again r)
  react-Maintains tx_id kind again confirmed h = search (maintains_rules, note)
  react-Maintains tx_id kind again reverted h = search (maintains_rules, note)
  react-Maintains tx_id kind again not_yet h = h

  poll-Maintains :
      (tries : ℕ) (tx_id : Option Text) (kind : Asset)
      → Maintains (P) (poll c server page tries tx_id kind)
  unfolding poll
  poll-Maintains zero tx_id kind = search (maintains_rules, note)
  poll-Maintains (suc tries) tx_id kind =
      Maintains-bind _ _ (sends (transaction_info tx_id kind) (asks tx_id kind)) λ answer.
        Maintains-bind _ _ (Maintains-lift (body_of answer)) λ r.
          react-Maintains tx_id kind _ (seen r)
            (Maintains-bind _ _ (rest 3000) (λ _. poll-Maintains tries tx_id kind))

  pub wait_all-Maintains :
      (topups : List (ℕ × Option Text)) → Maintains (P) (wait_all c server page topups)
  unfolding wait_all
  wait_all-Maintains [] = search (maintains_rules, note)
  wait_all-Maintains ((id, tx_id) ∷ topups) = Maintains-bind _ _ (note id trx_waiting) λ _.
      Maintains-bind _ _ (poll-Maintains max_tries tx_id trx)
        λ _. Maintains-bind _ _ (note id trx_arrived) λ _. wait_all-Maintains topups

  -- The request that begins the collection from an item.
  abbrev pub Collects : Item → Type 0
  Collects item =
      Allowed (prepare consolidation_flow page.consolidation_batch_id item.order_id none)

  pub collect-Maintains :
      (item : Item) → Among c page item → Collects item → Maintains (P) (collect c server page item)
  unfolding collect
  collect-Maintains item m allowed = Maintains-bind _ _ (master item) λ key.
      prepare_sign_broadcast-Maintains c server page Allowed sends consolidation_flow _ _ _ key
        item.address allowed
        λ item_id t sent.
          broadcasts consolidation_flow item.address key item_id t sent
            (address-IsExpected c page item m)

  pub show_outcome-Maintains :
      (item : Item) (answer : Option Body) → Maintains (P) (show_outcome c server page item answer)
  unfolding show_outcome
  show_outcome-Maintains item answer = search (maintains_rules, note) depth 8

  pub collect_first-Maintains :
      (item : Item)
      → Among c page item
      → Collects item
      → Maintains (P) (collect_first c server page item)
  unfolding collect_first
  collect_first-Maintains item m allowed =
      Maintains-bind _ _ (note item.order_id consolidating_first) λ _.
        Maintains-bind _ _ (collect-Maintains item m allowed) λ sent.
          Maintains-bind _ _ (note item.order_id first_sent) λ _.
            Maintains-bind _ _ (poll-Maintains max_tries sent.1 usdt)
              λ _. show_outcome-Maintains item sent.0

  pub collect_rest-Maintains :
      (items : List Item)
      → ((item : Item) → Any (λ (i : Item). i ≡ item) items → Among c page item)
      → ((item : Item) → Collects item)
      → Maintains (P) (collect_rest c server page items)
  unfolding collect_rest
  collect_rest-Maintains [] sub allowed = search (maintains_rules, note)
  collect_rest-Maintains (item ∷ items) sub allowed =
      Maintains-bind _ _ (note item.order_id consolidating) λ _.
        Maintains-bind _ _ (collect-Maintains item (sub item (inl refl)) (allowed item)) λ sent.
          Maintains-bind _ _ (show_outcome-Maintains item sent.0)
            λ _. collect_rest-Maintains items (λ i m. sub i (inr m)) allowed

  pub topped_up :
      (items : List Item)
      → Maintains P (top_up_all c server page page.first_amount_per_order items [])
  topped_up items =
      top_up_all-Maintains c server page Allowed sends note fee_key top_ups
        (λ key item_id t sent.
          broadcasts fee_topup_flow page.fee_source_address key item_id t sent refl)
        page.first_amount_per_order items []

  steps-Maintains :
      Maintains P wipe_fee_source_key
      → (first : Item) (rest : List Item)
      → ((item : Item) → Any (λ (i : Item). i ≡ item) (first ∷ rest) → Among c page item)
      → ((item : Item) → Collects item)
      → Maintains (P) (combined_steps c server page first rest)
  unfolding combined_steps
  steps-Maintains wipe first rest sub allowed =
      Maintains-bind _ _ (topped_up (first ∷ rest)) λ topups. Maintains-bind _ _ wipe λ _.
        Maintains-bind _ _ (wait_all-Maintains topups) λ _.
          Maintains-bind _ _ (collect_first-Maintains first (sub first (inl refl)) (allowed first))
            λ _. collect_rest-Maintains rest (λ i m. sub i (inr m)) allowed

-- The whole flow keeps an invariant that every request keeps which has passed the gates.
pub combined_steps-Maintains :
    {P : Session → Type 0} (c : Crypto) (server : List Exchange → Request → Reply) (page : PageData)
    → ((id : ℕ) (n : Note) → Maintains P (set_note id n))
    → ((call : Call) → IsGated c page call → Maintains P (post server call))
    → Maintains P fee_source_key
    → ((item : Item) → Maintains P (master_key item))
    → Maintains P wipe_fee_source_key
    → ((ms : ℕ) → Maintains P (sleep ms))
    → (first : Item) (rest : List Item)
    → ((item : Item) → Any (λ (i : Item). i ≡ item) (first ∷ rest) → Among c page item)
    → Maintains P (combined_steps c server page first rest)
combined_steps-Maintains c server page note sends fee_key master wipe rested first rest sub =
    steps-Maintains c server page (IsGated c page) note sends fee_key master rested
      (λ order amount. tt) (λ tx_id kind. tt)
      (λ flow expected key item_id t sent x e. (expected, x, authorise-Passed c expected t key e))
      wipe first rest sub (λ item. tt)
