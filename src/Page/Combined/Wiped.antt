-- ===== src/Page/Combined/Wiped.antt =====
-- How long a combined run holds the key of the fee source: for the top-ups, and no longer.
use ucollection.Base.{
  ℕ, ◌≡◌, refl, ap, ◌⊎◌, inl, inr, Text, List, [], ◌∷◌, ◌++◌, Option, none, false, All, is_empty,
  trim, Bool-cases,
}
use ucollection.Base.Result.{Result, ok, err}
use ucollection.Crypto.{Crypto}
use ucollection.Sign.{Transaction}
use ucollection.Page.{
  PageData, Item, fee_topup_flow, Call, prepare, broadcast, Request, Reply, Exchange, Session, Note,
}
use ucollection.Page.Run.{header, ◌>>=◌, Run, Maintains, set_note, post}
use ucollection.Page.Gate.Log.{Any}
use ucollection.Page.Combined.TopUps.{top_up_all-Maintains}
use ucollection.Page.Combined.Invariant.{
  Among, pending_among-sub, wait_all-Maintains, collect_first-Maintains, collect_rest-Maintains,
}
use ucollection.Page.Combined.Phases.{Post, Leads, Leads-bind, Leads-of_Maintains}
use ucollection.Page.Combined.{
  fee_source_key, master_key, wipe_fee_source_key, sleep, collect_first, collect_rest, top_up_all,
  wait_all, combined_steps, combined_pending_items, finished, lacks_keys, started, run_pending,
  run_combined_flow,
}

-- A request of a top-up, which the fee source pays.
abbrev pub IsTopUp : PageData → Call → Type 0
IsTopUp page call =
    ((order : ℕ) × (amount : Option ℕ) × (call
        ≡ prepare fee_topup_flow page.fee_topup_batch_id order amount))
    ⊎ ((item_id : Option ℕ) × (sent : Option Transaction) × (call
          ≡ broadcast fee_topup_flow item_id sent))

abbrev pub Gone : Session → Type 0
Gone s = s.fee_source_key ≡ none

module _ (page : PageData) (base : List Exchange) where
  -- Only top-ups have been sent since `base`.
  abbrev pub OnlyTopUps : Session → Type 0
  OnlyTopUps s =
      (new : List Exchange) × (s.log ≡ new ++ base)
      × All (λ (e : Exchange). IsTopUp page e.0.call) new

  abbrev pub HeldForTopUps : Session → Type 0
  HeldForTopUps s = Gone s ⊎ OnlyTopUps s

  module _ (c : Crypto) (server : List Exchange → Request → Reply) where
    post-OnlyTopUps : (call : Call) → IsTopUp page call → Maintains OnlyTopUps (post server call)
    unfolding post ◌>>=◌
    post-OnlyTopUps call tops = record {
      at = λ s (new, e, h).
          let request : Request = record { call = call; totp_code = header s.pending_totp_code } in
          let exchange : Exchange = (request, server s.log request) in
          (exchange ∷ new, ap (λ l. exchange ∷ l) e, (tops, h));
    }

    note-OnlyTopUps : (id : ℕ) (n : Note) → Maintains OnlyTopUps (set_note id n)
    unfolding set_note
    note-OnlyTopUps id n = record { at = λ s h. h }

    fee-OnlyTopUps : Maintains OnlyTopUps fee_source_key
    unfolding fee_source_key
    fee-OnlyTopUps = record { at = λ s h. h }

    topped_up :
        (items : List Item)
        → Maintains OnlyTopUps (top_up_all c server page page.first_amount_per_order items [])
    topped_up items =
        top_up_all-Maintains c server page (IsTopUp page) post-OnlyTopUps note-OnlyTopUps
          fee-OnlyTopUps (λ order amount. inl (order, amount, refl))
          (λ key item_id t sent e. inr (item_id, sent, refl)) page.first_amount_per_order items []

    wipe-Leads : Leads OnlyTopUps Gone HeldForTopUps wipe_fee_source_key
    unfolding wipe_fee_source_key
    wipe-Leads = record { at = λ s h. refl }

    -- Nothing that comes after brings the key back.
    post-Gone : (call : Call) → Unit {0} → Maintains Gone (post server call)
    unfolding post ◌>>=◌
    post-Gone call _ = record { at = λ s h. h }

    note-Gone : (id : ℕ) (n : Note) → Maintains Gone (set_note id n)
    unfolding set_note
    note-Gone id n = record { at = λ s h. h }

    fee-Gone : Maintains Gone fee_source_key
    unfolding fee_source_key
    fee-Gone = record { at = λ s h. h }

    master-Gone : (item : Item) → Maintains Gone (master_key item)
    unfolding master_key
    master-Gone item = record { at = λ s h. h }

    sleep-Gone : (ms : ℕ) → Maintains Gone (sleep ms)
    unfolding sleep
    sleep-Gone ms = record { at = λ s h. h }

    waited : (topups : List (ℕ × Option Text)) → Maintains Gone (wait_all c server page topups)
    waited topups =
        wait_all-Maintains c server page (λ call. Unit {0}) note-Gone post-Gone fee-Gone master-Gone
          sleep-Gone (λ order amount. tt) (λ tx_id kind. tt)
          (λ flow expected key item_id t sent x e. tt) topups

    collected :
        (first : Item) → Among c page first → Maintains Gone (collect_first c server page first)
    collected first m =
        collect_first-Maintains c server page (λ call. Unit {0}) note-Gone post-Gone fee-Gone
          master-Gone sleep-Gone (λ order amount. tt) (λ tx_id kind. tt)
          (λ flow expected key item_id t sent x e. tt) first m tt

    rest_collected :
        (items : List Item)
        → ((item : Item) → Any (λ (i : Item). i ≡ item) items → Among c page item)
        → Maintains Gone (collect_rest c server page items)
    rest_collected items sub =
        collect_rest-Maintains c server page (λ call. Unit {0}) note-Gone post-Gone fee-Gone
          master-Gone sleep-Gone (λ order amount. tt) (λ tx_id kind. tt)
          (λ flow expected key item_id t sent x e. tt) items sub (λ item. tt)

    afterwards : {A : Type 0} (m : Run A) → Maintains Gone m → Leads Gone Gone HeldForTopUps m
    afterwards m k = Leads-of_Maintains m (λ s h. inl h) k

    combined_steps-Leads :
        (first : Item) (rest : List Item)
        → ((item : Item) → Any (λ (i : Item). i ≡ item) (first ∷ rest) → Among c page item)
        → Leads OnlyTopUps Gone HeldForTopUps (combined_steps c server page first rest)
    unfolding combined_steps
    combined_steps-Leads first rest sub =
        Leads-bind _ _ (Leads-of_Maintains _ (λ s h. inr h) (topped_up (first ∷ rest))) λ topups.
          Leads-bind _ _ wipe-Leads λ _. Leads-bind _ _ (afterwards _ (waited topups)) λ _.
            Leads-bind _ _ (afterwards _ (collected first (sub first (inl refl))))
              λ _. afterwards _ (rest_collected rest (λ i m. sub i (inr m)))

module _ (c : Crypto) (server : List Exchange → Request → Reply) (page : PageData) (totp : Text)
    (s : Session) where
  -- The click has sent nothing and has left the key alone, or the key is gone and the derive button
  -- enabled.
  abbrev pub Cleared : Session → Type 0
  Cleared t =
      ((t.log ≡ s.log) × (t.fee_source_key ≡ s.fee_source_key))
      ⊎ (Gone t × (t.derive_disabled ≡ false))

  run_pending-Cleared :
      (items : List Item) → Cleared (run_pending c server page items (started c server page totp s))
  run_pending-Cleared [] = inl (refl, refl)
  run_pending-Cleared (first ∷ rest) = finished-Cleared (combined_steps c server page first rest _)
    where
      finished-Cleared : (p : Result (Unit {0}) × Session) → Cleared (finished c server page p)
      finished-Cleared (ok _, t) = inr (refl, refl)
      finished-Cleared (err e, t) = inr (refl, refl)

  run_combined_flow-Cleared : Cleared (run_combined_flow c server page totp s)
  unfolding run_combined_flow
  run_combined_flow-Cleared = elim (Bool-cases (is_empty (trim totp))) [
    | inl missing ↦ inl (rw missing (refl, refl))
    | inr given ↦ elim (Bool-cases (lacks_keys c server page s)) [
      | inl lacking ↦ inl (rw (given, lacking) (refl, refl))
      | inr ready ↦ rw (given, ready) (run_pending-Cleared (combined_pending_items page))
    ]
  ]

  -- If some item is pending, then the key of the fee source is gone when the steps of a combined
  -- run have gone through, and where they stop with an error, whatever the server answers, it is
  -- gone or nothing but requests of top-ups has been sent in the run; and a click on the start
  -- button either sends nothing and leaves that key as it was, or ends without it and with the
  -- derive button enabled.
  pub run_combined_flow-HeldForTopUps :
      (first : Item) (rest : List Item)
      → combined_pending_items page ≡ first ∷ rest
      → Post Gone
          (HeldForTopUps page s.log)
          (combined_steps c server page first rest (started c server page totp s))
        × Cleared (run_combined_flow c server page totp s)
  run_combined_flow-HeldForTopUps first rest e =
      let sub = λ (i : Item) (m : Any (λ (j : Item). j ≡ i) (first ∷ rest)).
        pending_among-sub c page page.items i (rw e m) in
      (
        (combined_steps-Leads page s.log c server first rest sub).at (started c server page totp s)
            ([], refl, tt),
        run_combined_flow-Cleared,
      )
