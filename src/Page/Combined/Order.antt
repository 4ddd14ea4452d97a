-- ===== src/Page/Combined/Order.antt =====
-- The order of the requests of a combined run: the first item goes ahead of the others.
use ucollection.Base.{
  ℕ, ◌≡◌, refl, sym, ap, ◌∙◌, ◌⊎◌, inl, inr, Text, List, [], ◌∷◌, ◌++◌, append_assoc, Option, none,
  All, All-append, All-map, is_empty, trim, Bool-cases,
}
use ucollection.Base.Result.{Result, ok, err}
use ucollection.Crypto.{Bytes, Crypto}
use ucollection.Page.{
  PageData, Item, Flow, Body, consolidation_flow, fee_topup_flow, Asset, usdt, Call, prepare,
  broadcast, transaction_info, Request, Reply, Exchange, Session, Note, consolidating_first,
  first_sent,
}
use ucollection.Page.Run.{Run, header, ◌>>=◌, Maintains, set_note, post}
use ucollection.Sign.{Transaction}
use ucollection.Page.Gate.{authorise}
use ucollection.Page.Gate.Log.{Any, IsExpected}
use ucollection.Page.Combined.Wait.{SeenOnChain, Waited, poll-Waited}
use ucollection.Page.Combined.Invariant
use ucollection.Page.Combined.Invariant.{
  Among, pending_among-sub, collect-Maintains, collect_rest-Maintains, wait_all-Maintains,
  show_outcome-Maintains,
}
use ucollection.Page.Combined.Phases.{Post, Leads, Leads-bind, Leads-of_Maintains}
use ucollection.Page.Combined.{
  fee_source_key, master_key, wipe_fee_source_key, sleep, poll, max_tries, collect, show_outcome,
  collect_first, collect_rest, top_up_all, wait_all, combined_steps, combined_pending_items,
  finished, lacks_keys, started, run_combined_flow,
}

module _ (page : PageData) (first : Item) where
  -- Any request but one that prepares a collection from another item than the first.
  abbrev pub IsFree : Call → Type 0
  IsFree call =
      (order : ℕ) (amount : Option ℕ)
      → call ≡ prepare consolidation_flow page.consolidation_batch_id order amount
      → order ≡ first.order_id

  abbrev pub SeenUsdt : Exchange → Type 0
  SeenUsdt e = (tx_id : Option Text) × SeenOnChain tx_id usdt e

  -- The exchanges, the latest in front: one that is not free has a sight of USDT on chain behind it.
  abbrev pub InOrder : List Exchange → Type 0
  InOrder [] = Unit
  InOrder (e ∷ older) = (IsFree e.0.call ⊎ Any SeenUsdt older) × InOrder older

  free-InOrder : (es : List Exchange) → All (λ (e : Exchange). IsFree e.0.call) es → InOrder es
  free-InOrder [] _ = tt
  free-InOrder (e ∷ es) (f, h) = (inl f, free-InOrder es h)

  module _ (base : List Exchange) where
    abbrev Since : (List Exchange → Type 0) → Session → Type 0
    Since P s = (new : List Exchange) × (s.log ≡ new ++ base) × P new

    -- Until the first collection is confirmed, after that, and in any case.
    abbrev Before : Session → Type 0
    Before = Since (All (λ (e : Exchange). IsFree e.0.call))

    abbrev After : Session → Type 0
    After = Since (λ es. InOrder es × Any SeenUsdt es)

    abbrev pub Ordered : Session → Type 0
    Ordered = Since InOrder

    Before-Ordered : (s : Session) → Before s → Ordered s
    Before-Ordered s (new, e, h) = (new, e, free-InOrder new h)

    After-Ordered : (s : Session) → After s → Ordered s
    After-Ordered s (new, e, (h, _)) = (new, e, h)

    module _ (c : Crypto) (server : List Exchange → Request → Reply) where
      abbrev exchange : Call → Session → Exchange
      exchange call s =
          let request : Request = record { call = call; totp_code = header s.pending_totp_code } in
          (request, server s.log request)

      post-Before : (call : Call) → IsFree call → Maintains Before (post server call)
      unfolding post ◌>>=◌
      post-Before call free = record {
        at = λ s (new, e, h). (exchange call s ∷ new, ap (λ l. exchange call s ∷ l) e, (free, h));
      }

      post-After : (call : Call) → Maintains After (post server call)
      unfolding post ◌>>=◌
      post-After call = record {
        at = λ s (new, e, (h, seen)).
            (exchange call s ∷ new, ap (λ l. exchange call s ∷ l) e, ((inr seen, h), inr seen));
      }

      asks-IsFree : (tx_id : Option Text) (kind : Asset) → IsFree (transaction_info tx_id kind)
      asks-IsFree tx_id kind order amount e = absurd (cc e)

      note-Before : (id : ℕ) (n : Note) → Maintains Before (set_note id n)
      unfolding set_note
      note-Before id n = record { at = λ s h. h }

      note-After : (id : ℕ) (n : Note) → Maintains After (set_note id n)
      unfolding set_note
      note-After id n = record { at = λ s h. h }

      -- The wait for the first collection is where the order turns.
      Waited-Post :
          (tx_id : Option Text) (s : Session) (p : Result (Unit {0}) × Session)
          → Waited c server page tx_id usdt max_tries s p
          → Before s
          → Post After Ordered p
      Waited-Post tx_id s (ok u, t) (rounds, l, n, slept, asks, last) (new, e, h) =
          let (seen, older, r, on_chain) = last refl in
          let free =
            All-map (λ (x : Exchange). x.0.call ≡ transaction_info tx_id usdt) _
              (λ x q. rw q (asks-IsFree tx_id usdt)) rounds asks in
          (
            rounds ++ new,
            l ∙ ap (λ b. rounds ++ b) e ∙ sym (append_assoc rounds new base),
            (free-InOrder _ (All-append _ rounds new free h), rw r (inl (tx_id, on_chain))),
          )
      Waited-Post tx_id s (err f, t) (rounds, l, n, slept, asks, last) (new, e, h) =
          let free =
            All-map (λ (x : Exchange). x.0.call ≡ transaction_info tx_id usdt) _
              (λ x q. rw q (asks-IsFree tx_id usdt)) rounds asks in
          (
            rounds ++ new,
            l ∙ ap (λ b. rounds ++ b) e ∙ sym (append_assoc rounds new base),
            free-InOrder _ (All-append _ rounds new free h),
          )

      poll-Leads :
          (tx_id : Option Text)
          → Leads Before After Ordered (poll c server page max_tries tx_id usdt)
      poll-Leads tx_id = record {
        at = λ s h. Waited-Post tx_id s _ (poll-Waited c server page tx_id usdt max_tries s) h;
      }

      fee-Before : Maintains Before fee_source_key
      unfolding fee_source_key
      fee-Before = record { at = λ s h. h }

      fee-After : Maintains After fee_source_key
      unfolding fee_source_key
      fee-After = record { at = λ s h. h }

      master-Before : (item : Item) → Maintains Before (master_key item)
      unfolding master_key
      master-Before item = record { at = λ s h. h }

      master-After : (item : Item) → Maintains After (master_key item)
      unfolding master_key
      master-After item = record { at = λ s h. h }

      sleep-Before : (ms : ℕ) → Maintains Before (sleep ms)
      unfolding sleep
      sleep-Before ms = record { at = λ s h. h }

      sleep-After : (ms : ℕ) → Maintains After (sleep ms)
      unfolding sleep
      sleep-After ms = record { at = λ s h. h }

      wipe-Before : Maintains Before wipe_fee_source_key
      unfolding wipe_fee_source_key
      wipe-Before = record { at = λ s h. h }

      before : {A : Type 0} (m : Run A) → Maintains Before m → Leads Before Before Ordered m
      before m k = Leads-of_Maintains m Before-Ordered k

      afterwards : {A : Type 0} (m : Run A) → Maintains After m → Leads After After Ordered m
      afterwards m k = Leads-of_Maintains m After-Ordered k

      top_ups-IsFree :
          (order : ℕ) (amount : Option ℕ)
          → IsFree (prepare fee_topup_flow page.fee_topup_batch_id order amount)
      top_ups-IsFree order amount o a e = absurd (cc e)

      broadcasts-IsFree :
          (flow : Flow) (expected : Text) (key : Bytes) (item_id : Option ℕ)
          (t sent : Option Transaction)
          → IsExpected page flow expected
          → authorise c t key expected ≡ ok sent
          → IsFree (broadcast flow item_id sent)
      broadcasts-IsFree flow expected key item_id t sent x e order amount p = absurd (cc p)

      first-IsFree :
          IsFree (prepare consolidation_flow page.consolidation_batch_id first.order_id none)
      first-IsFree order amount e = cc e

      topped_up :
          (items : List Item)
          → Maintains Before (top_up_all c server page page.first_amount_per_order items [])
      topped_up items =
          Invariant.topped_up c server page IsFree note-Before post-Before fee-Before master-Before
            sleep-Before top_ups-IsFree asks-IsFree broadcasts-IsFree items

      waited : (topups : List (ℕ × Option Text)) → Maintains Before (wait_all c server page topups)
      waited topups =
          wait_all-Maintains c server page IsFree note-Before post-Before fee-Before master-Before
            sleep-Before top_ups-IsFree asks-IsFree broadcasts-IsFree topups

      collected : Among c page first → Maintains Before (collect c server page first)
      collected m =
          collect-Maintains c server page IsFree note-Before post-Before fee-Before master-Before
            sleep-Before top_ups-IsFree asks-IsFree broadcasts-IsFree first m first-IsFree

      outcome_shown :
          (answer : Option Body) → Maintains After (show_outcome c server page first answer)
      outcome_shown answer =
          show_outcome-Maintains c server page (λ call. Unit {0}) note-After
            (λ call _. post-After call) fee-After master-After sleep-After (λ order amount. tt)
            (λ tx_id kind. tt) (λ flow expected key item_id t sent x e. tt) first answer

      collect_first-Leads :
          Among c page first → Leads Before After Ordered (collect_first c server page first)
      unfolding collect_first
      collect_first-Leads m =
          Leads-bind _ _ (before _ (note-Before first.order_id consolidating_first)) λ _.
            Leads-bind _ _ (before _ (collected m)) λ sent.
              Leads-bind _ _ (before _ (note-Before first.order_id first_sent))
                λ _. Leads-bind _ _ (poll-Leads sent.1) λ _. afterwards _ (outcome_shown sent.0)

      rest_collected :
          (items : List Item)
          → ((item : Item) → Any (λ (i : Item). i ≡ item) items → Among c page item)
          → Maintains After (collect_rest c server page items)
      rest_collected items sub =
          collect_rest-Maintains c server page (λ call. Unit {0}) note-After
            (λ call _. post-After call) fee-After master-After sleep-After (λ order amount. tt)
            (λ tx_id kind. tt) (λ flow expected key item_id t sent x e. tt) items sub (λ item. tt)

      combined_steps-Leads :
          (rest : List Item)
          → ((item : Item) → Any (λ (i : Item). i ≡ item) (first ∷ rest) → Among c page item)
          → Leads Before After Ordered (combined_steps c server page first rest)
      unfolding combined_steps
      combined_steps-Leads rest sub = Leads-bind _ _ (before _ (topped_up (first ∷ rest))) λ topups.
          Leads-bind _ _ (before _ wipe-Before) λ _. Leads-bind _ _ (before _ (waited topups)) λ _.
            Leads-bind _ _ (collect_first-Leads (sub first (inl refl)))
              λ _. afterwards _ (rest_collected rest (λ i m. sub i (inr m)))

      finished-Ordered :
          (p : Result (Unit {0}) × Session)
          → Post After Ordered p
          → Ordered (finished c server page p)
      finished-Ordered (ok u, s) h = After-Ordered s h
      finished-Ordered (err e, s) h = h

-- Among the requests of a combined run, whatever the server answers and the code field holds, each
-- that prepares a collection from another order than that of the first pending item comes after an
-- answer, in this run, that a USDT transaction is on chain and has succeeded. What was sent before
-- the run is unchanged.
pub run_combined_flow-Ordered :
    (c : Crypto) (server : List Exchange → Request → Reply) (page : PageData) (totp : Text)
    (s : Session) (first : Item) (rest : List Item)
    → combined_pending_items page ≡ first ∷ rest
    → Ordered page first s.log (run_combined_flow c server page totp s)
unfolding run_combined_flow
run_combined_flow-Ordered c server page totp s first rest e =
    elim (Bool-cases (is_empty (trim totp))) [
      | inl missing ↦ rw missing ([], refl, tt)
      | inr given ↦ elim (Bool-cases (lacks_keys c server page s)) [
        | inl lacking ↦ rw (given, lacking) ([], refl, tt)
        | inr ready ↦
            let begins = started c server page totp s in
            let sub = λ (i : Item) (m : Any (λ (j : Item). j ≡ i) (first ∷ rest)).
              pending_among-sub c page page.items i (rw e m) in
            rw (given, ready, e)
              (finished-Ordered page first s.log c server _ (
                (combined_steps-Leads page first s.log c server rest sub).at begins ([], refl, tt)))
      ]
    ]
