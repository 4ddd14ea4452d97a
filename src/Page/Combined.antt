-- ===== src/Page/Combined.antt =====
-- web/js-src/page.js, the combined mode: `runCombinedFlow` and what it calls. TRX is sent to the items
-- that lack it, then USDT is collected from the first item, and from the others once that is on chain.
pub mod TopUps
pub mod Invariant
pub mod Gated
pub mod Wait
pub mod Codes
pub mod Order
pub mod Phases
pub mod Wiped
use ucollection.Base.{
  ℕ, zero, suc, ◌+◌, ◌-◌, Text, codes, List, [], ◌∷◌, Bool, true, false, not, ◌&&◌, ◌||◌, Option,
  none, some, ltb, leb, ◌==◌, nat_eq, if◌then◌else◌, is_empty, trim,
}
use ucollection.Base.Result.{Failure, Result, ok, err, type_error, chain_failed, chain_timeout}
use ucollection.Crypto.{Bytes, Crypto}
use ucollection.Page.{
  PageData, Item, Flow, consolidation_flow, fee_topup_flow, Asset, trx, usdt, Call, prepare,
  broadcast, transaction_info, Request, Body, Reply, Exchange, Session, Note, Line, status_label,
  get_key, outcome, trx_enough, trx_topping_up, trx_sent, trx_waiting, trx_arrived,
  consolidating_first, first_sent, consolidating, totp_missing, keys_missing, nothing_to_do,
  all_done, stopped,
}
use ucollection.Page.Run.{Run, pure, lift, ◌>>=◌, ◌>>◌, set_note, body_of, post}
use ucollection.Page.Gate.{authorise}

-- `combinedPendingItems`
abbrev pub is_pending : Item → Bool
is_pending item = not item.already_consolidated && ltb 0 item.usdt_balance && not item.onchain_error

unfoldable pub pending_among : List Item → List Item
pending_among [] = []
pending_among (item ∷ items) =
    let rest = pending_among items in if is_pending item then item ∷ rest else rest

abbrev pub combined_pending_items : PageData → List Item
combined_pending_items page = pending_among page.items

-- A key that is `undefined` or `null` goes to the library as an empty array: it signs with neither.
abbrev or_empty : Option Bytes → Bytes
or_empty none = []
or_empty (some key) = key

unfoldable pub fee_source_key : Run Bytes
fee_source_key s = (ok (or_empty s.fee_source_key), s)

unfoldable pub master_key : Item → Run Bytes
master_key item s = (ok (or_empty (get_key item.order_id s.master_keys)), s)

unfoldable pub wipe_fee_source_key : Run (Unit {0})
wipe_fee_source_key s = (ok tt, record s { fee_source_key = none })

abbrev pub asset_text : Asset → Text
asset_text trx = codes "trx"
asset_text usdt = codes "usdt"

-- `topupTxByOrder.set(order_id, txId)`, in a map that keeps the order of its first insertions.
map_set : ℕ → Option Text → List (ℕ × Option Text) → List (ℕ × Option Text)
map_set id tx_id [] = (id, tx_id) ∷ []
map_set id tx_id ((j, old) ∷ m) = if j == id then (id, tx_id) ∷ m else (j, old) ∷ map_set id tx_id m

-- What one answer means to `waitOnChain`: done, failed, or ask again after three seconds.
pub data Seen : Type 0 where
  confirmed reverted not_yet : Seen

abbrev pub seen : Body → Seen
seen r = if r.found && r.success then confirmed else if r.found then reverted else not_yet

-- `sleep`
unfoldable pub sleep : ℕ → Run (Unit {0})
sleep ms s = (ok tt, record s { slept = s.slept + ms })

abbrev pub max_tries : ℕ
max_tries = 40

module _ (c : Crypto) (server : List Exchange → Request → Reply) (page : PageData) where
  pub prepare_sign_broadcast :
      Flow → ℕ → ℕ → Option ℕ → Bytes → Text → Run (Option Body × Option Text)
  prepare_sign_broadcast flow batch order amount key expected = do
    answer ← post server (prepare flow batch order amount)
    prepared ← lift (body_of answer)
    signed ← lift (authorise c prepared.transaction key expected)
    result ← post server (broadcast flow prepared.item_id signed)
    pure (result, prepared.tx_id)

  abbrev react : Option Text → Asset → Run (Unit {0}) → Seen → Run (Unit {0})
  react tx_id kind again confirmed = pure tt
  react tx_id kind again reverted = lift (err (chain_failed (asset_text kind) tx_id))
  react tx_id kind again not_yet = again

  -- The rounds of `waitOnChain` that are left.
  pub poll : ℕ → Option Text → Asset → Run (Unit {0})
  poll zero tx_id kind = lift (err (chain_timeout (asset_text kind) tx_id))
  poll (suc tries) tx_id kind = do
    answer ← post server (transaction_info tx_id kind)
    r ← lift (body_of answer)
    react tx_id kind (sleep 3000 >> poll tries tx_id kind) (seen r)

  abbrev pub wait_on_chain : Option Text → Asset → Run (Unit {0})
  wait_on_chain = poll max_tries

  -- Step 1 for one item: send what is missing up to the target, if anything is.
  pub send_missing : ℕ → Item → List (ℕ × Option Text) → Run (List (ℕ × Option Text))
  unfolding map_set
  send_missing target item topups = do
    set_note item.order_id trx_topping_up
    key ← fee_source_key
    sent ←
        prepare_sign_broadcast fee_topup_flow page.fee_topup_batch_id item.order_id
          (some (target - item.trx_balance)) key page.fee_source_address
    set_note item.order_id trx_sent
    pure (map_set item.order_id sent.1 topups)

  pub skip_topup : Item → List (ℕ × Option Text) → Run (List (ℕ × Option Text))
  skip_topup item topups = do set_note item.order_id trx_enough; pure topups

  pub top_up : ℕ → Item → List (ℕ × Option Text) → Run (List (ℕ × Option Text))
  top_up target item topups =
      if leb target item.trx_balance
      then skip_topup item topups
      else send_missing target item topups

  -- The first item has a target of its own.
  pub top_up_all : ℕ → List Item → List (ℕ × Option Text) → Run (List (ℕ × Option Text))
  top_up_all target [] topups = pure topups
  top_up_all target (item ∷ items) topups = do
    topups' ← top_up target item topups
    top_up_all page.repeat_amount_per_order items topups'

  -- Step 3
  pub wait_all : List (ℕ × Option Text) → Run (Unit {0})
  wait_all [] = pure tt
  wait_all ((id, tx_id) ∷ topups) = do
    set_note id trx_waiting
    wait_on_chain tx_id trx
    set_note id trx_arrived
    wait_all topups

  pub collect : Item → Run (Option Body × Option Text)
  collect item = do
    key ← master_key item
    prepare_sign_broadcast consolidation_flow page.consolidation_batch_id item.order_id none key
        item.address

  pub show_outcome : Item → Option Body → Run (Unit {0})
  show_outcome item answer = do
    result ← lift (body_of answer)
    set_note item.order_id (outcome (status_label result.status result.error_detail))

  -- Step 4
  pub collect_first : Item → Run (Unit {0})
  collect_first item = do
    set_note item.order_id consolidating_first
    sent ← collect item
    set_note item.order_id first_sent
    wait_on_chain sent.1 usdt
    show_outcome item sent.0

  -- Step 5
  pub collect_rest : List Item → Run (Unit {0})
  collect_rest [] = pure tt
  collect_rest (item ∷ items) = do
    set_note item.order_id consolidating
    sent ← collect item
    show_outcome item sent.0
    collect_rest items

  pub combined_steps : Item → List Item → Run (Unit {0})
  combined_steps first rest = do
    topups ← top_up_all page.first_amount_per_order (first ∷ rest) []
    wipe_fee_source_key
    wait_all topups
    collect_first first
    collect_rest rest

  -- `catch` and `finally`
  abbrev pub finished : Result (Unit {0}) × Session → Session
  finished (ok _, s) = record s {
    sign_status = all_done;
    fee_source_key = none;
    derive_disabled = false;
  }
  finished (err e, s) = record s {
    sign_status = stopped e;
    fee_source_key = none;
    derive_disabled = false;
  }

  abbrev pub run_pending : List Item → Session → Session
  run_pending [] s = record s { sign_status = nothing_to_do; derive_disabled = false }
  run_pending (first ∷ rest) s = finished (combined_steps first rest s)

  abbrev pub lacks_keys : Session → Bool
  lacks_keys s = is_empty s.master_keys || elim s.fee_source_key [ none ↦ true | some _ ↦ false ]

  abbrev pub started : Text → Session → Session
  started totp s = record s {
    pending_totp_code = some (trim totp);
    sign_disabled = true;
    derive_disabled = true;
  }

  unfoldable pub run_combined_flow : Text → Session → Session
  run_combined_flow totp s =
      if is_empty (trim totp)
      then record s { sign_status = totp_missing }
      else if lacks_keys s
      then record s { sign_status = keys_missing }
      else run_pending (combined_pending_items page) (started totp s)
