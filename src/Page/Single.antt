-- ===== src/Page/Single.antt =====
-- web/js-src/page.js: `processOneItem` and `handleSignAndBroadcast`, for consolidation and fee top-up.
pub mod Gated
pub mod Codes
pub mod Outcomes
use ucollection.Base.{
  ℕ, Text, List, [], ◌∷◌, Bool, true, false, Option, none, some, ◌==◌, nat_eq, if◌then◌else◌,
  is_empty, trim,
}
use ucollection.Base.Result.{Failure, Result, ok, err, not_verified, type_error}
use ucollection.Crypto.{Bytes, Crypto}
use ucollection.Trx.{trx_to_sun}
use ucollection.Page.{
  Mode, PageData, Item, Flow, consolidation_flow, fee_topup_flow, Call, prepare, broadcast, Request,
  Body, Reply, Exchange, Session, Note, Line, status_label, get_key, is_consolidation, failed,
  preparing, signing, broadcasting, outcome, totp_missing, batch_done,
}
use ucollection.Page.Run.{Run, pure, lift, ◌>>=◌, ◌>>◌, set_note, body_of, post}
use ucollection.Page.Gate.{authorise}

abbrev pub flow_of : Mode → Flow
flow_of mode = if is_consolidation mode then consolidation_flow else fee_topup_flow

abbrev pub expected_address : PageData → Item → Text
expected_address page item =
    if is_consolidation page.type then item.address else page.fee_source_address

-- `derivedKeys.get(item.order_id)`, and the throw where there is none.
abbrev pub found_key : Session → Option Bytes → Result Bytes × Session
found_key s none = (err not_verified, s)
found_key s (some key) = (ok key, s)

unfoldable pub key_of : Item → Run Bytes
key_of item s = found_key s (get_key item.order_id s.derived_keys)

-- The amount of the prepare body: none for a consolidation; `amount` is the text of the field.
unfoldable pub prepare_amount : PageData → Text → Result (Option ℕ)
prepare_amount page amount =
    if is_consolidation page.type
    then ok none
    else elim (trx_to_sun amount) [ ok sun ↦ ok (some sun) | err e ↦ err e ]

module _ (c : Crypto) (server : List Exchange → Request → Reply) (page : PageData) where
  -- From the second status text on, with the prepared transaction at hand.
  pub sign_and_broadcast : Item → Bytes → Body → Run (Unit {0})
  sign_and_broadcast item key prepared = do
    set_note item.order_id signing
    signed ← lift (authorise c prepared.transaction key (expected_address page item))
    set_note item.order_id broadcasting
    answer ← post server (broadcast (flow_of page.type) prepared.item_id signed)
    result ← lift (body_of answer)
    set_note item.order_id (outcome (status_label result.status result.error_detail))

  pub process_one_item : Item → Text → Run (Unit {0})
  process_one_item item amount = do
    key ← key_of item
    set_note item.order_id preparing
    sun ← lift (prepare_amount page amount)
    answer ← post server (prepare (flow_of page.type) page.batch_id item.order_id sun)
    prepared ← lift (body_of answer)
    sign_and_broadcast item key prepared

  -- The `catch` of one round of the loop: the item shows the failure, and the loop goes on.
  abbrev caught : Item → Result (Unit {0}) × Session → Session
  caught item (ok _, s) = s
  caught item (err e, s) = (set_note item.order_id (failed e) s).1

  -- The loop; `amount` is what the amount field holds when an item's turn comes.
  pub process_items : (ℕ → Text) → List Item → Session → Session
  process_items amount [] s = s
  process_items amount (item ∷ items) s =
      process_items amount items (caught item (process_one_item item (amount item.order_id) s))

  -- The session when the loop begins.
  abbrev pub started : Text → Session → Session
  started totp s = record s {
    pending_totp_code = some (trim totp);
    sign_disabled = true;
    derive_disabled = true;
  }

  -- `totp` is the text of the code field.
  unfoldable pub handle_sign_and_broadcast : Text → (ℕ → Text) → Session → Session
  handle_sign_and_broadcast totp amount s =
      if is_empty (trim totp)
      then record s { sign_status = totp_missing }
      else let done = process_items amount page.items (started totp s) in
        record done { sign_status = batch_done; derive_disabled = false }
