-- ===== src/Page.antt =====
-- web/js-src/page.js, the signing page: what its closure holds and what it shows. The children model
-- its functions: the requests, the two gates, the key derivation, and the two signing flows.
pub mod Run
pub mod Gate
pub mod Derive
pub mod Single
pub mod Combined
pub mod StorageKey
pub mod Form
pub mod Elements
pub mod Opening
pub mod Life
pub mod Render
pub mod Example
mod Tests
use ucollection.Base.{
  ℕ, Text, List, [], ◌∷◌, Bool, true, false, Option, none, some, ◌==◌, nat_eq, if◌then◌else◌, codes,
  ◌++◌, ◌≡◌, text_eq,
}
use ucollection.Base.Decimal.{to_string}
use ucollection.Base.Result.{Failure}
use ucollection.Crypto.{Bytes}
use ucollection.Sign.{Transaction}

-- `page.type`
pub data Mode : Type 0 where
  consolidation fee_topup combined : Mode

-- An entry of `page.items`. `derivation_index` is `none` if it is no natural number, and
-- `onchain_error` says whether the text of that name is not empty.
pub record Item : Type 0 where
  pub order_id : ℕ
  pub address : Text
  pub derivation_index : Option ℕ
  pub already_consolidated : Bool
  pub usdt_balance : ℕ
  pub trx_balance : ℕ
  pub onchain_error : Bool

-- `#page-data`; amounts are in sun.
pub record PageData : Type 0 where
  pub type : Mode
  pub batch_id : ℕ
  pub fee_topup_batch_id : ℕ
  pub consolidation_batch_id : ℕ
  pub master_wallet_id : ℕ
  pub xpub : Text
  pub destination_address : Text
  pub fee_source_address : Text
  pub fee_source : Text
  pub first_amount_per_order : ℕ
  pub repeat_amount_per_order : ℕ
  pub default_amount_per_order : ℕ
  pub items : List Item

-- The two pairs of endpoints under `/tron-proxy/`.
pub data Flow : Type 0 where
  consolidation_flow fee_topup_flow : Flow

-- The `kind` of a transaction-info request.
pub data Asset : Type 0 where
  trx usdt : Asset

-- A request by its url and body. What the server left out of an earlier body is `none`.
pub data Call : Type 0 where
  prepare : Flow → ℕ → ℕ → Option ℕ → Call
  broadcast : Flow → Option ℕ → Option Transaction → Call
  transaction_info : Option Text → Asset → Call

pub record Request : Type 0 where
  pub call : Call
  -- the header X-Totp-Code
  pub totp_code : Option Text

-- The fields of a JSON answer that the page reads; a missing one is `none`, `false` or empty.
pub record Body : Type 0 where
  pub message : Option Text
  pub transaction : Option Transaction
  pub item_id : Option ℕ
  pub tx_id : Option Text
  pub found : Bool
  pub success : Bool
  pub status : Text
  pub error_detail : Text

-- What `fetch` gives: it rejects, the response was redirected, or it has `ok`, a status and a body,
-- which is `none` where it is `null` or no JSON.
pub data Reply : Type 0 where
  rejected redirected : Reply
  response : Bool → ℕ → Option Body → Reply

abbrev pub Exchange : Type 0
Exchange = Request × Reply

-- `statusLabel`
pub data Label : Type 0 where
  success unconfirmed : Label
  failure : Text → Label

pub status_label : Text → Text → Label
status_label status error_detail =
    if status == codes "success"
    then success
    else if status == codes "broadcasting"
    then unconfirmed
    else failure error_detail

-- The texts of an item's status cell, and of `#sign-status`.
pub data Note : Type 0 where
  to_check check_passed preparing signing broadcasting : Note
  trx_enough trx_topping_up trx_sent trx_waiting trx_arrived : Note
  consolidating_first first_sent consolidating : Note
  skipped_unknown skipped_consolidated skipped_empty to_do : Note
  outcome : Label → Note
  failed : Failure → Note

pub data Line : Type 0 where
  blank checking passed passed_unsaved load_failed totp_missing batch_done : Line
  keys_missing keys_passed nothing_to_do all_done no_items nothing_pending : Line
  check_failed stopped : Failure → Line

-- The closure of `initSignPage` and what its elements show; `log` holds the exchanges with the
-- server, the latest in front. A `Map` is the list of its entries, the latest in front.
pub record Session : Type 0 where
  pub pending_totp_code : Option Text
  pub derived_keys : List (ℕ × Bytes)
  pub master_keys : List (ℕ × Bytes)
  pub fee_source_key : Option Bytes
  pub notes : ℕ → Note
  pub sign_status : Line
  pub sign_disabled : Bool
  pub derive_disabled : Bool
  pub log : List Exchange
  -- the milliseconds that were slept
  pub slept : ℕ

abbrev pub get_key : ℕ → List (ℕ × Bytes) → Option Bytes
get_key id [] = none
get_key id ((j, k) ∷ m) = if j == id then some k else get_key id m

-- `page.type === 'consolidation'`, and the other tests of the mode
abbrev pub is_consolidation : Mode → Bool
is_consolidation consolidation = true
is_consolidation fee_topup = false
is_consolidation combined = false

-- `storageKeyFor`
unfoldable pub storage_key_for : PageData → Text
storage_key_for page =
    if is_consolidation page.type
    then codes "consolidation:" ++ to_string page.master_wallet_id
    else codes "fee-topup:" ++ page.fee_source_address
