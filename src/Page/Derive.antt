-- ===== src/Page/Derive.antt =====
-- web/js-src/page.js, the derive button: `handleDerive` with `maybeRememberInput`, and
-- `handleDeriveCombined`. The random bytes, the time and the answer of IndexedDB are arguments.
pub mod Keys
pub mod Vouched
pub mod Laws
pub mod Combined
pub mod Quiet
use ucollection.Base.{
  ℕ, Text, codes, List, [], ◌∷◌, ◌++◌, Bool, true, false, not, Option, none, some, if◌then◌else◌,
  is_empty, slice_last,
}
use ucollection.Base.Decimal.{to_string}
use ucollection.Base.Result.{Failure, Result, ok, err}
use ucollection.Crypto.{Bytes, Crypto}
use ucollection.Derive.{HdWallet}
use ucollection.Storage.{Subtle, Db, Access, new_salt, new_iv, store_mnemonic}
use ucollection.Page.{
  PageData, Item, Session, Line, is_consolidation, storage_key_for, check_passed, checking, passed,
  passed_unsaved, keys_passed, check_failed,
}
use ucollection.Page.Run.{Run, pure, lift, ◌>>=◌, ◌>>◌, set_note}
use ucollection.Page.Derive.Keys.{
  Fields, CombinedFields, mode_of, current_input_mode, raw_value, item_key, fee_key,
}

-- `derivedKeys.set(...)`, and the status text that follows it.
abbrev keep_key : Item → Bytes → Run (Unit {0})
keep_key item key s = (ok tt, record s { derived_keys = (item.order_id, key) ∷ s.derived_keys })

pub accept : Item → Bytes → Run (Unit {0})
accept item key = do keep_key item key; set_note item.order_id check_passed

pub accept_master : Item → Bytes → Run (Unit {0})
accept_master item key s = (ok tt, record s { master_keys = (item.order_id, key) ∷ s.master_keys })

pub accept_fee_source : Bytes → Run (Unit {0})
accept_fee_source key s = (ok tt, record s { fee_source_key = some key })

-- The label of what is stored.
abbrev pub storage_label : PageData → Text
storage_label page =
    if is_consolidation page.type
    then codes "代收主錢包 #"
      ++ to_string page.master_wallet_id
      ++ codes "，xpub末4碼..."
      ++ slice_last 4 page.xpub
    else codes "TRX來源 " ++ page.fee_source_address

-- What the browser does for a store: the answer of IndexedDB, the random bytes, and the time.
pub record Device : Type 0 where
  pub access : Access
  pub random : ℕ → ℕ
  pub now : ℕ

module _ {Key : Type 0} (v : Subtle Key) (page : PageData) where
  unfoldable pub maybe_remember_input : Fields → Device → Db → Result (Unit {0}) × Db
  maybe_remember_input fields d db =
      if not fields.remember
      then (ok tt, db)
      else if is_empty fields.storage_password
      then (ok tt, db)
      else store_mnemonic v d.access (storage_key_for page) (raw_value page fields)
          fields.storage_password (storage_label page) (new_salt d.random) (new_iv d.random) d.now
          db

module _ {Node : Type 0} (w : HdWallet Node) (c : Crypto) (page : PageData) where
  -- The loop over the items, each with a key of its own.
  pub accept_items : Text → List Item → Run (Unit {0})
  accept_items mnemonic [] = pure tt
  accept_items mnemonic (item ∷ items) = do
    key ← lift (item_key w c page mnemonic item)
    accept item key
    accept_items mnemonic items

  -- The loop that gives all items the key of the fee source.
  pub accept_all : Bytes → List Item → Run (Unit {0})
  accept_all key [] = pure tt
  accept_all key (item ∷ items) = do accept item key; accept_all key items

  pub accept_fee : Fields → Run (Unit {0})
  accept_fee fields = do
    key ← lift (fee_key w c page (current_input_mode page fields) fields.mnemonic fields.privkey)
    accept_all key page.items

  -- The `try` block up to `maybeRememberInput`.
  pub check_input : Fields → Run (Unit {0})
  check_input fields =
      if is_consolidation page.type
      then accept_items fields.mnemonic page.items
      else accept_fee fields

  abbrev cleared : Session → Session
  cleared s = record s { sign_disabled = true; sign_status = checking; derived_keys = [] }

  abbrev saved_line : Result (Unit {0}) → Line
  saved_line (ok _) = passed
  saved_line (err e) = passed_unsaved

  module _ {Key : Type 0} (v : Subtle Key) where
    -- The rest of the `try` block, and the `catch`.
    abbrev settle : Fields → Device → Result (Unit {0}) × Session → Db → Session × Db
    settle fields d (ok _, s) db =
        let (saved, after) = maybe_remember_input v page fields d db in
        (record s { sign_status = saved_line saved; sign_disabled = false }, after)
    settle fields d (err e, s) db =
        (record s { derived_keys = []; sign_status = check_failed e }, db)

    pub handle_derive : Fields → Device → Session → Db → Session × Db
    handle_derive fields d s db = settle fields d (check_input fields (cleared s)) db

  -- `handleDeriveCombined`
  pub accept_masters : Text → List Item → Run (Unit {0})
  accept_masters mnemonic [] = pure tt
  accept_masters mnemonic (item ∷ items) = do
    key ← lift (item_key w c page mnemonic item)
    accept_master item key
    accept_masters mnemonic items

  pub check_both : CombinedFields → Run (Unit {0})
  check_both fields = do
    accept_masters fields.master_mnemonic page.items
    key ←
        lift (fee_key w c page (mode_of fields.fee_checked) fields.fee_mnemonic fields.fee_privkey)
    accept_fee_source key

  abbrev cleared_combined : Session → Session
  cleared_combined s = record s {
    sign_disabled = true;
    sign_status = checking;
    master_keys = [];
    fee_source_key = none;
  }

  abbrev settle_combined : Result (Unit {0}) × Session → Session
  settle_combined (ok _, s) = record s { sign_status = keys_passed; sign_disabled = false }
  settle_combined (err e, s) = record s {
    master_keys = [];
    fee_source_key = none;
    sign_status = check_failed e;
  }

  pub handle_derive_combined : CombinedFields → Session → Session
  handle_derive_combined fields s = settle_combined (check_both fields (cleared_combined s))
