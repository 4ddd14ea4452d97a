-- ===== src/Page/Derive/Keys.antt =====
-- The keys that `handleDerive` and `handleDeriveCombined` derive and compare with what the page says,
-- and the input elements that they read.
pub mod Laws
use ucollection.Base.{Text, Bool, not, Option, none, some, ◌==◌, text_eq, if◌then◌else◌}
use ucollection.Base.Result.{
  Failure, Result, ok, err, ◌>>=◌, xpub_mismatch, fee_source_mismatch, address_mismatch,
}
use ucollection.Crypto.{Bytes, Crypto}
use ucollection.Derive.{
  HdWallet, KeyPair, ConsolidationKey, derive_consolidation_key, derive_fee_topup_key_from_mnemonic,
  fee_topup_key_from_private_key_hex,
}
use ucollection.Page.{PageData, Item, is_consolidation}

-- The value of the checked radio button of a mode toggle.
pub data InputMode : Type 0 where
  mnemonic_mode privkey_mode : InputMode

-- The input elements of the page. `remember` is `false` also where the box is not there.
pub record Fields : Type 0 where
  pub mnemonic : Text
  pub privkey : Text
  pub checked : Option InputMode
  pub remember : Bool
  pub storage_password : Text

pub record CombinedFields : Type 0 where
  pub master_mnemonic : Text
  pub fee_mnemonic : Text
  pub fee_privkey : Text
  pub fee_checked : Option InputMode

-- `checked ? checked.value : 'mnemonic'`, which is `combinedFeeMode` too.
abbrev pub mode_of : Option InputMode → InputMode
mode_of none = mnemonic_mode
mode_of (some mode) = mode

abbrev pub current_input_mode : PageData → Fields → InputMode
current_input_mode page fields =
    if is_consolidation page.type then mnemonic_mode else mode_of fields.checked

abbrev raw_of : InputMode → Text → Text → Text
raw_of mnemonic_mode mnemonic privkey = mnemonic
raw_of privkey_mode mnemonic privkey = privkey

-- `rawValue`
abbrev pub raw_value : PageData → Fields → Text
raw_value page fields = raw_of (current_input_mode page fields) fields.mnemonic fields.privkey

module _ {Node : Type 0} (w : HdWallet Node) (c : Crypto) (page : PageData) where
  -- The key of an item, if the account and the address are the recorded ones.
  unfoldable pub item_key : Text → Item → Result Bytes
  item_key mnemonic item = do
    derived ← derive_consolidation_key w c (some mnemonic) item.derivation_index
    if not (derived.xpub == page.xpub)
        then err xpub_mismatch
        else if not (derived.address == item.address)
        then err (address_mismatch item.order_id)
        else ok derived.private_key

  abbrev derived_fee_key : InputMode → Text → Text → Result KeyPair
  derived_fee_key mnemonic_mode mnemonic privkey =
      derive_fee_topup_key_from_mnemonic w c (some mnemonic)
  derived_fee_key privkey_mode mnemonic privkey =
      fee_topup_key_from_private_key_hex c (some privkey)

  -- The key of the fee source, if its address is the recorded one.
  unfoldable pub fee_key : InputMode → Text → Text → Result Bytes
  fee_key mode mnemonic privkey = do
    derived ← derived_fee_key mode mnemonic privkey
    if not (derived.address == page.fee_source_address)
        then err fee_source_mismatch
        else ok derived.private_key
