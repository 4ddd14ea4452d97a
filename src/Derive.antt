-- ===== src/Derive.antt =====
-- web/js-src/derive.js: from a mnemonic or a private key text to keys, addresses and the account
-- xpub. `bip39` and `hdkey` are parameters; a value of the page that is no string is `none`.
pub mod Laws
pub mod Example
mod Tests
use ucollection.Base.{
  ℕ, ◌+◌, ◌≡◌, Text, String, codes, List, [], ◌∷◌, ◌++◌, Bool, true, false, not, ◌||◌, Option, none,
  some, ◌==◌, nat_eq, if◌then◌else◌, length, all, trim, is_hex_digit,
}
use ucollection.Base.Result.{
  Result, ok, err, ◌>>=◌, bad_mnemonic, bad_index, bad_key_format, key_out_of_range,
}
use ucollection.Crypto.{Bytes, Crypto}
use ucollection.TronAddress.{public_key_to_tron_address}

-- `bip39` and `hdkey`; `Node` is an `HDKey`.
pub record HdWallet (Node : Type 0) : Type 0 where
  pub validate_mnemonic : Text → Bool
  pub mnemonic_to_seed : Text → Bytes
  pub from_master_seed : Bytes → Result Node
  pub derive : Node → Text → Result Node
  pub derive_child : Node → ℕ → Result Node
  pub private_key : Node → Bytes
  pub public_extended_key : Node → Text

abbrev pub account_path : Text
account_path = codes "m/44'/195'/0'"

pub record KeyPair : Type 0 where
  pub private_key : Bytes
  pub address : Text

pub record ConsolidationKey : Type 0 where
  pub private_key : Bytes
  pub xpub : Text
  pub address : Text

-- `typeof mnemonic === 'string' ? mnemonic.trim() : ''`
abbrev pub trimmed : Option Text → Text
trimmed none = []
trimmed (some s) = trim s

-- `HEX64_RE`
abbrev pub is_hex64 : Text → Bool
is_hex64 s = if length s == 64 then all is_hex_digit s else false

module _ (c : Crypto) where
  pub address_from_private_key : Bytes → Result Text
  address_from_private_key private_key = do
    uncompressed ← c.get_public_key private_key
    public_key_to_tron_address c uncompressed

  pub fee_topup_key_from_private_key_hex : Option Text → Result KeyPair
  fee_topup_key_from_private_key_hex hex =
      if not (is_hex64 (trimmed hex)) then err bad_key_format else do
        private_key ← c.hex_to_bytes (trimmed hex)
        if not (c.is_valid_secret_key private_key) then err key_out_of_range else do
          address ← address_from_private_key private_key
          ok (record { private_key = private_key; address = address })

module _ {Node : Type 0} (w : HdWallet Node) where
  pub seed_from_validated_mnemonic : Option Text → Result Bytes
  seed_from_validated_mnemonic mnemonic =
      if not (w.validate_mnemonic (trimmed mnemonic))
      then err bad_mnemonic
      else ok (w.mnemonic_to_seed (trimmed mnemonic))

  -- The node at `ACCOUNT_PATH`.
  pub account_node : Option Text → Result Node
  account_node mnemonic = do
    seed ← seed_from_validated_mnemonic mnemonic
    master ← w.from_master_seed seed
    w.derive master account_path

  pub derive_account_xpub : Option Text → Result Text
  derive_account_xpub mnemonic = do
    account ← account_node mnemonic
    ok (w.public_extended_key account)

module _ {Node : Type 0} (w : HdWallet Node) (c : Crypto) where
  -- `none` for an index that is no integer, or is below 0.
  pub derive_consolidation_key : Option Text → Option ℕ → Result ConsolidationKey
  derive_consolidation_key mnemonic none = err bad_index
  derive_consolidation_key mnemonic (some index) = do
    account ← account_node w mnemonic
    external ← w.derive_child account 0
    child ← w.derive_child external index
    address ← address_from_private_key c (w.private_key child)
    ok (record {
      private_key = w.private_key child;
      xpub = w.public_extended_key account;
      address = address;
    })

  pub derive_fee_topup_key_from_mnemonic : Option Text → Result KeyPair
  derive_fee_topup_key_from_mnemonic mnemonic = do
    seed ← seed_from_validated_mnemonic w mnemonic
    master ← w.from_master_seed seed
    child ← w.derive master (account_path ++ codes "/0/0")
    address ← address_from_private_key c (w.private_key child)
    ok (record { private_key = w.private_key child; address = address })
