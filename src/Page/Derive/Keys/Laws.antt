-- ===== src/Page/Derive/Keys/Laws.antt =====
-- A key that has been compared with the page has the address that the page records.
use ucollection.Base.{◌≡◌, Text, some, text_eq, text_beq_iff, arith}
use ucollection.Base.Result.{ok, >>=-eq-ok}
use ucollection.Crypto.{Bytes, Crypto}
use ucollection.Derive.{
  HdWallet, KeyPair, ConsolidationKey, address_from_private_key, derive_consolidation_key,
}
use ucollection.Derive.Laws.{
  derive_consolidation_key-address, derive_fee_topup_key-address,
  fee_topup_key_from_private_key_hex_sound,
}
use ucollection.Page.{PageData, Item}
use ucollection.Page.Derive.Keys.{
  InputMode, mnemonic_mode, privkey_mode, item_key, derived_fee_key, fee_key,
}

module _ {Node : Type 0} (w : HdWallet Node) (c : Crypto) (page : PageData) where
  pub item_key-eq-ok :
      (mnemonic : Text) (item : Item) {key : Bytes}
      → item_key w c page mnemonic item ≡ ok key
      → (derived : ConsolidationKey) × (derive_consolidation_key w c
            (some mnemonic)
            item.derivation_index
          ≡ ok derived)
        × (derived.private_key ≡ key)
        × (derived.xpub ≡ page.xpub)
        × (derived.address ≡ item.address)
  unfolding item_key
  item_key-eq-ok mnemonic item {key} h =
      let (derived, e, rest) =
        >>=-eq-ok (derive_consolidation_key w c (some mnemonic) item.derivation_index) _ h in
      (
        derived,
        e,
        ground arith,
        (text_beq_iff _ _).0 (ground arith),
        (text_beq_iff _ _).0 (ground arith),
      )

  -- The key of an item has the item's address.
  pub item_key-address :
      (mnemonic : Text) (item : Item) {key : Bytes}
      → item_key w c page mnemonic item ≡ ok key
      → address_from_private_key c key ≡ ok item.address
  item_key-address mnemonic item h =
      let (derived, e, same, _, address) = item_key-eq-ok mnemonic item h in
      rw (← same, ← address)
        (derive_consolidation_key-address w c (some mnemonic) item.derivation_index e)

  derived_fee_key-address :
      (mode : InputMode) (mnemonic privkey : Text) {k : KeyPair}
      → derived_fee_key w c page mode mnemonic privkey ≡ ok k
      → address_from_private_key c k.private_key ≡ ok k.address
  derived_fee_key-address mnemonic_mode mnemonic privkey h =
      derive_fee_topup_key-address w c (some mnemonic) h
  derived_fee_key-address privkey_mode mnemonic privkey h =
      let (_, _, _, _, e) = fee_topup_key_from_private_key_hex_sound c (some privkey) h in e

  -- The key of the fee source has the address of the fee source.
  pub fee_key-address :
      (mode : InputMode) (mnemonic privkey : Text) {key : Bytes}
      → fee_key w c page mode mnemonic privkey ≡ ok key
      → address_from_private_key c key ≡ ok page.fee_source_address
  unfolding fee_key
  fee_key-address mode mnemonic privkey {key} h =
      let (derived, e, rest) = >>=-eq-ok (derived_fee_key w c page mode mnemonic privkey) _ h in
      let same : derived.private_key ≡ key = ground arith in
      let address : derived.address ≡ page.fee_source_address =
        (text_beq_iff _ _).0 (ground arith) in
      rw (← same, ← address) (derived_fee_key-address mode mnemonic privkey e)
