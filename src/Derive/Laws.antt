-- ===== src/Derive/Laws.antt =====
-- How the derivations agree, and what they refuse.
use ucollection.Base.{
  ℕ, ◌≡◌, refl, Text, codes, ◌++◌, true, false, Option, none, some, nat_eq, length, all,
  is_hex_digit, inl, inr, arith,
}
use ucollection.Base.Result.{Result, ok, err, ◌>>=◌, Result-cases, >>=-eq-ok, bad_mnemonic}
use ucollection.TronAddress.{public_key_to_tron_address}
use ucollection.Crypto.{Bytes, Crypto}
use ucollection.Derive.{
  HdWallet, KeyPair, ConsolidationKey, account_path, trimmed, address_from_private_key,
  fee_topup_key_from_private_key_hex, seed_from_validated_mnemonic, account_node,
  derive_account_xpub, derive_consolidation_key, derive_fee_topup_key_from_mnemonic,
}

-- The path of `hdkey` names the children one by one: what is derived along `p/0/0` is child 0 of
-- child 0 of what is derived along `p`.
pub record FollowsPaths {Node : Type 0} (w : HdWallet Node) : Type 0 where
  pub along :
      (master : Node)
      → w.derive master (account_path ++ codes "/0/0")
        ≡ (w.derive master account_path >>= λ a. w.derive_child a 0 >>= λ b. w.derive_child b 0)

-- The key and the address of a consolidation key, and the failure of one.
abbrev pub key_pair : Result ConsolidationKey → Result KeyPair
key_pair r = r >>= λ k. ok (record { private_key = k.private_key; address = k.address })

pub address_from_private_key-eq-ok :
    (c : Crypto) (key : Bytes) {address : Text}
    → address_from_private_key c key ≡ ok address
    → (public_key : Bytes) × (c.get_public_key key ≡ ok public_key)
      × (public_key_to_tron_address c public_key ≡ ok address)
unfolding address_from_private_key
address_from_private_key-eq-ok c key h = >>=-eq-ok (c.get_public_key key) _ h

module _ {Node : Type 0} (w : HdWallet Node) (c : Crypto) where
  -- If the HD library follows its paths child by child, a fee source mnemonic gives the key and the
  -- address that a consolidation of the same mnemonic gives for index 0, or fails as that does.
  pub derive_fee_topup_key-derive_consolidation_key :
      (mnemonic : Option Text)
      → FollowsPaths w
      → derive_fee_topup_key_from_mnemonic w c mnemonic
        ≡ key_pair (derive_consolidation_key w c mnemonic (some 0))
  unfolding derive_fee_topup_key_from_mnemonic derive_consolidation_key account_node
  derive_fee_topup_key-derive_consolidation_key mnemonic f =
      elim (Result-cases (seed_from_validated_mnemonic w mnemonic)) [
        | inr (_, e) ↦ ground arith
        | inl (seed, e) ↦ elim (Result-cases (w.from_master_seed seed)) [
          | inr (_, e1) ↦ ground arith
          | inl (master, e1) ↦ ground (arith, f.along master)
        ]
      ]

  -- If a consolidation key is derived, `deriveAccountXpub` returns its xpub for the same mnemonic.
  pub derive_account_xpub-derive_consolidation_key :
      (mnemonic : Option Text) (index : Option ℕ) {k : ConsolidationKey}
      → derive_consolidation_key w c mnemonic index ≡ ok k
      → derive_account_xpub w mnemonic ≡ ok k.xpub
  unfolding derive_account_xpub derive_consolidation_key
  derive_account_xpub-derive_consolidation_key mnemonic none h = cc
  derive_account_xpub-derive_consolidation_key mnemonic (some index) h = ground arith

  -- The address that comes with a key is the address of that key.
  pub derive_consolidation_key-address :
      (mnemonic : Option Text) (index : Option ℕ) {k : ConsolidationKey}
      → derive_consolidation_key w c mnemonic index ≡ ok k
      → address_from_private_key c k.private_key ≡ ok k.address
  unfolding derive_consolidation_key
  derive_consolidation_key-address mnemonic none h = cc
  derive_consolidation_key-address mnemonic (some index) h = ground arith

  pub derive_fee_topup_key-address :
      (mnemonic : Option Text) {k : KeyPair}
      → derive_fee_topup_key_from_mnemonic w c mnemonic ≡ ok k
      → address_from_private_key c k.private_key ≡ ok k.address
  unfolding derive_fee_topup_key_from_mnemonic
  derive_fee_topup_key-address mnemonic h = ground arith

  -- A mnemonic that does not validate after trimming is refused with the same error by all three
  -- derivations, whatever the index.
  pub bad_mnemonic_refused :
      (mnemonic : Option Text) (index : ℕ)
      → w.validate_mnemonic (trimmed mnemonic) ≡ false
      → (derive_consolidation_key w c mnemonic (some index) ≡ err bad_mnemonic)
        × (derive_fee_topup_key_from_mnemonic w c mnemonic ≡ err bad_mnemonic)
        × (derive_account_xpub w mnemonic ≡ err bad_mnemonic)
  unfolding derive_fee_topup_key_from_mnemonic derive_consolidation_key derive_account_xpub
      account_node seed_from_validated_mnemonic
  bad_mnemonic_refused mnemonic index h = rw h (refl, refl, refl)

-- If a private key text is accepted, it was 64 hexadecimal digits after trimming, which spell the
-- key, the key is valid for the curve, and the address is its own.
pub fee_topup_key_from_private_key_hex_sound :
    (c : Crypto) (hex : Option Text) {k : KeyPair}
    → fee_topup_key_from_private_key_hex c hex ≡ ok k
    → (length (trimmed hex) ≡ 64)
      × (all is_hex_digit (trimmed hex) ≡ true)
      × (c.hex_to_bytes (trimmed hex) ≡ ok k.private_key)
      × (c.is_valid_secret_key k.private_key ≡ true)
      × (address_from_private_key c k.private_key ≡ ok k.address)
unfolding fee_topup_key_from_private_key_hex
fee_topup_key_from_private_key_hex_sound c hex h = ground arith
