-- ===== src/TronAddress.antt =====
-- web/js-src/tronaddress.js: the Tron address of a public key.
pub mod Laws
use ucollection.Base.{
  ℕ, ◌+◌, ◌-◌, ◌≡◌, Text, [], ◌∷◌, Bool, false, not, ◌||◌, ◌==◌, nat_eq, if◌then◌else◌, length,
  drop, replicate,
}
use ucollection.Base.Result.{Result, ok, err, bad_public_key}
use ucollection.Crypto.{Bytes, Crypto}
use ucollection.Crypto.Arrays.{write_at}

abbrev pub tron_address_prefix : ℕ
tron_address_prefix = 0x41

-- `uncompressedPubKey[0] !== 0x04`, on an array that may be empty.
abbrev starts_with_four : Bytes → Bool
starts_with_four [] = false
starts_with_four (b ∷ s) = b == 0x04

module _ (c : Crypto) where
  -- 21 bytes: the prefix, and the last 20 bytes of the hash.
  pub payload : Bytes → Bytes
  payload public_key =
      let hash = c.keccak_256 (drop 1 public_key) in
      let last20 = drop (length hash - 20) hash in
      write_at 1 last20 (write_at 0 (tron_address_prefix ∷ []) (replicate 21 0))

  unfoldable pub public_key_to_tron_address : Bytes → Result Text
  public_key_to_tron_address public_key =
      if not (length public_key == 65) || not (starts_with_four public_key)
      then err bad_public_key
      else ok (c.bs58check_encode (payload public_key))
