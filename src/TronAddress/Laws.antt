-- ===== src/TronAddress/Laws.antt =====
-- Which keys have an address, and the bytes that the address is made of.
use ucollection.Base.{
  ℕ, ◌-◌, ◌≡◌, ◌≤◌, refl, ◌⊎◌, [], ◌∷◌, length, drop, replicate, arith, append-nil,
}
use ucollection.Base.Result.{ok, err, bad_public_key}
use ucollection.Crypto.{Bytes, Crypto}
use ucollection.Crypto.Arrays.{write_at-start, write_at-append, length-drop}
use ucollection.TronAddress.{tron_address_prefix, payload, public_key_to_tron_address}

module _ (c : Crypto) where
  -- If the hash has at least 20 bytes, the bytes of an address are the prefix and the last 20 bytes
  -- of the hash.
  pub payload_lem :
      (public_key : Bytes)
      → let hash = c.keccak_256 (drop 1 public_key) in
        20 ≤ length hash → payload c public_key ≡ tron_address_prefix ∷ drop (length hash - 20) hash
  unfolding payload
  payload_lem public_key h =
      let hash = c.keccak_256 (drop 1 public_key) in
      let n : length (drop (length hash - 20) hash) ≡ 20 =
        omega (arith, length-drop (length hash - 20) hash) in
      rw (
        write_at-start (tron_address_prefix ∷ []) (0 ∷ []) (replicate 20 0) refl,
        write_at-append 1 (drop (length hash - 20) hash) (tron_address_prefix ∷ []) (replicate 20 0)
            refl,
        write_at-start (drop (length hash - 20) hash) (replicate 20 0) [] n,
        append-nil,
      )

  -- A key of 65 bytes that begins with 4 has an address; any other key is refused.
  pub public_key_to_tron_address_branches :
      (b : ℕ) (xy : Bytes)
      → ((length xy ≡ 64)
          × (b ≡ 4)
          × (public_key_to_tron_address c (b ∷ xy) ≡ ok (c.bs58check_encode (payload c (b ∷ xy)))))
        ⊎ (public_key_to_tron_address c (b ∷ xy) ≡ err bad_public_key)
  unfolding public_key_to_tron_address
  public_key_to_tron_address_branches b xy = ground arith
