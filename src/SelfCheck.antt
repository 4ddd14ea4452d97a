-- ===== src/SelfCheck.antt =====
-- web/js-src/selfcheck.js: the address that a signature leads back to.
pub mod Laws
pub mod Verified
mod Tests
use ucollection.Base.{
  ℕ, ◌+◌, ◌-◌, ◌%◌, ◌≡◌, Text, List, [], ◌∷◌, Bool, true, false, not, Option, none, some, ◌==◌,
  nat_eq, text_eq, if◌then◌else◌, length, replicate, drop,
}
use ucollection.Base.Result.{Result, ok, err, ◌>>=◌, missing_tx_id, bad_signature}
use ucollection.Crypto.{Bytes, Crypto}
use ucollection.Crypto.Arrays.{subarray, write_at}
use ucollection.TronAddress.{public_key_to_tron_address}
use ucollection.Sign.{Transaction, first_byte}

-- r(32) || s(32) || v(1) becomes recovery(1) || r(32) || s(32), with recovery = v - 27 in a byte.
pub to_recovered : Bytes → Bytes
to_recovered rsv =
    let r = subarray 0 32 rsv in
    let s = subarray 32 64 rsv in
    let recovery = (first_byte (drop 64 rsv) + 256 - 27) % 256 in
    write_at 33 s (write_at 1 r (write_at 0 (recovery ∷ []) (replicate 65 0)))

module _ (c : Crypto) where
  -- From `hexToBytes(sigHex)` on.
  verify_hex : Text → Text → Text → Result Bool
  verify_hex sig_hex tx_id expected_address = do
    rsv ← c.hex_to_bytes sig_hex
    tx_id_bytes ← c.hex_to_bytes tx_id
    public_key ← c.recover_public_key (to_recovered rsv) tx_id_bytes
    recovered_address ← public_key_to_tron_address c public_key
    ok (recovered_address == expected_address)

  -- `signature[0]` must be a text of 130 characters.
  verify_signature : List Text → Text → Text → Result Bool
  verify_signature [] tx_id expected_address = err bad_signature
  verify_signature (sig_hex ∷ _) tx_id expected_address =
      if not (length sig_hex == 130)
      then err bad_signature
      else verify_hex sig_hex tx_id expected_address

  verify_fields : Option Text → List Text → Text → Result Bool
  verify_fields none signature expected_address = err missing_tx_id
  verify_fields (some tx_id) signature expected_address =
      verify_signature signature tx_id expected_address

  pub verify_signer_address : Option Transaction → Text → Result Bool
  verify_signer_address none expected_address = err missing_tx_id
  verify_signer_address (some t) expected_address =
      verify_fields t.tx_id t.signature expected_address
