-- ===== src/Sign.antt =====
-- web/js-src/sign.js: signing a prepared transaction after its id has been computed again.
pub mod Laws
pub mod Example
mod Tests
use ucollection.Base.{
  ℕ, ◌+◌, ◌%◌, ◌≡◌, Text, List, [], ◌∷◌, Bool, true, false, not, Option, none, some, ◌==◌, text_eq,
  if◌then◌else◌, replicate,
}
use ucollection.Base.Result.{Result, ok, err, ◌>>=◌, missing_transaction}
use ucollection.Crypto.{Bytes, Crypto}
use ucollection.Crypto.Arrays.{subarray, write_at}

-- The transaction object: `none` for a field that is missing or no string, `signature` with no item
-- where it is missing, and `rest` for the fields that are passed on unread.
pub record Transaction : Type 0 where
  pub raw_data_hex : Option Text
  pub tx_id : Option Text
  pub signature : List Text
  pub rest : Text

-- `{ signedTransaction, txIDMatched }`
pub record SignResult : Type 0 where
  pub signed_transaction : Option Transaction
  pub tx_id_matched : Bool

-- `sig[0]`, of an array that has it
abbrev pub first_byte : Bytes → ℕ
first_byte [] = 0
first_byte (b ∷ s) = b

-- recovery(1) || r(32) || s(32) becomes r(32) || s(32) || v(1), with v = recovery + 27 in a byte.
pub to_rsv : Bytes → Bytes
to_rsv sig =
    let r = subarray 1 33 sig in
    let s = subarray 33 65 sig in
    write_at 64 (((first_byte sig + 27) % 256) ∷ []) (write_at 32 s (write_at 0 r (replicate 65 0)))

module _ (c : Crypto) where
  -- From the comparison of the ids on, with both fields at hand.
  sign_checked : Transaction → Text → Text → Bytes → Result SignResult
  sign_checked t raw tx_id private_key = do
    raw_bytes ← c.hex_to_bytes raw
    let matched = c.bytes_to_hex (c.sha256 raw_bytes) == tx_id
    if not matched then ok (record { signed_transaction = none; tx_id_matched = false }) else do
      tx_id_bytes ← c.hex_to_bytes tx_id
      sig ← c.sign tx_id_bytes private_key
      ok (record {
        signed_transaction = some (record t { signature = c.bytes_to_hex (to_rsv sig) ∷ [] });
        tx_id_matched = true;
      })

  -- `typeof transaction.raw_data_hex !== 'string' || typeof transaction.txID !== 'string'`
  sign_fields : Transaction → Option Text → Option Text → Bytes → Result SignResult
  sign_fields t none tx_id private_key = err missing_transaction
  sign_fields t (some raw) none private_key = err missing_transaction
  sign_fields t (some raw) (some tx_id) private_key = sign_checked t raw tx_id private_key

  unfoldable pub sign_transaction : Option Transaction → Bytes → Result SignResult
  unfolding sign_fields sign_checked
  sign_transaction none private_key = err missing_transaction
  sign_transaction (some t) private_key = sign_fields t t.raw_data_hex t.tx_id private_key
