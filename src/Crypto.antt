-- ===== src/Crypto.antt =====
-- The cryptographic libraries that web/js-src calls (@noble/curves, @noble/hashes, bs58check): their
-- functions are parameters, and `IsLawful` is what the sources rely on of their documentation.
pub mod Arrays
pub mod Toy
use ucollection.Base.{ℕ, ◌+◌, ◌*◌, ◌<◌, ◌≡◌, Text, List, Bool, length, All}
use ucollection.Base.Result.{Result, ok}

abbrev pub Bytes : Type 0
Bytes = List ℕ

abbrev pub IsByte : ℕ → Type 0
IsByte b = b < 256

pub record Crypto : Type 0 where
  -- `hexToBytes` throws on a text that is not pairs of hexadecimal digits.
  pub hex_to_bytes : Text → Result Bytes
  pub bytes_to_hex : Bytes → Text
  pub sha256 : Bytes → Bytes
  pub keccak_256 : Bytes → Bytes
  pub bs58check_encode : Bytes → Text
  -- `secp256k1.getPublicKey(key, false)`
  pub get_public_key : Bytes → Result Bytes
  -- `secp256k1.utils.isValidSecretKey`
  pub is_valid_secret_key : Bytes → Bool
  -- `secp256k1.sign(message, key, { prehash: false, format: 'recovered' })`
  pub sign : Bytes → Bytes → Result Bytes
  -- `Signature.fromBytes(signature, 'recovered').recoverPublicKey(message).toBytes(false)`
  pub recover_public_key : Bytes → Bytes → Result Bytes

pub record IsLawful (c : Crypto) : Type 0 where
  -- Two hexadecimal digits for a byte, which are read back as that byte.
  pub length-bytes_to_hex : (b : Bytes) → length (c.bytes_to_hex b) ≡ 2 * length b
  pub hex_to_bytes-bytes_to_hex :
      (b : Bytes) → All IsByte b → c.hex_to_bytes (c.bytes_to_hex b) ≡ ok b
  -- A recovered signature is recovery(1) || r(32) || s(32), in bytes.
  pub length-sign : (m k s : Bytes) → c.sign m k ≡ ok s → length s ≡ 65
  pub sign-IsByte : (m k s : Bytes) → c.sign m k ≡ ok s → All IsByte s
  -- The key that signed is the one that is recovered, from the same message.
  pub recover-sign :
      (m k s p : Bytes)
      → c.sign m k ≡ ok s
      → c.get_public_key k ≡ ok p
      → c.recover_public_key s m ≡ ok p
