-- ===== src/Crypto/Toy.antt =====
-- A small lawful instance of the cryptographic libraries, to run the model on: the public key of a key
-- repeats its first byte, and so does a signature.
use ucollection.Base.{
  ℕ, zero, suc, ◌+◌, ◌*◌, ◌-◌, ◌/◌, ◌%◌, ◌<◌, ◌≡◌, refl, sym, ap, ◌∙◌, Text, [], ◌∷◌, true, length,
  replicate, length-replicate, All, arith,
}
use ucollection.Base.Result.{Result, ok, err, ◌>>=◌, library}
use ucollection.Crypto.{Bytes, IsByte, Crypto, IsLawful}

unfoldable pub encode : Bytes → Text
encode [] = []
encode (b ∷ s) = (b'0' + b / 16) ∷ (b'0' + b % 16) ∷ encode s

unfoldable pub decode : Text → Result Bytes
decode [] = ok []
decode (x ∷ []) = err library
decode (x ∷ y ∷ s) = decode s >>= λ b. ok (((x - b'0') * 16 + (y - b'0')) ∷ b)

abbrev pub head_byte : Bytes → ℕ
head_byte [] = 0
head_byte (b ∷ s) = b % 256

abbrev pub tail_of : Bytes → Bytes
tail_of [] = []
tail_of (b ∷ s) = s

abbrev pub toy : Crypto
toy = record {
  hex_to_bytes = decode;
  bytes_to_hex = encode;
  sha256 = λ s. replicate 32 (head_byte s);
  keccak_256 = λ s. replicate 32 (head_byte s);
  bs58check_encode = encode;
  get_public_key = λ k. ok (4 ∷ replicate 64 (head_byte k));
  is_valid_secret_key = λ k. true;
  sign = λ m k. ok (0 ∷ replicate 64 (head_byte k));
  recover_public_key = λ s m. ok (4 ∷ tail_of s);
}

length-encode : (s : Bytes) → length (encode s) ≡ 2 * length s
unfolding encode
length-encode [] = refl
length-encode (b ∷ s) = omega (arith, length-encode s)

decode-encode : (s : Bytes) → decode (encode s) ≡ ok s
unfolding encode decode
decode-encode [] = refl
decode-encode (b ∷ s) =
    ap
      (λ (r : Result Bytes).
        r >>= λ t. ok (((b'0' + b / 16 - b'0') * 16 + (b'0' + b % 16 - b'0')) ∷ t))
      (decode-encode s)
    ∙ ap (λ x. ok (x ∷ s)) digits
  where
    digits : (b'0' + b / 16 - b'0') * 16 + (b'0' + b % 16 - b'0') ≡ b
    digits = omega arith

pub All-replicate : (n b : ℕ) → b < 256 → All IsByte (replicate n b)
All-replicate zero b h = tt
All-replicate (suc n) b h = (h, All-replicate n b h)

head_byte-IsByte : (s : Bytes) → head_byte s < 256
head_byte-IsByte [] = omega arith
head_byte-IsByte (b ∷ s) = omega arith

pub toy-IsLawful : IsLawful toy
toy-IsLawful = record {
  length-bytes_to_hex = length-encode;
  hex_to_bytes-bytes_to_hex = λ b _. decode-encode b;
  length-sign = λ m k s e. sized k s e;
  sign-IsByte = λ m k s e. bytes k s e;
  recover-sign = λ m k s p e e'. recovers k s p e e';
}
  where
    sized : (k s : Bytes) → ok (0 ∷ replicate 64 (head_byte k)) ≡ ok s → length s ≡ 65
    sized k s e =
        let same : 0 ∷ replicate 64 (head_byte k) ≡ s = cc e in
        ap length (sym same) ∙ omega (arith, length-replicate 64 (head_byte k))

    bytes : (k s : Bytes) → ok (0 ∷ replicate 64 (head_byte k)) ≡ ok s → All IsByte s
    bytes k s e =
        let same : 0 ∷ replicate 64 (head_byte k) ≡ s = cc e in
        rw (sym same) (omega arith, All-replicate 64 (head_byte k) (head_byte-IsByte k))

    recovers :
        (k s p : Bytes)
        → ok (0 ∷ replicate 64 (head_byte k)) ≡ ok s
        → ok (4 ∷ replicate 64 (head_byte k)) ≡ ok p
        → ok (4 ∷ tail_of s) ≡ ok p
    recovers k s p e e' =
        let same : 0 ∷ replicate 64 (head_byte k) ≡ s = cc e in
        ap (λ (u : Bytes). ok (4 ∷ tail_of u)) (sym same) ∙ e'
