-- ===== src/SelfCheck/Verified.antt =====
-- What the self-check has established when it answers `true`.
use ucollection.Base.{
  ◌≡◌, refl, ap, ◌∙◌, Text, List, [], ◌∷◌, true, Option, none, some, text_eq, text_beq_iff, length,
  arith, inl, inr,
}
use ucollection.Base.Result.{ok, Result-cases}
use ucollection.Crypto.{Bytes, Crypto}
use ucollection.TronAddress.{public_key_to_tron_address}
use ucollection.Sign.{Transaction}
use ucollection.SelfCheck.{
  to_recovered, verify_hex, verify_signature, verify_fields, verify_signer_address,
}

-- What the self-check has established when it answers `true`: the signature and the id lead to a
-- public key, and its address is the expected one.
pub record Verified (c : Crypto) (t : Transaction) (expected : Text) : Type 0 where
  pub tx_id : Text
  pub sig_hex : Text
  pub others : List Text
  pub rsv : Bytes
  pub tx_id_bytes : Bytes
  pub public_key : Bytes
  pub has_tx_id : t.tx_id ≡ some tx_id
  pub has_signature : t.signature ≡ sig_hex ∷ others
  pub sized : length sig_hex ≡ 130
  pub reads_signature : c.hex_to_bytes sig_hex ≡ ok rsv
  pub reads_tx_id : c.hex_to_bytes tx_id ≡ ok tx_id_bytes
  pub recovers : c.recover_public_key (to_recovered rsv) tx_id_bytes ≡ ok public_key
  pub address : public_key_to_tron_address c public_key ≡ ok expected

module _ (c : Crypto) (expected : Text) where
  verify_hex-true :
      (sig_hex tx_id : Text)
      → verify_hex c sig_hex tx_id expected ≡ ok true
      → (rsv : Bytes) × (tx_id_bytes : Bytes) × (public_key : Bytes) × (c.hex_to_bytes sig_hex
          ≡ ok rsv)
        × (c.hex_to_bytes tx_id ≡ ok tx_id_bytes)
        × (c.recover_public_key (to_recovered rsv) tx_id_bytes ≡ ok public_key)
        × (public_key_to_tron_address c public_key ≡ ok expected)
  unfolding verify_hex
  verify_hex-true sig_hex tx_id h = elim (Result-cases (c.hex_to_bytes sig_hex)) [
    | inr (_, e) ↦ ground arith
    | inl (rsv, e1) ↦ elim (Result-cases (c.hex_to_bytes tx_id)) [
      | inr (_, e) ↦ ground arith
      | inl (ib, e2) ↦ elim (Result-cases (c.recover_public_key (to_recovered rsv) ib)) [
        | inr (_, e) ↦ ground arith
        | inl (pk, e3) ↦ elim (Result-cases (public_key_to_tron_address c pk)) [
          | inr (_, e) ↦ ground arith
          | inl (a, e4) ↦
              let same : a ≡ expected = ground (arith, text_beq_iff a expected) in
              (rsv, ib, pk, e1, e2, e3, e4 ∙ ap ok same)
        ]
      ]
    ]
  ]

  verify_signature-true :
      (signature : List Text) (tx_id : Text)
      → verify_signature c signature tx_id expected ≡ ok true
      → (sig_hex : Text) × (others : List Text) × (signature ≡ sig_hex ∷ others)
        × (length sig_hex ≡ 130)
        × (verify_hex c sig_hex tx_id expected ≡ ok true)
  unfolding verify_signature
  verify_signature-true [] tx_id h = cc
  verify_signature-true (s ∷ others) tx_id h = (s, others, refl, ground arith, ground arith)

  verify_fields-true :
      (a : Option Text) (signature : List Text)
      → verify_fields c a signature expected ≡ ok true
      → (tx_id : Text) × (a ≡ some tx_id) × (verify_signature c signature tx_id expected ≡ ok true)
  unfolding verify_fields
  verify_fields-true none signature h = cc
  verify_fields-true (some tx_id) signature h = (tx_id, refl, h)

  -- The self-check answers `true` only for a transaction with an id and a first signature of 130
  -- characters from which a public key is recovered whose address is the expected one.
  pub verify_signer_address-Verified :
      (t : Transaction)
      → verify_signer_address c (some t) expected ≡ ok true
      → Verified c t expected
  unfolding verify_signer_address
  verify_signer_address-Verified t h =
      let (tx_id, e, h1) = verify_fields-true t.tx_id t.signature h in
      let (sig_hex, others, e', n, h2) = verify_signature-true t.signature tx_id h1 in
      let (rsv, ib, pk, e1, e2, e3, e4) = verify_hex-true sig_hex tx_id h2 in
      record {
        tx_id = tx_id;
        sig_hex = sig_hex;
        others = others;
        rsv = rsv;
        tx_id_bytes = ib;
        public_key = pk;
        has_tx_id = e;
        has_signature = e';
        sized = n;
        reads_signature = e1;
        reads_tx_id = e2;
        recovers = e3;
        address = e4;
      }
