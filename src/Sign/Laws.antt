-- ===== src/Sign/Laws.antt =====
-- The layout of the signature, and the gate in front of it.
use ucollection.Base.{
  ℕ, ◌+◌, ◌%◌, ◌≡◌, refl, sym, ap, ◌∙◌, Text, [], ◌∷◌, ◌++◌, true, false, Option, none, some, ◌==◌,
  text_eq, text_beq_iff, length, length-append, replicate, arith, Bool-cases, inl, inr, ◌⊎◌,
  append_assoc,
}
use ucollection.Base.Result.{ok, Result-cases}
use ucollection.Crypto.{Bytes, Crypto}
use ucollection.Crypto.Arrays.{
  write_at-start, write_at-append, take-length, drop-length, take-prefix,
}
use ucollection.Sign.{Transaction, SignResult, to_rsv, sign_checked, sign_fields, sign_transaction}

module _ (b : ℕ) (r s : Bytes) (hr : length r ≡ 32) (hs : length s ≡ 32) where
  -- A signature of a recovery byte and two halves of 32 bytes becomes the two halves followed by
  -- the recovery byte plus 27, modulo 256.
  pub to_rsv_halves : to_rsv (b ∷ (r ++ s)) ≡ r ++ (s ++ ((b + 27) % 256) ∷ [])
  unfolding to_rsv
  to_rsv_halves = rw (
    take-prefix r s 32 hr,
    drop-length r s 32 hr,
    take-length 32 s hs,
    write_at-start r (replicate 32 0) (replicate 33 0) hr,
    write_at-append 32 s r (replicate 33 0) hr,
    write_at-start s (replicate 32 0) (0 ∷ []) hs,
    ← append_assoc r s (0 ∷ []),
    write_at-append 64 (((b + 27) % 256) ∷ []) (r ++ s) (0 ∷ []) both,
    write_at-start (((b + 27) % 256) ∷ []) (0 ∷ []) [] refl,
    append_assoc r s,
  )
    where
      both : length (r ++ s) ≡ 64
      both = omega (arith, length-append r s)

-- What a signed transaction is: the id was the hash of the raw data, the signature was made over the
-- bytes of that id, and nothing but the signature has changed.
pub record Signed (c : Crypto) (t : Transaction) (key : Bytes) (t' : Transaction) : Type 0 where
  pub raw : Text
  pub tx_id : Text
  pub raw_bytes : Bytes
  pub tx_id_bytes : Bytes
  pub sig : Bytes
  pub has_raw : t.raw_data_hex ≡ some raw
  pub has_tx_id : t.tx_id ≡ some tx_id
  pub reads_raw : c.hex_to_bytes raw ≡ ok raw_bytes
  pub hashed : c.bytes_to_hex (c.sha256 raw_bytes) ≡ tx_id
  pub reads_tx_id : c.hex_to_bytes tx_id ≡ ok tx_id_bytes
  pub signs : c.sign tx_id_bytes key ≡ ok sig
  pub result : t' ≡ record t { signature = c.bytes_to_hex (to_rsv sig) ∷ [] }

abbrev pub matched : Transaction → SignResult
matched t' = record { signed_transaction = some t'; tx_id_matched = true }

abbrev pub unmatched : SignResult
unmatched = record { signed_transaction = none; tx_id_matched = false }

module _ (c : Crypto) (t : Transaction) (key : Bytes) where
  sign_fields-some :
      {a b : Option Text} {raw tx_id : Text}
      → a ≡ some raw
      → b ≡ some tx_id
      → sign_fields c t a b key ≡ sign_checked c t raw tx_id key
  unfolding sign_fields
  sign_fields-some e e' = rw (e, e')

  signed_by : Bytes → Transaction
  signed_by sig = record t { signature = c.bytes_to_hex (to_rsv sig) ∷ [] }

  sign_checked_complete :
      (raw tx_id : Text) (raw_bytes tx_id_bytes sig : Bytes)
      → c.hex_to_bytes raw ≡ ok raw_bytes
      → c.bytes_to_hex (c.sha256 raw_bytes) ≡ tx_id
      → c.hex_to_bytes tx_id ≡ ok tx_id_bytes
      → c.sign tx_id_bytes key ≡ ok sig
      → sign_checked c t raw tx_id key ≡ ok (matched (signed_by sig))
  unfolding sign_checked signed_by
  sign_checked_complete raw tx_id raw_bytes tx_id_bytes sig e1 e2 e3 e4 =
      ground (arith, text_beq_iff (c.bytes_to_hex (c.sha256 raw_bytes)) tx_id)

  -- A transaction that has both fields, whose id is the hash of its data and that the library signs
  -- is returned as matched, with nothing changed but the signature.
  pub sign_transaction_complete :
      (t' : Transaction) → Signed c t key t' → sign_transaction c (some t) key ≡ ok (matched t')
  unfolding sign_transaction signed_by
  sign_transaction_complete t' s =
      sign_fields-some s.has_raw s.has_tx_id
      ∙ sign_checked_complete s.raw s.tx_id s.raw_bytes s.tx_id_bytes s.sig s.reads_raw s.hashed
          s.reads_tx_id s.signs
      ∙ ap (λ u. ok (matched u)) (sym s.result)

  abbrev pub Outcome : SignResult → Type 0
  Outcome r = (r ≡ unmatched) ⊎ ((t' : Transaction) × (r ≡ matched t') × Signed c t key t')

  sign_checked-Outcome :
      (raw tx_id : Text) (r : SignResult)
      → t.raw_data_hex ≡ some raw
      → t.tx_id ≡ some tx_id
      → sign_checked c t raw tx_id key ≡ ok r
      → Outcome r
  unfolding sign_checked
  sign_checked-Outcome raw tx_id r e e' h = elim (Result-cases (c.hex_to_bytes raw)) [
    | inr (_, e1) ↦ ground arith
    | inl (rb, e1) ↦ elim (Bool-cases (c.bytes_to_hex (c.sha256 rb) == tx_id)) [
      | inr other ↦ inl (ground arith)
      | inl same ↦ elim (Result-cases (c.hex_to_bytes tx_id)) [
        | inr (_, e2) ↦ ground arith
        | inl (ib, e2) ↦ elim (Result-cases (c.sign ib key)) [
          | inr (_, e3) ↦ ground arith
          | inl (sig, e3) ↦ inr (
            signed_by sig,
            unfold signed_by in ground arith,
            record {
              raw = raw;
              tx_id = tx_id;
              raw_bytes = rb;
              tx_id_bytes = ib;
              sig = sig;
              has_raw = e;
              has_tx_id = e';
              reads_raw = e1;
              hashed = (text_beq_iff _ _).0 same;
              reads_tx_id = e2;
              signs = e3;
              result = unfold signed_by in refl;
            },
          )
        ]
      ]
    ]
  ]

  sign_fields-ok :
      (a b : Option Text) (r : SignResult)
      → sign_fields c t a b key ≡ ok r
      → (raw : Text) × (tx_id : Text) × (a ≡ some raw)
        × (b ≡ some tx_id)
        × (sign_checked c t raw tx_id key ≡ ok r)
  unfolding sign_fields
  sign_fields-ok none b r h = cc
  sign_fields-ok (some raw) none r h = cc
  sign_fields-ok (some raw) (some tx_id) r h = (raw, tx_id, refl, refl, h)

  -- A call of `signTransaction` that returns has refused the transaction as unmatched, or has
  -- signed it: the id is the hash of the data, the signature is that of the id, and no other field
  -- has changed.
  pub sign_transaction-Outcome :
      (r : SignResult) → sign_transaction c (some t) key ≡ ok r → Outcome r
  unfolding sign_transaction
  sign_transaction-Outcome r h =
      let (raw, tx_id, e, e', h') = sign_fields-ok t.raw_data_hex t.tx_id r h in
      sign_checked-Outcome raw tx_id r e e' h'
