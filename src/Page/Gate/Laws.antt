-- ===== src/Page/Gate/Laws.antt =====
-- Nothing passes the gates but a transaction that was signed and checked as the page means it.
use ucollection.Base.{Text, ◌≡◌, refl, ap, true, Option, none, some, inl, inr, arith, text_beq_iff}
use ucollection.Base.Result.{ok, Result-cases}
use ucollection.Crypto.{Bytes, Crypto, IsLawful}
use ucollection.Sign.{Transaction, SignResult, sign_transaction}
use ucollection.Sign.Laws.{Signed, Outcome, sign_transaction-Outcome, sign_transaction_complete}
use ucollection.SelfCheck.{verify_signer_address}
use ucollection.Derive.{address_from_private_key}
use ucollection.Derive.Laws.{address_from_private_key-eq-ok}
use ucollection.SelfCheck.Laws.{verify-sign}
use ucollection.SelfCheck.Verified.{Verified, verify_signer_address-Verified}
use ucollection.Page.Gate.{authorise}

-- A transaction that has passed both gates for an address.
pub record Passed (c : Crypto) (address : Text) (sent : Option Transaction) : Type 0 where
  pub prepared : Transaction
  pub key : Bytes
  pub signed : Transaction
  pub is_sent : sent ≡ some signed
  pub signs : Signed c prepared key signed
  pub checked : Verified c signed address

module _ (c : Crypto) where
  sign_none : (key : Bytes) (r : SignResult) → sign_transaction c none key ≡ ok r → ⊥
  unfolding sign_transaction
  sign_none key r h = cc

module _ (c : Crypto) (expected : Text) where
  Passed-by :
      (t : Transaction) (key : Bytes) (r : SignResult)
      → Outcome c t key r
      → r.tx_id_matched ≡ true
      → verify_signer_address c r.signed_transaction expected ≡ ok true
      → Passed c expected r.signed_transaction
  Passed-by t key r (inl e) m v = cc (ap (λ (q : SignResult). q.tx_id_matched) e, m)
  Passed-by t key r (inr (t', e, s)) m v =
      let sent = ap (λ (q : SignResult). q.signed_transaction) e in
      record {
        prepared = t;
        key = key;
        signed = t';
        is_sent = sent;
        signs = s;
        checked = verify_signer_address-Verified c expected t' (rw sent at v);
      }

  authorise-steps :
      (transaction : Option Transaction) (key : Bytes) {sent : Option Transaction}
      → authorise c transaction key expected ≡ ok sent
      → (r : SignResult) × (sign_transaction c transaction key ≡ ok r)
        × (r.tx_id_matched ≡ true)
        × (verify_signer_address c r.signed_transaction expected ≡ ok true)
        × (sent ≡ r.signed_transaction)
  unfolding authorise
  authorise-steps transaction key h = elim (Result-cases (sign_transaction c transaction key)) [
    | inr (_, e) ↦ ground arith
    | inl (r, e) ↦ (r, e, ground arith, ground arith, ground arith)
  ]

  -- What comes out of the gates has passed them: there are a transaction and a key that it was
  -- signed with, the transaction's id was the hash of its data, and the signature leads back to the
  -- expected address.
  pub authorise-Passed :
      (transaction : Option Transaction) (key : Bytes) {sent : Option Transaction}
      → authorise c transaction key expected ≡ ok sent
      → Passed c expected sent
  authorise-Passed none key h =
      let (r, e, _, _, _) = authorise-steps none key h in absurd (sign_none c key r e)
  authorise-Passed (some t) key h =
      let (r, e, m, v, same) = authorise-steps (some t) key h in
      rw same (Passed-by t key r (sign_transaction-Outcome c t key r e) m v)

module _ (c : Crypto) (lawful : IsLawful c) where
  -- With lawful libraries, a transaction whose id is the hash of its data and that the library
  -- signs passes both gates with a key that has the expected address, and comes out signed.
  pub authorise_complete :
      (t t' : Transaction) (key : Bytes) (expected : Text)
      → Signed c t key t'
      → address_from_private_key c key ≡ ok expected
      → authorise c (some t) key expected ≡ ok (some t')
  unfolding authorise
  authorise_complete t t' key expected s a =
      let (public_key, e, e') = address_from_private_key-eq-ok c key a in
      rw (
        sign_transaction_complete c t key t' s,
        verify-sign c lawful t t' key public_key expected s e,
        e',
        (text_beq_iff expected expected).1 refl,
      )
