-- ===== src/Base/Result.antt =====
-- What a JavaScript call gives: a value, or the error that it throws.
use Prim.Native.Nat.{ℕ}
use mathlib.Core.Path.{◌≡◌, refl}
use mathlib.Core.Logic.{◌⊎◌, inl, inr}
use mathlib.Core.Option.{Option}
use ucollection.Base.Strings.{Text}

-- One constructor for each kind of `throw new Error(...)` of web/js-src, with what the message joins in;
-- `library`, `type_error` and `network` are thrown by a library, the engine and `fetch`.
pub data Failure : Type 0 where
  bad_mnemonic bad_index bad_key_format key_out_of_range bad_public_key : Failure
  missing_transaction missing_tx_id bad_signature : Failure
  amount_not_positive amount_decimals amount_format : Failure
  library type_error network wrong_password : Failure
  totp_intercepted : Failure
  http_status : ℕ → Failure
  server_message : Text → Failure
  tx_id_mismatch signer_mismatch not_verified : Failure
  xpub_mismatch fee_source_mismatch : Failure
  address_mismatch : ℕ → Failure
  chain_failed chain_timeout : Text → Option Text → Failure

-- A call that threw is an `err`, one that returned an `ok`.
pub data Result {ℓ} (A : Type ℓ) : Type ℓ where
  err : Failure → Result A
  ok : A → Result A

module _ {ℓ κ} {A : Type ℓ} {B : Type κ} where
  infixl 5 ◌>>=◌
  abbrev pub ◌>>=◌ : Result A → (A → Result B) → Result B
  err e >>= rest = err e
  ok a >>= rest = rest a

  -- What a chain that returned has gone through.
  pub >>=-eq-ok :
      (r : Result A) (rest : A → Result B) {last : B}
      → (r >>= rest) ≡ ok last
      → (first : A) × (r ≡ ok first) × (rest first ≡ ok last)
  >>=-eq-ok (err e) rest h = cc
  >>=-eq-ok (ok a) rest h = (a, refl, h)

module _ {ℓ} {A : Type ℓ} where
  pub Result-cases : (r : Result A) → ((a : A) × (r ≡ ok a)) ⊎ ((e : Failure) × (r ≡ err e))
  Result-cases (err e) = inr (e, refl)
  Result-cases (ok a) = inl (a, refl)
