-- ===== src/SelfCheck/Tests.antt =====
-- The self-check at the transaction of Sign/Example.
use ucollection.Base.{◌≡◌, refl, ◌∙◌, true, some, ◌==◌, text_eq, text_beq_iff}
use ucollection.Base.Result.{ok, ◌>>=◌}
use ucollection.Crypto.Toy.{toy, toy-IsLawful}
use ucollection.TronAddress.{public_key_to_tron_address}
use ucollection.Sign.Example.{
  key, public_key, prepared, signed, signed-Signed, address_of, public_key_to_tron_address-toy,
}
use ucollection.SelfCheck.{verify_signer_address}
use ucollection.SelfCheck.Laws.{verify-sign}
use ucollection.SelfCheck.Verified.{Verified, verify_signer_address-Verified}

verify-sign_example :
    verify_signer_address toy (some signed) (address_of key)
    ≡ (public_key_to_tron_address toy public_key >>= λ a. ok (a == address_of key))
verify-sign_example =
    verify-sign toy toy-IsLawful prepared signed key public_key (address_of key) signed-Signed refl

verified : verify_signer_address toy (some signed) (address_of key) ≡ ok true
verified =
    verify-sign toy toy-IsLawful prepared signed key public_key (address_of key) signed-Signed refl
    ∙ rw (
      public_key_to_tron_address-toy key,
      (text_beq_iff (address_of key) (address_of key)).1 refl,
    )

verify_signer_address-Verified_example : Verified toy signed (address_of key)
verify_signer_address-Verified_example =
    verify_signer_address-Verified toy (address_of key) signed verified
