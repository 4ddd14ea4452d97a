-- ===== src/Page/Gate.antt =====
-- The two gates in front of a broadcast, which `processOneItem` and `prepareSignBroadcast` share:
-- the id that was computed again, and the address that the signature leads back to.
pub mod Laws
pub mod Log
use ucollection.Base.{Text, Bool, true, false, not, Option, if◌then◌else◌}
use ucollection.Base.Result.{Result, ok, err, ◌>>=◌, tx_id_mismatch, signer_mismatch}
use ucollection.Crypto.{Bytes, Crypto}
use ucollection.Sign.{Transaction, sign_transaction}
use ucollection.SelfCheck.{verify_signer_address}

pub authorise : Crypto → Option Transaction → Bytes → Text → Result (Option Transaction)
authorise c transaction private_key expected_address = do
  r ← sign_transaction c transaction private_key
  if not r.tx_id_matched then err tx_id_mismatch else do
    same ← verify_signer_address c r.signed_transaction expected_address
    if not same then err signer_mismatch else ok r.signed_transaction
