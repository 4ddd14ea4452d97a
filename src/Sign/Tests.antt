-- ===== src/Sign/Tests.antt =====
-- The theorems on signing at the transaction of Sign/Example.
use ucollection.Crypto.Toy.{toy}
use ucollection.Sign.Laws.{matched, Outcome, sign_transaction_complete, sign_transaction-Outcome}
use ucollection.Sign.Example.{key, prepared, signed, signed-Signed}

sign_transaction-Outcome_example : Outcome toy prepared key (matched signed)
sign_transaction-Outcome_example =
    sign_transaction-Outcome toy prepared key (matched signed)
      (sign_transaction_complete toy prepared key signed signed-Signed)
