-- ===== src/Derive/Tests.antt =====
-- The derivations with a small HD wallet: a node is its key, and child `i` adds `i` to the first byte.
use ucollection.Base.{◌≡◌, ap, Text, [], ◌∷◌, some, replicate, is_hex_digit, trim}
use ucollection.Base.Result.{Result, ok, ◌>>=◌}
use ucollection.Crypto.Toy.{toy, decode}
use ucollection.Sign.Example.{address_of, public_key_to_tron_address-toy}
use ucollection.Derive.{address_from_private_key, fee_topup_key_from_private_key_hex}

abbrev hex_key : Text
hex_key = replicate 64 b'1'

from_hex :
    fee_topup_key_from_private_key_hex toy (some hex_key)
    ≡ ok (record { private_key = replicate 32 0x11; address = address_of (0x11 ∷ []) })
unfolding fee_topup_key_from_private_key_hex trim is_hex_digit decode address_from_private_key
from_hex =
    ap
      (λ (r : Result Text). r >>= λ a. ok (record { private_key = replicate 32 0x11; address = a }))
      (public_key_to_tron_address-toy (0x11 ∷ []))
