-- ===== src/Sign/Example.antt =====
-- A transaction, a key and an address to run the signing code on, with the toy libraries.
use ucollection.Base.{◌%◌, ◌≡◌, ◌≤◌, refl, ap, Text, codes, [], ◌∷◌, some, replicate, arith}
use ucollection.Base.Result.{ok}
use ucollection.Crypto.{Bytes}
use ucollection.Crypto.Toy.{toy, encode, decode, head_byte}
use ucollection.TronAddress.{public_key_to_tron_address}
use ucollection.TronAddress.Laws.{payload_lem}
use ucollection.Sign.{Transaction, to_rsv}
use ucollection.Sign.Laws.{Signed}

abbrev pub key : Bytes
key = 7 ∷ []

abbrev pub public_key : Bytes
public_key = 4 ∷ replicate 64 7

abbrev pub prepared : Transaction
prepared = record {
  raw_data_hex = some (codes "0102");
  tx_id = some (encode (replicate 32 1));
  signature = [];
  rest = [];
}

abbrev pub signed : Transaction
signed = record {
  raw_data_hex = some (codes "0102");
  tx_id = some (encode (replicate 32 1));
  signature = encode (to_rsv (0 ∷ replicate 64 7)) ∷ [];
  rest = [];
}

pub signed-Signed : Signed toy prepared key signed
unfolding encode decode
signed-Signed = record {
  raw = codes "0102";
  tx_id = encode (replicate 32 1);
  raw_bytes = 1 ∷ 2 ∷ [];
  tx_id_bytes = replicate 32 1;
  sig = 0 ∷ replicate 64 7;
  has_raw = refl;
  has_tx_id = refl;
  reads_raw = refl;
  hashed = refl;
  reads_tx_id = refl;
  signs = refl;
  result = refl;
}

-- The address of a key of the toy libraries.
abbrev pub address_of : Bytes → Text
address_of k = encode (0x41 ∷ replicate 20 (head_byte k % 256))

pub public_key_to_tron_address-toy :
    (k : Bytes)
    → public_key_to_tron_address toy (4 ∷ replicate 64 (head_byte k)) ≡ ok (address_of k)
unfolding public_key_to_tron_address
public_key_to_tron_address-toy k =
    let long : 20 ≤ 32 = omega arith in
    ap (λ (b : Bytes). ok (encode b)) (payload_lem toy (4 ∷ replicate 64 (head_byte k)) long)
