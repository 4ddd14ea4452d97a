-- ===== src/Derive/Example.antt =====
-- A small HD wallet to run the derivations on: a node is its key, and child `i` adds `i` to the first
-- byte.
use ucollection.Base.{ℕ, ◌+◌, ◌≡◌, refl, ap, Text, codes, [], ◌∷◌, not, some, is_empty, trim, arith}
use ucollection.Base.Result.{Result, ok, ◌>>=◌}
use ucollection.Crypto.{Bytes}
use ucollection.Crypto.Toy.{toy}
use ucollection.Sign.Example.{address_of, public_key_to_tron_address-toy}
use ucollection.Derive.{
  HdWallet, address_from_private_key, account_node, seed_from_validated_mnemonic,
  derive_consolidation_key,
}
use ucollection.Derive.Laws.{FollowsPaths}

abbrev child : ℕ → Bytes → Bytes
child i [] = []
child i (b ∷ s) = (b + i) ∷ s

abbrev pub toy_wallet : HdWallet Bytes
toy_wallet = record {
  validate_mnemonic = λ m. not (is_empty m);
  mnemonic_to_seed = λ m. m;
  from_master_seed = λ s. ok s;
  derive = λ n path. ok n;
  derive_child = λ n i. ok (child i n);
  private_key = λ n. n;
  public_extended_key = λ n. n;
}

pub FollowsPaths-toy_wallet : FollowsPaths toy_wallet
FollowsPaths-toy_wallet = record { along = λ master. ap ok (unmoved master) }
  where
    unmoved : (n : Bytes) → n ≡ child 0 (child 0 n)
    unmoved [] = refl
    unmoved (b ∷ s) = ap (λ (j : ℕ). j ∷ s) (omega arith)

pub address_from_private_key-toy : (k : Bytes) → address_from_private_key toy k ≡ ok (address_of k)
unfolding address_from_private_key
address_from_private_key-toy k = public_key_to_tron_address-toy k

-- The key of the mnemonic "seed" for an index.
abbrev pub seed_key : ℕ → Bytes
seed_key index = (b's' + 0 + index) ∷ codes "eed"

pub derive_consolidation_key-toy :
    (index : ℕ)
    → derive_consolidation_key toy_wallet toy (some (codes "seed")) (some index)
      ≡ ok (record {
        private_key = seed_key index;
        xpub = codes "seed";
        address = address_of (seed_key index);
      })
unfolding derive_consolidation_key account_node seed_from_validated_mnemonic trim
    address_from_private_key
derive_consolidation_key-toy index =
    ap
      (λ (r : Result Text).
        r >>= λ a. ok (record { private_key = seed_key index; xpub = codes "seed"; address = a }))
      (public_key_to_tron_address-toy (seed_key index))
