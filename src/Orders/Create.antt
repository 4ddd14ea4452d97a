-- ===== src/Orders/Create.antt =====
-- internal/order/create.go: a new order with an address of its own. `derive_address`, a parameter, is the
-- derivation by the third-party libraries behind hdwallet.DeriveAddress; the tolerance is given in basis
-- points, to which the source rounds the percentage. Durations are below the 292 years that fit the
-- nanoseconds of the source.
use ucollection.Base.{
  ℕ, suc, ◌+◌, Text, List, [], ◌∷◌, Bool, false, not, ◌||◌, Option, none, some, ltb, ◌==◌, nat_eq,
  text_eq, if◌then◌else◌,
}
use ucollection.Base.Int.{ℤ, pos}
use ucollection.Base.Words.{add_int64, sub_int64, mul_int64, div_int64}
use ucollection.Orders.{
  pending, Order, Wallet, Db, database, no_random, target_not_positive, index_exceeds_range,
  no_wallet, bad_xpub, duplicate_merchant_order_no, Error, Outcome, ok, err, ◌>>=◌, ◌>>◌, check,
}

pub record CreateParams : Type 0 where
  pub merchant_order_no : Text
  pub master_wallet_id : ℕ
  pub target_amount : ℕ
  pub validity_seconds : ℕ
  pub tolerance_bps : ℕ
  pub confirmation_stall_timeout_seconds : ℕ

pub data Statement : Type 0 where
  begin advisory_lock load_wallet advance insert commit : Statement

-- `math.MaxInt32`
abbrev pub max_int32 : ℕ
max_int32 = 2147483647

unfoldable pub find_wallet : ℕ → List Wallet → Option Wallet
find_wallet id [] = none
find_wallet id (w ∷ ws) = if w.id == id then some w else find_wallet id ws

unfoldable pub advance_wallet : ℕ → ℕ → List Wallet → List Wallet
advance_wallet id index [] = []
advance_wallet id index (w ∷ ws) =
    (if w.id == id then record w { last_derived_index = index } else w) ∷ advance_wallet id index ws

-- The unique constraint on the merchant's number.
unfoldable pub has_number : Text → List Order → Bool
has_number number [] = false
has_number number (o ∷ os) = o.merchant_order_no == number || has_number number os

abbrev pub or_fail {ℓ} : {A : Type ℓ} → Error → Option A → Outcome A
or_fail e none = err e
or_fail e (some a) = ok a

-- `toleranceBounds`
abbrev pub tolerance : CreateParams → ℤ
tolerance p = div_int64 (mul_int64 (pos p.target_amount) (pos p.tolerance_bps)) 10000

abbrev pub new_order : CreateParams → (now id index : ℕ) (address public_token : Text) → Order
new_order p now id index address public_token = record {
  id = id;
  merchant_order_no = p.merchant_order_no;
  public_token = public_token;
  master_wallet_id = p.master_wallet_id;
  derivation_index = index;
  address = address;
  status = pending;
  target_amount = p.target_amount;
  amount_lower_bound = sub_int64 (pos p.target_amount) (tolerance p);
  amount_upper_bound = add_int64 (pos p.target_amount) (tolerance p);
  validity_seconds = p.validity_seconds;
  confirmation_stall_timeout_seconds = p.confirmation_stall_timeout_seconds;
  expires_at = now + p.validity_seconds;
  confirming_at = none;
  updated_at = now;
}

abbrev pub with_order : CreateParams → ℕ → Order → Db → Db
with_order p index o db = record db {
  orders = o ∷ db.orders;
  master_wallets = advance_wallet p.master_wallet_id index db.master_wallets;
  next_order_id = suc db.next_order_id;
}

abbrev pub created : Db → Outcome (Order × Db) → Outcome Order × Db
created db (err e) = (err e, db)
created db (ok (o, after)) = (ok o, after)

module _ (derive_address : Text → ℕ → Option Text) (works : Statement → Bool) (now : ℕ)
    (public_token : Option Text) (p : CreateParams) where
  unfoldable pub create_rows : Db → Outcome (Order × Db)
  create_rows db = do
    check (not (p.target_amount == 0)) target_not_positive
    check (works begin) database
    check (works advisory_lock) database
    check (works load_wallet) database
    wallet ← or_fail no_wallet (find_wallet p.master_wallet_id db.master_wallets)
    let index = suc wallet.last_derived_index
    check (not (ltb max_int32 index)) index_exceeds_range
    address ← or_fail bad_xpub (derive_address wallet.xpub index)
    check (works advance) database
    token ← or_fail no_random public_token
    check (not (has_number p.merchant_order_no db.orders)) duplicate_merchant_order_no
    check (works insert) database
    check (works commit) database
    let o = new_order p now db.next_order_id index address token
    ok (o, with_order p index o db)

  -- `CreateOrder`
  unfoldable pub create_order : Db → Outcome Order × Db
  create_order db = created db (create_rows db)
