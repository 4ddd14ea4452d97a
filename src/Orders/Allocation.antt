-- ===== src/Orders/Allocation.antt =====
-- What a new order has got: the index that follows the last one of its wallet, and the address there.
use ucollection.Base.{
  ℕ, suc, ◌≤◌, ◌≡◌, refl, ◌⊎◌, inl, inr, Text, Bool, false, Option, none, some, nat_eq, arith,
}
use ucollection.Orders.{Order, Wallet, Db, Error, Outcome, ok, err}
use ucollection.Orders.Ensures.{Ensures, Ensures-ok, Ensures-check, Ensures-guard, Ensures-bind}
use ucollection.Orders.Create.{
  CreateParams, Statement, max_int32, find_wallet, has_number, or_fail, new_order, with_order,
  created, create_rows, create_order,
}

or_fail-some : {A : Type 0} (e : Error) (o : Option A) (a : A) → or_fail e o ≡ ok a → o ≡ some a
or_fail-some e none a h = cc
or_fail-some e (some b) a h = ground arith

module _ (derive_address : Text → ℕ → Option Text) (now : ℕ) (public_token : Option Text)
    (p : CreateParams) (db : Db) where
  pub record Allocated (o : Order) (after : Db) : Type 0 where
    pub wallet : Wallet
    pub address : Text
    pub token : Text
    pub is_wallet : find_wallet p.master_wallet_id db.master_wallets ≡ some wallet
    pub in_range : suc wallet.last_derived_index ≤ max_int32
    pub is_derived : derive_address wallet.xpub (suc wallet.last_derived_index) ≡ some address
    pub is_token : public_token ≡ some token
    pub is_new : has_number p.merchant_order_no db.orders ≡ false
    pub is_order :
        o ≡ new_order p now db.next_order_id (suc wallet.last_derived_index) address token
    pub rows : after ≡ with_order p (suc wallet.last_derived_index) o db

  module _ (works : Statement → Bool) where
    rows-Allocated :
        Ensures
          (λ (r : Order × Db). Allocated r.0 r.1)
          (create_rows derive_address works now public_token p db)
    unfolding create_rows
    rows-Allocated = Ensures-check _ _ _ (
        Ensures-check _ _ _ (
          Ensures-check _ _ _ (
            Ensures-check _ _ _ (
              Ensures-bind _ _ λ wallet w. Ensures-guard _ _ _ λ fits. Ensures-bind _ _ λ address a.
                Ensures-check _ _ _ (
                  Ensures-bind _ _ λ token t. Ensures-guard _ _ _ λ new. Ensures-check _ _ _ (
                    Ensures-check _ _ _ (
                      Ensures-ok _ (record {
                        wallet = wallet;
                        address = address;
                        token = token;
                        is_wallet = or_fail-some _ _ wallet w;
                        in_range = ground arith;
                        is_derived = or_fail-some _ _ address a;
                        is_token = or_fail-some _ _ token t;
                        is_new = ground arith;
                        is_order = refl;
                        rows = refl;
                      }))))))))

    -- A creation fails and leaves the tables alone, or is committed.
    pub create_order_lem :
        ((e : Error) × (create_order derive_address works now public_token p db ≡ (err e, db)))
        ⊎ ((o : Order) × ((after : Db) × (create_order derive_address works now public_token p db
                ≡ (ok o, after))
              × Allocated o after))
    unfolding create_order
    create_order_lem = created_lem _ rows-Allocated
      where
        created_lem :
            (r : Outcome (Order × Db))
            → Ensures (λ (r : Order × Db). Allocated r.0 r.1) r
            → ((e : Error) × (created db r ≡ (err e, db)))
              ⊎ ((o : Order) × ((after : Db) × (created db r ≡ (ok o, after)) × Allocated o after))
        created_lem (err e) h = inl (e, refl)
        created_lem (ok (o, after)) h = inr (o, (after, refl, h.at (o, after) refl))
