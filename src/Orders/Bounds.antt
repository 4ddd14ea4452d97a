-- ===== src/Orders/Bounds.antt =====
-- The bounds of a new order: where nothing wraps around, they lie the tolerance around the amount.
use mathlib.Core.Path.{subst}
use ucollection.Base.{
  ℕ, ◌+◌, ◌-◌, ◌*◌, ◌/◌, ◌≤◌, ◌<◌, ◌≡◌, ap, ◌∙◌, inl, inr, Text, Bool, Option, arith,
}
use ucollection.Base.Int.{pos}
use ucollection.Base.Words.{sign_bit, add_int64, sub_int64, div_int64}
use ucollection.Base.Words.Laws.{add_int64_small, sub_int64_small, mul_int64_small}
use ucollection.Orders.{Order, Db, ok}
use ucollection.Orders.Create.{CreateParams, Statement, tolerance, create_order}
use ucollection.Orders.Allocation.{Allocated, create_order_lem}

share_le : (m b : ℕ) → b ≤ 10000 → m * b / 10000 ≤ m
share_le m b h = grind arith

-- The share of the amount that may be missing, or be too much.
abbrev pub share : CreateParams → ℕ
share p = p.target_amount * p.tolerance_bps / 10000

-- The bounds lie that share around the amount.
pub record Tolerated (p : CreateParams) (o : Order) : Type 0 where
  pub target : o.target_amount ≡ p.target_amount
  pub covers : share p ≤ p.target_amount
  pub lower : o.amount_lower_bound ≡ pos (p.target_amount - share p)
  pub upper : o.amount_upper_bound ≡ pos (p.target_amount + share p)

module _ (p : CreateParams) (most : p.tolerance_bps ≤ 10000)
    (product : p.target_amount * p.tolerance_bps < sign_bit)
    (sum : p.target_amount + share p < sign_bit) where
  tolerance_lem : tolerance p ≡ pos (share p)
  tolerance_lem =
      ap (λ x. div_int64 x 10000)
        (mul_int64_small p.target_amount p.tolerance_bps (omega arith) (omega arith) product)

  Allocated-Tolerated :
      (derive_address : Text → ℕ → Option Text) (now : ℕ) (public_token : Option Text) (db : Db)
      (o : Order) (after : Db)
      → Allocated derive_address now public_token p db o after
      → Tolerated p o
  Allocated-Tolerated derive_address now public_token db o after a = record {
    target = ap (λ (r : Order). r.target_amount) a.is_order;
    covers = share_le p.target_amount p.tolerance_bps most;
    lower =
        ap (λ (r : Order). r.amount_lower_bound) a.is_order
        ∙ ap (sub_int64 (pos p.target_amount)) tolerance_lem
        ∙ sub_int64_small p.target_amount (share p) (omega arith)
            (share_le p.target_amount p.tolerance_bps most);
    upper =
        ap (λ (r : Order). r.amount_upper_bound) a.is_order
        ∙ ap (add_int64 (pos p.target_amount)) tolerance_lem
        ∙ add_int64_small p.target_amount (share p) sum;
  }

  -- If the creation of an order is committed, the tolerance is not over 100 percent, and neither
  -- its product with the amount nor the upper bound exceeds what 64 bits with a sign hold, then the
  -- bounds of the order lie around the amount by the share that the tolerance gives, rounded down,
  -- and the lower one is not negative.
  pub create_order-Tolerated :
      (derive_address : Text → ℕ → Option Text) (works : Statement → Bool) (now : ℕ)
      (public_token : Option Text) (db : Db) (o : Order) (after : Db)
      → create_order derive_address works now public_token p db ≡ (ok o, after)
      → Tolerated p o
  create_order-Tolerated derive_address works now public_token db o after e =
      elim (create_order_lem derive_address now public_token p db works) [
        | inl (f, failed) ↦ absurd (cc (e, failed))
        | inr (new, (rows, done, a)) ↦
            let same : new ≡ o = ground (arith, e, done) in
            subst (Tolerated p) same
              (Allocated-Tolerated derive_address now public_token db new rows a)
      ]
