-- ===== src/Orders.antt =====
-- internal/order: the orders of the merchants, their states, and the tables that go with them. Times are
-- seconds. Amounts are natural numbers of the smallest unit, which the tables hold as `int64`; a sum of
-- them that is too big for it is a query that fails. The bounds of an order, which are computed in
-- `int64`, are integers.
pub mod Changes
mod Ensures
pub mod Moves
pub mod Create
mod Bounds
pub mod Allocation
pub mod Steps
pub mod Consistent
mod Sources
pub mod Reaches
pub mod Final
pub mod Kept
pub mod Judged
pub mod Timed
pub mod Indices
mod Tests
use ucollection.Base.Int.{ℤ}
use ucollection.Base.{
  ℕ, ◌+◌, Text, codes, List, [], ◌∷◌, Bool, true, false, Option, none, some, ◌==◌, nat_eq, text_eq,
  if◌then◌else◌,
}

pub data Status : Type 0 where
  pending confirming completed overpaid confirmation_stalled expired : Status

-- The text of a status.
abbrev pub status_text : Status → Text
status_text pending = codes "PENDING"
status_text confirming = codes "CONFIRMING"
status_text completed = codes "COMPLETED"
status_text overpaid = codes "OVERPAID"
status_text confirmation_stalled = codes "CONFIRMATION_STALLED"
status_text expired = codes "EXPIRED"

-- The statuses are compared as texts.
abbrev pub status_eq : Status → Status → Bool
status_eq s t = status_text s == status_text t

-- `terminalStatuses`
abbrev pub is_terminal : Status → Bool
is_terminal pending = false
is_terminal confirming = false
is_terminal completed = true
is_terminal overpaid = true
is_terminal confirmation_stalled = true
is_terminal expired = true

-- A row of `orders`.
pub record Order : Type 0 where
  pub id : ℕ
  pub merchant_order_no : Text
  pub public_token : Text
  pub master_wallet_id : ℕ
  pub derivation_index : ℕ
  pub address : Text
  pub status : Status
  pub target_amount : ℕ
  pub amount_lower_bound : ℤ
  pub amount_upper_bound : ℤ
  pub validity_seconds : ℕ
  pub confirmation_stall_timeout_seconds : ℕ
  pub expires_at : ℕ
  pub confirming_at : Option ℕ
  pub updated_at : ℕ

-- A row of `incoming_transactions`.
pub record Incoming : Type 0 where
  pub order_id : ℕ
  pub amount : ℕ
  pub confirmed : Bool

-- What a decision was based on.
pub data Snapshot : Type 0 where
  detected : (detected_amount : ℕ) (amount_lower_bound : ℤ) → Snapshot
  judged : (confirmed_amount : ℕ) (amount_lower_bound amount_upper_bound : ℤ) → Snapshot
  due : (expires_at : ℕ) → Snapshot
  waited : (confirming_at deadline : ℕ) → Snapshot
  manual : (from : Status) → Snapshot

-- A row of `order_state_transitions`.
pub record Transition : Type 0 where
  pub order_id : ℕ
  pub from_status : Status
  pub to_status : Status
  pub changed_by : Text
  pub note : Text
  pub decision_snapshot : Snapshot

-- A row of `webhook_deliveries`, with the parts of its payload.
pub record Delivery : Type 0 where
  pub event_id : Text
  pub order_id : ℕ
  pub event_type : Text
  pub merchant_order_no : Text
  pub status : Text
  pub target_amount : Text
  pub total_confirmed_amount : Text
  pub occurred_at : ℕ
  pub delivery_status : Text
  pub next_retry_at : Option ℕ

-- A row of `master_wallets`.
pub record Wallet : Type 0 where
  pub id : ℕ
  pub xpub : Text
  pub last_derived_index : ℕ

-- The tables, the latest row in front, the two columns of `system_params`, and the next id of an order.
pub record Db : Type 0 where
  pub orders : List Order
  pub incoming_transactions : List Incoming
  pub order_state_transitions : List Transition
  pub webhook_deliveries : List Delivery
  pub master_wallets : List Wallet
  pub webhook_url : Option Text
  pub webhook_secret : Option Text
  pub next_order_id : ℕ

pub data Error : Type 0 where
  transition_not_due invalid_transition order_not_found manual_transition_not_allowed : Error
  database no_random confirming_at_null : Error
  target_not_positive index_exceeds_range no_wallet bad_xpub duplicate_merchant_order_no : Error

pub data Outcome {ℓ} (A : Type ℓ) : Type ℓ where
  err : Error → Outcome A
  ok : A → Outcome A

infixl 5 ◌>>=◌ ◌>>◌
unfoldable pub ◌>>=◌ {ℓ κ} : {A : Type ℓ} {B : Type κ} → Outcome A → (A → Outcome B) → Outcome B
err e >>= rest = err e
ok a >>= rest = rest a

unfoldable pub ◌>>◌ {ℓ} : {B : Type ℓ} → Outcome (Unit {0}) → Outcome B → Outcome B
unfolding ◌>>=◌
m >> rest = m >>= λ _. rest

abbrev pub check : Bool → Error → Outcome (Unit {0})
check true e = ok tt
check false e = err e

-- The row of an order, and the rows with one changed.
unfoldable pub find_order : ℕ → List Order → Option Order
find_order id [] = none
find_order id (o ∷ os) = if o.id == id then some o else find_order id os

unfoldable pub update_order : ℕ → (Order → Order) → List Order → List Order
update_order id f [] = []
update_order id f (o ∷ os) = (if o.id == id then f o else o) ∷ update_order id f os

-- `COALESCE(SUM(amount), 0)` over all rows of the order, and over the confirmed ones.
unfoldable pub sum_amount : ℕ → List Incoming → ℕ
sum_amount id [] = 0
sum_amount id (t ∷ ts) = (if t.order_id == id then t.amount else 0) + sum_amount id ts

unfoldable pub sum_confirmed_amount : ℕ → List Incoming → ℕ
sum_confirmed_amount id [] = 0
sum_confirmed_amount id (t ∷ ts) =
    (if t.order_id == id then if t.confirmed then t.amount else 0 else 0)
    + sum_confirmed_amount id ts
