-- ===== src/Orders/Changes.antt =====
-- internal/order/transition.go, evaluate.go and manual.go: a change of state in one transaction of the
-- database, the four automatic changes, and the manual one. The argument `works` says which statements
-- of the call succeed; `event_id` is what `randomToken` gives; a call sees one time, `now`.
use ucollection.Base.{
  ℕ, ◌+◌, Text, codes, List, [], ◌∷◌, ◌++◌, Bool, false, not, ◌&&◌, ◌||◌, Option, none, some, ltb,
  nat_eq, text_eq, if◌then◌else◌, is_empty,
}
use ucollection.Base.Decimal.{to_string}
use ucollection.Base.Int.{pos}
use ucollection.Base.Words.{ltb_int64}
use ucollection.Orders.{
  Status, pending, confirming, completed, overpaid, confirmation_stalled, expired, status_text,
  status_eq, is_terminal, Order, Snapshot, detected, judged, due, waited, manual, Delivery, Db,
  transition_not_due, invalid_transition, order_not_found, manual_transition_not_allowed, database,
  no_random, confirming_at_null, Outcome, ok, err, ◌>>=◌, ◌>>◌, check, find_order, update_order,
  sum_amount, sum_confirmed_amount,
}

-- The statements of a transaction, and where the caller's own query runs.
pub data Statement : Type 0 where
  begin lock query update journal sum params deliver commit : Statement

abbrev pub status_in : Status → List Status → Bool
status_in s [] = false
status_in s (t ∷ ts) = status_eq s t || status_in s ts

-- What a decision gives: none where the condition is not met.
abbrev pub Decide : Type 0
Decide = Db → Order → Outcome (Option (Status × Snapshot))

abbrev pub found : Option Order → Outcome Order
found none = err order_not_found
found (some o) = ok o

abbrev pub met : Option (Status × Snapshot) → Outcome (Status × Snapshot)
met none = err transition_not_due
met (some d) = ok d

abbrev pub confirming_from : Status → ℕ → Option ℕ → Option ℕ
confirming_from confirming now old = some now
confirming_from _ now old = old

abbrev pub with_status : ℕ → Status → Order → Order
with_status now to o = record o {
  status = to;
  confirming_at = confirming_from to now o.confirming_at;
  updated_at = now;
}

-- The rows after the UPDATE and the INSERT into the journal.
abbrev pub moved : ℕ → (changed_by note : Text) → Order → Status → Snapshot → Db → Db
moved now changed_by note current to snapshot db = record db {
  orders = update_order current.id (with_status now to) db.orders;
  order_state_transitions =
      record {
        order_id = current.id;
        from_status = current.status;
        to_status = to;
        changed_by = changed_by;
        note = note;
        decision_snapshot = snapshot;
      }
      ∷ db.order_state_transitions;
}

abbrev pub is_set : Option Text → Bool
is_set none = false
is_set (some t) = not (is_empty t)

abbrev pub drawn : Option Text → Outcome Text
drawn none = err no_random
drawn (some t) = ok t

-- The new row of `webhook_deliveries`.
abbrev pub delivery : ℕ → Text → Order → Status → ℕ → Db → Delivery
delivery now event_id o to confirmed_amount db =
    let configured = is_set db.webhook_url && is_set db.webhook_secret in
    record {
      event_id = event_id;
      order_id = o.id;
      event_type = codes "ORDER_" ++ status_text to;
      merchant_order_no = o.merchant_order_no;
      status = status_text to;
      target_amount = to_string o.target_amount;
      total_confirmed_amount = to_string confirmed_amount;
      occurred_at = now;
      delivery_status = if configured then codes "pending" else codes "awaiting_config";
      next_retry_at = if configured then some now else none;
    }

abbrev pub delivered : ℕ → Text → Order → Status → Db → Db
delivered now event_id o to db = record db {
  webhook_deliveries =
      delivery now event_id o to (sum_confirmed_amount o.id db.incoming_transactions) db
      ∷ db.webhook_deliveries;
}

-- A transaction that failed is rolled back.
abbrev pub committed : Db → Outcome Db → Outcome (Unit {0}) × Db
committed db (err e) = (err e, db)
committed db (ok after) = (ok tt, after)

abbrev pub decide_confirming : (Statement → Bool) → Decide
decide_confirming works db current = do
  check (works query) database
  let detected_amount = sum_amount current.id db.incoming_transactions
  let snapshot = detected detected_amount current.amount_lower_bound
  ok (
      if ltb_int64 (pos detected_amount) current.amount_lower_bound
      then none
      else some (confirming, snapshot))

abbrev pub decide_final : (Statement → Bool) → Decide
decide_final works db current = do
  check (works query) database
  let amount = sum_confirmed_amount current.id db.incoming_transactions
  let snapshot = judged amount current.amount_lower_bound current.amount_upper_bound
  let outcome = if ltb_int64 current.amount_upper_bound (pos amount) then overpaid else completed
  ok (if ltb_int64 (pos amount) current.amount_lower_bound then none else some (outcome, snapshot))

abbrev pub decide_expired : ℕ → Decide
decide_expired now db current =
    ok (if ltb current.expires_at now then some (expired, due current.expires_at) else none)

abbrev pub stalled_since : ℕ → Order → Option ℕ → Outcome (Option (Status × Snapshot))
stalled_since now o none = err confirming_at_null
stalled_since now o (some at) =
    let deadline = at + o.confirmation_stall_timeout_seconds in
    let snapshot = waited at deadline in
    ok (if ltb deadline now then some (confirmation_stalled, snapshot) else none)

abbrev pub decide_stalled : ℕ → Decide
decide_stalled now db current = stalled_since now current current.confirming_at

-- The sources from which `manualWhitelist` leads to a status.
abbrev pub manual_sources : Status → List Status
manual_sources completed = confirmation_stalled ∷ expired ∷ []
manual_sources overpaid = confirmation_stalled ∷ expired ∷ []
manual_sources expired = confirmation_stalled ∷ []
manual_sources _ = []

abbrev pub decide_manual : Status → Decide
decide_manual to db current = ok (some (to, manual current.status))

module _ (works : Statement → Bool) (now : ℕ) (event_id : Option Text) where
  unfoldable pub insert_webhook_delivery : Order → Status → Db → Outcome Db
  insert_webhook_delivery o to db = do
    check (works sum) database
    check (works params) database
    id ← drawn event_id
    check (works deliver) database
    ok (delivered now id o to db)

  -- The transaction on its own view of the tables, up to the commit.
  unfoldable pub transition_rows :
      (order_id : ℕ) (allowed_from : List Status) (decide : Decide) (changed_by note : Text)
      → Db
      → Outcome Db
  transition_rows order_id allowed_from decide changed_by note db = do
    check (works begin) database
    check (works lock) database
    current ← found (find_order order_id db.orders)
    check (status_in current.status allowed_from) invalid_transition
    decided ← decide db current
    (to, snapshot) ← met decided
    check (works update) database
    check (works journal) database
    let after = moved now changed_by note current to snapshot db
    last ← (if is_terminal to then insert_webhook_delivery current to after else ok after)
    check (works commit) database
    ok last

  unfoldable pub transition :
      (order_id : ℕ) (allowed_from : List Status) (decide : Decide) (changed_by note : Text)
      → Db
      → Outcome (Unit {0}) × Db
  transition order_id allowed_from decide changed_by note db =
      committed db (transition_rows order_id allowed_from decide changed_by note db)

  -- `EvaluateConfirming`
  unfoldable pub evaluate_confirming : ℕ → Db → Outcome (Unit {0}) × Db
  evaluate_confirming order_id =
      transition order_id (pending ∷ []) (decide_confirming works) (codes "system")
        (codes "偵測到入帳金額達下界")

  -- `EvaluateFinal`
  unfoldable pub evaluate_final : ℕ → Db → Outcome (Unit {0}) × Db
  evaluate_final order_id =
      transition order_id (confirming ∷ []) (decide_final works) (codes "system")
        (codes "鏈上最終確定金額判定")

  -- `ExpireIfDue`
  unfoldable pub expire_if_due : ℕ → Db → Outcome (Unit {0}) × Db
  expire_if_due order_id =
      transition order_id (pending ∷ []) (decide_expired now) (codes "system")
        (codes "訂單有效期到期，累計金額仍未達下界")

  -- `MarkStalled`
  unfoldable pub mark_stalled : ℕ → Db → Outcome (Unit {0}) × Db
  mark_stalled order_id =
      transition order_id (confirming ∷ []) (decide_stalled now) (codes "system")
        (codes "確認等待逾時仍未達最終確定")

  -- `ManualTransition`
  unfoldable pub manual_transition : ℕ → Status → (actor note : Text) → Db → Outcome (Unit {0}) × Db
  manual_transition order_id to actor note db =
      if is_empty (manual_sources to)
      then (err manual_transition_not_allowed, db)
      else transition order_id (manual_sources to) (decide_manual to) actor note db
