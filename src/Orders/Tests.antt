-- ===== src/Orders/Tests.antt =====
-- The theorems on the orders at one order that is created, paid and completed.
use ucollection.Base.{
  ℕ, ◌≤◌, ◌≡◌, ◌≢◌, refl, Text, codes, [], ◌∷◌, Bool, true, Option, none, some, map, text_beq,
  arith,
}
use ucollection.Base.Int.{pos}
use ucollection.Orders.{
  completed, confirming_at_null, Order, Incoming, Db, ok, err, ◌>>=◌, ◌>>◌, find_order,
  update_order, sum_amount, sum_confirmed_amount,
}
use ucollection.Orders.Changes.{
  Statement, transition_rows, transition, insert_webhook_delivery, evaluate_confirming,
  evaluate_final, mark_stalled,
}
use ucollection.Orders.Create
use ucollection.Orders.Create.{
  CreateParams, new_order, create_order, create_rows, find_wallet, advance_wallet, has_number,
}
use ucollection.Orders.Steps.{
  Reach, here, next, adds_wallet, creates, scans, evaluates_confirming, evaluates_final, stalls,
  no_orders,
}
use ucollection.Orders.Bounds.{Tolerated, create_order-Tolerated}
use ucollection.Orders.Consistent.{Consistent, announcement}
use ucollection.Orders.Reaches.{Reach-no_orders-Consistent}
use ucollection.Orders.Final.{changes_of, webhooks_of, changes_bounded}
use ucollection.Orders.Kept.{final_orders_kept}
use ucollection.Orders.Judged.{Judged, evaluate_final-Judged}
use ucollection.Orders.Timed.{mark_stalled_has_time}
use ucollection.Orders.Indices.{AreNumbered, Reach-AreNumbered}

abbrev derive_address : Text → ℕ → Option Text
derive_address xpub index = some (codes "T")

abbrev works : Statement → Bool
works s = true

abbrev all_works : Create.Statement → Bool
all_works s = true

abbrev params : CreateParams
params = record {
  merchant_order_no = codes "A1";
  master_wallet_id = 3;
  target_amount = 1000;
  validity_seconds = 900;
  tolerance_bps = 100;
  confirmation_stall_timeout_seconds = 600;
}

abbrev token : Option Text
token = some (codes "x")

abbrev with_wallet : Db
with_wallet = record (no_orders none none) {
  master_wallets = record { id = 3; xpub = codes "xpub"; last_derived_index = 0 } ∷ [];
}

abbrev ordered : Db
ordered = (create_order derive_address all_works 100 token params with_wallet).1

abbrev new : Order
new = new_order params 100 1 1 (codes "T") (codes "x")

created : create_order derive_address all_works 100 token params with_wallet ≡ (ok new, ordered)
unfolding create_order create_rows find_wallet advance_wallet has_number ◌>>=◌ ◌>>◌
created = refl

create_order-Tolerated_example : Tolerated params new
create_order-Tolerated_example =
    create_order-Tolerated params (omega arith) (omega arith) (omega arith) derive_address all_works
      100 token with_wallet new ordered created

abbrev payment : Incoming
payment = record { order_id = 1; amount = 995; confirmed = true }

abbrev paid : Db
paid = record ordered { incoming_transactions = payment ∷ [] }

abbrev detected : Db
detected = (evaluate_confirming works 120 token 1 paid).1

abbrev done : Db
done = (evaluate_final works 180 token 1 detected).1

abbrev done_later : Db
done_later = (mark_stalled works 2000 token 1 done).1

no_wallets : find_wallet 3 [] ≡ none
unfolding find_wallet
no_wallets = refl

abbrev to_detected : Reach derive_address (no_orders none none) detected
to_detected =
    next
      (next
        (next (next here (adds_wallet 3 (codes "xpub") no_wallets))
          (creates all_works 100 token params))
        (scans (payment ∷ [])))
      (evaluates_confirming works 120 token 1)

abbrev to_done : Reach derive_address (no_orders none none) done
to_done = next to_detected (evaluates_final works 180 token 1)

abbrev completed_order : Order
completed_order = record {
  id = 1;
  merchant_order_no = codes "A1";
  public_token = codes "x";
  master_wallet_id = 3;
  derivation_index = 1;
  address = codes "T";
  status = completed;
  target_amount = 1000;
  amount_lower_bound = pos 990;
  amount_upper_bound = pos 1010;
  validity_seconds = 900;
  confirmation_stall_timeout_seconds = 600;
  expires_at = 1000;
  confirming_at = some 120;
  updated_at = 180;
}

row : find_order 1 done.orders ≡ some completed_order
unfolding create_order create_rows find_wallet advance_wallet has_number find_order update_order
    sum_amount sum_confirmed_amount ◌>>=◌ ◌>>◌ insert_webhook_delivery transition_rows transition
    evaluate_confirming evaluate_final text_beq
row = refl

row_later : find_order 1 done_later.orders ≡ some completed_order
unfolding create_order create_rows find_wallet advance_wallet has_number find_order update_order
    sum_amount sum_confirmed_amount ◌>>=◌ ◌>>◌ insert_webhook_delivery transition_rows transition
    evaluate_confirming evaluate_final mark_stalled text_beq
row_later = refl

judged : evaluate_final works 180 token 1 detected ≡ (ok tt, done)
unfolding create_order create_rows find_wallet advance_wallet has_number find_order update_order
    sum_amount sum_confirmed_amount ◌>>=◌ ◌>>◌ insert_webhook_delivery transition_rows transition
    evaluate_confirming evaluate_final text_beq
judged = refl

Reach-no_orders-Consistent_example : Consistent done
Reach-no_orders-Consistent_example = Reach-no_orders-Consistent derive_address none none to_done

changes_bounded_example :
    (changes_of 1 done.order_state_transitions ≤ 4)
    × (webhooks_of 1 (map announcement done.webhook_deliveries) ≤ 3)
changes_bounded_example = changes_bounded derive_address none none 1 to_done

final_orders_kept_example : completed_order.status ≡ completed_order.status
final_orders_kept_example =
    final_orders_kept derive_address {db = done} {after = done_later} 1 completed_order
      completed_order (Reach-no_orders-Consistent derive_address none none to_done)
      (next here (stalls works 2000 token 1)) row refl row_later

mark_stalled_has_time_example :
    (mark_stalled works 2000 token 1 detected).0 ≢ err confirming_at_null
mark_stalled_has_time_example =
    mark_stalled_has_time derive_address none none to_detected works 2000 token 1

evaluate_final-Judged_example : Judged 180 1 detected done
evaluate_final-Judged_example = evaluate_final-Judged works 180 token 1 detected done judged

Reach-AreNumbered_example : AreNumbered done
Reach-AreNumbered_example = Reach-AreNumbered derive_address none none to_done

-- Ten percent of an amount of 10 ^ 18: the product wraps around, and the bounds are too close.
wrapped_test :
    (new_order
      (record {
        merchant_order_no = codes "A2";
        master_wallet_id = 3;
        target_amount = 1000000000000000000;
        validity_seconds = 900;
        tolerance_bps = 1000;
        confirmation_stall_timeout_seconds = 600;
      })
      100
      2
      2
      (codes "T")
      (codes "y")).amount_upper_bound
    ≡ pos 1000387582001968421
wrapped_test = refl
