-- ===== src/FeeEstimate/Tests.antt =====
-- An estimate for three orders.
use ucollection.Base.{◌≡◌, refl, codes, List, [], ◌∷◌, true, false, none, some, trim}
use ucollection.FeeEstimate.{
  format_sun_as_trx, Estimate, untouched, estimate, State, render_estimate, answer_estimate,
  click_estimate,
}
use ucollection.FeeEstimate.Events.{
  no_balance, OrderPage, selected_order_ids, Event, select_all_changes, balance_clicked,
  estimate_clicked, estimate_answered, handle, init, run,
}
use ucollection.FeeEstimate.Shown.{Good, run-Good}

abbrev answer : Estimate
answer = record {
  first_sun = 27300000;
  repeat_sun = 13500000;
  first_trx = codes "27.3";
  repeat_trx = codes "13.5";
  first_energy = codes "130000";
}

abbrev before : State
before = record { last_estimate = none; result = untouched }

abbrev page : OrderPage
page = record {
  boxes =
      record { value = codes "7"; checked = true }
      ∷ record { value = codes "9"; checked = false }
      ∷ [];
  select_all = false;
  payment_method = codes "trx";
  trx_fields_hidden = true;
  fee_source_address = codes " TXyz ";
  balance_result = no_balance;
  master_wallet = some (codes "1");
  destination = some (codes "TAbc");
  estimate_state = before;
  sent = [];
}

abbrev events : List Event
events =
    estimate_clicked
    ∷ estimate_answered (some answer)
    ∷ select_all_changes true
    ∷ balance_clicked
    ∷ []

run-Good_example : Good (run events (init page))
run-Good_example = run-Good events page refl refl

-- The two orders that are checked in the end are summed.
run_test :
    (run events (init page)).estimate_state.result ≡ estimate answer 2 (format_sun_as_trx 40800000)
unfolding run init handle render_estimate click_estimate answer_estimate selected_order_ids trim
run_test = refl
