-- ===== src/FeeEstimate/Events.antt =====
-- web/static/js/fee-estimate.js: the controls of the page, and the events that reach them. The elements
-- that the script looks for are there; it binds no listener where one is missing.
use ucollection.Base.{
  ℕ, zero, suc, Text, codes, List, [], ◌∷◌, map, Bool, true, false, not, Option, none, some,
  text_eq, text_beq, if◌then◌else◌, length, is_empty, trim, is_digit, all,
}
use ucollection.Base.Decimal.{value_from}
use ucollection.FeeEstimate.{Estimate, State, render_estimate, click_estimate, answer_estimate}

-- A checkbox of the list of orders; `value` is the number of the order.
pub record Box : Type 0 where
  pub value : Text
  pub checked : Bool

-- What `#trx-balance-result` shows.
pub data Balance : Type 0 where
  no_balance address_missing asking balance_failed : Balance
  balance : Text → Balance

pub data Request : Type 0 where
  ask_balance : Text → Request
  ask_estimate : Option ℕ → Text → List (Option ℕ) → Request

pub record OrderPage : Type 0 where
  pub boxes : List Box
  pub select_all : Bool
  pub payment_method : Text
  pub trx_fields_hidden : Bool
  pub fee_source_address : Text
  pub balance_result : Balance
  -- `none` where the page has no such input
  pub master_wallet : Option Text
  pub destination : Option Text
  pub estimate_state : State
  -- what was sent, the latest in front
  pub sent : List Request

-- `Number(text)`, which skips the space around a number; an empty text is 0, and `none` is `NaN`. Numbers
-- with a sign, a point, an exponent or a base are no numbers of an order, and are left out.
abbrev number : Text → Option ℕ
number text =
    let digits = trim text in if all is_digit digits then some (value_from 0 digits) else none

unfoldable pub selected_order_ids : List Box → List (Option ℕ)
selected_order_ids [] = []
selected_order_ids (b ∷ boxes) =
    if b.checked then number b.value ∷ selected_order_ids boxes else selected_order_ids boxes

abbrev pub count : OrderPage → ℕ
count p = length (selected_order_ids p.boxes)

abbrev pub render : OrderPage → OrderPage
render p = record p { estimate_state = render_estimate (count p) p.estimate_state }

abbrev set_checked : Bool → Box → Box
set_checked checked b = record b { checked = checked }

-- The listener of `#select-all-orders`, after the user set it.
abbrev pub change_select_all : Bool → OrderPage → OrderPage
change_select_all checked p =
    render (record p { select_all = checked; boxes = map (set_checked checked) p.boxes })

abbrev flip_at : ℕ → List Box → List Box
flip_at i [] = []
flip_at zero (b ∷ boxes) = record b { checked = not b.checked } ∷ boxes
flip_at (suc i) (b ∷ boxes) = b ∷ flip_at i boxes

-- The listener of a checkbox, after the user changed it.
abbrev pub change_box : ℕ → OrderPage → OrderPage
change_box i p = render (record p { boxes = flip_at i p.boxes })

abbrev pub sync_method : OrderPage → OrderPage
sync_method p = record p { trx_fields_hidden = not (text_beq p.payment_method (codes "trx")) }

abbrev pub change_method : Text → OrderPage → OrderPage
change_method method p = sync_method (record p { payment_method = method })

abbrev pub click_balance : OrderPage → OrderPage
click_balance p =
    let address = trim p.fee_source_address in
    if is_empty address
    then record p { balance_result = address_missing }
    else record p { balance_result = asking; sent = ask_balance address ∷ p.sent }

-- The answer to a balance query, with `none` for one that failed.
abbrev pub answer_balance : Option Text → OrderPage → OrderPage
answer_balance none p = record p { balance_result = balance_failed }
answer_balance (some amount) p = record p { balance_result = balance amount }

abbrev wallet_number : Option Text → Option ℕ
wallet_number none = some 0
wallet_number (some text) = number text

abbrev trimmed : Option Text → Text
trimmed none = codes ""
trimmed (some text) = trim text

abbrev pub sends : Bool × State → OrderPage → OrderPage
sends (false, s) p = record p { estimate_state = s }
sends (true, s) p = record p {
  estimate_state = s;
  sent =
      ask_estimate (wallet_number p.master_wallet) (trimmed p.destination)
        (selected_order_ids p.boxes)
      ∷ p.sent;
}

abbrev pub click_estimate_button : OrderPage → OrderPage
click_estimate_button p = sends (click_estimate (count p) p.estimate_state) p

-- The answer to an estimate that was asked for, at any later time.
abbrev pub answer : Option Estimate → OrderPage → OrderPage
answer reply p = record p { estimate_state = answer_estimate reply (count p) p.estimate_state }

pub data Event : Type 0 where
  select_all_changes : Bool → Event
  box_changes : ℕ → Event
  method_changes : Text → Event
  address_changes destination_changes : Text → Event
  balance_clicked estimate_clicked : Event
  balance_answered : Option Text → Event
  estimate_answered : Option Estimate → Event

unfoldable pub handle : Event → OrderPage → OrderPage
handle (select_all_changes checked) p = change_select_all checked p
handle (box_changes i) p = change_box i p
handle (method_changes method) p = change_method method p
handle (address_changes text) p = record p { fee_source_address = text }
handle (destination_changes text) p = record p { destination = some text }
handle balance_clicked p = click_balance p
handle estimate_clicked p = click_estimate_button p
handle (balance_answered reply) p = answer_balance reply p
handle (estimate_answered reply) p = answer reply p

-- The five `init` calls: of them only the one for the payment method changes the page.
unfoldable pub init : OrderPage → OrderPage
init p = sync_method p

unfoldable pub run : List Event → OrderPage → OrderPage
run [] p = p
run (e ∷ events) p = run events (handle e p)
