-- ===== src/FeeEstimate/Shown.antt =====
-- What the page shows after any events: an estimate is the last one, summed for the boxes that are checked.
use ucollection.Base.{
  ℕ, ◌+◌, ◌*◌, ◌-◌, ◌≡◌, ◌≢◌, refl, sym, ap, ◌∙◌, inl, inr, ◌↔◌, ◌⊎◌, Text, codes, List, [], ◌∷◌,
  Bool, true, false, not, Option, none, some, All, length, text_beq, text_beq_iff, is_empty,
  nat_beq, nat_beq_iff, Bool-cases, trim,
}
use ucollection.Trx.{sun_to_trx}
use ucollection.FeeEstimate.{
  Estimate, Result, untouched, estimate, State, render_estimate, click_estimate, answer_estimate,
  format_sun_as_trx, shown, sum_sun,
}
use ucollection.FeeEstimate.Laws.{format_sun_as_trx-sun_to_trx}
use ucollection.FeeEstimate.Events.{
  Request, ask_balance, ask_estimate, OrderPage, count, render, sends, click_balance, sync_method,
  Event, select_all_changes, box_changes, method_changes, address_changes, destination_changes,
  balance_clicked, estimate_clicked, balance_answered, estimate_answered, handle, init, run,
}

-- An estimate that is shown is the last one, with the count and the sum for `n` orders.
abbrev pub Current : ℕ → State → Type 0
Current n s =
    (e : Estimate) (k : ℕ) (sum : Text)
    → s.result ≡ estimate e k sum
    → (s.last_estimate ≡ some e)
      × (k ≡ n)
      × (n ≢ 0)
      × (sum ≡ sun_to_trx (e.first_sun + e.repeat_sun * (n - 1)))

module _ {last e : Estimate} {n k : ℕ} {first second : Text} where
  same : estimate last n first ≡ estimate e k second → last ≡ e
  same p = cc

  printed : estimate last n first ≡ estimate e k second → first ≡ second
  printed p = cc

shown-Current :
    (last : Estimate) (n : ℕ)
    → Current n (record { last_estimate = some last; result = shown last n })
shown-Current last n e k sum h = elim (Bool-cases (nat_beq n 0)) [
  | inl nothing ↦ absurd (cc (rw nothing at h))
  | inr some_checked ↦
      let p : estimate last n (format_sun_as_trx (sum_sun last n)) ≡ estimate e k sum =
        rw some_checked at h in
      (
        cc p,
        cc p,
        (λ z. absurd (cc (some_checked, (nat_beq_iff n 0).1 z))),
        sym (printed p)
            ∙ format_sun_as_trx-sun_to_trx (sum_sun last n)
            ∙ ap (λ x. sun_to_trx (sum_sun x n)) (same p),
      )
]

render_estimate-Current :
    (n m : ℕ) (last : Option Estimate) (result : Result)
    → let s : State = record { last_estimate = last; result = result } in
      Current m s → Current n (render_estimate n s)
unfolding render_estimate
render_estimate-Current n m none result c = λ e k sum h. absurd (cc ((c e k sum h).0))
render_estimate-Current n m (some last) result c = shown-Current last n

answer_estimate-Current :
    (reply : Option Estimate) (n : ℕ) (s : State) → Current n (answer_estimate reply n s)
unfolding answer_estimate render_estimate
answer_estimate-Current none n s = λ e k sum h. absurd (cc h)
answer_estimate-Current (some last) n s = shown-Current last n

click_estimate-Current : (n : ℕ) (s : State) → Current n (click_estimate n s).1
unfolding click_estimate
click_estimate-Current n s = elim (Bool-cases (nat_beq n 0)) [
  | inl nothing ↦ rw nothing (λ e k sum h. absurd (cc h))
  | inr checked ↦ rw checked (λ e k sum h. absurd (cc h))
]

-- A request names an address, or at least one order.
abbrev pub IsWellFormed : Request → Type 0
IsWellFormed (ask_balance address) = is_empty address ≡ false
IsWellFormed (ask_estimate wallet destination ids) = length ids ≢ 0

-- What holds between two events.
pub record Good (p : OrderPage) : Type 0 where
  pub current : Current (count p) p.estimate_state
  pub requests : All IsWellFormed p.sent
  pub fields : (p.trx_fields_hidden ≡ false) ↔ (p.payment_method ≡ codes "trx")

click_estimate_sends : (n : ℕ) (s : State) → (n ≢ 0) ⊎ ((click_estimate n s).0 ≡ false)
unfolding click_estimate
click_estimate_sends n s = elim (Bool-cases (nat_beq n 0)) [
  | inl nothing ↦ inr (rw nothing refl)
  | inr checked ↦ inl (λ z. absurd (cc (checked, (nat_beq_iff n 0).1 z)))
]

sends-Good :
    (r : Bool × State) (p : OrderPage)
    → Current (count p) r.1
    → (count p ≢ 0) ⊎ (r.0 ≡ false)
    → Good p
    → Good (sends r p)
sends-Good (false, s) p c some_or_none g = record {
  current = c;
  requests = g.requests;
  fields = g.fields;
}
sends-Good (true, s) p c (inl some_checked) g = record {
  current = c;
  requests = (some_checked, g.requests);
  fields = g.fields;
}
sends-Good (true, s) p c (inr nothing) g = absurd (cc nothing)

method_lem :
    (method : Text) → (not (text_beq method (codes "trx")) ≡ false) ↔ (method ≡ codes "trx")
method_lem method = elim (Bool-cases (text_beq method (codes "trx"))) [
  | inl e ↦ rw e ((λ h. (text_beq_iff method (codes "trx")).0 e), (λ h. refl))
  | inr e ↦
      rw e ((λ h. absurd (cc h)), (λ h. absurd (cc (e, (text_beq_iff method (codes "trx")).1 h))))
]

render-Good :
    (p q : OrderPage)
    → q.estimate_state ≡ p.estimate_state
    → q.sent ≡ p.sent
    → q.trx_fields_hidden ≡ p.trx_fields_hidden
    → q.payment_method ≡ p.payment_method
    → Good p
    → Good (render q)
render-Good p q e f h k g = record {
  current = render_estimate-Current (count q) (count p) _ _ (rw e g.current);
  requests = rw f g.requests;
  fields = rw (h, k) g.fields;
}

click_balance-Good : (p : OrderPage) → Good p → Good (click_balance p)
click_balance-Good p g = elim (Bool-cases (is_empty (trim p.fee_source_address))) [
  | inl missing ↦
      rw missing (record { current = g.current; requests = g.requests; fields = g.fields })
  | inr given ↦
      rw given (record { current = g.current; requests = (given, g.requests); fields = g.fields })
]

handle-Good : (e : Event) (p : OrderPage) → Good p → Good (handle e p)
unfolding handle
handle-Good (select_all_changes checked) p g = render-Good p _ refl refl refl refl g
handle-Good (box_changes i) p g = render-Good p _ refl refl refl refl g
handle-Good (method_changes method) p g = record {
  current = g.current;
  requests = g.requests;
  fields = method_lem method;
}
handle-Good (address_changes text) p g = record {
  current = g.current;
  requests = g.requests;
  fields = g.fields;
}
handle-Good (destination_changes text) p g = record {
  current = g.current;
  requests = g.requests;
  fields = g.fields;
}
handle-Good balance_clicked p g = click_balance-Good p g
handle-Good estimate_clicked p g =
    sends-Good (click_estimate (count p) p.estimate_state) p
      (click_estimate-Current (count p) p.estimate_state)
      (click_estimate_sends (count p) p.estimate_state) g
handle-Good (balance_answered none) p g = record {
  current = g.current;
  requests = g.requests;
  fields = g.fields;
}
handle-Good (balance_answered (some amount)) p g = record {
  current = g.current;
  requests = g.requests;
  fields = g.fields;
}
handle-Good (estimate_answered reply) p g = record {
  current = answer_estimate-Current reply (count p) p.estimate_state;
  requests = g.requests;
  fields = g.fields;
}

run-keeps-Good : (events : List Event) (p : OrderPage) → Good p → Good (run events p)
unfolding run
run-keeps-Good [] p g = g
run-keeps-Good (e ∷ events) p g = run-keeps-Good events (handle e p) (handle-Good e p g)

-- Whatever happens on the list of orders, in any order of clicks and answers, from a page with no
-- estimate and no request: an estimate that is shown is the last one that came in, with the number
-- of boxes that are checked now, which is not zero, and with the sum for that number, printed as
-- `sunToTrx` does; every request that was sent names an address or at least one order; and the
-- fields for TRX are shown exactly where that method is chosen.
pub run-Good :
    (events : List Event) (p : OrderPage)
    → p.estimate_state ≡ (record { last_estimate = none; result = untouched })
    → p.sent ≡ []
    → Good (run events (init p))
unfolding init
run-Good events p fresh idle = run-keeps-Good events (sync_method p) (record {
  current = λ e k sum h. absurd (cc (ap (λ (s : State). s.result) fresh, h));
  requests = rw idle tt;
  fields = method_lem p.payment_method;
})
