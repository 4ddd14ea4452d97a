-- ===== src/Checkout/Served/Laws.antt =====
-- The page and the server together: what the page does when it gets the region of an order.
use mathlib.Core.Path.{subst}
use ucollection.Base.{
  ℕ, ◌-◌, ◌≡◌, ◌≢◌, refl, sym, ap, ◌∙◌, ◌⊎◌, inl, inr, Text, true, Option, none, some,
}
use ucollection.Base.Decimal.{to_string}
use ucollection.Base.Int.{pos, parse_int}
use ucollection.Base.Int.Laws.{parse_int-to_string}
use ucollection.Orders.{
  Status, pending, confirming, completed, overpaid, confirmation_stalled, expired, is_terminal,
  Order,
}
use ucollection.Checkout.{
  Region, Page, fmt, html, answered, replaced, stop_countdown_of, stop_polling_of,
  start_countdown_of, stop_countdown, stop_polling, sync_region, or_zero, paint_region,
  paint_countdown,
}
use ucollection.Checkout.Served.{build_status_view, view_of, blank_view, region_of}

-- The page follows the state of an order: it stops at a terminal one, shows no countdown while the
-- payment is confirmed, and counts down the seconds that remain while it is pending.
abbrev pub Follows : Status → (now expires_at : ℕ) → Page → Page → Type 0
Follows status now expires_at s t =
    ((is_terminal status ≡ true) × (t.countdown_timer ≡ none) × (t.poll_timer ≡ none))
    ⊎ ((status ≡ confirming) × (t.countdown_timer ≡ none) × (t.poll_timer ≡ s.poll_timer))
    ⊎ ((status ≡ pending)
        × (t.countdown_timer ≢ none)
        × (t.poll_timer ≡ s.poll_timer)
        × ((r : Region) × (t.region ≡ some r) × (r.display ≡ some (fmt (pos (expires_at - now))))))

stop_countdown_of-none :
    (c : Option ℕ) (s : Page)
    → s.countdown_timer ≡ c
    → ((stop_countdown_of c s).countdown_timer ≡ none)
      × ((stop_countdown_of c s).poll_timer ≡ s.poll_timer)
stop_countdown_of-none none s e = (e, refl)
stop_countdown_of-none (some h) s e = (refl, refl)

stop_polling_of-none :
    (p : Option ℕ) (s : Page)
    → s.poll_timer ≡ p
    → ((stop_polling_of p s).poll_timer ≡ none)
      × ((stop_polling_of p s).countdown_timer ≡ s.countdown_timer)
stop_polling_of-none none s e = (e, refl)
stop_polling_of-none (some h) s e = (refl, refl)

start_countdown_of-some :
    (c : Option ℕ) (s : Page)
    → s.countdown_timer ≡ c
    → ((start_countdown_of c s).countdown_timer ≢ none)
      × ((start_countdown_of c s).poll_timer ≡ s.poll_timer)
      × ((start_countdown_of c s).region ≡ s.region)
start_countdown_of-some none s e = (λ h. cc h, refl, refl)
start_countdown_of-some (some h) s e = (λ h'. cc (e, h'), refl, refl)

-- Both timers are stopped at a terminal region.
all_off :
    (s : Page)
    → let t = stop_countdown s in
      ((stop_polling_of t.poll_timer t).countdown_timer ≡ none)
      × ((stop_polling_of t.poll_timer t).poll_timer ≡ none)
all_off s =
    let t = stop_countdown s in
    let (off, same) = stop_polling_of-none t.poll_timer t refl in
    (same ∙ (stop_countdown_of-none s.countdown_timer s refl).0, off)

terminal_off :
    (status : Status) (now expires_at : ℕ) (s t : Page)
    → is_terminal status ≡ true
    → Follows status now expires_at s (stop_polling (stop_countdown t))
terminal_off status now expires_at s t e = let (c, p) = all_off t in inl (e, c, p)

-- A page that has read the 0 seconds of an order that is not pending.
abbrev at_zero : Page → Page
at_zero u = record u { remaining = or_zero (parse_int (to_string 0)) }

module _ (now expires_at : ℕ) (s u : Page) (token : Text) (same : u.poll_timer ≡ s.poll_timer) where
  sync_region-Follows :
      (status : Status)
      → u.region ≡ some (region_of (view_of status now expires_at (blank_view status token)))
      → Follows status now expires_at s (
          sync_region
            (some (region_of (view_of status now expires_at (blank_view status token))))
            u)
  sync_region-Follows pending e =
      let left = or_zero (parse_int (to_string (expires_at - now))) in
      let w = record u { remaining = left } in
      let t = paint_countdown w in
      let (on, p, r) = start_countdown_of-some t.countdown_timer t refl in
      let shown = ap (λ z. some (fmt z)) (ap or_zero (parse_int-to_string (expires_at - now))) in
      inr (inr (refl, on, p ∙ same, (_, r ∙ ap (paint_region left) e, shown)))
  sync_region-Follows confirming e =
      let w = at_zero u in
      let (off, p) = stop_countdown_of-none w.countdown_timer w refl in
      inr (inl (refl, off, p ∙ same))
  sync_region-Follows completed e = terminal_off completed now expires_at s (at_zero u) refl
  sync_region-Follows overpaid e = terminal_off overpaid now expires_at s (at_zero u) refl
  sync_region-Follows confirmation_stalled e =
      terminal_off confirmation_stalled now expires_at s (at_zero u) refl
  sync_region-Follows expired e = terminal_off expired now expires_at s (at_zero u) refl

-- When the status page, with a region in place, gets the region that the server sends for an order,
-- it does as the order's state asks: at a terminal state neither interval runs any more; while the
-- order is confirming there is no countdown and the polling goes on as before; while it is pending
-- the countdown runs, the polling goes on as before, and the page shows the seconds that remain
-- until the order expires.
pub answered-Follows :
    (parse_html : Text → Option Region) (s : Page) (text : Text) (now : ℕ) (o : Order)
    (token : Text) {old : Region}
    → s.region ≡ some old
    → parse_html text ≡ some (region_of (build_status_view now o token))
    → Follows o.status now o.expires_at s (answered parse_html (html text) s)
answered-Follows parse_html s text now o token {old} there parsed =
    let r = region_of (build_status_view now o token) in
    let at =
      λ (q : Option Region). sync_region q (record s { region = q; in_flight = s.in_flight - 1 }) in
    let e : replaced s.region (parse_html text) ≡ some r =
      ap (λ q. replaced q (parse_html text)) there ∙ parsed in
    subst (λ q. Follows o.status now o.expires_at s (at q)) (sym e)
      (sync_region-Follows now o.expires_at s
        (record s { region = some r; in_flight = s.in_flight - 1 }) token refl o.status refl)
