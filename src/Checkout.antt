-- ===== src/Checkout.antt =====
-- web/static/js/checkout.js, its first function: the countdown and the polling of an order's status.
-- The timers of the browser are part of the state: `live` says which intervals run, and a handle is
-- the number of the interval. `parse_html`, a parameter, finds `#status-region` in a fragment.
pub mod Clock
pub mod Copy
pub mod Timers
pub mod Good
pub mod Reaches
pub mod Served
mod Tests
use ucollection.Base.{
  ℕ, zero, suc, ◌+◌, ◌-◌, ◌/◌, ◌%◌, Text, codes, List, [], ◌∷◌, ◌++◌, Bool, true, false, not, ◌&&◌,
  Option, none, some, ltb, ◌==◌, nat_eq, if◌then◌else◌, is_empty, pad_start,
}
use ucollection.Base.Decimal.{to_string}
use ucollection.Base.Int.{ℤ, pos, negsuc, pos_part, parse_int}

-- The data attributes of `#status-region`, with an empty text for a missing one, and the text of the
-- element that shows the countdown, where there is one.
pub record Region : Type 0 where
  pub remaining : Text
  pub countdown : Bool
  pub terminal : Bool
  pub status_url : Text
  pub display : Option Text

pub data Task : Type 0 where
  tick_countdown_task poll_task : Task

pub record Page : Type 0 where
  pub region : Option Region
  pub remaining : ℤ
  pub countdown_timer : Option ℕ
  pub poll_timer : Option ℕ
  pub live : ℕ → Option Task
  pub next_handle : ℕ
  -- the requests that were sent, the latest in front, and how many have no answer yet
  pub requests : List Text
  pub in_flight : ℕ

abbrev two_digits : ℕ → Text
two_digits n = pad_start 2 b'0' (to_string n)

-- `fmt`: a negative number counts as 0.
unfoldable pub fmt : ℤ → Text
fmt total =
    let n = pos_part total in
    let h = n / 3600 in
    let m = n % 3600 / 60 in
    let ss = two_digits (n % 60) in
    if ltb 0 h then to_string h ++ b':' ∷ (two_digits m ++ b':' ∷ ss) else to_string m ++ b':' ∷ ss

abbrev pub painted : ℤ → Option Text → Option Text
painted remaining none = none
painted remaining (some old) = some (fmt remaining)

abbrev pub paint_region : ℤ → Option Region → Option Region
paint_region remaining none = none
paint_region remaining (some r) = some (record r { display = painted remaining r.display })

abbrev pub paint_countdown : Page → Page
paint_countdown s = record s { region = paint_region s.remaining s.region }

abbrev pub set_live : (ℕ → Option Task) → ℕ → Option Task → ℕ → Option Task
set_live live h task j = if h == j then task else live j

-- `clearInterval`
abbrev pub clear_interval : ℕ → Page → Page
clear_interval h s = record s { live = set_live s.live h none }

-- `setInterval`; its handle is `next_handle`.
abbrev pub set_interval : Task → Page → Page
set_interval task s = record s {
  live = set_live s.live s.next_handle (some task);
  next_handle = suc s.next_handle;
}

abbrev pub stop_countdown_of : Option ℕ → Page → Page
stop_countdown_of none s = s
stop_countdown_of (some h) s = record (clear_interval h s) { countdown_timer = none }

abbrev pub stop_countdown : Page → Page
stop_countdown s = stop_countdown_of s.countdown_timer s

abbrev pub stop_polling_of : Option ℕ → Page → Page
stop_polling_of none s = s
stop_polling_of (some h) s = record (clear_interval h s) { poll_timer = none }

abbrev pub stop_polling : Page → Page
stop_polling s = stop_polling_of s.poll_timer s

abbrev one_less : ℤ → ℤ
one_less (pos zero) = pos zero
one_less (pos (suc n)) = pos n
one_less (negsuc n) = negsuc n

abbrev pub tick_countdown : Page → Page
tick_countdown s = paint_countdown (record s { remaining = one_less s.remaining })

abbrev pub or_zero : Option ℤ → ℤ
or_zero none = pos 0
or_zero (some z) = z

-- `if (countdownTimer === null) countdownTimer = setInterval(tickCountdown, 1000)`
abbrev pub start_countdown_of : Option ℕ → Page → Page
start_countdown_of none s = record (set_interval tick_countdown_task s) {
  countdown_timer = some s.next_handle;
}
start_countdown_of (some h) s = s

abbrev pub start_countdown : Page → Page
start_countdown s = start_countdown_of s.countdown_timer s

-- The part of `sync` behind the two returns.
abbrev show_or_stop : Bool → Page → Page
show_or_stop true s = start_countdown (paint_countdown s)
show_or_stop false s = stop_countdown s

abbrev stop_if : Bool → Page → Page
stop_if true s = stop_polling s
stop_if false s = s

abbrev pub sync_region : Option Region → Page → Page
sync_region none s = stop_polling (stop_countdown s)
sync_region (some r) s = stop_if r.terminal (
    show_or_stop (r.countdown && not r.terminal)
      (record s { remaining = or_zero (parse_int r.remaining) }))

abbrev pub sync : Page → Page
sync s = sync_region s.region s

abbrev poll_region : Option Region → Page → Page
poll_region none s = stop_polling s
poll_region (some r) s =
    if is_empty r.status_url
    then s
    else record s { requests = r.status_url ∷ s.requests; in_flight = suc s.in_flight }

-- `poll`, up to the request.
abbrev pub poll : Page → Page
poll s = poll_region s.region s

-- What becomes of a request: it fails, the response is not ok, or it has a text.
pub data Reply : Type 0 where
  failed not_ok : Reply
  html : Text → Reply

-- `current.outerHTML = html` replaces the region if there is one.
abbrev pub replaced : Option Region → Option Region → Option Region
replaced none fresh = none
replaced (some old) fresh = fresh

abbrev starts_polling : Option Region → Page → Page
starts_polling none s = s
starts_polling (some r) s =
    if r.terminal then s else record (set_interval poll_task s) { poll_timer = some s.next_handle }

module _ (parse_html : Text → Option Region) where
  -- The `then` callbacks of `poll`.
  abbrev pub answered : Reply → Page → Page
  answered failed s = record s { in_flight = s.in_flight - 1 }
  answered not_ok s = record s { in_flight = s.in_flight - 1 }
  answered (html text) s =
      sync (record s { region = replaced s.region (parse_html text); in_flight = s.in_flight - 1 })

-- A page whose script begins.
abbrev pub loaded : Option Region → Page
loaded region = record {
  region = region;
  remaining = pos 0;
  countdown_timer = none;
  poll_timer = none;
  live = λ h. none;
  next_handle = 0;
  requests = [];
  in_flight = 0;
}

abbrev pub start : Page → Page
start s = let t = sync s in starts_polling t.region t
