-- ===== src/Checkout/Tests.antt =====
-- The theorems on the status page at an order that counts down from 90 seconds.
use ucollection.Base.{◌≡◌, refl, Text, codes, [], true, false, Option, none, some, arith}
use ucollection.Base.Int.{pos, parse_int}
use ucollection.Orders.{Status, Order}
use ucollection.Checkout.Served.{build_status_view, region_of}
use ucollection.Checkout.Served.Laws.{Follows, answered-Follows}
use ucollection.Clipboard.{Button, copied, Browser, Document}
use ucollection.Checkout.{
  Region, Page, fmt, tick_countdown, poll, failed, html, answered, loaded, start,
}
use ucollection.Checkout.Good.{Good}
use ucollection.Checkout.Reaches.{here, next, ticks, polls, answers, Reach-start-Good, polling_ends}

abbrev pending : Region
pending = record {
  remaining = codes "90";
  countdown = true;
  terminal = false;
  status_url = codes "/status/7";
  display = some [];
}

abbrev paid : Region
paid = record {
  remaining = codes "0";
  countdown = false;
  terminal = true;
  status_url = codes "/status/7";
  display = none;
}

-- The fragment of a paid order comes in.
abbrev parse_html : Text → Option Region
parse_html text = some paid

Reach-start-Good_example : Good (tick_countdown (start (loaded (some pending))))
Reach-start-Good_example = Reach-start-Good parse_html (some pending) (next here (ticks 0 refl))

-- Two requests are under way when the first answer says that the order is paid.
abbrev asked_twice : Page
asked_twice = poll (poll (start (loaded (some pending))))

abbrev told : Page
told = answered parse_html (html []) asked_twice

told-Good : Good told
told-Good =
    Reach-start-Good parse_html (some pending)
      (next (next (next here (polls 1 refl)) (polls 1 refl)) (answers (html []) (omega arith)))

polling_ends_example :
    ((answered parse_html failed told).poll_timer ≡ none)
    × ((answered parse_html failed told).requests ≡ told.requests)
polling_ends_example =
    polling_ends parse_html {s = told} {t = answered parse_html failed told} told-Good
      (next here (answers failed (omega arith))) refl

abbrev browser : Browser
browser = record { has_clipboard = false; writes = false; exec = copied }

abbrev button : Button
button = record { text = codes "複製"; restores = [] }

abbrev document : Document
document = record { clipboard = none; text_areas = []; button = some button }

abbrev unpaid : Order
unpaid = record {
  id = 7;
  merchant_order_no = codes "A1";
  public_token = codes "x";
  master_wallet_id = 1;
  derivation_index = 1;
  address = codes "T";
  status = Status.pending;
  target_amount = 1000;
  amount_lower_bound = pos 990;
  amount_upper_bound = pos 1010;
  validity_seconds = 900;
  confirmation_stall_timeout_seconds = 600;
  expires_at = 1000;
  confirming_at = none;
  updated_at = 100;
}

abbrev served_region : Text → Option Region
served_region text = some (region_of (build_status_view 400 unpaid (codes "x")))

abbrev asked : Page
asked = poll (start (loaded (some pending)))

shown : asked.region ≡ some (record pending { display = some (fmt (pos 90)) })
unfolding parse_int
shown = refl

answered-Follows_example :
    Follows unpaid.status 400 1000 asked (answered served_region (html []) asked)
answered-Follows_example = answered-Follows served_region asked [] 400 unpaid (codes "x") shown refl
