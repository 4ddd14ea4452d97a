-- ===== src/Checkout/Timers.antt =====
-- The intervals that run are the ones that the two variables hold, and the shown countdown is right.
use ucollection.Base.{
  ℕ, suc, ◌<◌, ◌≡◌, refl, Text, true, Option, none, some, nat_eq, nat_beq_iff, arith,
}
use ucollection.Checkout.{
  Region, Task, tick_countdown_task, poll_task, Page, fmt, set_live, stop_countdown_of,
  stop_polling_of, start_countdown_of,
}

-- The intervals that run do one task each, and are held by the variable of that task.
pub record Timed (c p : Option ℕ) (live : ℕ → Option Task) (next : ℕ) : Type 0 where
  pub ticks : (h : ℕ) → live h ≡ some tick_countdown_task → c ≡ some h
  pub polls : (h : ℕ) → live h ≡ some poll_task → p ≡ some h
  pub ticking : (h : ℕ) → c ≡ some h → live h ≡ some tick_countdown_task
  pub polling : (h : ℕ) → p ≡ some h → live h ≡ some poll_task
  pub fresh : (h : ℕ) (t : Task) → live h ≡ some t → h < next

module _ {p : Option ℕ} {live : ℕ → Option Task} {next : ℕ} where
  no_countdown : (h : ℕ) → Timed (some h) p live next → Timed none p (set_live live h none) next
  no_countdown h t = record {
    ticks = λ j e. ground (arith, nat_beq_iff h j, t.ticks j);
    polls = λ j e. ground (arith, nat_beq_iff h j, t.polls j);
    ticking = λ j e. cc e;
    polling = λ j e. ground (arith, nat_beq_iff h j, t.polling j, t.ticking h);
    fresh = λ j k e. ground (arith, nat_beq_iff h j, t.fresh j k);
  }

  new_countdown :
      Timed none p live next
      → Timed (some next) p (set_live live next (some tick_countdown_task)) (suc next)
  new_countdown t = record {
    ticks = λ j e. ground (arith, nat_beq_iff next j, t.ticks j);
    polls = λ j e. ground (arith, nat_beq_iff next j, t.polls j);
    ticking = λ j e. ground (arith, nat_beq_iff next j);
    polling = λ j e. ground (arith, nat_beq_iff next j, t.polling j, t.fresh j poll_task);
    fresh = λ j k e. ground (arith, nat_beq_iff next j, t.fresh j k);
  }

module _ {c : Option ℕ} {live : ℕ → Option Task} {next : ℕ} where
  no_polling : (h : ℕ) → Timed c (some h) live next → Timed c none (set_live live h none) next
  no_polling h t = record {
    ticks = λ j e. ground (arith, nat_beq_iff h j, t.ticks j);
    polls = λ j e. ground (arith, nat_beq_iff h j, t.polls j);
    ticking = λ j e. ground (arith, nat_beq_iff h j, t.ticking j, t.polling h);
    polling = λ j e. cc e;
    fresh = λ j k e. ground (arith, nat_beq_iff h j, t.fresh j k);
  }

  pub new_polling :
      Timed c none live next → Timed c (some next) (set_live live next (some poll_task)) (suc next)
  new_polling t = record {
    ticks = λ j e. ground (arith, nat_beq_iff next j, t.ticks j);
    polls = λ j e. ground (arith, nat_beq_iff next j, t.polls j);
    ticking = λ j e. ground (arith, nat_beq_iff next j, t.ticking j, t.fresh j tick_countdown_task);
    polling = λ j e. ground (arith, nat_beq_iff next j);
    fresh = λ j k e. ground (arith, nat_beq_iff next j, t.fresh j k);
  }

abbrev pub WellTimed : Page → Type 0
WellTimed s = Timed s.countdown_timer s.poll_timer s.live s.next_handle

-- Once the region is terminal, nothing runs.
abbrev pub Quiet : Page → Type 0
Quiet s =
    (r : Region)
    → s.region ≡ some r
    → r.terminal ≡ true
    → (s.countdown_timer ≡ none) × (s.poll_timer ≡ none)

-- While the countdown runs, the region asks for it, and the element shows the seconds that remain.
abbrev pub Painted : Page → Type 0
Painted s =
    (h : ℕ)
    → s.countdown_timer ≡ some h
    → (r : Region) × (s.region ≡ some r)
      × (r.countdown ≡ true)
      × ((text : Text) → r.display ≡ some text → text ≡ fmt s.remaining)

pub stop_countdown_lem :
    (o : Option ℕ) (s : Page)
    → s.countdown_timer ≡ o
    → WellTimed s
    → let t = stop_countdown_of o s in
      WellTimed t
      × (t.countdown_timer ≡ none)
      × (t.poll_timer ≡ s.poll_timer)
      × (t.region ≡ s.region)
stop_countdown_lem none s e w = (w, e, refl, refl)
stop_countdown_lem (some h) s e w = (no_countdown h (rw e at w), refl, refl, refl)

pub stop_polling_lem :
    (o : Option ℕ) (s : Page)
    → s.poll_timer ≡ o
    → WellTimed s
    → let t = stop_polling_of o s in
      WellTimed t
      × (t.poll_timer ≡ none)
      × (t.countdown_timer ≡ s.countdown_timer)
      × (t.region ≡ s.region)
stop_polling_lem none s e w = (w, e, refl, refl)
stop_polling_lem (some h) s e w = (no_polling h (rw e at w), refl, refl, refl)

pub start_countdown_lem :
    (o : Option ℕ) (s : Page)
    → s.countdown_timer ≡ o
    → WellTimed s
    → let t = start_countdown_of o s in
      WellTimed t × (t.region ≡ s.region) × (t.remaining ≡ s.remaining)
start_countdown_lem none s e w = (new_countdown (rw e at w), refl, refl)
start_countdown_lem (some h) s e w = (w, refl, refl)
