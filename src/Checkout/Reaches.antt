-- ===== src/Checkout/Reaches.antt =====
-- What may happen on a page that was opened, and what holds whenever nothing runs.
use ucollection.Base.{ℕ, ◌<◌, ◌≡◌, refl, ◌∙◌, Text, Bool, true, false, Option, none, some}
use ucollection.Checkout.{
  Region, tick_countdown_task, poll_task, Page, stop_countdown, tick_countdown, stop_countdown_of,
  stop_polling_of, start_countdown_of, show_or_stop, stop_if, sync_region, sync, poll, Reply,
  failed, not_ok, html, answered, loaded, start, paint_countdown,
}
use ucollection.Checkout.Good.{
  Good, sync-Good, starts_polling-Good, tick_countdown-Good, poll-Good, answered-Good,
  loaded-WellTimed,
}

module _ (parse_html : Text → Option Region) where
  -- An interval that runs may fire, and a request that is under way may be answered.
  pub data Step (s : Page) : Page → Type 0 where
    ticks : (h : ℕ) → s.live h ≡ some tick_countdown_task → Step s (tick_countdown s)
    polls : (h : ℕ) → s.live h ≡ some poll_task → Step s (poll s)
    answers : (r : Reply) → 0 < s.in_flight → Step s (answered parse_html r s)

  pub data Reach (s : Page) : Page → Type 0 where
    here : Reach s s
    next : {t u : Page} → Reach s t → Step t u → Reach s u

  Step-Good : {s t : Page} → Step s t → Good s → Good t
  Step-Good {s} (ticks h e) g = tick_countdown-Good s g
  Step-Good {s} (polls h e) g = poll-Good s g
  Step-Good {s} (answers r e) g = answered-Good parse_html r s g

  pub Reach-Good : {s t : Page} → Good s → Reach s t → Good t
  Reach-Good g here = g
  Reach-Good g (next r st) = Step-Good st (Reach-Good g r)

start_countdown_of-poll :
    (o : Option ℕ) (s : Page) → (start_countdown_of o s).poll_timer ≡ s.poll_timer
start_countdown_of-poll none s = refl
start_countdown_of-poll (some h) s = refl

stop_countdown_of-poll :
    (o : Option ℕ) (s : Page) → (stop_countdown_of o s).poll_timer ≡ s.poll_timer
stop_countdown_of-poll none s = refl
stop_countdown_of-poll (some h) s = refl

show_or_stop-poll : (b : Bool) (s : Page) → (show_or_stop b s).poll_timer ≡ s.poll_timer
show_or_stop-poll true s = start_countdown_of-poll s.countdown_timer (paint_countdown s)
show_or_stop-poll false s = stop_countdown_of-poll s.countdown_timer s

stop_polling_of-none :
    (o : Option ℕ) (s : Page) → s.poll_timer ≡ none → (stop_polling_of o s).poll_timer ≡ none
stop_polling_of-none none s e = e
stop_polling_of-none (some h) s e = refl

stop_if-none : (b : Bool) (s : Page) → s.poll_timer ≡ none → (stop_if b s).poll_timer ≡ none
stop_if-none true s e = stop_polling_of-none s.poll_timer s e
stop_if-none false s e = e

sync_region-none :
    (o : Option Region) (s : Page) → s.poll_timer ≡ none → (sync_region o s).poll_timer ≡ none
sync_region-none none s e =
    stop_polling_of-none _ (stop_countdown s) (stop_countdown_of-poll s.countdown_timer s ∙ e)
sync_region-none (some r) s e = stop_if-none r.terminal _ (show_or_stop-poll _ _ ∙ e)

start_countdown_of-requests :
    (o : Option ℕ) (s : Page) → (start_countdown_of o s).requests ≡ s.requests
start_countdown_of-requests none s = refl
start_countdown_of-requests (some h) s = refl

stop_countdown_of-requests :
    (o : Option ℕ) (s : Page) → (stop_countdown_of o s).requests ≡ s.requests
stop_countdown_of-requests none s = refl
stop_countdown_of-requests (some h) s = refl

stop_polling_of-requests : (o : Option ℕ) (s : Page) → (stop_polling_of o s).requests ≡ s.requests
stop_polling_of-requests none s = refl
stop_polling_of-requests (some h) s = refl

stop_if-requests : (b : Bool) (s : Page) → (stop_if b s).requests ≡ s.requests
stop_if-requests true s = stop_polling_of-requests s.poll_timer s
stop_if-requests false s = refl

show_or_stop-requests : (b : Bool) (s : Page) → (show_or_stop b s).requests ≡ s.requests
show_or_stop-requests true s = start_countdown_of-requests s.countdown_timer (paint_countdown s)
show_or_stop-requests false s = stop_countdown_of-requests s.countdown_timer s

sync_region-requests : (o : Option Region) (s : Page) → (sync_region o s).requests ≡ s.requests
sync_region-requests none s =
    stop_polling_of-requests _ (stop_countdown s) ∙ stop_countdown_of-requests s.countdown_timer s
sync_region-requests (some r) s = stop_if-requests r.terminal _ ∙ show_or_stop-requests _ _

start-Good : (region : Option Region) → Good (start (loaded region))
start-Good region =
    let s = loaded region in
    starts_polling-Good _ (sync s) refl (sync_region-none region s refl)
      (sync-Good s (loaded-WellTimed region))

module _ (parse_html : Text → Option Region) where
  -- Whatever happens on a status page that was opened, in any order of ticks, polls and answers:
  -- the intervals that run do one task each and are the ones that the two variables hold; once the
  -- region is terminal none runs; and while the countdown runs, the region asks for it and its
  -- element shows the seconds that remain.
  pub Reach-start-Good :
      (region : Option Region) {t : Page} → Reach parse_html (start (loaded region)) t → Good t
  Reach-start-Good region r = Reach-Good parse_html (start-Good region) r

  -- A step from a page on which no polling runs: it sends nothing, and no polling runs after it.
  Step-Silent :
      {s t : Page}
      → Step parse_html s t
      → Good s
      → s.poll_timer ≡ none
      → (t.poll_timer ≡ none) × (t.requests ≡ s.requests)
  Step-Silent (ticks h e) g stopped = (stopped, refl)
  Step-Silent {s} (polls h e) g stopped = absurd (cc (g.timed.polls h e, stopped))
  Step-Silent (answers failed e) g stopped = (stopped, refl)
  Step-Silent (answers not_ok e) g stopped = (stopped, refl)
  Step-Silent {s} (answers (html text) e) g stopped =
      (sync_region-none _ _ stopped, sync_region-requests _ _)

  -- Once no polling runs on a page in good order, no later event starts it again, and no further
  -- request is sent.
  pub polling_ends :
      {s t : Page}
      → Good s
      → Reach parse_html s t
      → s.poll_timer ≡ none
      → (t.poll_timer ≡ none) × (t.requests ≡ s.requests)
  polling_ends g here stopped = (stopped, refl)
  polling_ends g (next r st) stopped =
      let (still, sent) = polling_ends g r stopped in
      let (last, same) = Step-Silent st (Reach-Good parse_html g r) still in (last, same ∙ sent)
