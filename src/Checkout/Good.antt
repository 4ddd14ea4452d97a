-- ===== src/Checkout/Good.antt =====
-- Between two events the timers and the text fit the region that is shown.
use ucollection.Base.{
  ◌≡◌, refl, sym, ap, ◌∙◌, inl, inr, Text, true, false, Option, none, some, Bool-cases, nat_eq,
  is_empty,
}
use ucollection.Base.Int.{ℤ, parse_int}
use ucollection.Checkout.{
  Region, Page, fmt, painted, paint_countdown, stop_countdown, stop_polling, tick_countdown,
  start_countdown, sync_region, sync, poll, Reply, failed, not_ok, html, answered, starts_polling,
  loaded, or_zero, paint_region, one_less, poll_region,
}
use ucollection.Checkout.Timers.{
  WellTimed, Quiet, Painted, stop_countdown_lem, stop_polling_lem, start_countdown_lem, new_polling,
}

-- What holds between two events.
pub record Good (s : Page) : Type 0 where
  pub timed : WellTimed s
  pub quiet : Quiet s
  pub painted : Painted s

painted-fmt :
    (z : ℤ) (display : Option Text) (text : Text) → painted z display ≡ some text → text ≡ fmt z
painted-fmt z none text e = absurd (cc e)
painted-fmt z (some old) text e = cc e

-- The three ways in which `sync` leaves the timers.
all_stopped : (s : Page) → WellTimed s → Good (stop_polling (stop_countdown s))
all_stopped s w =
    let (w', c, p, r) = stop_countdown_lem s.countdown_timer s refl w in
    let t = stop_countdown s in
    let (w'', p', c', r') = stop_polling_lem t.poll_timer t refl w' in
    record {
      timed = w'';
      quiet = λ q found _. (c' ∙ c, p');
      painted = λ h on. absurd (cc (on, c', c));
    }

countdown_stopped :
    (r : Region) (s : Page)
    → s.region ≡ some r
    → r.terminal ≡ false
    → WellTimed s
    → Good (stop_countdown s)
countdown_stopped r s e alive w =
    let (w', c, p, same) = stop_countdown_lem s.countdown_timer s refl w in
    record {
      timed = w';
      quiet = λ q found ended. absurd (cc (found, same, e, alive, ended));
      painted = λ h on. absurd (cc (on, c));
    }

counting :
    (r : Region) (s : Page)
    → s.region ≡ some r
    → r.countdown ≡ true
    → r.terminal ≡ false
    → WellTimed s
    → Good (start_countdown (paint_countdown s))
counting r s e shows alive w =
    let t = paint_countdown s in
    let (w', same, left) = start_countdown_lem t.countdown_timer t refl w in
    let r' = record r { display = painted s.remaining r.display } in
    let found : t.region ≡ some r' = rw e refl in
    record {
      timed = w';
      quiet = λ q there ended. absurd (cc (there, same, found, alive, ended));
      painted = λ h on. (
        r',
        same ∙ found,
        shows,
        λ text d. painted-fmt s.remaining r.display text d ∙ ap fmt (sym left),
      );
    }

sync_region-Good :
    (o : Option Region) (s : Page) → s.region ≡ o → WellTimed s → Good (sync_region o s)
sync_region-Good none s e w = all_stopped s w
sync_region-Good (some r) s e w =
    let u = record s { remaining = or_zero (parse_int r.remaining) } in
    elim (Bool-cases r.terminal) [
      | inl ended ↦ elim (Bool-cases r.countdown) [
        | inl shows ↦ rw (ended, shows) (all_stopped u w)
        | inr hides ↦ rw (ended, hides) (all_stopped u w)
      ]
      | inr alive ↦ elim (Bool-cases r.countdown) [
        | inl shows ↦ rw (alive, shows) (counting r u e shows alive w)
        | inr hides ↦ rw (alive, hides) (countdown_stopped r u e alive w)
      ]
    ]

pub sync-Good : (s : Page) → WellTimed s → Good (sync s)
sync-Good s w = sync_region-Good s.region s refl w

pub starts_polling-Good :
    (o : Option Region) (s : Page)
    → s.region ≡ o
    → s.poll_timer ≡ none
    → Good s
    → Good (starts_polling o s)
starts_polling-Good none s e p g = g
starts_polling-Good (some r) s e p g = elim (Bool-cases r.terminal) [
  | inl ended ↦ rw ended g
  | inr alive ↦ rw alive (record {
    timed = new_polling (rw p at g.timed);
    quiet = λ q found ended. absurd (cc (found, e, alive, ended));
    painted = g.painted;
  })
]

paint_region-some :
    (z : ℤ) (o : Option Region) {r : Region}
    → paint_region z o ≡ some r
    → (old : Region) × (o ≡ some old) × (r ≡ record old { display = painted z old.display })
paint_region-some z none e = absurd (cc e)
paint_region-some z (some old) e = (old, refl, sym (cc e))

pub tick_countdown-Good : (s : Page) → Good s → Good (tick_countdown s)
tick_countdown-Good s g =
    let z = one_less s.remaining in
    record {
      timed = g.timed;
      quiet = λ r found ended.
          let (old, there, same) = paint_region-some z s.region found in
          g.quiet old there (cc (ended, ap (λ (q : Region). q.terminal) same));
      painted = λ h on.
          let (r, there, shows, _) = g.painted h on in
          (
            record r { display = painted z r.display },
            rw there refl,
            shows,
            λ text d. painted-fmt z r.display text d,
          );
    }

poll_region-Good : (o : Option Region) (s : Page) → s.region ≡ o → Good s → Good (poll_region o s)
poll_region-Good none s e g =
    let (w, p, c, r) = stop_polling_lem s.poll_timer s refl g.timed in
    record {
      timed = w;
      quiet = λ q found _. absurd (cc (found, r, e));
      painted = λ h on. let (q, there, _, _) = g.painted h (sym c ∙ on) in absurd (cc (there, e));
    }
poll_region-Good (some r) s e g = elim (Bool-cases (is_empty r.status_url)) [
  | inl missing ↦ rw missing g
  | inr given ↦ rw given (record { timed = g.timed; quiet = g.quiet; painted = g.painted })
]

pub poll-Good : (s : Page) → Good s → Good (poll s)
poll-Good s g = poll_region-Good s.region s refl g

pub answered-Good :
    (parse_html : Text → Option Region) (r : Reply) (s : Page)
    → Good s
    → Good (answered parse_html r s)
answered-Good parse_html failed s g = record {
  timed = g.timed;
  quiet = g.quiet;
  painted = g.painted;
}
answered-Good parse_html not_ok s g = record {
  timed = g.timed;
  quiet = g.quiet;
  painted = g.painted;
}
answered-Good parse_html (html text) s g = sync-Good _ g.timed

pub loaded-WellTimed : (region : Option Region) → WellTimed (loaded region)
loaded-WellTimed region = record {
  ticks = λ h e. absurd (cc e);
  polls = λ h e. absurd (cc e);
  ticking = λ h e. absurd (cc e);
  polling = λ h e. absurd (cc e);
  fresh = λ h t e. absurd (cc e);
}
