-- ===== src/Orders/Sources.antt =====
-- From which states the decisions lead, and where to.
use mathlib.Core.Path.{subst}
use ucollection.Base.{
  ℕ, ◌≡◌, refl, sym, ap, [], ◌∷◌, Bool, true, false, Option, none, some, nat_eq, text_eq, text_beq,
  if◌then◌else◌, arith,
}
use ucollection.Orders.{
  Status, pending, confirming, completed, overpaid, confirmation_stalled, expired, Order, Snapshot,
  Error, Outcome, ok, ◌>>=◌, ◌>>◌, check,
}
use ucollection.Orders.Changes.{
  Statement, status_in, decide_confirming, decide_final, decide_expired, decide_stalled,
  decide_manual, manual_sources, stalled_since,
}
use ucollection.Orders.Consistent.{leads_to, Leads}

in_pending : (s : Status) → status_in s (pending ∷ []) ≡ true → s ≡ pending
unfolding text_beq
in_pending pending h = refl
in_pending confirming h = cc h
in_pending completed h = cc h
in_pending overpaid h = cc h
in_pending confirmation_stalled h = cc h
in_pending expired h = cc h

pub in_confirming : (s : Status) → status_in s (confirming ∷ []) ≡ true → s ≡ confirming
unfolding text_beq
in_confirming pending h = cc h
in_confirming confirming h = refl
in_confirming completed h = cc h
in_confirming overpaid h = cc h
in_confirming confirmation_stalled h = cc h
in_confirming expired h = cc h

-- A decision that was made under a condition.
pub chosen :
    {A : Type 0} (b : Bool) (a : A) {c : A}
    → ◌≡◌ {A = Outcome (Option A)} (ok (if b then none else some a)) (ok (some c))
    → (b ≡ false) × (a ≡ c)
chosen true a h = cc h
chosen false a h = (refl, ground (arith, h))

pub checked :
    {A : Type 0} (b : Bool) (e : Error) (m : Outcome A) {a : A}
    → (check b e >> m) ≡ ok a
    → (b ≡ true) × (m ≡ ok a)
unfolding ◌>>=◌ ◌>>◌
checked true e m h = (refl, h)
checked false e m h = cc h

leads_from_manual : (s to : Status) → status_in s (manual_sources to) ≡ true → leads_to s to ≡ true
unfolding text_beq
leads_from_manual s pending h = cc
leads_from_manual s confirming h = cc h
leads_from_manual s confirmation_stalled h = cc h
leads_from_manual pending _ h = cc
leads_from_manual confirming _ h = cc
leads_from_manual completed _ h = cc h
leads_from_manual overpaid _ h = cc h
leads_from_manual confirmation_stalled _ h = refl
leads_from_manual expired completed h = refl
leads_from_manual expired overpaid h = refl
leads_from_manual expired expired h = cc h

-- A single source and what it leads to.
from_one :
    (source current to target : Status)
    → current ≡ source
    → target ≡ to
    → leads_to source target ≡ true
    → leads_to current to ≡ true
from_one source current to target e f h = rw (e, sym f) h

pub Leads-confirming : (works : Statement → Bool) → Leads (pending ∷ []) (decide_confirming works)
Leads-confirming works db current to snapshot allowed decided =
    let (_, d) = checked _ _ _ decided in
    let (_, e) = chosen _ _ d in
    from_one pending current.status to confirming (in_pending _ allowed) (ap (λ p. p.0) e) refl

pub Leads-final : (works : Statement → Bool) → Leads (confirming ∷ []) (decide_final works)
Leads-final works db current to snapshot allowed decided =
    let (_, d) = checked _ _ _ decided in
    let (_, e) = chosen _ _ d in
    from_one confirming current.status to _ (in_confirming _ allowed) (ap (λ p. p.0) e)
      (ground arith)

pub Leads-expired : (now : ℕ) → Leads (pending ∷ []) (decide_expired now)
Leads-expired now db current to snapshot allowed decided =
    from_one pending current.status to expired (in_pending _ allowed) (ground (arith, decided)) refl

stalled_since-stalled :
    (now : ℕ) (o : Order) (at : Option ℕ) (to : Status) (snapshot : Snapshot)
    → stalled_since now o at ≡ ok (some (to, snapshot))
    → confirmation_stalled ≡ to
stalled_since-stalled now o none to snapshot h = cc h
stalled_since-stalled now o (some at) to snapshot h = ground (arith, h)

pub Leads-stalled : (now : ℕ) → Leads (confirming ∷ []) (decide_stalled now)
Leads-stalled now db current to snapshot allowed decided =
    from_one confirming current.status to confirmation_stalled (in_confirming _ allowed)
      (stalled_since-stalled now current current.confirming_at to snapshot decided) refl

pub Leads-manual : (to : Status) → Leads (manual_sources to) (decide_manual to)
Leads-manual to db current to' snapshot allowed decided =
    let e : to ≡ to' = ground (arith, decided) in
    subst (λ (s : Status). leads_to current.status s ≡ true) e
      (leads_from_manual current.status to allowed)
