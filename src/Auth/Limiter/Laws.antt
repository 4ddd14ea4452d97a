-- ===== src/Auth/Limiter/Laws.antt =====
-- The limiter, which forgets old failures as it goes, decides as one that remembers all of them.
use ucollection.Base.{
  ℕ, ◌≤◌, ◌≡◌, refl, sym, ap, ◌∙◌, inl, inr, Text, List, [], ◌∷◌, ◌++◌, false, length, ltb, ◌==◌,
  text_eq, text_beq_iff, if◌then◌else◌, Bool-cases, arith,
}
use ucollection.Auth.Limiter.{Hits, in_window, kept, allow, record_failure, ip_rate_limit_max}

-- A call of the limiter, with its time.
pub data Call : Type 0 where
  asks fails : (ip : Text) (now : ℕ) → Call

abbrev pub time_of : Call → ℕ
time_of (asks ip now) = now
time_of (fails ip now) = now

abbrev pub after_call : Call → Hits → Hits
after_call (asks ip now) hits = (allow ip now hits).1
after_call (fails ip now) hits = record_failure ip now hits

-- The calls, the latest in front.
pub after_all : List Call → Hits
after_all [] = λ ip. []
after_all (c ∷ cs) = after_call c (after_all cs)

-- The times of all failures of an address, the latest last.
pub failures_of : Text → List Call → List ℕ
failures_of ip [] = []
failures_of ip (asks other now ∷ cs) = failures_of ip cs
failures_of ip (fails other now ∷ cs) =
    let before = failures_of ip cs in if ip == other then before ++ now ∷ [] else before

-- No call is earlier than one before it, and none later than a time.
abbrev pub InTime : ℕ → List Call → Type 0
InTime now [] = Unit
InTime now (c ∷ cs) = (time_of c ≤ now) × InTime (time_of c) cs

kept-kept : (now old : ℕ) (ts : List ℕ) → old ≤ now → kept now (kept old ts) ≡ kept now ts
kept-kept now old [] h = refl
kept-kept now old (t ∷ ts) h = elim (Bool-cases (in_window old t)) [
  | inl fresh ↦ rw fresh (ap (λ r. if in_window now t then t ∷ r else r) (kept-kept now old ts h))
  | inr gone ↦
      let gone_now : in_window now t ≡ false = ground arith in
      rw (gone, gone_now) (kept-kept now old ts h)
]

kept-append : (now : ℕ) (xs ys : List ℕ) → kept now (xs ++ ys) ≡ kept now xs ++ kept now ys
kept-append now [] ys = refl
kept-append now (t ∷ ts) ys = elim (Bool-cases (in_window now t)) [
  | inl fresh ↦ rw fresh (ap (λ r. t ∷ r) (kept-append now ts ys))
  | inr gone ↦ rw gone (kept-append now ts ys)
]

InTime-le : (a b : ℕ) (cs : List Call) → a ≤ b → InTime a cs → InTime b cs
InTime-le a b [] h _ = tt
InTime-le a b (c ∷ cs) h (le, rest) = (omega arith, rest)

-- What is in the window is the same in the limiter and in the list of all failures.
after_all-kept :
    (cs : List Call) (ip : Text) (now : ℕ)
    → InTime now cs
    → kept now (after_all cs ip) ≡ kept now (failures_of ip cs)
unfolding after_all failures_of allow record_failure
after_all-kept [] ip now _ = refl
after_all-kept (asks other at ∷ cs) ip now (le, h) =
    let ih = after_all-kept cs ip now (InTime-le at now cs le h) in
    elim (Bool-cases (ip == other)) [
      | inl same ↦
          let q : other ≡ ip = sym ((text_beq_iff ip other).0 same) in
          rw same
            (kept-kept now at (after_all cs other) le ∙ ap (λ i. kept now (after_all cs i)) q ∙ ih)
      | inr apart ↦ rw apart ih
    ]
after_all-kept (fails other at ∷ cs) ip now (le, h) =
    let ih = after_all-kept cs ip now (InTime-le at now cs le h) in
    elim (Bool-cases (ip == other)) [
      | inl same ↦
          let q : other ≡ ip = sym ((text_beq_iff ip other).0 same) in
          let old =
            kept-kept now at (after_all cs other) le ∙ ap (λ i. kept now (after_all cs i)) q ∙ ih in
          rw same (
            kept-append now (kept at (after_all cs other)) (at ∷ [])
            ∙ ap (λ l. l ++ kept now (at ∷ [])) old
            ∙ sym (kept-append now (failures_of ip cs) (at ∷ [])))
      | inr apart ↦ rw apart ih
    ]

-- After any calls of the limiter in the order of their times, it allows an address exactly if fewer
-- than ten of all failures that were ever recorded for that address are less than a quarter of an
-- hour old, although it has dropped old ones on the way.
pub allow_all_failures :
    (cs : List Call) (ip : Text) (now : ℕ)
    → InTime now cs
    → (allow ip now (after_all cs)).0
      ≡ ltb (length (kept now (failures_of ip cs))) ip_rate_limit_max
unfolding allow
allow_all_failures cs ip now h =
    ap (λ ts. ltb (length ts) ip_rate_limit_max) (after_all-kept cs ip now h)
