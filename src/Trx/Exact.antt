-- ===== src/Trx/Exact.antt =====
-- Which texts `trxToSun` accepts, said without its code: digits around at most one dot that counts.
use ucollection.Base.{
  ℕ, ◌<◌, ◌*◌, ◌^◌, ◌-◌, length, ◌≤◌, ◌≡◌, ◌↔◌, refl, ap, ◌∙◌, ◌⊎◌, inl, inr, Text, [], ◌∷◌, ◌++◌,
  true, false, ◌==◌, nat_eq, all, is_digit, trim, arith, Bool-cases,
}
use ucollection.Base.Decimal.{value_from}
use ucollection.Base.Result.{ok}
use ucollection.Trx.{dot, until_dot, after_dot, is_rejected, max_safe_integer, trx_to_sun}
use ucollection.Trx.Parse.{
  int_part, frac_part, Spells, trx_to_sun_bounds, trx_to_sun-Spells, trx_to_sun_complete,
}
use ucollection.Trx.Dots.{
  HasNoDot, until_dot-append, after_dot-append, after_dot-nil, until_dot-eq_self,
}

-- A text with `i` in front of its first dot and `f` behind it: it has no dot, or one, or a second
-- one with anything behind it.
abbrev pub Written : Text → Text → Text → Type 0
Written t i f =
    ((t ≡ i) × (f ≡ []))
    ⊎ ((t ≡ i ++ dot ∷ f) ⊎ ((rest : Text) × (t ≡ i ++ dot ∷ (f ++ dot ∷ rest))))

-- The text, trimmed, is written so, and its digits spell the amount, which is positive and safe.
abbrev pub Denotes : Text → ℕ → Type 0
Denotes s n = (i f : Text) × Written (trim s) i f × Spells i f n × (0 < n) × (n ≤ max_safe_integer)

abbrev Split : Text → Type 0
Split t = ((t ≡ until_dot t) × (after_dot t ≡ [])) ⊎ (t ≡ until_dot t ++ dot ∷ after_dot t)

split : (t : Text) → Split t
unfolding until_dot after_dot
split [] = inl (refl, refl)
split (c ∷ t) = elim (Bool-cases (c == dot)) [
  | inl at ↦ inr (rw at (ap (λ x. x ∷ t) (ground (arith, at))))
  | inr other ↦ elim (split t) [
    | inl (e, none_left) ↦ inl (rw other (ap (λ u. c ∷ u) e), rw other none_left)
    | inr e ↦ inr (rw other (ap (λ u. c ∷ u) e))
  ]
]

-- The parts that the code takes are parts that the text is written with.
written : (t : Text) → Written t (until_dot t) (until_dot (after_dot t))
unfolding until_dot
written t = elim (split t) [
  | inl (e, none_left) ↦ inl (e, rw none_left refl)
  | inr e ↦ elim (split (after_dot t)) [
    | inl (e', _) ↦ inr (inl (e ∙ ap (λ u. until_dot t ++ dot ∷ u) e'))
    | inr e' ↦ inr (inr (after_dot (after_dot t), e ∙ ap (λ u. until_dot t ++ dot ∷ u) e'))
  ]
]

digits-HasNoDot : (s : Text) → all is_digit s ≡ true → HasNoDot s
digits-HasNoDot [] _ = tt
digits-HasNoDot (c ∷ s) h = (ground (arith, h), digits-HasNoDot s (ground (arith, h)))

-- And there is one way only.
taken :
    (t i f : Text)
    → Written t i f
    → HasNoDot i
    → HasNoDot f
    → (until_dot t ≡ i) × (until_dot (after_dot t) ≡ f)
unfolding until_dot after_dot
taken t i f (inl (e, no_fraction)) hi hf =
    rw (e, no_fraction) (until_dot-eq_self i hi, rw (after_dot-nil i hi) refl)
taken t i f (inr (inl e)) hi hf =
    rw e (until_dot-append i f hi, rw (after_dot-append i f hi) (until_dot-eq_self f hf))
taken t i f (inr (inr (rest, e))) hi hf = rw e (
  until_dot-append i (f ++ dot ∷ rest) hi,
  rw (after_dot-append i (f ++ dot ∷ rest) hi) (until_dot-append f rest hf),
)

-- Such a text is neither empty nor has it a minus sign in front.
accepted : (t i f : Text) {n : ℕ} → Written t i f → Spells i f n → 0 < n → is_rejected t ≡ false
accepted t [] f (inl (e, no_fraction)) (_, _, _, value) pos =
    absurd (nothing f no_fraction value pos)
  where
    nothing : (f : Text) {n : ℕ} → f ≡ [] → value_from 0 f * 10 ^ (6 - length f) ≡ n → 0 < n → ⊥
    nothing [] e v p = omega arith
    nothing (c ∷ f) e v p = cc
accepted t [] f (inr (inl e)) sp pos = rw e refl
accepted t [] f (inr (inr (rest, e))) sp pos = rw e refl
accepted t (c ∷ i) f (inl (e, _)) (digits, _, _, _) pos = rw e (ground (arith, digits))
accepted t (c ∷ i) f (inr (inl e)) (digits, _, _, _) pos = rw e (ground (arith, digits))
accepted t (c ∷ i) f (inr (inr (rest, e))) (digits, _, _, _) pos = rw e (ground (arith, digits))

-- A text is accepted with an amount exactly if, after trimming, it is digits only, or digits, a dot
-- and at most six digits, where the digits on one side may be missing, or such a text with a second
-- dot behind it and anything after that, and the digits up to the second dot spell the amount,
-- which is above 0 and at most the largest safe integer. What stands behind a second dot is not
-- read, so a text like 1.5.9 is accepted, although the comment in the source says that every
-- malformed text throws.
pub trx_to_sun_exact : (s : Text) (n : ℕ) → (trx_to_sun s ≡ ok n) ↔ Denotes s n
trx_to_sun_exact s n = (parsed, denoted)
  where
    parsed : trx_to_sun s ≡ ok n → Denotes s n
    parsed h =
        let (pos, fits) = trx_to_sun_bounds s h in
        (int_part s, frac_part s, written (trim s), trx_to_sun-Spells s h, pos, fits)

    denoted : Denotes s n → trx_to_sun s ≡ ok n
    denoted (i, f, w, sp, pos, fits) =
        let (hi, hf, _, _) = sp in
        let (ei, ef) = taken (trim s) i f w (digits-HasNoDot i hi) (digits-HasNoDot f hf) in
        trx_to_sun_complete s (accepted (trim s) i f w sp pos) (rw (ei, ef) sp) pos fits
