-- ===== src/Trx/RoundTrip.antt =====
-- `trxToSun` reads back what `sunToTrx` prints.
use mathlib.Core.Path.{◌≡⟨◌⟩◌, ◌∎}
use ucollection.Base.{
  ℕ, zero, suc, ◌-◌, ◌*◌, ◌/◌, ◌^◌, ◌<◌, ◌≤◌, ◌≡◌, refl, sym, ap, ◌∙◌, inl, inr, true, false, Text,
  [], ◌∷◌, ◌++◌, append_assoc, arith, Bool-cases, ◌&&◌, ◌==◌, nat_eq, nat_beq_iff, if◌then◌else◌,
  length, is_empty, replicate, All, All-append, All-map, All→all, is_digit, is_space, trim,
  drop_while-eq_self, drop_end_while-eq_self, drop_end_while-All,
}
use ucollection.Base.Decimal.{
  to_string, value_from, value_from-append, value_from-to_string, IsDigit, to_string-IsDigit,
  length-to_string_pos,
}
use ucollection.Base.Result.{ok}
use ucollection.Trx.Dots.{
  after_dot-nil, HasNoDot, until_dot-eq_self, until_dot-append, after_dot-append,
}
use ucollection.Trx.{
  dot, max_safe_integer, sun_to_trx, trx_to_sun, until_dot, after_dot, is_rejected,
  strip_trailing_zeros,
}
use ucollection.Trx.Format.{pad_digits, length-pad_digits, shift, with_fraction, sun_to_trx_lem}
use ucollection.Trx.Parse.{Spells, int_part, frac_part, trx_to_sun_complete, value_from-replicate}

pub value_from-pad_digits : (k n : ℕ) → value_from (shift k n) (pad_digits k n) ≡ n
unfolding pad_digits
value_from-pad_digits zero n = refl
value_from-pad_digits (suc k) n =
    rw (value_from-append, value_from-pad_digits k (n / 10)) (omega arith)

pad_digits-IsDigit : (k n : ℕ) → All IsDigit (pad_digits k n)
unfolding pad_digits
pad_digits-IsDigit zero n = tt
pad_digits-IsDigit (suc k) n =
    All-append IsDigit _ _ (pad_digits-IsDigit k (n / 10)) (ground arith, tt)

-- One character more, in front.
abbrev pub IsStripped : Text → Text → Type 0
IsStripped r s = (length r ≤ length s) × (r ++ replicate (length s - length r) b'0' ≡ s)

cons-IsStripped : (c : ℕ) (r s : Text) → IsStripped r s → IsStripped (c ∷ r) (c ∷ s)
cons-IsStripped c r s (le, e) =
    let d : suc (length s) - suc (length r) ≡ length s - length r = omega arith in
    (omega arith, rw d (ap (λ t. c ∷ t) e))

zeros-IsStripped : (s : Text) → IsStripped [] s → IsStripped [] (b'0' ∷ s)
zeros-IsStripped s (le, e) =
    let d : length s - 0 ≡ length s = omega arith in
    let d' : suc (length s) - 0 ≡ suc (length s) = omega arith in
    (omega arith, rw d' (ap (λ t. b'0' ∷ t) (rw d at e)))

strip_step :
    (c : ℕ) (r s : Text)
    → IsStripped r s
    → IsStripped (if is_empty r && (c == b'0') then [] else c ∷ r) (c ∷ s)
strip_step c [] s h = elim (Bool-cases (c == b'0')) [
  | inl zero_digit ↦
      let e : c ≡ b'0' = (nat_beq_iff c b'0').0 zero_digit in rw e (zeros-IsStripped s h)
  | inr other_digit ↦ rw other_digit (cons-IsStripped c [] s h)
]
strip_step c (x ∷ r) s h = cons-IsStripped c (x ∷ r) s h

-- The zeros that were taken off, put back.
pub strip_trailing_zeros-IsStripped : (s : Text) → IsStripped (strip_trailing_zeros s) s
unfolding strip_trailing_zeros
strip_trailing_zeros-IsStripped [] = (omega arith, refl)
strip_trailing_zeros-IsStripped (c ∷ s) =
    strip_step c (strip_trailing_zeros s) s (strip_trailing_zeros-IsStripped s)

digits-HasNoDot : (s : Text) → All IsDigit s → HasNoDot s
digits-HasNoDot [] _ = tt
digits-HasNoDot (c ∷ s) (h, hs) = (ground arith, digits-HasNoDot s hs)

empty_text : (s : Text) → is_empty s ≡ true → [] ≡ s
empty_text [] h = refl
empty_text (c ∷ s) h = cc

digit_not_space : (c : ℕ) → IsDigit c → is_space c ≡ false
unfolding is_space
digit_not_space c h = ground arith

dot_not_space : is_space dot ≡ false
unfolding is_space
dot_not_space = refl

module _ (w f : Text) (hw : All IsDigit w) (hf : All IsDigit f) where
  until_dot-with_fraction : until_dot (with_fraction w f) ≡ w
  until_dot-with_fraction = elim (Bool-cases (is_empty f)) [
    | inl none_left ↦ rw none_left (until_dot-eq_self w (digits-HasNoDot w hw))
    | inr some_left ↦ rw some_left (until_dot-append w f (digits-HasNoDot w hw))
  ]

  after_dot-with_fraction : until_dot (after_dot (with_fraction w f)) ≡ f
  unfolding until_dot
  after_dot-with_fraction = elim (Bool-cases (is_empty f)) [
    | inl none_left ↦
        rw (none_left, after_dot-nil w (digits-HasNoDot w hw)) (empty_text f none_left)
    | inr some_left ↦
        rw (some_left, after_dot-append w f (digits-HasNoDot w hw))
          (until_dot-eq_self f (digits-HasNoDot f hf))
  ]

  with_fraction-All :
      (P : ℕ → Type 0) → ((c : ℕ) → IsDigit c → P c) → P dot → All P (with_fraction w f)
  with_fraction-All P d p = elim (Bool-cases (is_empty f)) [
    | inl none_left ↦ rw none_left (All-map IsDigit P d w hw)
    | inr some_left ↦
        rw some_left
          (All-append P w (dot ∷ f) (All-map IsDigit P d w hw) (p, All-map IsDigit P d f hf))
  ]

  trim-with_fraction : trim (with_fraction w f) ≡ with_fraction w f
  unfolding trim
  trim-with_fraction =
      let h = with_fraction-All (λ c. is_space c ≡ false) digit_not_space dot_not_space in
      rw (drop_while-eq_self is_space _ h) (drop_end_while-eq_self is_space _ h)

-- No minus sign and some digit in front.
is_rejected-with_fraction :
    (w f : Text) → All IsDigit w → 0 < length w → is_rejected (with_fraction w f) ≡ false
is_rejected-with_fraction [] f h k = absurd (omega arith)
is_rejected-with_fraction (c ∷ w) [] (h, _) k = ground arith
is_rejected-with_fraction (c ∷ w) (d ∷ f) (h, _) k = ground arith

module _ (n : ℕ) where
  abbrev whole : Text
  whole = to_string (n / 1000000)

  abbrev frac : Text
  frac = strip_trailing_zeros (pad_digits 6 n)

  frac-IsDigit : All IsDigit frac
  unfolding strip_trailing_zeros
  frac-IsDigit = drop_end_while-All (λ c. c == b'0') IsDigit _ (pad_digits-IsDigit 6 n)

  frac-pad : (length frac ≤ 6) × (frac ++ replicate (6 - length frac) b'0' ≡ pad_digits 6 n)
  frac-pad =
      let e : length (pad_digits 6 n) ≡ 6 = length-pad_digits 6 n in
      rw e at (strip_trailing_zeros-IsStripped (pad_digits 6 n))

  frac-value : value_from 0 (whole ++ frac) * 10 ^ (6 - length frac) ≡ n
  frac-value =
      value_from 0 (whole ++ frac) * 10 ^ (6 - length frac)
      ≡⟨ sym (value_from-replicate _ _) ⟩
        value_from (value_from 0 (whole ++ frac)) (replicate (6 - length frac) b'0')
      ≡⟨ sym (value_from-append 0 (whole ++ frac) _) ⟩
        value_from 0 ((whole ++ frac) ++ replicate (6 - length frac) b'0')
      ≡⟨ ap (value_from 0) (append_assoc whole frac _ ∙ ap (λ t. whole ++ t) frac-pad.1) ⟩
        value_from 0 (whole ++ pad_digits 6 n)
      ≡⟨ value_from-append 0 whole (pad_digits 6 n) ⟩
        value_from (value_from 0 whole) (pad_digits 6 n)
      ≡⟨ rw value_from-to_string (ap (λ m. value_from m (pad_digits 6 n)) (sym shifted)) ⟩
        value_from (shift 6 n) (pad_digits 6 n)
      ≡⟨ value_from-pad_digits 6 n ⟩ n ∎
    where
      shifted : shift 6 n ≡ n / 1000000
      shifted = omega arith

  printed-Spells : let t = with_fraction whole frac in Spells (int_part t) (frac_part t) n
  printed-Spells =
      let hw = to_string-IsDigit (n / 1000000) in
      rw
        (
          trim-with_fraction whole frac hw frac-IsDigit,
          until_dot-with_fraction whole frac hw frac-IsDigit,
          after_dot-with_fraction whole frac hw frac-IsDigit,
        )
        (All→all is_digit whole hw, All→all is_digit frac frac-IsDigit, frac-pad.0, frac-value)

  -- Reading back what `sunToTrx` has printed gives the amount, for every amount above 0 up to the
  -- largest safe integer.
  pub trx_to_sun-sun_to_trx : 0 < n → n ≤ max_safe_integer → trx_to_sun (sun_to_trx n) ≡ ok n
  trx_to_sun-sun_to_trx pos fits =
      let hw = to_string-IsDigit (n / 1000000) in
      let accepted : is_rejected (trim (with_fraction whole frac)) ≡ false =
        rw (trim-with_fraction whole frac hw frac-IsDigit)
          (is_rejected-with_fraction whole frac hw (length-to_string_pos (n / 1000000))) in
      rw sun_to_trx_lem
        (trx_to_sun_complete (with_fraction whole frac) accepted printed-Spells pos fits)
