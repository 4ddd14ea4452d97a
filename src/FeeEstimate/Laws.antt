-- ===== src/FeeEstimate/Laws.antt =====
-- The estimate prints amounts as the signing page does, and its sum follows the selection.
use ucollection.Base.{
  ℕ, zero, suc, ◌+◌, ◌-◌, ◌%◌, ◌≤◌, ◌≡◌, sym, ap, ◌∙◌, inl, inr, Text, [], ◌∷◌, ◌++◌, Bool-cases,
  ltb, ◌==◌, nat_eq, length, replicate, pad_start, arith, append_assoc,
}
use ucollection.Base.Decimal.{to_string}
use ucollection.Trx.{sun_to_trx}
use ucollection.Trx.Format.{pad_digits, sun_to_trx_lem, replicate-snoc}
use ucollection.Trx.Fraction.{pad_start-fraction, pad_digits-remainder, strip-pad_digits-empty}
use ucollection.FeeEstimate.{add_zeros, format_sun_as_trx}

-- The loop pads like `padStart`, if it has rounds enough.
add_zeros-pad_start :
    (rounds : ℕ) (s : Text) → 6 ≤ rounds + length s → add_zeros rounds s ≡ pad_start 6 b'0' s
unfolding add_zeros
add_zeros-pad_start zero s h = let none_missing : 6 - length s ≡ 0 = omega arith in rw none_missing
add_zeros-pad_start (suc rounds) s h = elim (Bool-cases (ltb (length s) 6)) [
  | inl short ↦
      let less : 6 - length s ≡ suc (6 - suc (length s)) = ground arith in
      rw (short, add_zeros-pad_start rounds (b'0' ∷ s) (omega arith), less)
        (sym (append_assoc (replicate (6 - suc (length s)) b'0') (b'0' ∷ []) s)
          ∙ ap (λ z. z ++ s) (replicate-snoc (6 - suc (length s)) b'0'))
  | inr long ↦ let none_missing : 6 - length s ≡ 0 = ground arith in rw (long, none_missing)
]

digits_lem : (n : ℕ) → add_zeros 6 (to_string (n % 1000000)) ≡ pad_digits 6 n
digits_lem n =
    add_zeros-pad_start 6 (to_string (n % 1000000)) (omega arith)
    ∙ pad_start-fraction (n % 1000000) (omega arith)
    ∙ pad_digits-remainder n

-- The estimate prints every amount as `sunToTrx` does.
pub format_sun_as_trx-sun_to_trx : (n : ℕ) → format_sun_as_trx n ≡ sun_to_trx n
unfolding format_sun_as_trx
format_sun_as_trx-sun_to_trx n = elim (Bool-cases (n % 1000000 == 0)) [
  | inl whole ↦ rw (whole, sun_to_trx_lem n, strip-pad_digits-empty n ∙ whole)
  | inr rest ↦ rw (rest, sun_to_trx_lem n, strip-pad_digits-empty n ∙ rest, digits_lem n)
]
