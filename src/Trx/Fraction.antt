-- ===== src/Trx/Fraction.antt =====
-- The six digits behind the dot, taken from the remainder by itself.
use ucollection.Base.{
  ℕ, ◌+◌, ◌*◌, ◌/◌, ◌%◌, ◌^◌, ◌<◌, ◌≡◌, ◌≢◌, refl, sym, ap, ◌∙◌, inl, inr, true, false, Text, [],
  ◌∷◌, ◌++◌, arith, Bool-cases, is_empty, replicate, pad_start, ◌==◌, nat_eq, drop_end_while,
  nat_beq_iff,
}
use ucollection.Base.Decimal.{to_string, to_string_small, value_from}
use ucollection.Trx.{strip_trailing_zeros}
use ucollection.Trx.Format.{
  pad_digits, length-pad_digits, shift, pad_start-to_string, pad_digits-zero,
}
use ucollection.Trx.Parse.{value_from-replicate}
use ucollection.Trx.RoundTrip.{value_from-pad_digits, strip_trailing_zeros-IsStripped}

-- A number below a million is padded to its six digits.
pub pad_start-fraction : (m : ℕ) → m < 1000000 → pad_start 6 b'0' (to_string m) ≡ pad_digits 6 m
unfolding pad_digits
pad_start-fraction m h =
    let small : shift 5 m < 10 = omega arith in
    let head : shift 5 m ≡ shift 5 m % 10 = omega arith in
    pad_start-to_string 5 m
    ∙ ap (λ s. s ++ pad_digits 5 m) (to_string_small (shift 5 m) small)
    ∙ ap (λ (d : ℕ). (b'0' + d) ∷ pad_digits 5 m) head

-- The digits depend on the remainder only.
pub pad_digits-remainder : (n : ℕ) → pad_digits 6 (n % 1000000) ≡ pad_digits 6 n
unfolding pad_digits
pad_digits-remainder n =
    let e0 : n % 1000000 % 10 ≡ n % 10 = omega arith in
    let e1 : n % 1000000 / 10 % 10 ≡ n / 10 % 10 = omega arith in
    let e2 : n % 1000000 / 10 / 10 % 10 ≡ n / 10 / 10 % 10 = omega arith in
    let e3 : n % 1000000 / 10 / 10 / 10 % 10 ≡ n / 10 / 10 / 10 % 10 = omega arith in
    let e4 : n % 1000000 / 10 / 10 / 10 / 10 % 10 ≡ n / 10 / 10 / 10 / 10 % 10 = omega arith in
    let e5 : n % 1000000 / 10 / 10 / 10 / 10 / 10 % 10 ≡ n / 10 / 10 / 10 / 10 / 10 % 10 =
      omega arith in
    rw (e0, e1, e2, e3, e4, e5)

empty_text : (s : Text) → is_empty s ≡ true → s ≡ []
empty_text [] h = refl
empty_text (c ∷ s) h = cc

-- No digit is left behind the dot exactly if the remainder is 0.
pub strip-pad_digits-empty :
    (n : ℕ) → is_empty (strip_trailing_zeros (pad_digits 6 n)) ≡ (n % 1000000 == 0)
unfolding strip_trailing_zeros drop_end_while
strip-pad_digits-empty n = elim (Bool-cases (n % 1000000 == 0)) [
  | inl none ↦
      let e : n % 1000000 ≡ 0 = (nat_beq_iff _ _).0 none in
      let digits : pad_digits 6 n ≡ replicate 6 b'0' =
        sym (pad_digits-remainder n) ∙ ap (pad_digits 6) e ∙ pad_digits-zero 6 in
      rw (none, digits)
  | inr some ↦ elim (Bool-cases (is_empty (strip_trailing_zeros (pad_digits 6 n)))) [
    | inr left ↦ rw (some, left)
    | inl gone ↦ absurd (omega (arith, all_zeros gone, ne some))
  ]
]
  where
    all_zeros : is_empty (strip_trailing_zeros (pad_digits 6 n)) ≡ true → shift 6 n * 10 ^ 6 ≡ n
    all_zeros gone =
        let (le, e) = strip_trailing_zeros-IsStripped (pad_digits 6 n) in
        let r = empty_text _ gone in
        let e' : replicate 6 b'0' ≡ pad_digits 6 n = rw (r, length-pad_digits) at e in
        sym (value_from-replicate (shift 6 n) 6)
        ∙ ap (value_from (shift 6 n)) e'
        ∙ value_from-pad_digits 6 n

    ne : (n % 1000000 == 0) ≡ false → n % 1000000 ≢ 0
    ne some e = cc (some, (nat_beq_iff (n % 1000000) 0).1 e)
