-- ===== src/Checkout/Clock.antt =====
-- The countdown's text is the number of seconds.
use ucollection.Base.{
  ℕ, zero, suc, ◌+◌, ◌-◌, ◌*◌, ◌/◌, ◌%◌, ◌≡◌, refl, sym, ap, ◌∙◌, inl, inr, Text, [], ◌∷◌, ◌++◌,
  Bool-cases, ltb, ◌==◌, nat_eq, if◌then◌else◌, length, replicate, All, arith, append-nil,
}
use ucollection.Base.Decimal.{
  to_string, value_from, value_from-to_string, IsDigit, to_string-IsDigit,
}
use ucollection.Base.Int.{pos}
use ucollection.Checkout.{fmt, two_digits}

-- A reader of clock texts: each colon multiplies what stands in front of it by 60.
unfoldable pub read_clock : ℕ → ℕ → Text → ℕ
read_clock t p [] = t + p
read_clock t p (c ∷ s) =
    if c == b':' then read_clock ((t + p) * 60) 0 s else read_clock t (p * 10 + (c - b'0')) s

read_clock-append :
    (t p : ℕ) (s rest : Text)
    → All IsDigit s
    → read_clock t p (s ++ rest) ≡ read_clock t (value_from p s) rest
unfolding read_clock
read_clock-append t p [] rest h = refl
read_clock-append t p (c ∷ s) rest (d, h) =
    ground (arith, read_clock-append t (p * 10 + (c - b'0')) s rest h)

-- A part that ends in a colon, and the last part.
read_clock-colon :
    (t : ℕ) (s rest : Text)
    → All IsDigit s
    → read_clock t 0 (s ++ b':' ∷ rest) ≡ read_clock ((t + value_from 0 s) * 60) 0 rest
unfolding read_clock
read_clock-colon t s rest h = read_clock-append t 0 s (b':' ∷ rest) h

read_clock-last : (t : ℕ) (s : Text) → All IsDigit s → read_clock t 0 s ≡ t + value_from 0 s
unfolding read_clock
read_clock-last t s h = ap (read_clock t 0) (sym (append-nil s)) ∙ read_clock-append t 0 s [] h

zeros-IsDigit : (k : ℕ) (s : Text) → All IsDigit s → All IsDigit (replicate k b'0' ++ s)
zeros-IsDigit zero s h = h
zeros-IsDigit (suc k) s h = (refl, zeros-IsDigit k s h)

value_from-zeros : (k : ℕ) (s : Text) → value_from 0 (replicate k b'0' ++ s) ≡ value_from 0 s
value_from-zeros zero s = refl
value_from-zeros (suc k) s = value_from-zeros k s

two_digits-IsDigit : (n : ℕ) → All IsDigit (two_digits n)
two_digits-IsDigit n = zeros-IsDigit _ (to_string n) (to_string-IsDigit n)

value_from-two_digits : (n : ℕ) → value_from 0 (two_digits n) ≡ n
value_from-two_digits n =
    value_from-zeros (2 - length (to_string n)) (to_string n) ∙ value_from-to_string n

minutes : (t m s : ℕ) → read_clock t 0 (two_digits m ++ b':' ∷ two_digits s) ≡ (t + m) * 60 + s
minutes t m s = rw (
  read_clock-colon t (two_digits m) (two_digits s) (two_digits-IsDigit m),
  value_from-two_digits m,
  read_clock-last ((t + m) * 60) (two_digits s) (two_digits-IsDigit s),
  value_from-two_digits s,
)

-- The countdown's text, read as hours, minutes and seconds between colons, is the number of seconds
-- that it was made from.
pub read_clock-fmt : (n : ℕ) → read_clock 0 0 (fmt (pos n)) ≡ n
unfolding fmt
read_clock-fmt n = elim (Bool-cases (ltb 0 (n / 3600))) [
  | inl hours ↦
      rw
        (
          hours,
          read_clock-colon 0 (to_string (n / 3600)) _ (to_string-IsDigit (n / 3600)),
          value_from-to_string (n / 3600),
          minutes ((0 + n / 3600) * 60) (n % 3600 / 60) (n % 60),
        )
        (omega arith)
  | inr below ↦
      rw
        (
          below,
          read_clock-colon 0 (to_string (n % 3600 / 60)) _ (to_string-IsDigit (n % 3600 / 60)),
          value_from-to_string (n % 3600 / 60),
          read_clock-last ((0 + n % 3600 / 60) * 60) (two_digits (n % 60))
              (two_digits-IsDigit (n % 60)),
          value_from-two_digits (n % 60),
        )
        (ground arith)
]
