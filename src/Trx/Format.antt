-- ===== src/Trx/Format.antt =====
-- What `sunToTrx` prints, in terms of division: the whole TRX, and six digits without the zeros at
-- their end.
use ucollection.Base.{
  ℕ, zero, suc, ◌+◌, ◌-◌, ◌/◌, ◌%◌, ◌<◌, ◌≡◌, refl, ap, ◌∙◌, inl, inr, Text, [], ◌∷◌, ◌++◌,
  append_assoc, append-nil, ◌≢◌, arith, ltb, ltb→lt, Bool-cases, nat_eq, if◌then◌else◌, length,
  is_empty, replicate, length-append, take-append, drop-append, pad_start, slice_before, slice_last,
}
use ucollection.Base.Decimal.{
  to_string, to_string_small, to_string_step, length-to_string_pos, value_from,
  value_from-to_string,
}
use ucollection.Trx.{dot, strip_leading_zeros, strip_trailing_zeros, sun_to_trx}

-- The last `k` decimal digits of a number, and what is left in front of them.
unfoldable pub pad_digits : ℕ → ℕ → Text
pad_digits zero n = []
pad_digits (suc k) n = pad_digits k (n / 10) ++ (b'0' + n % 10) ∷ []

abbrev pub shift : ℕ → ℕ → ℕ
shift zero n = n
shift (suc k) n = shift k (n / 10)

pub length-pad_digits : (k n : ℕ) → length (pad_digits k n) ≡ k
unfolding pad_digits
length-pad_digits zero n = refl
length-pad_digits (suc k) n = omega (
  arith,
  length-append (pad_digits k (n / 10)) ((b'0' + n % 10) ∷ []),
  length-pad_digits k (n / 10),
)

pad_start-snoc :
    (n c d : ℕ) (s : Text) → pad_start (suc n) c (s ++ d ∷ []) ≡ pad_start n c s ++ d ∷ []
pad_start-snoc n c d s =
    let e : suc n - length (s ++ d ∷ []) ≡ n - length s = omega (arith, length-append s (d ∷ [])) in
    rw (e, append_assoc)

pub replicate-snoc : (n c : ℕ) → replicate n c ++ c ∷ [] ≡ c ∷ replicate n c
replicate-snoc zero c = refl
replicate-snoc (suc n) c = ap (λ s. c ∷ s) (replicate-snoc n c)

pub pad_digits-zero : (k : ℕ) → pad_digits k 0 ≡ replicate k b'0'
unfolding pad_digits
pad_digits-zero zero = refl
pad_digits-zero (suc k) = rw (pad_digits-zero k) (replicate-snoc k b'0')

shift-zero : (k : ℕ) → shift k 0 ≡ 0
shift-zero zero = refl
shift-zero (suc k) = shift-zero k

pad_small :
    (k n : ℕ)
    → n < 10
    → pad_start (suc (suc k)) b'0' (to_string n)
      ≡ to_string (shift k (n / 10)) ++ pad_digits (suc k) n
unfolding pad_digits
pad_small k n h =
    let e : n / 10 ≡ 0 = omega arith in
    let d : n % 10 ≡ n = omega arith in
    let w : suc (suc k) - 1 ≡ suc k = omega arith in
    rw (to_string_small n h, e, d, shift-zero, to_string_small 0 (omega arith), pad_digits-zero, w)

pub pad_start-to_string :
    (k n : ℕ) → pad_start (suc k) b'0' (to_string n) ≡ to_string (shift k n) ++ pad_digits k n
unfolding pad_digits
pad_start-to_string zero n =
    let e : 1 - length (to_string n) ≡ 0 = omega (arith, length-to_string_pos n) in
    rw (e, append-nil)
pad_start-to_string (suc k) n = elim (Bool-cases (ltb n 10)) [
  | inl small ↦ pad_small k n (ltb→lt n 10 small)
  | inr large ↦ rw (
    to_string_step n (ground arith),
    pad_start-snoc,
    pad_start-to_string k (n / 10),
    append_assoc,
  )
]

-- The text that the two `slice` calls take apart.
padded_lem : (n : ℕ) → pad_start 7 b'0' (to_string n) ≡ to_string (n / 1000000) ++ pad_digits 6 n
padded_lem n =
    let e : shift 6 n ≡ n / 1000000 = omega arith in
    pad_start-to_string 6 n ∙ ap (λ m. to_string m ++ pad_digits 6 n) e

slice_before-append : (s t : Text) (k : ℕ) → length t ≡ k → slice_before k (s ++ t) ≡ s
slice_before-append s t k h =
    let e : length (s ++ t) - k ≡ length s = omega (arith, length-append s t) in rw (e, take-append)

slice_last-append : (s t : Text) (k : ℕ) → length t ≡ k → slice_last k (s ++ t) ≡ t
slice_last-append s t k h =
    let e : length (s ++ t) - k ≡ length s = omega (arith, length-append s t) in rw (e, drop-append)

-- The head of a printed number is `0` only if the number is 0.
abbrev HasHead : Text → Type 0
HasHead [] = ⊥
HasHead (c ∷ []) = Unit
HasHead (c ∷ d ∷ s) = c ≢ b'0'

HasHead-snoc : (s : Text) (c : ℕ) → HasHead s → s ≢ b'0' ∷ [] → HasHead (s ++ c ∷ [])
HasHead-snoc [] c h k = absurd h
HasHead-snoc (d ∷ []) c h k = ground arith
HasHead-snoc (d ∷ e ∷ s) c h k = h

to_string-ne-zero : (n : ℕ) → 0 < n → to_string n ≢ b'0' ∷ []
to_string-ne-zero n h e = absurd (omega (arith, ap (value_from 0) e, value_from-to_string n))

HasHead-to_string : (f n : ℕ) → n < f → HasHead (to_string n)
HasHead-to_string zero n h = absurd (omega arith)
HasHead-to_string (suc f) n h = elim (Bool-cases (ltb n 10)) [
  | inl small ↦ rw (to_string_small n (ltb→lt n 10 small)) tt
  | inr large ↦ rw (to_string_step n (ground arith)) (
      HasHead-snoc _ _ (HasHead-to_string f (n / 10) (ground arith))
        (to_string-ne-zero (n / 10) (ground arith)))
]

strip_leading_zeros-eq_self : (s : Text) → HasHead s → strip_leading_zeros s ≡ s
unfolding strip_leading_zeros
strip_leading_zeros-eq_self [] h = refl
strip_leading_zeros-eq_self (c ∷ []) h = refl
strip_leading_zeros-eq_self (c ∷ d ∷ s) h = ground arith

-- The printed text by division.
abbrev pub with_fraction : Text → Text → Text
with_fraction whole frac = if is_empty frac then whole else whole ++ dot ∷ frac

-- What `sunToTrx` prints is the whole number of TRX, then the six digits of the rest without the
-- zeros at the end, behind a dot if any are left.
pub sun_to_trx_lem :
    (n : ℕ)
    → sun_to_trx n ≡ with_fraction (to_string (n / 1000000)) (strip_trailing_zeros (pad_digits 6 n))
unfolding sun_to_trx
sun_to_trx_lem n = rw (
  padded_lem n,
  slice_before-append _ _ 6 (length-pad_digits 6 n),
  slice_last-append _ _ 6 (length-pad_digits 6 n),
  strip_leading_zeros-eq_self _ (HasHead-to_string (suc (n / 1000000)) (n / 1000000) (omega arith)),
)
