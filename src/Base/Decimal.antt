-- ===== src/Base/Decimal.antt =====
-- Decimal text of a number, `String(n)`, and the number that a text of digits spells, `Number(s)`.
use Prim.Native.Nat.{ℕ, zero, suc, ◌+◌, ◌-◌, ◌*◌, ◌/◌, ◌%◌, ◌≤◌, ◌<◌}
use mathlib.Core.Path.{◌≡◌, refl}
use mathlib.Core.Logic.{inl, inr}
use mathlib.Core.Bool.{true}
use mathlib.Core.List.{[], ◌∷◌, ◌++◌}
use native.Mathlib.Omega.{arith}
use ucollection.Base.Tests.{ltb, Bool-cases, if◌then◌else◌}
use ucollection.Base.Lists.{length, All, All-append, length-append}
use ucollection.Base.Strings.{Text, is_digit}

-- One digit a round; a number below the fuel needs no more rounds than the fuel has.
digits : ℕ → ℕ → Text
digits zero n = []
digits (suc f) n =
    let longer = digits f (n / 10) ++ (b'0' + n % 10) ∷ [] in
    if ltb n 10 then (b'0' + n % 10) ∷ [] else longer

unfoldable pub to_string : ℕ → Text
unfolding digits
to_string n = digits (suc n) n

abbrev pub value_from : ℕ → Text → ℕ
value_from n [] = n
value_from n (c ∷ s) = value_from (n * 10 + (c - b'0')) s

digits_fuel : (f g n : ℕ) → n < f → n < g → digits f n ≡ digits g n
unfolding digits
digits_fuel zero g n h k = absurd (omega arith)
digits_fuel (suc f) zero n h k = absurd (omega arith)
digits_fuel (suc f) (suc g) n h k = ground (arith, digits_fuel f g (n / 10))

pub to_string_small : (n : ℕ) → n < 10 → to_string n ≡ (b'0' + n) ∷ []
unfolding to_string
to_string_small n h = ground arith

pub to_string_step : (n : ℕ) → 10 ≤ n → to_string n ≡ to_string (n / 10) ++ (b'0' + n % 10) ∷ []
unfolding to_string
to_string_step n h = ground (arith, digits_fuel n (suc (n / 10)) (n / 10))

pub value_from-append : (n : ℕ) (s t : Text) → value_from n (s ++ t) ≡ value_from (value_from n s) t
value_from-append n [] t = refl
value_from-append n (c ∷ s) t = value_from-append (n * 10 + (c - b'0')) s t

value_from-digits : (f n : ℕ) → n < f → value_from 0 (digits f n) ≡ n
unfolding digits
value_from-digits zero n h = absurd (omega arith)
value_from-digits (suc f) n h = elim (Bool-cases (ltb n 10)) [
  | inl small ↦ ground arith
  | inr large ↦ ground (
    arith,
    value_from-append 0 (digits f (n / 10)) ((b'0' + n % 10) ∷ []),
    value_from-digits f (n / 10),
  )
]

pub value_from-to_string : (n : ℕ) → value_from 0 (to_string n) ≡ n
unfolding to_string
value_from-to_string n = value_from-digits (suc n) n (omega arith)

abbrev pub IsDigit : ℕ → Type 0
IsDigit c = is_digit c ≡ true

digits-IsDigit : (f n : ℕ) → All IsDigit (digits f n)
unfolding digits
digits-IsDigit zero n = tt
digits-IsDigit (suc f) n = elim (Bool-cases (ltb n 10)) [
  | inl small ↦ rw (All, small) (ground arith, tt)
  | inr large ↦
      rw (All, large) (All-append IsDigit _ _ (digits-IsDigit f (n / 10)) (ground arith, tt))
]

pub to_string-IsDigit : (n : ℕ) → All IsDigit (to_string n)
unfolding to_string
to_string-IsDigit n = digits-IsDigit (suc n) n

-- A number is not printed as the empty text, and with a leading zero only if it is 0.
pub length-to_string_pos : (n : ℕ) → 0 < length (to_string n)
length-to_string_pos n = elim (Bool-cases (ltb n 10)) [
  | inl small ↦ ground (arith, to_string_small n)
  | inr large ↦
      ground (arith, to_string_step n, length-append (to_string (n / 10)) ((b'0' + n % 10) ∷ []))
]
