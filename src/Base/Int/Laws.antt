-- ===== src/Base/Int/Laws.antt =====
-- `parseInt` reads back the decimal text of a number.
use Prim.Native.Nat.{ℕ, ◌<◌}
use mathlib.Core.Path.{◌≡◌, refl, ap, ◌∙◌}
use mathlib.Core.Bool.{false}
use mathlib.Core.Option.{some}
use mathlib.Core.List.{[], ◌∷◌}
use native.Mathlib.Omega.{arith}
use ucollection.Base.Tests.{◌==◌, nat_eq}
use ucollection.Base.Lists.{length, All, All-map, drop_while-eq_self}
use ucollection.Base.Strings.{Text, is_space}
use ucollection.Base.Decimal.{
  to_string, value_from, IsDigit, value_from-to_string, to_string-IsDigit, length-to_string_pos,
}
use ucollection.Base.Int.{pos, digits_prefix, signed, parse_int}

digit_not_space : (c : ℕ) → IsDigit c → is_space c ≡ false
unfolding is_space
digit_not_space c h = ground arith

digits_prefix-eq_self : (s : Text) → All IsDigit s → digits_prefix s ≡ s
unfolding digits_prefix
digits_prefix-eq_self [] _ = refl
digits_prefix-eq_self (c ∷ s) (h, hs) = ground (arith, digits_prefix-eq_self s hs)

signed_digits : (s : Text) → 0 < length s → All IsDigit s → signed s ≡ some (pos (value_from 0 s))
signed_digits [] h _ = absurd (omega arith)
signed_digits (c ∷ s) h (d, ds) =
    let minus : (c == b'-') ≡ false = ground arith in
    let plus : (c == b'+') ≡ false = ground arith in
    rw (minus, plus, digits_prefix-eq_self (c ∷ s) (d, ds)) refl

pub parse_int-to_string : (n : ℕ) → parse_int (to_string n) ≡ some (pos n)
unfolding parse_int
parse_int-to_string n =
    let digits = to_string-IsDigit n in
    let spaces =
      drop_while-eq_self is_space (to_string n)
        (All-map IsDigit _ digit_not_space (to_string n) digits) in
    rw spaces (
      signed_digits (to_string n) (length-to_string_pos n) digits
      ∙ ap (λ v. some (pos v)) (value_from-to_string n))
