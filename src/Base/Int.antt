-- ===== src/Base/Int.antt =====
-- Integers over the native numbers, and the `parseInt(s, 10)` of the sources.
pub mod Laws
use Prim.Native.Nat.{ℕ, zero, suc}
use mathlib.Core.Option.{Option, none, some}
use mathlib.Core.List.{[], ◌∷◌}
use ucollection.Base.Tests.{◌==◌, nat_eq, if◌then◌else◌}
use ucollection.Base.Lists.{drop_while}
use ucollection.Base.Strings.{Text, is_space, is_digit}
use ucollection.Base.Decimal.{value_from}

pub data ℤ : Type 0 where
  pos negsuc : ℕ → ℤ

-- `z` where it is not negative, else 0.
abbrev pub pos_part : ℤ → ℕ
pos_part (pos n) = n
pos_part (negsuc n) = 0

-- minus n
abbrev pub neg : ℕ → ℤ
neg zero = pos 0
neg (suc n) = negsuc n

pub digits_prefix : Text → Text
digits_prefix [] = []
digits_prefix (c ∷ s) = let rest = digits_prefix s in if is_digit c then c ∷ rest else []

abbrev number_of : (ℕ → ℤ) → Text → Option ℤ
number_of sign [] = none
number_of sign (c ∷ s) = some (sign (value_from 0 (c ∷ s)))

abbrev pub signed : Text → Option ℤ
signed [] = none
signed (c ∷ s) =
    if c == b'-'
    then number_of neg (digits_prefix s)
    else if c == b'+'
    then number_of pos (digits_prefix s)
    else number_of pos (digits_prefix (c ∷ s))

-- `none` for `NaN`.
unfoldable pub parse_int : Text → Option ℤ
unfolding digits_prefix drop_while is_space
parse_int s = signed (drop_while is_space s)
