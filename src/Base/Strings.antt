-- ===== src/Base/Strings.antt =====
-- JavaScript strings as lists of UTF-16 code units, with the string operations of the sources.
use Prim.Native.Nat.{ℕ, ◌-◌}
use Prim.Native.Char.{code}
use Prim.Native.String.{String}
use mathlib.Core.Bool.{Bool, ◌&&◌, ◌||◌}
use mathlib.Core.List.{List, [], ◌∷◌, ◌++◌}
use ucollection.Base.Tests.{leb, ◌==◌, nat_eq, text_beq, text_eq}
use ucollection.Base.Lists.{length, take, drop, replicate, drop_while, drop_end_while}

abbrev pub Text : Type 0
Text = List ℕ

-- A literal; its characters lie in the basic plane, so a code point is one code unit.
abbrev pub codes : String → Text
codes String.[] = []
codes (String.◌∷◌ c s) = code c ∷ codes s

-- WhiteSpace and LineTerminator of ECMAScript, which `trim` removes.
unfoldable pub is_space : ℕ → Bool
is_space c =
    (leb 9 c && leb c 13)
    || (c == 32)
    || (c == 160)
    || (c == 0x1680)
    || (leb 0x2000 c && leb c 0x200a)
    || (c == 0x2028)
    || (c == 0x2029)
    || (c == 0x202f)
    || (c == 0x205f)
    || (c == 0x3000)
    || (c == 0xfeff)

unfoldable pub trim : Text → Text
unfolding is_space drop_while drop_end_while
trim s = drop_end_while is_space (drop_while is_space s)

abbrev pub is_digit : ℕ → Bool
is_digit c = leb b'0' c && leb c b'9'

-- `[0-9a-fA-F]`
unfoldable pub is_hex_digit : ℕ → Bool
is_hex_digit c = is_digit c || (leb b'a' c && leb c b'f') || (leb b'A' c && leb c b'F')

-- `s.padStart(n, c)` and `s.padEnd(n, c)`
abbrev pub pad_start : ℕ → ℕ → Text → Text
pad_start n c s = replicate (n - length s) c ++ s

abbrev pub pad_end : ℕ → ℕ → Text → Text
pad_end n c s = s ++ replicate (n - length s) c

-- `s.slice(0, -n)` and `s.slice(-n)`
abbrev pub slice_before : ℕ → Text → Text
slice_before n s = take (length s - n) s

abbrev pub slice_last : ℕ → Text → Text
slice_last n s = drop (length s - n) s

-- `s.startsWith(p)`
unfoldable pub starts_with : Text → Text → Bool
unfolding text_beq
starts_with s p = take (length p) s == p
