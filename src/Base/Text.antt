-- ===== src/Base/Text.antt =====
-- Texts: the functions of Go's package strings that the program calls. Letters change case as
-- ASCII letters do; characters beyond ASCII keep theirs.
use Prim.Native.Nat.{ℕ, zero, suc, ◌+◌, ◌-◌}
use Prim.Native.Char.{Char, code}
use Prim.Native.String.{String, char_at}
use mathlib.Core.Path.{◌≡◌, refl}
use mathlib.Core.Bool.{Bool, true, false, ◌&&◌, ◌||◌}
use bangkusekolah_exam_node.Base.Tests.{leb, eqb, if◌then◌else◌}

-- unicode.IsSpace
unfoldable pub is_space : Char → Bool
is_space c =
    (leb 9 n && leb n 13)
    || eqb n 32
    || eqb n 0x85
    || eqb n 0xa0
    || eqb n 0x1680
    || (leb 0x2000 n && leb n 0x200a)
    || eqb n 0x2028
    || eqb n 0x2029
    || eqb n 0x202f
    || eqb n 0x205f
    || eqb n 0x3000
  where
    n : ℕ
    n = code c

unfoldable pub trim_left : String → String
unfolding is_space
trim_left String.[] = String.[]
trim_left (String.◌∷◌ c s) = let rest = trim_left s in if is_space c then rest else String.◌∷◌ c s

abbrev pub is_empty : String → Bool
is_empty String.[] = true
is_empty (String.◌∷◌ c s) = false

unfoldable pub trim_right : String → String
unfolding is_space
trim_right String.[] = String.[]
trim_right (String.◌∷◌ c s) =
    let rest = trim_right s in if is_space c && is_empty rest then String.[] else String.◌∷◌ c rest

-- strings.TrimSpace
unfoldable pub trim_space : String → String
unfolding trim_left trim_right
trim_space s = trim_left (trim_right s)

-- The letter that a position of a text of ASCII letters holds, for a character in a range.
abbrev shift_letter : ℕ → String → Char → Char
shift_letter first letters c =
    if leb first (code c) && leb (code c) (first + 25) then char_at letters (code c - first) else c

-- len, which counts the bytes of the UTF-8 encoding
abbrev pub byte_len : String → ℕ
byte_len String.[] = 0
byte_len (String.◌∷◌ c s) = char_bytes (code c) + byte_len s
  where
    char_bytes : ℕ → ℕ
    char_bytes n =
        if leb n 0x7f then 1 else (if leb n 0x7ff then 2 else (if leb n 0xffff then 3 else 4))

-- s[:n], of a text whose first n characters are of one byte each
unfoldable pub prefix : ℕ → String → String
prefix zero s = String.[]
prefix (suc n) String.[] = String.[]
prefix (suc n) (String.◌∷◌ c s) = String.◌∷◌ c (prefix n s)

unfoldable pub to_lower : String → String
to_lower String.[] = String.[]
to_lower (String.◌∷◌ c s) =
    String.◌∷◌ (shift_letter b'A' "abcdefghijklmnopqrstuvwxyz" c) (to_lower s)

unfoldable pub to_upper : String → String
to_upper String.[] = String.[]
to_upper (String.◌∷◌ c s) =
    String.◌∷◌ (shift_letter b'a' "ABCDEFGHIJKLMNOPQRSTUVWXYZ" c) (to_upper s)

to_lower_test : to_lower "AbZ[@9" ≡ "abz[@9"
unfolding to_lower
to_lower_test = refl

to_upper_test : to_upper "abcXyz{`1" ≡ "ABCXYZ{`1"
unfolding to_upper
to_upper_test = refl

trim_space_test : trim_space " a b\t " ≡ "a b"
unfolding trim_space
trim_space_test = refl
