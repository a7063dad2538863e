-- ===== src/Text.antt =====
-- What cmd/observability-export uses of Go's strings, bytes and strconv packages. The Unicode
-- tables are a parameter: they are used on a text that holds a byte above 127 only.
pub mod Split
pub mod Scan
use tilt_common.Base.{
  ℕ, zero, suc, ◌+◌, ◌-◌, ◌*◌, ◌^◌, ◌≡◌, refl, Bool, true, false, ◌&&◌, ◌||◌, Option, none, some,
  List, [], ◌∷◌, ◌++◌, map, ltb, leb, ◌==◌, if◌then◌else◌, Bytes, codes, is_empty,
}
use tilt_common.Base.Int.{ℤ, pos, negsuc}
use mathlib.Core.List.{reverse}

abbrev pub is_ascii : Bytes → Bool
is_ascii [] = true
is_ascii (c ∷ s) = ltb c 128 && is_ascii s

abbrev pub lower_byte : ℕ → ℕ
lower_byte c = if leb b'A' c && leb c b'Z' then c + 32 else c

-- `strings.ToLower`; `unicode_lower` is its result on a text that is not ASCII.
unfoldable pub to_lower : (Bytes → Bytes) → Bytes → Bytes
to_lower unicode_lower s = if is_ascii s then map lower_byte s else unicode_lower s

-- The number of bytes of the white space that `s` starts with, 0 for none: the code points of
-- Unicode's White_Space in UTF-8.
abbrev is_space1 : ℕ → Bool
is_space1 c = (leb 9 c && leb c 13) || c == b' '

abbrev is_space2 : ℕ → ℕ → Bool
is_space2 c d = c == 0xc2 && (d == 0x85 || d == 0xa0)

abbrev is_space3 : ℕ → ℕ → ℕ → Bool
is_space3 c d e =
    (c == 0xe1 && d == 0x9a && e == 0x80)
    || (c == 0xe2
        && d == 0x80
        && ((leb 0x80 e && leb e 0x8a) || e == 0xa8 || e == 0xa9 || e == 0xaf))
    || (c == 0xe2 && d == 0x81 && e == 0x9f)
    || (c == 0xe3 && d == 0x80 && e == 0x80)

-- `strings.TrimLeft` of white space. The cases wait, so only the tail that is needed is trimmed.
pub trim_left : Bytes → Bytes
trim_left [] = []
trim_left (c ∷ []) = if is_space1 c then [] else c ∷ []
trim_left (c ∷ d ∷ []) = elim (is_space1 c) [
  | true ↦ trim_left (d ∷ [])
  | false ↦ if is_space2 c d then [] else c ∷ d ∷ []
]
trim_left (c ∷ d ∷ e ∷ s) = elim (is_space1 c) [
  | true ↦ trim_left (d ∷ e ∷ s)
  | false ↦ elim (is_space2 c d) [
    | true ↦ trim_left (e ∷ s)
    | false ↦ elim (is_space3 c d e) [ true ↦ trim_left s | false ↦ c ∷ d ∷ e ∷ s ]
  ]
]

-- The same over a reversed text, whose code points are read backwards.
pub trim_right_reversed : Bytes → Bytes
trim_right_reversed [] = []
trim_right_reversed (c ∷ []) = if is_space1 c then [] else c ∷ []
trim_right_reversed (c ∷ d ∷ []) = elim (is_space1 c) [
  | true ↦ trim_right_reversed (d ∷ [])
  | false ↦ if is_space2 d c then [] else c ∷ d ∷ []
]
trim_right_reversed (c ∷ d ∷ e ∷ s) = elim (is_space1 c) [
  | true ↦ trim_right_reversed (d ∷ e ∷ s)
  | false ↦ elim (is_space2 d c) [
    | true ↦ trim_right_reversed (e ∷ s)
    | false ↦ elim (is_space3 e d c) [ true ↦ trim_right_reversed s | false ↦ c ∷ d ∷ e ∷ s ]
  ]
]

-- `strings.TrimSpace`
unfoldable pub trim_space : Bytes → Bytes
unfolding trim_left trim_right_reversed
trim_space s = reverse (trim_right_reversed (reverse (trim_left s)))

-- `strings.HasPrefix`
unfoldable pub has_prefix : Bytes → Bytes → Bool
has_prefix s [] = true
has_prefix [] (d ∷ p) = false
has_prefix (c ∷ s) (d ∷ p) = c == d && has_prefix s p

-- `strings.Contains`
unfoldable pub contains : Bytes → Bytes → Bool
unfolding has_prefix
contains [] p = is_empty p
contains (c ∷ s) p = has_prefix (c ∷ s) p || contains s p

-- `strings.SplitN(s, sep, 2)` for a separator of one byte: the text before the first separator
-- and, if there is one, the text behind it.
unfoldable pub cut : ℕ → Bytes → Bytes × Option Bytes
cut sep [] = ([], none)
cut sep (c ∷ s) =
    let (before, after) = cut sep s in if c == sep then ([], some s) else (c ∷ before, after)

-- `strings.SplitSeq(s, "\r\n")`. `line` is what the current part holds so far.
split_lines : Bytes → Bytes → List Bytes
split_lines line [] = line ∷ []
split_lines line (c ∷ []) = (line ++ c ∷ []) ∷ []
split_lines line (c ∷ d ∷ s) = elim (c == b'\r' && d == b'\n') [
  | true ↦ line ∷ split_lines [] s
  | false ↦ split_lines (line ++ c ∷ []) (d ∷ s)
]

unfoldable pub split_crlf : Bytes → List Bytes
unfolding split_lines
split_crlf s = split_lines [] s

abbrev is_digit : ℕ → Bool
is_digit c = leb b'0' c && leb c b'9'

digits_value : ℕ → Bytes → Option ℕ
digits_value n [] = some n
digits_value n (c ∷ s) = elim (is_digit c) [
  | true ↦ digits_value (n * 10 + (c - b'0')) s
  | false ↦ none
]

unsigned : Bytes → Option ℕ
unfolding digits_value
unsigned [] = none
unsigned (c ∷ s) = digits_value 0 (c ∷ s)

negative : ℕ → Option ℤ
negative zero = some (pos 0)
negative (suc n) = if ltb n (2 ^ 63) then some (negsuc n) else none

non_negative : ℕ → Option ℤ
non_negative n = if ltb n (2 ^ 63) then some (pos n) else none

abbrev bind : Option ℕ → (ℕ → Option ℤ) → Option ℤ
bind none f = none
bind (some n) f = f n

-- `strconv.Atoi` on a 64-bit machine: decimal digits behind at most one sign, in range.
unfoldable pub atoi : Bytes → Option ℤ
unfolding unsigned negative non_negative
atoi [] = none
atoi (c ∷ s) =
    if c == b'-'
    then bind (unsigned s) negative
    else if c == b'+'
    then bind (unsigned s) non_negative
    else bind (unsigned (c ∷ s)) non_negative

trim_space_test :
    trim_space (b' ' ∷ 0xc2 ∷ 0xa0 ∷ codes "a b\t" ++ (0xe2 ∷ 0x80 ∷ 0x83 ∷ [])) ≡ codes "a b"
unfolding trim_space
trim_space_test = refl

atoi_test : atoi (codes "-9223372036854775808") ≡ some (negsuc (2 ^ 63 - 1))
unfolding atoi
atoi_test = refl

split_crlf_test : split_crlf (codes "a\r\n\r\nb\r") ≡ codes "a" ∷ [] ∷ codes "b\r" ∷ []
unfolding split_crlf
split_crlf_test = refl
