-- ===== src/Address/Utf8.antt =====
-- Go's `utf8.DecodeRuneInString` and `strings.Builder.WriteRune`, which email/address.go reads and
-- writes text with. A Go string is its list of bytes.
use blocky_cloud.Prelude.{
  ℕ, ◌+◌, ◌*◌, ◌/◌, ◌%◌, Bool, ◌&&◌, List, [], ◌∷◌, ltb, leb, ◌==◌, if◌then◌else◌,
}

abbrev pub Bytes : Type 0
Bytes = List ℕ

-- `utf8.RuneError` and `utf8.RuneSelf`.
abbrev pub rune_error : ℕ
rune_error = 0xFFFD

abbrev pub rune_self : ℕ
rune_self = 0x80

abbrev between : ℕ → ℕ → ℕ → Bool
between lo hi b = leb lo b && leb b hi

abbrev is_continuation : ℕ → Bool
is_continuation b = between 0x80 0xBF b

-- A rune with its size in bytes; an ill-formed byte is an error of size 1.
abbrev invalid : ℕ × ℕ
invalid = (rune_error, 1)

decode_two : ℕ → Bytes → ℕ × ℕ
decode_two a (b ∷ s) = if is_continuation b then ((a % 32) * 64 + b % 64, 2) else invalid
decode_two a _ = invalid

decode_three : ℕ → Bytes → ℕ × ℕ
decode_three a (b ∷ c ∷ s) =
    if between (if a == 0xE0 then 0xA0 else 0x80) (if a == 0xED then 0x9F else 0xBF) b
      && is_continuation c
    then ((a % 16) * 4096 + (b % 64) * 64 + c % 64, 3)
    else invalid
decode_three a _ = invalid

decode_four : ℕ → Bytes → ℕ × ℕ
decode_four a (b ∷ c ∷ d ∷ s) =
    if between (if a == 0xF0 then 0x90 else 0x80) (if a == 0xF4 then 0x8F else 0xBF) b
      && is_continuation c
      && is_continuation d
    then ((a % 8) * 262144 + (b % 64) * 4096 + (c % 64) * 64 + d % 64, 4)
    else invalid
decode_four a _ = invalid

decode_multibyte : ℕ → Bytes → ℕ × ℕ
unfolding decode_two decode_three decode_four
decode_multibyte a s =
    if between 0xC2 0xDF a
    then decode_two a s
    else if between 0xE0 0xEF a
    then decode_three a s
    else if between 0xF0 0xF4 a
    then decode_four a s
    else invalid

-- The empty string gives an error of size 0.
unfoldable pub decode_rune : Bytes → ℕ × ℕ
unfolding decode_multibyte
decode_rune [] = (rune_error, 0)
decode_rune (a ∷ s) = if ltb a rune_self then (a, 1) else decode_multibyte a s

unfoldable pub encode_rune : ℕ → Bytes
encode_rune r =
    if ltb r 0x80
    then r ∷ []
    else if ltb r 0x800
    then (0xC0 + r / 64) ∷ (0x80 + r % 64) ∷ []
    else if ltb r 0x10000
    then (0xE0 + r / 4096) ∷ (0x80 + (r / 64) % 64) ∷ (0x80 + r % 64) ∷ []
    else (0xF0 + r / 262144)
      ∷ (0x80 + (r / 4096) % 64)
      ∷ (0x80 + (r / 64) % 64)
      ∷ (0x80 + r % 64)
      ∷ []
