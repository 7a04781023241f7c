-- ===== src/Address/Lexer.antt =====
-- `addrParser` of email/address.go: its input, and the methods that read one token of it.
-- The parser's only mutable field is the rest of its input, `p.s`, so a method takes that rest and
-- returns the new one; an error carries the rest too, since callers go on after some of them.
use blocky_cloud.Prelude.{
  ℕ, zero, suc, ◌-◌, Bool, true, false, not, ◌&&◌, ◌||◌, [], ◌∷◌, ◌++◌, Option, none, some, ltb,
  ◌==◌, if◌then◌else◌, length, take, drop,
}
use mathlib.Core.Option
use blocky_cloud.Address.Utf8.{Bytes, decode_rune, encode_rune, rune_error}
use blocky_cloud.Address.Chars.{is_atext, is_qtext, is_vchar, is_wsp}

-- One constructor for each message of the source, with the values that it prints.
pub data Error : Type 0 where
  misformatted_comment expected_comma empty_group multiple_addresses no_address : Error
  missing_at_or_angle no_angle_addr unclosed_angle no_addr_spec empty_quoted_string : Error
  missing_at no_domain domain_too_long local_too_long address_too_long : Error
  unclosed_quoted_string invalid_string leading_dot double_dot trailing_dot : Error
  comment_start : Error
  not_single : Bytes → Error
  invalid_utf8 : Bytes → Error
  bad_character : ℕ → Error
  charset : Bytes → Error
  missing_word : Error → Error

pub data Parsed {ℓ} (A : Type ℓ) : Type ℓ where
  ok : A → Bytes → Parsed A
  err : Error → Bytes → Parsed A

-- `p.consume(c)`: whether the input began with `c`, and the rest.
unfoldable pub consume : ℕ → Bytes → Bool × Bytes
consume c [] = (false, [])
consume c (b ∷ s) = if b == c then (true, s) else (false, b ∷ s)

-- `p.peek() == c` where the input is not empty.
abbrev pub peeks : ℕ → Bytes → Bool
peeks c [] = false
peeks c (b ∷ s) = b == c

abbrev pub is_empty : Bytes → Bool
is_empty [] = true
is_empty (b ∷ s) = false

unfoldable pub skip_space : Bytes → Bytes
skip_space [] = []
skip_space (b ∷ s) = if b == b' ' || b == b'\t' then skip_space s else b ∷ s

-- A word of the language's text: a byte under '('.
next_depth : ℕ → ℕ → ℕ
next_depth b depth = if b == b'(' then suc (suc depth) else if b == b')' then depth else suc depth

-- The loop of `consumeComment`, with `depth` and the comment so far; the flag is `depth == 0`.
unfoldable pub comment_loop : ℕ → Bytes → Bytes → Bytes × Bool × Bytes
unfolding next_depth
comment_loop zero comment s = (comment, true, s)
comment_loop (suc depth) comment [] = (comment, false, [])
comment_loop (suc depth) comment (b ∷ []) =
    let d = next_depth b depth in comment_loop d (if ltb 0 d then comment ++ b ∷ [] else comment) []
comment_loop (suc depth) comment (b ∷ c ∷ s) = elim (b == b'\\') [
  | true ↦ comment_loop (suc depth) (comment ++ c ∷ []) s
  | false ↦
      let d = next_depth b depth in
      comment_loop d (if ltb 0 d then comment ++ b ∷ [] else comment) (c ∷ s)
]

-- `consumeComment`: the '(' is consumed already.
abbrev pub consume_comment : Bytes → Bytes × Bool × Bytes
consume_comment = comment_loop 1 []

-- The loop of `skipCFWS`; each round reads a comment, so the length of the input is enough fuel.
unfoldable pub skip_comments : ℕ → Bytes → Bool × Bytes
skip_comments zero s = (true, s)
skip_comments (suc fuel) s =
    let (found, s') = consume b'(' s in
    let (_, closed, s'') = consume_comment s' in
    let more = skip_comments fuel (skip_space s'') in
    if found then (if closed then more else (false, s'')) else (true, s')

unfoldable pub skip_cfws : Bytes → Bool × Bytes
unfolding skip_comments skip_space
skip_cfws s = let s' = skip_space s in skip_comments (suc (length s')) s'

-- The loop of `consumeAtom`: the final `i`, or `none` at an ill-formed byte. The first number counts
-- the bytes of the last rune that are still to be passed.
unfoldable pub atom_loop : ℕ → Bool → Bool → Bytes → Option ℕ
atom_loop (suc skip) dot permissive (b ∷ s) = Option.map suc (atom_loop skip dot permissive s)
atom_loop (suc skip) dot permissive [] = some 0
atom_loop zero dot permissive [] = some 0
atom_loop zero dot permissive (b ∷ s) =
    let (r, size) = decode_rune (b ∷ s) in
    let more = Option.map suc (atom_loop (size - 1) dot permissive s) in
    if size == 1 && r == rune_error
    then none
    else if not (is_atext r dot permissive)
    then some 0
    else more

-- `strings.HasPrefix(atom, ".")`, `strings.Contains(atom, "..")` and `strings.HasSuffix(atom, ".")`.
unfoldable pub double_dotted : Bytes → Bool
double_dotted [] = false
double_dotted (a ∷ []) = false
double_dotted (a ∷ b ∷ s) = (a == b'.' && b == b'.') || double_dotted (b ∷ s)

unfoldable pub ends_dotted : Bytes → Bool
ends_dotted [] = false
ends_dotted (a ∷ []) = a == b'.'
ends_dotted (a ∷ b ∷ s) = ends_dotted (b ∷ s)

unfoldable pub check_dots : Bytes → Bytes → Parsed Bytes
unfolding double_dotted ends_dotted
check_dots atom rest =
    if peeks b'.' atom
    then err leading_dot rest
    else if double_dotted atom
    then err double_dot rest
    else if ends_dotted atom
    then err trailing_dot rest
    else ok atom rest

-- `consumeAtom` behind its loop.
unfoldable pub cut_atom : Bool → Bytes → Option ℕ → Parsed Bytes
unfolding check_dots
cut_atom permissive s none = err (invalid_utf8 s) s
cut_atom permissive s (some zero) = err invalid_string s
cut_atom permissive s (some (suc i)) =
    let atom = take (suc i) s in
    let rest = drop (suc i) s in if permissive then ok atom rest else check_dots atom rest

unfoldable pub consume_atom : Bool → Bool → Bytes → Parsed Bytes
consume_atom dot permissive s = cut_atom permissive s (atom_loop 0 dot permissive s)

-- The loop of `consumeQuotedString` behind its first byte, with `escaped` and the text so far; an
-- error leaves the parser's input `orig` as it was.
unfoldable pub quoted_loop : ℕ → Bytes → Bool → Bytes → Bytes → Parsed Bytes
quoted_loop (suc skip) orig escaped sb (b ∷ s) = quoted_loop skip orig escaped sb s
quoted_loop (suc skip) orig escaped sb [] = err unclosed_quoted_string orig
quoted_loop zero orig escaped sb [] = err unclosed_quoted_string orig
quoted_loop zero orig escaped sb (b ∷ s) =
    let (r, size) = decode_rune (b ∷ s) in
    let written = quoted_loop (size - 1) orig false (sb ++ encode_rune r) s in
    let escape = quoted_loop (size - 1) orig true sb s in
    if size == 1 && r == rune_error
    then err (invalid_utf8 orig) orig
    else if escaped
    then (if not (is_vchar r) && not (is_wsp r) then err (bad_character r) orig else written)
    else if is_qtext r || is_wsp r
    then written
    else if r == b'"'
    then ok sb s
    else if r == b'\\'
    then escape
    else err (bad_character r) orig

-- `consumeQuotedString`: the first byte is taken to be '"'.
unfoldable pub consume_quoted_string : Bytes → Parsed Bytes
unfolding quoted_loop
consume_quoted_string s = quoted_loop 0 s false [] (drop 1 s)
