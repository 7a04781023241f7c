-- ===== src/Address/Printer.antt =====
-- `Address.String` and `quoteString` of email/address.go.
use blocky_cloud.Prelude.{
  ℕ, zero, suc, ◌-◌, Bool, true, false, not, ◌&&◌, ◌||◌, [], ◌∷◌, ◌++◌, Option, none, some, ◌==◌,
  if◌then◌else◌,
}
use blocky_cloud.Address.Utf8.{Bytes, decode_rune, encode_rune}
use blocky_cloud.Address.Chars.{is_atext, is_qtext, is_vchar, is_wsp, is_multibyte}
use blocky_cloud.Address.Lexer.{is_empty}
use blocky_cloud.Address.Parser.{Address}

-- What `quoteString` writes for a rune.
unfoldable pub quote_rune : ℕ → Bytes
quote_rune r =
    if is_qtext r || is_wsp r
    then encode_rune r
    else if is_vchar r
    then b'\\' ∷ encode_rune r
    else []

-- The loop of `quoteString`; the number counts the bytes of the last rune still to be passed.
unfoldable pub quote_loop : ℕ → Bytes → Bytes
quote_loop skip [] = []
quote_loop (suc skip) (b ∷ s) = quote_loop skip s
quote_loop zero (b ∷ s) =
    let (r, size) = decode_rune (b ∷ s) in quote_rune r ++ quote_loop (size - 1) s

unfoldable pub quote_string : Bytes → Bytes
quote_string s = b'"' ∷ (quote_loop 0 s ++ b'"' ∷ [])

-- The loop that finds whether the local part needs quotes, with the byte before (none at the start):
-- a dot is no reason if it follows a byte other than a dot and does not stand at the end.
abbrev pub dot_allowed : Option ℕ → Bytes → Bool
dot_allowed none s = false
dot_allowed (some before) s = not (before == b'.') && not (is_empty s)

unfoldable pub needs_quotes : ℕ → Option ℕ → Bytes → Bool
needs_quotes skip before [] = false
needs_quotes (suc skip) before (b ∷ s) = needs_quotes skip (some b) s
needs_quotes zero before (b ∷ s) =
    let (r, size) = decode_rune (b ∷ s) in
    let rest = needs_quotes (size - 1) (some b) s in
    if is_atext r false false || (r == b'.' && dot_allowed before s) then rest else true

-- Every rune of the name is printable ASCII, a space or a tab.
unfoldable pub all_printable : ℕ → Bytes → Bool
all_printable skip [] = true
all_printable (suc skip) (b ∷ s) = all_printable skip s
all_printable zero (b ∷ s) =
    let (r, size) = decode_rune (b ∷ s) in
    not ((not (is_vchar r) && not (is_wsp r)) || is_multibyte r) && all_printable (size - 1) s

-- `strings.LastIndex(a.Address, "@")`: the text before the last '@' and behind it.
unfoldable pub split_at : Bytes → Option (Bytes × Bytes)
split_at [] = none
split_at (b ∷ s) = elim (split_at s) [
  | some (local, domain) ↦ some (b ∷ local, domain)
  | none ↦ if b == b'@' then some ([], s) else none
]

-- An address with no '@' is all local part.
unfoldable pub local_and_domain : Bytes → Option (Bytes × Bytes) → Bytes × Bytes
local_and_domain address none = (address, [])
local_and_domain address (some p) = p

-- The characters of `"\"#$%&'(),.:;<>@[]^`{|}~"`.
unfoldable pub has_special : Bytes → Bool
has_special [] = false
has_special (b ∷ s) =
    b == 0x22
    || b == 0x23
    || b == 0x24
    || b == 0x25
    || b == 0x26
    || b == 0x27
    || b == 0x28
    || b == 0x29
    || b == 0x2C
    || b == 0x2E
    || b == 0x3A
    || b == 0x3B
    || b == 0x3C
    || b == 0x3E
    || b == 0x40
    || b == 0x5B
    || b == 0x5D
    || b == 0x5E
    || b == 0x60
    || b == 0x7B
    || b == 0x7C
    || b == 0x7D
    || b == 0x7E
    || has_special s

abbrev pub angle : Bytes → Bytes → Bytes
angle local domain = b'<' ∷ (local ++ (b'@' ∷ (domain ++ (b'>' ∷ []))))

unfoldable pub format_spec : Bytes × Bytes → Bytes
format_spec (local, domain) =
    angle (if needs_quotes 0 none local then quote_string local else local) domain

-- The section's parameters stand for `mime.BEncoding.Encode` and `mime.QEncoding.Encode` at "utf-8".
module _ (b_encode q_encode : Bytes → Bytes) where
  -- `Address.String`.
  unfoldable pub to_string : Address → Bytes
  to_string a =
      let s = format_spec (local_and_domain a.address (split_at a.address)) in
      if is_empty a.name
      then s
      else if all_printable 0 a.name
      then quote_string a.name ++ (b' ' ∷ s)
      else if has_special a.name
      then b_encode a.name ++ (b' ' ∷ s)
      else q_encode a.name ++ (b' ' ∷ s)
