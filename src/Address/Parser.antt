-- ===== src/Address/Parser.antt =====
-- `parseAddress` and `consumeGroupList` of email/address.go: mailboxes and groups.
use blocky_cloud.Prelude.{
  ℕ, zero, suc, ◌+◌, ◌-◌, Bool, true, false, not, ◌&&◌, List, [], ◌∷◌, ◌++◌, Option, none, some,
  if◌then◌else◌, length,
}
use blocky_cloud.Address.Utf8.{Bytes, decode_rune}
use blocky_cloud.Address.Chars.{is_atext}
use blocky_cloud.Address.Lexer.{
  misformatted_comment, expected_comma, no_address, missing_at_or_angle, no_angle_addr,
  unclosed_angle, Parsed, ok, err, consume, peeks, is_empty, skip_space, skip_cfws,
}
use blocky_cloud.Address.Spec.{consume_addr_spec}
use blocky_cloud.Address.Phrase.{Decoding, consume_phrase, consume_display_name_comment}

pub record Address : Type 0 where
  pub name : Bytes
  pub address : Bytes

-- The test of `for _, r := range displayName`, rune by rune; the number counts the bytes to pass.
unfoldable pub all_atext : ℕ → Bytes → Bool
all_atext skip [] = true
all_atext (suc skip) (b ∷ s) = all_atext skip s
all_atext zero (b ∷ s) =
    let (r, size) = decode_rune (b ∷ s) in is_atext r true false && all_atext (size - 1) s

-- `list` is a nil pointer where an address is only verified.
abbrev pub append_address : Option (List Address) → Bytes → Bytes → Option (List Address)
append_address none name spec = none
append_address (some l) name spec = some (l ++ record { name = name; address = spec } ∷ [])

abbrev pub Count : Type 0
Count = ℕ × Option (List Address)

abbrev pub one : Option (List Address) → Bytes → Parsed Bytes → Parsed Count
one list spec (ok name s) = ok (1, append_address list name spec) s
one list spec (err e s) = err e s

-- `parseAddress` behind the '<'.
unfoldable pub finish_angle : Option (List Address) → Bytes → Parsed Bytes → Parsed Count
finish_angle list name (err e s) = err e s
finish_angle list name (ok spec s) =
    let (closed, rest) = consume b'>' s in
    if closed then ok (1, append_address list name spec) rest else err unclosed_angle rest

-- `parseAddress` behind the display name; `group` is `consumeGroupList`.
unfoldable pub finish_name :
    Bool
    → (Option (List Address) → Bytes → Parsed Count)
    → Option (List Address)
    → Parsed Bytes
    → Parsed Count
finish_name handle_group group list (err e s) = err e s
finish_name handle_group group list (ok name s) =
    let s' = skip_space s in
    let (colon, members) = consume b':' s' in
    let (angle, rest) = consume b'<' s' in
    if handle_group && colon
    then group list members
    else if angle
    then finish_angle list name (consume_addr_spec rest)
    else if all_atext 0 name
    then err missing_at_or_angle rest
    else err no_angle_addr rest

-- A round of `consumeGroupList` behind its mailbox; `again` is the next round.
unfoldable pub group_round :
    (ℕ → Option (List Address) → Bytes → Parsed Count) → ℕ → Parsed Count → Parsed Count
group_round again total (err e s) = err e s
group_round again total (ok (n, list) s) =
    let (valid, rest) = skip_cfws s in
    let (last, after) = consume b';' rest in
    let (comma, next) = consume b',' rest in
    let more = again (total + n) list next in
    if not valid
    then err misformatted_comment rest
    else if last
    then ok (total + n, list) (skip_cfws after).1
    else if comma
    then more
    else err expected_comma rest

-- The section's parameter stands for `mime.WordDecoder` and the reader of charsets behind it.
module _ (decode : Bytes → Decoding) where
  -- `parseAddress` behind an addr-spec.
  unfoldable pub finish_addr_spec : Option (List Address) → Bytes → Bytes → Parsed Count
  finish_addr_spec list spec s =
      let s' = skip_space s in
      if peeks b'(' s'
      then one list spec (consume_display_name_comment decode s')
      else one list spec (ok [] s')

  -- `parseAddress` behind the attempt to read an addr-spec.
  unfoldable pub finish_attempt :
      Bool
      → (Option (List Address) → Bytes → Parsed Count)
      → Option (List Address)
      → Parsed Bytes
      → Parsed Count
  finish_attempt handle_group group list (ok spec s) = finish_addr_spec list spec s
  finish_attempt handle_group group list (err e s) =
      finish_name handle_group group list
        (if peeks b'<' s then ok [] s else consume_phrase decode s)

  unfoldable pub parse_address_with :
      Bool
      → (Option (List Address) → Bytes → Parsed Count)
      → Option (List Address)
      → Bytes
      → Parsed Count
  parse_address_with handle_group group list orig =
      let s = skip_space orig in
      if is_empty s
      then err no_address s
      else finish_attempt handle_group group list (consume_addr_spec s)

  -- `parseAddress(false, list)`: no group is read, so none is passed.
  unfoldable pub parse_mailbox : Option (List Address) → Bytes → Parsed Count
  parse_mailbox = parse_address_with false (λ list s. err no_address s)

  -- The loop of `consumeGroupList`, with `total`. Each round reads a mailbox, so one more than the
  -- length of the input is enough fuel.
  unfoldable pub group_loop : ℕ → ℕ → Option (List Address) → Bytes → Parsed Count
  group_loop zero total list s = err expected_comma s
  group_loop (suc fuel) total list s =
      group_round (group_loop fuel) total (parse_mailbox list (skip_space s))

  unfoldable pub consume_group_list : Option (List Address) → Bytes → Parsed Count
  consume_group_list list orig =
      let s = skip_space orig in
      let (empty, rest) = consume b';' s in
      if empty then ok (0, list) (skip_cfws rest).1 else group_loop (suc (length s)) 0 list s

  -- `parseAddress(true, list)`.
  unfoldable pub parse_address : Option (List Address) → Bytes → Parsed Count
  parse_address = parse_address_with true consume_group_list
