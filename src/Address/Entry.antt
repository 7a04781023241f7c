-- ===== src/Address/Entry.antt =====
-- The entry points of email/address.go: `Parse`, `VerifyFormat`, `ParseList`, `VerifyListFormat`.
use blocky_cloud.Prelude.{
  ℕ, zero, suc, Bool, true, false, not, ◌&&◌, ◌||◌, List, [], ◌∷◌, Option, none, some, ltb, ◌==◌,
  if◌then◌else◌, length,
}
use blocky_cloud.Address.Utf8.{Bytes}
use blocky_cloud.Address.Lexer.{
  Error, misformatted_comment, expected_comma, empty_group, multiple_addresses, not_single, Parsed,
  ok, err, consume, peeks, is_empty, skip_space, skip_cfws,
}
use blocky_cloud.Address.Phrase.{Decoding}
use blocky_cloud.Address.Parser.{Address, Count, parse_address}

pub data Result {ℓ} (A : Type ℓ) : Type ℓ where
  done : A → Result A
  fail : Error → Result A

-- The loop `for p.consume(',') { p.skipSpace() }`; the flag is set behind a comma.
unfoldable pub skip_commas : Bool → Bytes → Bytes
skip_commas blank [] = []
skip_commas blank (b ∷ s) =
    let rest = skip_commas true s in
    if b == b',' || (blank && (b == b' ' || b == b'\t')) then rest else b ∷ s

-- `(*addrs)[0]`, and what the length is compared with before.
unfoldable pub only : Option (List Address) → Result Address
only (some (a ∷ [])) = done a
only (some (a ∷ b ∷ l)) = fail multiple_addresses
only _ = fail empty_group

-- `parseSingleAddress` behind its call of `parseAddress`.
unfoldable pub finish_parse : Parsed Count → Result Address
finish_parse (err e s) = fail e
finish_parse (ok (total, list) s) =
    let (valid, rest) = skip_cfws s in
    if not valid
    then fail misformatted_comment
    else if not (is_empty rest)
    then fail (not_single rest)
    else only list

-- `verifySingleAddress` behind its call of `parseAddress`.
unfoldable pub finish_verify : Parsed Count → Result (Unit {0})
finish_verify (err e s) = fail e
finish_verify (ok (total, list) s) =
    let (valid, rest) = skip_cfws s in
    if not valid
    then fail misformatted_comment
    else if not (is_empty rest)
    then fail (not_single rest)
    else if total == 0
    then fail empty_group
    else if ltb 1 total
    then fail multiple_addresses
    else done tt

-- The list behind a nil pointer is not read.
abbrev pub entries : Option (List Address) → List Address
entries none = []
entries (some l) = l

-- A round of `parseAddressList` behind its address; `again` is the next round.
unfoldable pub list_round :
    (Option (List Address) → Bytes → Result (List Address)) → Parsed Count → Result (List Address)
list_round again (err e s) = fail e
list_round again (ok (n, list) s) =
    let (valid, rest) = skip_cfws s in
    let next = skip_commas false rest in
    let more = again list next in
    if not valid
    then fail misformatted_comment
    else if is_empty rest
    then done (entries list)
    else if not (peeks b',' rest)
    then fail expected_comma
    else if is_empty next
    then done (entries list)
    else more

-- The same round in `verifyAddressList`.
unfoldable pub verify_round : (Bytes → Result (Unit {0})) → Parsed Count → Result (Unit {0})
verify_round again (err e s) = fail e
verify_round again (ok (n, list) s) =
    let (valid, rest) = skip_cfws s in
    let next = skip_commas false rest in
    let more = again next in
    if not valid
    then fail misformatted_comment
    else if is_empty rest
    then done tt
    else if not (peeks b',' rest)
    then fail expected_comma
    else if is_empty next
    then done tt
    else more

module _ (decode : Bytes → Decoding) where
  -- `Parse`: `parseSingleAddress` on the text, with an empty list.
  unfoldable pub parse_single : Bytes → Result Address
  parse_single s = finish_parse (parse_address decode (some []) s)

  -- `VerifyFormat`: `verifySingleAddress` on the text.
  unfoldable pub verify_single : Bytes → Result (Unit {0})
  verify_single s = finish_verify (parse_address decode none s)

  -- The loop of `parseAddressList`. Each round passes a comma or reads an address, so one more than
  -- the length of the input is enough fuel.
  unfoldable pub list_loop : ℕ → Option (List Address) → Bytes → Result (List Address)
  list_loop zero list s = fail expected_comma
  list_loop (suc fuel) list orig =
      let s = skip_space orig in
      let (comma, s') = consume b',' s in
      let skipped = list_loop fuel list s' in
      let read = list_round (list_loop fuel) (parse_address decode list s) in
      if comma then skipped else read

  -- `ParseList`.
  unfoldable pub parse_list : Bytes → Result (List Address)
  parse_list s = list_loop (suc (length s)) (some []) s

  -- The loop of `verifyAddressList`.
  unfoldable pub verify_list_loop : ℕ → Bytes → Result (Unit {0})
  verify_list_loop zero s = fail expected_comma
  verify_list_loop (suc fuel) orig =
      let s = skip_space orig in
      let (comma, s') = consume b',' s in
      let skipped = verify_list_loop fuel s' in
      let read = verify_round (verify_list_loop fuel) (parse_address decode none s) in
      if comma then skipped else read

  -- `VerifyListFormat`.
  unfoldable pub verify_list : Bytes → Result (Unit {0})
  verify_list s = verify_list_loop (suc (length s)) s
