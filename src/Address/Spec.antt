-- ===== src/Address/Spec.antt =====
-- `consumeAddrSpec` of email/address.go.
use blocky_cloud.Prelude.{ℕ, ◌+◌, true, false, not, [], ◌∷◌, ◌++◌, ltb, if◌then◌else◌, length}
use blocky_cloud.Address.Utf8.{Bytes}
use blocky_cloud.Address.Lexer.{
  no_addr_spec, empty_quoted_string, missing_at, no_domain, domain_too_long, local_too_long,
  address_too_long, Parsed, ok, err, consume, peeks, is_empty, skip_space, consume_atom,
  consume_quoted_string,
}

abbrev pub max_email_domain_length : ℕ
max_email_domain_length = 255

abbrev pub max_email_local_length : ℕ
max_email_local_length = 64

abbrev pub max_email_length : ℕ
max_email_length = max_email_domain_length + max_email_local_length + 1

-- The end of `consumeAddrSpec`: the checks of the lengths. `orig` is what an error restores.
unfoldable pub check_lengths : Bytes → Bytes → Bytes → Bytes → Parsed Bytes
check_lengths orig local domain rest =
    let address = local ++ (b'@' ∷ domain) in
    if ltb max_email_domain_length (length domain)
    then err domain_too_long orig
    else if ltb max_email_local_length (length local)
    then err local_too_long orig
    else if ltb max_email_length (length address)
    then err address_too_long orig
    else ok address rest

-- The domain, behind the '@'.
unfoldable pub finish_spec : Bytes → Bytes → Parsed Bytes → Parsed Bytes
finish_spec orig local (err e _) = err e orig
finish_spec orig local (ok domain rest) = check_lengths orig local domain rest

-- Behind the local part.
unfoldable pub consume_at : Bytes → Parsed Bytes → Parsed Bytes
consume_at orig (err e _) = err e orig
consume_at orig (ok local s) =
    let (found, s') = consume b'@' s in
    let s'' = skip_space s' in
    if not found
    then err missing_at orig
    else if is_empty s''
    then err no_domain orig
    else finish_spec orig local (consume_atom true false s'')

-- `localPart == ""` behind a quoted string, which an error gives too.
abbrev pub refuse_empty : Parsed Bytes → Parsed Bytes
refuse_empty (ok [] s) = err empty_quoted_string s
refuse_empty (ok (b ∷ local) s) = ok (b ∷ local) s
refuse_empty (err e s) = err empty_quoted_string s

unfoldable pub consume_addr_spec : Bytes → Parsed Bytes
consume_addr_spec orig =
    let s = skip_space orig in
    if is_empty s
    then err no_addr_spec orig
    else if peeks b'"' s
    then consume_at orig (refuse_empty (consume_quoted_string s))
    else consume_at orig (consume_atom true false s)
