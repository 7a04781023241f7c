-- ===== src/Address/Tests.antt =====
-- Runs of the address parser and printer, on inputs of email/address_test.go among others.
use Prim.Native.Char.{code}
use Prim.Native.String.{String}
use blocky_cloud.Prelude.{arith, [], ◌∷◌, ◌≡◌, refl}
use blocky_cloud.Address.Utf8.{Bytes, decode_rune, encode_rune}
use blocky_cloud.Address.Chars.{is_atext, is_multibyte, is_vchar, is_qtext, is_wsp}
use blocky_cloud.Address.Lexer.{
  consume, skip_space, comment_loop, skip_comments, skip_cfws, atom_loop, check_dots, cut_atom,
  consume_atom, quoted_loop, consume_quoted_string, empty_group, no_angle_addr,
}
use blocky_cloud.Address.Spec.{consume_addr_spec, consume_at, finish_spec, check_lengths}
use blocky_cloud.Address.Phrase.{
  Decoding, not_encoded, decode_rfc2047_word, consume_word, phrase_round, phrase_loop,
  consume_phrase, fields, join, decode_words, consume_display_name_comment,
}
use blocky_cloud.Address.Parser.{
  Address, all_atext, finish_addr_spec, finish_angle, finish_name, parse_address_with,
  finish_attempt, group_round, parse_mailbox, group_loop, consume_group_list, parse_address,
}
use blocky_cloud.Address.Entry.{
  Result, done, fail, finish_parse, finish_verify, only, skip_commas, parse_single, verify_single,
  list_round, verify_round, list_loop, parse_list, verify_list_loop, verify_list,
}
use blocky_cloud.Address.Printer.{
  quote_rune, quote_loop, quote_string, needs_quotes, all_printable, split_at, local_and_domain,
  has_special, format_spec, to_string,
}
use blocky_cloud.Address.Verify.{forget, verify_single-parse_single, verify_list-parse_list}
use blocky_cloud.Address.Limits.{IsSpec, parse_single-IsSpec}
use blocky_cloud.Address.RoundTrip.{IsPlainAddress, parse_single-to_string}

-- The bytes of an ASCII literal.
abbrev codes : String → Bytes
codes String.[] = []
codes (String.◌∷◌ c s) = code c ∷ codes s

-- A decoder that finds no encoded word.
abbrev plain : Bytes → Decoding
plain word = not_encoded

abbrev mailbox : String → String → Address
mailbox name address = record { name = codes name; address = codes address }

-- The parser at work: a proof that unfolds this runs every part of it.
runs : Bytes → Result Address
unfolding decode_rune encode_rune is_atext is_multibyte is_vchar is_qtext is_wsp consume skip_space
    comment_loop skip_comments skip_cfws atom_loop check_dots cut_atom consume_atom quoted_loop
    consume_quoted_string consume_addr_spec consume_at finish_spec check_lengths decode_rfc2047_word
    consume_word phrase_loop consume_phrase fields join decode_words consume_display_name_comment
    all_atext finish_addr_spec finish_angle finish_name parse_address_with finish_attempt
    group_round phrase_round list_round verify_round parse_mailbox group_loop consume_group_list
    parse_address finish_parse finish_verify only skip_commas parse_single verify_single list_loop
    parse_list verify_list_loop verify_list
runs = parse_single plain

quoted_name :
    parse_single plain (codes "\"John \\\"D\\\" Doe\" <john@doe.com>")
    ≡ done (mailbox "John \"D\" Doe" "john@doe.com")
unfolding runs
quoted_name = refl

commented :
    parse_single plain (codes "john@doe.com (John (Q) Doe)")
    ≡ done (mailbox "John (Q) Doe" "john@doe.com")
unfolding runs
commented = refl

one_in_group :
    parse_single plain (codes "Group: Jane <jane@example.com>;")
    ≡ done (mailbox "Jane" "jane@example.com")
unfolding runs
one_in_group = refl

group_empty : parse_single plain (codes "Group:;") ≡ fail empty_group
unfolding runs
group_empty = refl

dots : parse_single plain (codes "a..b@example.com") ≡ fail no_angle_addr
unfolding runs
dots = refl

listed :
    parse_list plain (codes "a@x.org, , Bob <b@x.org>,")
    ≡ done (mailbox "" "a@x.org" ∷ mailbox "Bob" "b@x.org" ∷ [])
unfolding runs
listed = refl

printed :
    to_string (λ s. s) (λ s. s) (mailbox "Bob \\ B" "b c@x.org")
    ≡ codes "\"Bob \\\\ B\" <\"b c\"@x.org>"
unfolding runs quote_rune quote_loop quote_string needs_quotes all_printable split_at
    local_and_domain has_special format_spec to_string
printed = refl

verify_single-parse_single_example :
    verify_single plain (codes "G: a@b.c, x <y@z>;")
    ≡ forget (parse_single plain (codes "G: a@b.c, x <y@z>;"))
verify_single-parse_single_example = verify_single-parse_single plain (codes "G: a@b.c, x <y@z>;")

verify_list-parse_list_example :
    verify_list plain (codes "a@b.c, x <y@z>") ≡ forget (parse_list plain (codes "a@b.c, x <y@z>"))
verify_list-parse_list_example = verify_list-parse_list plain (codes "a@b.c, x <y@z>")

parse_single-IsSpec_example : IsSpec (codes "john@doe.com")
unfolding runs
parse_single-IsSpec_example =
    parse_single-IsSpec plain (codes "\"John \\\"D\\\" Doe\" <john@doe.com>")
      {a = mailbox "John \"D\" Doe" "john@doe.com"} refl

quoted_local : IsPlainAddress (codes "J. \"D\"") (codes "a b.") (codes "x.org")
unfolding runs
quoted_local = record {
  name_printable = ground arith;
  local_printable = ground arith;
  local_filled = omega arith;
  local_short = omega arith;
  domain_atext = ground arith;
  domain_dotted = ground arith;
  domain_short = omega arith;
}

parse_single-to_string_example :
    parse_single plain (to_string (λ s. s) (λ s. s) (mailbox "J. \"D\"" "a b.@x.org"))
    ≡ done (mailbox "J. \"D\"" "a b.@x.org")
parse_single-to_string_example = parse_single-to_string quoted_local plain (λ s. s) (λ s. s)
