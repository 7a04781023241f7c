-- ===== src/Smtp/MessageTests.antt =====
-- A run of `prepare` on a message to two recipients.
use blocky_cloud.Prelude.{[], ◌∷◌, ◌++◌, ◌≡◌, refl}
use blocky_cloud.Address.Utf8.{Bytes, decode_rune, encode_rune}
use blocky_cloud.Address.Chars.{is_atext, is_multibyte, is_vchar, is_qtext, is_wsp}
use blocky_cloud.Address.Lexer.{
  consume, skip_space, comment_loop, skip_comments, skip_cfws, atom_loop, check_dots, cut_atom,
  consume_atom, quoted_loop, consume_quoted_string,
}
use blocky_cloud.Address.Spec.{consume_addr_spec, consume_at, finish_spec, check_lengths}
use blocky_cloud.Address.Phrase.{
  Decoding, not_encoded, decode_rfc2047_word, consume_word, phrase_round, phrase_loop,
  consume_phrase, fields, join, decode_words, consume_display_name_comment,
}
use blocky_cloud.Address.Parser.{
  all_atext, finish_addr_spec, finish_angle, finish_name, parse_address_with, finish_attempt,
  group_round, parse_mailbox, group_loop, consume_group_list, parse_address,
}
use blocky_cloud.Address.Entry.{
  Result, done, finish_parse, finish_verify, only, skip_commas, parse_single, verify_single,
  list_round, verify_round, list_loop, parse_list, verify_list_loop, verify_list,
}
use blocky_cloud.Smtp.Codes.{codes}
use blocky_cloud.Text.{same}
use blocky_cloud.Smtp.Message.{
  set_field, get_header, Mail, DriverMessage, new_message, get_recipients, escape, new_part,
  set_body, add_alternative, add_files, add_bodies, format_address, set_address_header, set_each,
  set_header, finish_prepare, set_rest, prepare, has_specials,
}
use blocky_cloud.Smtp.Prepared.{LastIsShown, prepare-LastIsShown}

-- A decoder that finds no encoded word.
abbrev pub plain : Bytes → Decoding
plain word = not_encoded

-- An encoder of texts that need none.
abbrev pub plain_encode : Bytes → Bytes → Bytes
plain_encode charset text = text

abbrev pub letter : DriverMessage
letter = record {
  message_id = [];
  from = codes "a@x";
  to = codes "b@x" ∷ codes "C D <c@x>" ∷ [];
  cc = codes "d@x" ∷ [];
  bcc = codes "e@x" ∷ [];
  subject = codes "s";
  html_body = codes "h";
  text_body = codes "t";
  reply_to = [];
  date = 0;
  attachments = [];
}

prepares : DriverMessage → Result Mail
unfolding decode_rune encode_rune is_atext is_multibyte is_vchar is_qtext is_wsp consume skip_space
    comment_loop skip_comments skip_cfws atom_loop check_dots cut_atom consume_atom quoted_loop
    consume_quoted_string consume_addr_spec consume_at finish_spec check_lengths decode_rfc2047_word
    consume_word phrase_loop consume_phrase fields join decode_words consume_display_name_comment
    all_atext finish_addr_spec finish_angle finish_name parse_address_with finish_attempt
    group_round phrase_round list_round verify_round parse_mailbox group_loop consume_group_list
    parse_address finish_parse finish_verify only skip_commas parse_single verify_single list_loop
    parse_list verify_list_loop verify_list same set_field get_header new_message get_recipients
    escape new_part set_body add_alternative add_files add_bodies format_address set_address_header
    set_each set_header finish_prepare set_rest prepare has_specials
prepares d = prepare plain plain_encode plain_encode new_message d

abbrev prepared : Mail
prepared = record {
  id = [];
  from = codes "a@x";
  to = codes "b@x" ∷ codes "C D <c@x>" ∷ codes "d@x" ∷ codes "e@x" ∷ [];
  header =
      (codes "From", codes "a@x" ∷ [])
      ∷ (codes "To", codes "\"C D\" <c@x>" ∷ [])
      ∷ (codes "Cc", codes "d@x" ∷ [])
      ∷ (codes "Subject", codes "s" ∷ [])
      ∷ [];
  parts =
      record {
        content_type = codes "text/html";
        content = codes "h";
        encoding = codes "quoted-printable";
      }
      ∷ record {
        content_type = codes "text/plain";
        content = codes "t";
        encoding = codes "quoted-printable";
      }
      ∷ [];
  attachments = [];
  embedded = [];
  charset = codes "UTF-8";
  encoding = codes "quoted-printable";
}

prepares-letter : prepares letter ≡ done prepared
unfolding prepares
prepares-letter = refl

prepare-LastIsShown_example :
    (prepared.to ≡ letter.to ++ (letter.cc ++ letter.bcc))
    × LastIsShown plain plain_encode plain_encode new_message.charset
        (codes "To")
        letter.to
        prepared.header
prepare-LastIsShown_example =
    prepare-LastIsShown plain plain_encode plain_encode new_message prepared letter
      (unfold prepares in prepares-letter)
