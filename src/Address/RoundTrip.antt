-- ===== src/Address/RoundTrip.antt =====
-- `Parse` reads back what `String` prints (email/address.go).
use blocky_cloud.Prelude.{
  ℕ, suc, ◌≤◌, ◌≡◌, refl, sym, ap, ◌∙◌, Bool, true, false, List, [], ◌∷◌, ◌++◌, Option, none, some,
  if◌then◌else◌, length, length-append, arith, All, inl, inr, Bool-cases,
}
use blocky_cloud.Address.Utf8.{Bytes, decode_rune}
use blocky_cloud.Address.Chars.{is_atext}
use blocky_cloud.Address.Lexer.{
  Parsed, ok, err, invalid_string, missing_at, consume, peeks, is_empty, skip_space, skip_comments,
  skip_cfws, atom_loop, cut_atom, consume_atom,
}
use blocky_cloud.Address.Spec.{
  consume_addr_spec, consume_at, finish_spec, check_lengths, refuse_empty,
}
use blocky_cloud.Address.Phrase.{Decoding, consume_word, phrase_round, phrase_loop, consume_phrase}
use blocky_cloud.Address.Parser.{
  Address, Count, append_address, finish_angle, finish_name, finish_attempt, parse_address_with,
  consume_group_list, parse_address,
}
use blocky_cloud.Address.Entry.{done, finish_parse, only, parse_single}
use blocky_cloud.Address.Printer.{
  needs_quotes, quote_string, angle, format_spec, split_at, local_and_domain, to_string,
}
use blocky_cloud.Address.Limits.{IsDotted}
use blocky_cloud.Address.Ascii.{
  IsPrintable, consume_quoted_string-quote_string, all_printable-IsPrintable,
}
use blocky_cloud.Address.Dotted.{IsDotAtext, IsEnd, consume_atom-append, needs_quotes-IsDotted}

-- A name and a local part of printable ASCII, and a domain that is a dot-atom, within the limits.
pub record IsPlainAddress (name local domain : Bytes) : Type 0 where
  pub name_printable : All IsPrintable name
  pub local_printable : All IsPrintable local
  pub local_filled : 1 ≤ length local
  pub local_short : length local ≤ 64
  pub domain_atext : All IsDotAtext domain
  pub domain_dotted : IsDotted domain
  pub domain_short : length domain ≤ 255

at_sign : IsEnd b'@'
unfolding is_atext
at_sign = record { ascii = omega arith; ends = refl }

right_angle : IsEnd b'>'
unfolding is_atext
right_angle = record { ascii = omega arith; ends = refl }

abbrev printed_local : Bytes → Bytes
printed_local local = if needs_quotes 0 none local then quote_string local else local

-- A dot-atom begins with no space, tab or quote.
starts :
    (s t : Bytes)
    → IsDotted s
    → All IsDotAtext s
    → (skip_space (s ++ t) ≡ s ++ t) × (is_empty (s ++ t) ≡ false) × (peeks b'"' (s ++ t) ≡ false)
unfolding skip_space is_atext
starts [] t d a = absurd (omega (arith, d.filled))
starts (c ∷ s) t d (h, a) = ground (arith, h.atext)

refuse_empty_lem :
    (local rest : Bytes) → 1 ≤ length local → refuse_empty (ok local rest) ≡ ok local rest
refuse_empty_lem [] rest h = absurd (omega arith)
refuse_empty_lem (c ∷ local) rest h = refl

quote_string_starts :
    (s t : Bytes)
    → (skip_space (quote_string s ++ t) ≡ quote_string s ++ t)
      × (is_empty (quote_string s ++ t) ≡ false)
      × (peeks b'"' (quote_string s ++ t) ≡ true)
unfolding skip_space quote_string
quote_string_starts s t = (refl, refl, refl)

split_at-none : (s : Bytes) → All IsDotAtext s → split_at s ≡ none
unfolding split_at is_atext
split_at-none [] a = refl
split_at-none (c ∷ s) (h, a) = ground (arith, h.atext, split_at-none s a)

split_at-append :
    (local domain : Bytes)
    → All IsDotAtext domain
    → split_at (local ++ (b'@' ∷ domain)) ≡ some (local, domain)
unfolding split_at
split_at-append [] domain a = rw (split_at-none domain a)
split_at-append (c ∷ local) domain a = rw (split_at-append local domain a)

module _ {name local domain : Bytes} (p : IsPlainAddress name local domain) where
  lengths_printed :
      (orig rest : Bytes)
      → check_lengths orig local domain rest ≡ ok (local ++ (b'@' ∷ domain)) rest
  unfolding check_lengths
  lengths_printed orig rest =
      ground (arith, p.local_short, p.domain_short, length-append local (b'@' ∷ domain))

  -- Behind the local part.
  at_domain :
      (orig : Bytes)
      → consume_at orig (ok local (b'@' ∷ (domain ++ (b'>' ∷ []))))
        ≡ ok (local ++ (b'@' ∷ domain)) (b'>' ∷ [])
  unfolding consume_at consume
  at_domain orig =
      let start = starts domain (b'>' ∷ []) p.domain_dotted p.domain_atext in
      rw (start.0, start.1)
        (rw (consume_atom-append domain b'>' [] p.domain_dotted p.domain_atext right_angle)
          (unfold finish_spec in lengths_printed orig (b'>' ∷ [])))

  -- `consumeAddrSpec` on what `String` writes between the angle brackets.
  spec_printed :
      consume_addr_spec (printed_local local ++ (b'@' ∷ (domain ++ (b'>' ∷ []))))
      ≡ ok (local ++ (b'@' ∷ domain)) (b'>' ∷ [])
  unfolding consume_addr_spec
  spec_printed =
      let rest = b'@' ∷ (domain ++ (b'>' ∷ [])) in
      elim (Bool-cases (needs_quotes 0 none local)) [
        | inl q ↦
            let start = quote_string_starts local rest in
            rw q (
              rw (start.0, start.1, start.2)
                (rw (consume_quoted_string-quote_string local rest p.local_printable)
                  (rw (refuse_empty_lem local rest p.local_filled) (at_domain _))))
        | inr q ↦
            let plain = needs_quotes-IsDotted local p.local_filled p.local_printable q in
            let start = starts local rest plain.0 plain.1 in
            rw q (
              rw (start.0, start.1, start.2)
                (rw (consume_atom-append local b'@' _ plain.0 plain.1 at_sign) (at_domain _)))
      ]

  abbrev printed : Bytes
  printed = angle (printed_local local) domain

  abbrev whole : Address
  whole = record { name = name; address = local ++ (b'@' ∷ domain) }

  angle_printed :
      (list : Option (List Address))
      → finish_angle list name
          (consume_addr_spec (printed_local local ++ (b'@' ∷ (domain ++ (b'>' ∷ [])))))
        ≡ ok (1, append_address list name (local ++ (b'@' ∷ domain))) []
  unfolding finish_angle consume
  angle_printed list = rw spec_printed refl

  -- Behind the display name, with or without the space before the '<'.
  name_printed :
      (handle : Bool) (group : Option (List Address) → Bytes → Parsed Count)
      (list : Option (List Address)) (s : Bytes)
      → skip_space s ≡ printed
      → finish_name handle group list (ok name s)
        ≡ ok (1, append_address list name (local ++ (b'@' ∷ domain))) []
  unfolding finish_name consume
  name_printed handle group list s e = rw e (ground (arith, angle_printed list))

  -- No addr-spec begins with '<'; a word of a phrase neither.
  angle_attempt : consume_addr_spec printed ≡ err invalid_string printed
  unfolding consume_addr_spec consume_at consume_atom cut_atom atom_loop decode_rune is_atext
      skip_space
  angle_attempt = refl

  angle_word :
      (decode : Bytes → Decoding) → consume_word decode printed ≡ err invalid_string printed
  unfolding consume_word consume_atom cut_atom atom_loop decode_rune is_atext
  angle_word decode = refl

  -- A quoted name is read as a local part first, which no '@' follows.
  name_attempt :
      (c : ℕ) (s : Bytes)
      → name ≡ c ∷ s
      → consume_addr_spec (quote_string name ++ (b' ' ∷ printed))
        ≡ err missing_at (quote_string name ++ (b' ' ∷ printed))
  unfolding consume_addr_spec
  name_attempt c s e =
      let rest = b' ' ∷ printed in
      let start = quote_string_starts name rest in
      rw (start.0, start.1, start.2)
        (rw (consume_quoted_string-quote_string name rest p.name_printable)
          (rw e (unfold consume_at consume in refl)))

  -- The phrase is the quoted name: what follows it is no word.
  name_word :
      (decode : Bytes → Decoding)
      → consume_word decode (quote_string name ++ (b' ' ∷ printed))
        ≡ ok (name, false) (b' ' ∷ printed)
  unfolding consume_word
  name_word decode =
      rw ((quote_string_starts name (b' ' ∷ printed)).2)
        (rw (consume_quoted_string-quote_string name (b' ' ∷ printed) p.name_printable))

  second_round :
      (decode : Bytes → Decoding) (f : ℕ)
      → phrase_loop decode (suc f) false 1 name (b' ' ∷ printed) ≡ ok name printed
  unfolding phrase_loop skip_space phrase_round
  second_round decode f = rw (angle_word decode, phrase_round)

  both_rounds :
      (decode : Bytes → Decoding) (f : ℕ)
      → phrase_loop decode (suc (suc f)) false 0 [] (quote_string name ++ (b' ' ∷ printed))
        ≡ ok name printed
  unfolding phrase_loop
  both_rounds decode f =
      let start = quote_string_starts name (b' ' ∷ printed) in
      rw (start.0, start.1) (rw (name_word decode) (unfold phrase_round in second_round decode f))

  name_phrase :
      (decode : Bytes → Decoding)
      → consume_phrase decode (quote_string name ++ (b' ' ∷ printed)) ≡ ok name printed
  unfolding consume_phrase quote_string
  name_phrase decode = both_rounds decode _

  named : Bytes → Bytes
  named [] = printed
  named (c ∷ s) = quote_string (c ∷ s) ++ (b' ' ∷ printed)

  to_string_printed :
      (b_encode q_encode : Bytes → Bytes) (n : Bytes)
      → name ≡ n
      → to_string b_encode q_encode whole ≡ named n
  unfolding to_string named
  to_string_printed b_encode q_encode [] e =
      rw (split_at-append local domain p.domain_atext) (unfold local_and_domain format_spec in rw e)
  to_string_printed b_encode q_encode (c ∷ n) e =
      let visible = all_printable-IsPrintable name p.name_printable in
      rw (split_at-append local domain p.domain_atext)
        (rw visible (unfold local_and_domain format_spec in rw e))

  -- Behind the failed attempt at an addr-spec.
  finish_printed :
      (decode : Bytes → Decoding) (s : Bytes) {n : Bytes}
      → name ≡ n
      → skip_space s ≡ printed
      → finish_name true (consume_group_list decode) (some []) (ok n s)
        ≡ ok (1, some (whole ∷ [])) []
  finish_printed decode s e h =
      ap (λ n. finish_name true (consume_group_list decode) (some []) (ok n s)) (sym e)
      ∙ name_printed true (consume_group_list decode) (some []) s h

  parse_named :
      (decode : Bytes → Decoding) (n : Bytes)
      → name ≡ n
      → parse_address decode (some []) (named n) ≡ ok (1, some (whole ∷ [])) []
  unfolding parse_address parse_address_with named
  parse_named decode [] e =
      unfold skip_space in
      rw angle_attempt (unfold finish_attempt in finish_printed decode printed e refl)
  parse_named decode (c ∷ n) e =
      let start = quote_string_starts (c ∷ n) (b' ' ∷ printed) in
      let attempt = rw e at (name_attempt c n e) in
      let phrase = rw e at (name_phrase decode) in
      rw (start.0, start.1)
        (rw attempt (
          unfold finish_attempt quote_string in
          rw phrase (finish_printed decode printed e (unfold skip_space in refl))))

  -- A single address is read back, whatever the decoder and the encoders: for a name of printable
  -- ASCII (which may be empty), a local part of 1 to 64 such characters, quoted by `String` where it
  -- is no dot-atom, and a domain of at most 255 bytes that is an ASCII dot-atom, `Parse` of what
  -- `String` prints is the address itself.
  pub parse_single-to_string :
      (decode : Bytes → Decoding) (b_encode q_encode : Bytes → Bytes)
      → parse_single decode (to_string b_encode q_encode whole) ≡ done whole
  unfolding parse_single
  parse_single-to_string decode b_encode q_encode =
      rw (to_string_printed b_encode q_encode name refl) (
        rw (parse_named decode name refl)
          (unfold finish_parse skip_cfws skip_space skip_comments consume only in refl))
