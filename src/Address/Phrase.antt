-- ===== src/Address/Phrase.antt =====
-- `consumePhrase`, `consumeDisplayNameComment` and `decodeRFC2047Word` of email/address.go.
use blocky_cloud.Prelude.{
  ℕ, zero, suc, ◌+◌, Bool, true, false, not, ◌&&◌, ◌||◌, List, [], ◌∷◌, ◌++◌, Option, none, some,
  ◌==◌, if◌then◌else◌, length,
}
use blocky_cloud.Address.Utf8.{Bytes}
use blocky_cloud.Address.Lexer.{
  Error, misformatted_comment, comment_start, charset, missing_word, Parsed, ok, err, consume,
  peeks, is_empty, skip_space, consume_comment, consume_atom, consume_quoted_string,
}

-- What `mime.WordDecoder.Decode` answers to a word, with the parser's own `CharsetReader` in place:
-- the decoded word, an error of the charset reader, or any other error.
pub data Decoding : Type 0 where
  decoded : Bytes → Decoding
  bad_charset : Decoding
  not_encoded : Decoding

-- `sb` with the next word: encoded words that follow each other are joined with no space.
abbrev pub append_word : Bool → ℕ → Bytes → Bytes → Bytes
append_word joined count sb word =
    if joined then sb ++ word else if count == 0 then sb ++ word else sb ++ (b' ' ∷ word)

-- The end of `consumePhrase`: an error counts only where no word was read.
abbrev pub finish_phrase : ℕ → Bytes → Option Error → Bytes → Parsed Bytes
finish_phrase count sb none s = ok sb s
finish_phrase count sb (some e) s = if count == 0 then err (missing_word e) s else ok sb s

abbrev unencoded : Parsed Bytes → Parsed (Bytes × Bool)
unencoded (ok word rest) = ok (word, false) rest
unencoded (err e rest) = err e rest

-- `strings.FieldsFunc` on spaces and tabs: the word that is being read, then the others.
unfoldable pub fields : Bytes → Bytes → List Bytes
fields word [] = if is_empty word then [] else word ∷ []
fields word (b ∷ s) =
    let blank = b == b' ' || b == b'\t' in
    let rest = fields (if blank then [] else word ++ b ∷ []) s in
    if blank && not (is_empty word) then word ∷ rest else rest

-- `strings.Join(words, " ")`.
unfoldable pub join : List Bytes → Bytes
join [] = []
join (w ∷ []) = w
join (w ∷ v ∷ ws) = w ++ (b' ' ∷ join (v ∷ ws))

abbrev join_words : Parsed (List Bytes) → Parsed Bytes
join_words (ok ws s) = ok (join ws) s
join_words (err e s) = err e s

-- A round of `consumePhrase` behind its word; `again` is the next round.
unfoldable pub phrase_round :
    (Bool → ℕ → Bytes → Bytes → Parsed Bytes)
    → Bool
    → ℕ
    → Bytes
    → Parsed (Bytes × Bool)
    → Parsed Bytes
phrase_round again prev count sb (err e s) = finish_phrase count sb (some e) s
phrase_round again prev count sb (ok (word, encoded) s) =
    let joined = prev && encoded in
    again encoded (if joined then count else count + 1) (append_word joined count sb word) s

-- The section's parameter stands for `mime.WordDecoder` and the reader of charsets behind it.
module _ (decode : Bytes → Decoding) where
  -- `decodeRFC2047Word`: the word and whether it was encoded, or the charset reader's error.
  unfoldable pub decode_rfc2047_word : Bytes → Bytes → Parsed (Bytes × Bool)
  decode_rfc2047_word word rest = elim (decode word) [
    | decoded w ↦ ok (w, true) rest
    | bad_charset ↦ err (charset word) rest
    | not_encoded ↦ ok (word, false) rest
  ]

  abbrev decode_atom : Parsed Bytes → Parsed (Bytes × Bool)
  decode_atom (ok word rest) = decode_rfc2047_word word rest
  decode_atom (err e rest) = err e rest

  -- One word of a phrase, at an input that is not empty.
  unfoldable pub consume_word : Bytes → Parsed (Bytes × Bool)
  consume_word s =
      if peeks b'"' s
      then unencoded (consume_quoted_string s)
      else decode_atom (consume_atom true true s)

  -- The loop of `consumePhrase`, with `isPrevEncoded`, `wordCount` and `sb`. Each round reads a word,
  -- so one more than the length of the input is enough fuel.
  unfoldable pub phrase_loop : ℕ → Bool → ℕ → Bytes → Bytes → Parsed Bytes
  phrase_loop zero prev count sb s = finish_phrase count sb none s
  phrase_loop (suc fuel) prev count sb s =
      let s' = skip_space s in
      let next = phrase_round (phrase_loop fuel) prev count sb (consume_word s') in
      if is_empty s' then finish_phrase count sb none s' else next

  unfoldable pub consume_phrase : Bytes → Parsed Bytes
  consume_phrase s = phrase_loop (suc (length s)) false 0 [] s

  unfoldable pub decode_words : List Bytes → Bytes → Parsed (List Bytes)
  decode_words [] rest = ok [] rest
  decode_words (w ∷ ws) rest = elim (decode_rfc2047_word w rest) [
    | err e _ ↦ err e rest
    | ok (v, _) _ ↦ elim (decode_words ws rest) [
      | err e _ ↦ err e rest
      | ok vs _ ↦ ok (v ∷ vs) rest
    ]
  ]

  unfoldable pub consume_display_name_comment : Bytes → Parsed Bytes
  consume_display_name_comment s =
      let (found, s') = consume b'(' s in
      let (comment, closed, rest) = consume_comment s' in
      if not found
      then err comment_start s'
      else if not closed
      then err misformatted_comment rest
      else join_words (decode_words (fields [] comment) rest)
