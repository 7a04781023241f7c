-- ===== src/Address/Ascii.antt =====
-- Printable ASCII in email/address.go: a rune is its byte, and quoting is undone by reading.
use blocky_cloud.Prelude.{
  ℕ, ◌<◌, ◌≡◌, refl, ◌∙◌, true, false, not, ◌&&◌, ◌||◌, [], ◌∷◌, ◌++◌, arith, All, append_assoc,
  append-nil, inl, inr, Bool-cases,
}
use blocky_cloud.Address.Utf8.{Bytes, decode_rune, encode_rune}
use blocky_cloud.Address.Chars.{is_qtext, is_vchar, is_wsp, is_multibyte}
use blocky_cloud.Address.Lexer.{ok, quoted_loop, consume_quoted_string}
use blocky_cloud.Address.Printer.{quote_rune, quote_loop, quote_string, all_printable}

-- A printing character of ASCII, a space or a tab.
pub record IsPrintable (c : ℕ) : Type 0 where
  pub ascii : c < 128
  pub visible : (is_vchar c || is_wsp c) ≡ true

pub decode_rune-ascii : (c : ℕ) (s : Bytes) → c < 128 → decode_rune (c ∷ s) ≡ (c, 1)
unfolding decode_rune
decode_rune-ascii c s h = ground arith

pub encode_rune-ascii : (c : ℕ) → c < 128 → encode_rune c ≡ c ∷ []
unfolding encode_rune
encode_rune-ascii c h = ground arith

quote_loop-ascii :
    (c : ℕ) (s : Bytes) → c < 128 → quote_loop 0 (c ∷ s) ≡ quote_rune c ++ quote_loop 0 s
unfolding quote_loop
quote_loop-ascii c s h = rw (decode_rune-ascii c s h, quote_loop)

-- A character that needs no backslash, and one behind a backslash.
quoted_loop_plain :
    (c : ℕ) (orig sb s : Bytes)
    → c < 128
    → (is_qtext c || is_wsp c) ≡ true
    → quoted_loop 0 orig false sb (c ∷ s) ≡ quoted_loop 0 orig false (sb ++ c ∷ []) s
unfolding quoted_loop
quoted_loop_plain c orig sb s h q =
    rw (decode_rune-ascii c s h, encode_rune-ascii c h, q, quoted_loop) (ground arith)

quoted_loop_escaped :
    (c : ℕ) (orig sb s : Bytes)
    → c < 128
    → is_vchar c ≡ true
    → quoted_loop 0 orig false sb (b'\\' ∷ c ∷ s) ≡ quoted_loop 0 orig false (sb ++ c ∷ []) s
unfolding quoted_loop is_qtext is_wsp
quoted_loop_escaped c orig sb s h v =
    rw (decode_rune-ascii b'\\' (c ∷ s) (omega arith), quoted_loop)
      (rw (decode_rune-ascii c s h, encode_rune-ascii c h, v, quoted_loop) (ground arith))

-- One character, as `quoteString` writes it and `consumeQuotedString` reads it.
quoted_loop-quote_rune :
    (c : ℕ) (orig sb rest : Bytes)
    → IsPrintable c
    → quoted_loop 0 orig false sb (quote_rune c ++ rest)
      ≡ quoted_loop 0 orig false (sb ++ c ∷ []) rest
unfolding quote_rune
quoted_loop-quote_rune c orig sb rest p = elim (Bool-cases (is_qtext c || is_wsp c)) [
  | inl q ↦ rw (q, encode_rune-ascii c p.ascii) (quoted_loop_plain c orig sb rest p.ascii q)
  | inr e ↦
      let v : is_vchar c ≡ true = ground (arith, p.visible, e) in
      rw (e, v, encode_rune-ascii c p.ascii) (quoted_loop_escaped c orig sb rest p.ascii v)
]

quoted_loop-quote_loop :
    (s orig sb rest : Bytes)
    → All IsPrintable s
    → quoted_loop 0 orig false sb (quote_loop 0 s ++ (b'"' ∷ rest)) ≡ ok (sb ++ s) rest
quoted_loop-quote_loop [] orig sb rest p =
    unfold quoted_loop quote_loop is_qtext is_wsp decode_rune in rw append-nil
quoted_loop-quote_loop (c ∷ s) orig sb rest (h, p) =
    rw (quote_loop-ascii c s h.ascii, append_assoc (quote_rune c))
      (quoted_loop-quote_rune c orig sb _ h
        ∙ quoted_loop-quote_loop s orig (sb ++ c ∷ []) rest p
        ∙ rw append_assoc)

-- `consumeQuotedString` reads back what `quoteString` writes, for a printable text.
pub consume_quoted_string-quote_string :
    (s rest : Bytes)
    → All IsPrintable s
    → consume_quoted_string (quote_string s ++ rest) ≡ ok s rest
unfolding consume_quoted_string quote_string
consume_quoted_string-quote_string s rest p = rw append_assoc (quoted_loop-quote_loop s _ [] rest p)

printable_test :
    (c : ℕ) → IsPrintable c → not ((not (is_vchar c) && not (is_wsp c)) || is_multibyte c) ≡ true
unfolding is_multibyte
printable_test c p = ground arith

pub all_printable-IsPrintable : (s : Bytes) → All IsPrintable s → all_printable 0 s ≡ true
unfolding all_printable
all_printable-IsPrintable [] p = refl
all_printable-IsPrintable (c ∷ s) (h, p) =
    rw (decode_rune-ascii c s h.ascii) (rw (printable_test c h) (all_printable-IsPrintable s p))
