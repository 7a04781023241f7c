-- ===== src/Address/Dotted.antt =====
-- Dot-atoms in email/address.go: what `String` leaves unquoted is read back by `consumeAtom`.
use blocky_cloud.Prelude.{
  ℕ, ◌≤◌, ◌<◌, ◌≡◌, refl, true, false, not, ◌||◌, [], ◌∷◌, ◌++◌, Option, none, some, ◌==◌, length,
  arith, All, take, drop,
}
use blocky_cloud.Address.Utf8.{Bytes}
use blocky_cloud.Address.Chars.{is_atext}
use blocky_cloud.Address.Lexer.{
  ok, atom_loop, cut_atom, check_dots, consume_atom, double_dotted, ends_dotted,
}
use blocky_cloud.Address.Printer.{needs_quotes, dot_allowed}
use blocky_cloud.Address.Limits.{IsDotted}
use blocky_cloud.Address.Ascii.{IsPrintable, decode_rune-ascii}

-- An ASCII character of a dot-atom.
pub record IsDotAtext (c : ℕ) : Type 0 where
  pub ascii : c < 128
  pub atext : is_atext c true false ≡ true

-- The text goes on with an ASCII character that ends a dot-atom.
pub record IsEnd (c : ℕ) : Type 0 where
  pub ascii : c < 128
  pub ends : is_atext c true false ≡ false

atom_loop-append :
    (s : Bytes) (c : ℕ) (rest : Bytes)
    → All IsDotAtext s
    → IsEnd c
    → atom_loop 0 true false (s ++ (c ∷ rest)) ≡ some (length s)
unfolding atom_loop
atom_loop-append [] c rest p e =
    rw (decode_rune-ascii c rest e.ascii) (ground (arith, e.ends, e.ascii))
atom_loop-append (b ∷ s) c rest (h, p) e =
    rw (decode_rune-ascii b (s ++ (c ∷ rest)) h.ascii)
      (ground (arith, h.atext, h.ascii, atom_loop-append s c rest p e))

take-append : (s rest : Bytes) → take (length s) (s ++ rest) ≡ s
take-append [] rest = refl
take-append (b ∷ s) rest = rw (take-append s rest)

drop-append : (s rest : Bytes) → drop (length s) (s ++ rest) ≡ rest
drop-append [] rest = refl
drop-append (b ∷ s) rest = drop-append s rest

-- A well-dotted text is read whole, up to the character that ends it.
pub consume_atom-append :
    (s : Bytes) (c : ℕ) (rest : Bytes)
    → IsDotted s
    → All IsDotAtext s
    → IsEnd c
    → consume_atom true false (s ++ (c ∷ rest)) ≡ ok s (c ∷ rest)
unfolding consume_atom cut_atom check_dots
consume_atom-append [] c rest d p e = absurd (omega (arith, d.filled))
consume_atom-append (b ∷ s) c rest d p e =
    rw (atom_loop-append (b ∷ s) c rest p e, cut_atom)
      (rw (take-append s (c ∷ rest), drop-append s (c ∷ rest))
        (rw (d.no_double, d.no_trailing, check_dots) (ground (arith, d.no_leading))))

-- What `String` finds of a text that it does not quote, after the byte before.
abbrev IsPlain : Option ℕ → Bytes → Type 0
IsPlain before [] = Unit
IsPlain before (c ∷ s) =
    (is_atext c true false ≡ true)
    × ((not (c == b'.') || dot_allowed before s) ≡ true)
    × IsPlain (some c) s

is_atext_dot : (c : ℕ) → (is_atext c false false || c == b'.') ≡ true → is_atext c true false ≡ true
unfolding is_atext
is_atext_dot c h = ground arith

is_atext_no_dot : (c : ℕ) → is_atext c false false ≡ true → (c == b'.') ≡ false
unfolding is_atext
is_atext_no_dot c h = ground arith

needs_quotes-IsPlain :
    (before : Option ℕ) (s : Bytes)
    → All IsPrintable s
    → needs_quotes 0 before s ≡ false
    → IsPlain before s
unfolding needs_quotes
needs_quotes-IsPlain before [] p q = tt
needs_quotes-IsPlain before (c ∷ s) (h, p) q =
    let q' = rw (decode_rune-ascii c s h.ascii, needs_quotes) at q in
    ground (arith, q', is_atext_dot c, is_atext_no_dot c, needs_quotes-IsPlain (some c) s p)

IsPlain-IsDotAtext :
    (before : Option ℕ) (s : Bytes) → All IsPrintable s → IsPlain before s → All IsDotAtext s
IsPlain-IsDotAtext before [] p q = tt
IsPlain-IsDotAtext before (c ∷ s) (h, p) (a, _, q) =
    (record { ascii = h.ascii; atext = a }, IsPlain-IsDotAtext (some c) s p q)

IsPlain-double_dotted : (before : Option ℕ) (s : Bytes) → IsPlain before s → double_dotted s ≡ false
unfolding double_dotted
IsPlain-double_dotted before [] q = refl
IsPlain-double_dotted before (a ∷ []) q = refl
IsPlain-double_dotted before (a ∷ b ∷ s) (_, _, q) =
    ground (arith, IsPlain-double_dotted (some a) (b ∷ s) q, q.1)

IsPlain-ends_dotted : (before : Option ℕ) (s : Bytes) → IsPlain before s → ends_dotted s ≡ false
unfolding ends_dotted
IsPlain-ends_dotted before [] q = refl
IsPlain-ends_dotted none (a ∷ []) (_, d, _) = ground (arith, d)
IsPlain-ends_dotted (some b) (a ∷ []) (_, d, _) = ground (arith, d)
IsPlain-ends_dotted before (a ∷ b ∷ s) (_, _, q) = IsPlain-ends_dotted (some a) (b ∷ s) q

-- A printable text that `String` does not quote is a dot-atom.
pub needs_quotes-IsDotted :
    (s : Bytes)
    → 1 ≤ length s
    → All IsPrintable s
    → needs_quotes 0 none s ≡ false
    → IsDotted s × All IsDotAtext s
needs_quotes-IsDotted [] h p q = absurd (omega arith)
needs_quotes-IsDotted (c ∷ s) h p q =
    let plain = needs_quotes-IsPlain none (c ∷ s) p q in
    (
      record {
        filled = h;
        no_leading = ground (arith, plain.1);
        no_double = IsPlain-double_dotted none (c ∷ s) plain;
        no_trailing = IsPlain-ends_dotted none (c ∷ s) plain;
      },
      IsPlain-IsDotAtext none (c ∷ s) p plain,
    )
