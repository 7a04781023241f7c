-- ===== src/Smtp/Reasons.antt =====
-- The statuses and the types of bounces: email/smtpemail/bouncespy.go and smtp_sender.go.
use blocky_cloud.Prelude.{
  ℕ, zero, suc, ◌+◌, ◌/◌, ◌%◌, ◌<◌, Bool, true, false, not, ◌&&◌, ◌||◌, List, [], ◌∷◌, ◌++◌, ltb,
  leb, ◌==◌, if◌then◌else◌, if_cases, ◌≡◌, refl, ◌∙◌, All, arith, append-nil, append_assoc,
}
use blocky_cloud.Address.Utf8.{Bytes}
use blocky_cloud.Text.{same-eq}
use blocky_cloud.Address.Ascii.{decode_rune-ascii, encode_rune-ascii}
use blocky_cloud.Address.Lexer.{is_empty}
use blocky_cloud.Smtp.Codes.{Code, reason}
use blocky_cloud.Smtp.StatusMap.{status_info, all_codes}
use blocky_cloud.Smtp.Bounce.{
  find_info, bounce_status_map, compare_reasons, choose_status, itoa_loop, itoa, extract_loop,
  extract_msg_bounce_reason,
}
use blocky_cloud.Smtp.Sender.{status_of}

unfoldable has_dot : Bytes → Bool
has_dot [] = false
has_dot (b ∷ s) = b == b'.' || has_dot s

-- Every enhanced code has a dot.
unfoldable dotted : List Code → Bool
dotted [] = true
dotted (c ∷ cs) = (not (status_info c).specific || has_dot (reason c)) && dotted cs

find_info-dotted :
    (cs : List Code) (r : Bytes)
    → dotted cs ≡ true
    → (find_info cs r).specific ≡ true
    → has_dot r ≡ true
unfolding find_info dotted
find_info-dotted [] r d h = ground arith
find_info-dotted (c ∷ cs) r d h = ground (arith, find_info-dotted cs r, same-eq (reason c) r)

all_codes-dotted : dotted all_codes ≡ true
unfolding dotted all_codes has_dot
all_codes-dotted = refl

has_dot-append : (s t : Bytes) → has_dot (s ++ t) ≡ (has_dot s || has_dot t)
unfolding has_dot
has_dot-append [] t = refl
has_dot-append (b ∷ s) t = ground (arith, has_dot-append s t)

itoa_loop-has_dot : (fuel n : ℕ) → has_dot (itoa_loop fuel n) ≡ false
unfolding has_dot itoa_loop
itoa_loop-has_dot zero n = refl
itoa_loop-has_dot (suc fuel) n = ground (
  arith,
  itoa_loop-has_dot fuel (n / 10),
  has_dot-append (itoa_loop fuel (n / 10)) ((b'0' + n % 10) ∷ []),
)

-- A reply code is no enhanced code.
itoa_not_specific : (n : ℕ) → (bounce_status_map (itoa n)).specific ≡ false
unfolding bounce_status_map itoa
itoa_not_specific n = ground (
  arith,
  find_info-dotted all_codes (itoa_loop (suc n) n) all_codes-dotted,
  itoa_loop-has_dot (suc n) n,
)

is_empty-append : (s : Bytes) (b : ℕ) (t : Bytes) → is_empty (s ++ b ∷ t) ≡ false
is_empty-append [] b t = refl
is_empty-append (a ∷ s) b t = refl

itoa_not_empty : (n : ℕ) → is_empty (itoa n) ≡ false
unfolding itoa itoa_loop
itoa_not_empty n =
    if_cases (λ s. is_empty s ≡ false) (ltb n 10) _ _ (λ q. is_empty-append [] (b'0' + n) [])
      (λ q. is_empty-append (itoa_loop n (n / 10)) (b'0' + n % 10) [])

-- The status of a refused recipient is the text's code where that is a known enhanced code, and the
-- reply's code otherwise.
pub choose_status-itoa :
    (n : ℕ) (sc : Bytes)
    → choose_status (itoa n) sc ≡ (if (bounce_status_map sc).specific then sc else itoa n)
unfolding choose_status compare_reasons
choose_status-itoa n sc = rw (itoa_not_specific n, itoa_not_empty n) (ground arith)

-- A text that begins with a digit and has only ASCII digits and dots.
unfoldable pub is_ascii_digit : ℕ → Bool
is_ascii_digit b = leb b'0' b && leb b b'9'

pub record IsCodeChar (b : ℕ) : Type 0 where
  pub holds : (is_ascii_digit b || b == b'.') ≡ true

code_char-ascii : (b : ℕ) → IsCodeChar b → b < 128
unfolding is_ascii_digit
code_char-ascii b h = let q = h.holds in ground arith

code_char-not_space : (b : ℕ) → IsCodeChar b → (b == b' ') ≡ false
unfolding is_ascii_digit
code_char-not_space b h = let q = h.holds in ground arith

code_char-kept : (b : ℕ) → IsCodeChar b → (is_ascii_digit b || (b == b'.' && true)) ≡ true
code_char-kept b h = let q = h.holds in ground arith

space_not_digit : is_ascii_digit b' ' ≡ false
unfolding is_ascii_digit
space_not_digit = refl

digit-not_space : (b : ℕ) → is_ascii_digit b ≡ true → (b == b' ') ≡ false
unfolding is_ascii_digit
digit-not_space b h = ground arith

digit-ascii : (b : ℕ) → is_ascii_digit b ≡ true → b < 128
unfolding is_ascii_digit
digit-ascii b h = ground arith

-- Spaces before a text.
abbrev pub spaces : ℕ → Bytes → Bytes
spaces zero s = s
spaces (suc n) s = b' ' ∷ spaces n s

module _ (is_digit : ℕ → Bool) (ascii : (b : ℕ) → b < 128 → is_digit b ≡ is_ascii_digit b) where
  extract_loop-code :
      (code s rest : Bytes)
      → is_empty code ≡ false
      → All IsCodeChar s
      → extract_loop is_digit code 0 (s ++ b' ' ∷ rest) ≡ code ++ s
  unfolding extract_loop
  extract_loop-code code [] rest c p =
      rw
        (
          decode_rune-ascii b' ' rest (omega arith),
          ascii b' ' (omega arith),
          space_not_digit,
          c,
          append-nil,
        )
        refl
  extract_loop-code code (b ∷ s) rest c (h, p) =
      rw
        (
          decode_rune-ascii b (s ++ b' ' ∷ rest) (code_char-ascii b h),
          ascii b (code_char-ascii b h),
          c,
          code_char-not_space b h,
          code_char-kept b h,
          encode_rune-ascii b (code_char-ascii b h),
        )
        (extract_loop-code (code ++ b ∷ []) s rest (is_empty-append code b []) p
          ∙ append_assoc code (b ∷ []) s)

  extract_msg_bounce_reason-spaces :
      (n b : ℕ) (s rest : Bytes)
      → is_ascii_digit b ≡ true
      → All IsCodeChar s
      → extract_msg_bounce_reason is_digit (spaces n (b ∷ s ++ b' ' ∷ rest)) ≡ b ∷ s
  unfolding extract_msg_bounce_reason extract_loop
  extract_msg_bounce_reason-spaces zero b s rest d p =
      rw
        (
          decode_rune-ascii b (s ++ b' ' ∷ rest) (digit-ascii b d),
          ascii b (digit-ascii b d),
          d,
          digit-not_space b d,
          encode_rune-ascii b (digit-ascii b d),
        )
        (extract_loop-code (b ∷ []) s rest refl p)
  extract_msg_bounce_reason-spaces (suc n) b s rest d p =
      rw (decode_rune-ascii b' ' (spaces n (b ∷ s ++ b' ' ∷ rest)) (omega arith))
        (extract_msg_bounce_reason-spaces n b s rest d p)

  -- A known enhanced code at the start of a reply's text, behind any spaces and before a space, is
  -- the status of the refused recipient, whatever the reply's own code.
  pub status_of-enhanced :
      (code n b : ℕ) (s rest : Bytes)
      → is_ascii_digit b ≡ true
      → All IsCodeChar s
      → (bounce_status_map (b ∷ s)).specific ≡ true
      → status_of is_digit code (spaces n (b ∷ s ++ b' ' ∷ rest)) ≡ b ∷ s
  unfolding status_of
  status_of-enhanced code n b s rest d p known =
      rw (extract_msg_bounce_reason-spaces n b s rest d p, choose_status-itoa code (b ∷ s), known)
        refl
