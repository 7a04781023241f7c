-- ===== src/Smtp/Bounce.antt =====
-- The map of bounce reasons and its comparison in email/smtpemail/bouncespy.go, and
-- `extractMsgBounceReason` of email/smtpemail/smtp_sender.go.
use blocky_cloud.Prelude.{
  ℕ, zero, suc, ◌+◌, ◌-◌, ◌/◌, ◌%◌, Bool, true, false, not, ◌&&◌, ◌||◌, List, [], ◌∷◌, ◌++◌, ltb,
  ◌==◌, if◌then◌else◌,
}
use blocky_cloud.Address.Utf8.{Bytes, decode_rune, encode_rune}
use blocky_cloud.Text.{same}
use blocky_cloud.Address.Lexer.{is_empty}
use blocky_cloud.Smtp.Codes.{Code, reason, bounce_code_not_found}
use blocky_cloud.Smtp.StatusMap.{StatusInfo, status_info, all_codes}

-- `bounceStatusMap[r]` over the keys: the zero value where no key is `r`.
unfoldable pub find_info : List Code → Bytes → StatusInfo
find_info [] r = record { type_ = 0; specific = false }
find_info (c ∷ cs) r =
    let rest = find_info cs r in if same (reason c) r then status_info c else rest

unfoldable pub bounce_status_map : Bytes → StatusInfo
bounce_status_map = find_info all_codes

-- The results of `compare`.
pub data Comparison : Type 0 where
  less_specific : Comparison
  more_specific : Comparison
  equal : Comparison
  both_not_found : Comparison

abbrev compare_specific : Bool → Bool → Comparison
compare_specific true true = equal
compare_specific false false = equal
compare_specific true false = more_specific
compare_specific false true = less_specific

-- `bounceReason.compare`.
unfoldable pub compare_reasons : Bytes → Bytes → Comparison
compare_reasons r o =
    if is_empty r && is_empty o
    then both_not_found
    else compare_specific (bounce_status_map r).specific (bounce_status_map o).specific

-- The status of a refused recipient in `sendMessage`, from the reply's code and the text's.
abbrev more_exact : Bytes → Bytes → Comparison → Bytes
more_exact cs sc less_specific = sc
more_exact cs sc _ = cs

unfoldable pub choose_status : Bytes → Bytes → Bytes
choose_status cs sc = more_exact cs sc (compare_reasons cs sc)

-- `strconv.Itoa` of a number that is not negative. A number is more than its digits, so one more
-- than the number is enough fuel.
unfoldable pub itoa_loop : ℕ → ℕ → Bytes
itoa_loop zero n = []
itoa_loop (suc fuel) n =
    let rest = itoa_loop fuel (n / 10) in
    if ltb n 10 then (b'0' + n) ∷ [] else rest ++ (b'0' + n % 10) ∷ []

unfoldable pub itoa : ℕ → Bytes
itoa n = itoa_loop (suc n) n

-- `is_digit` is `unicode.IsDigit`.
module _ (is_digit : ℕ → Bool) where
  -- The loop of `extractMsgBounceReason`; `code` is the text of the runes so far. A rune is kept
  -- only if `hasDigit`, so `code` is empty exactly while no digit was read.
  unfoldable pub extract_loop : Bytes → ℕ → Bytes → Bytes
  extract_loop code skip [] = code
  extract_loop code (suc skip) (b ∷ s) = extract_loop code skip s
  extract_loop code zero (b ∷ s) =
      let (r, size) = decode_rune (b ∷ s) in
      let skipped = extract_loop code (size - 1) s in
      let kept = extract_loop (code ++ encode_rune r) (size - 1) s in
      if r == b' ' && is_empty code
      then skipped
      else if is_digit r || (r == b'.' && not (is_empty code))
      then kept
      else if is_empty code
      then bounce_code_not_found
      else code

  unfoldable pub extract_msg_bounce_reason : Bytes → Bytes
  extract_msg_bounce_reason = extract_loop [] 0
