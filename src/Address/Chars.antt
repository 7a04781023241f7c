-- ===== src/Address/Chars.antt =====
-- The character classes of RFC 5322 (the end of email/address.go).
use blocky_cloud.Prelude.{ℕ, Bool, false, ◌&&◌, ◌||◌, leb, ◌==◌, if◌then◌else◌}
use blocky_cloud.Address.Utf8.{rune_self}

unfoldable pub is_multibyte : ℕ → Bool
is_multibyte r = leb rune_self r

unfoldable pub is_vchar : ℕ → Bool
unfolding is_multibyte
is_vchar r = (leb b'!' r && leb r b'~') || is_multibyte r

unfoldable pub is_wsp : ℕ → Bool
is_wsp r = r == b' ' || r == b'\t'

unfoldable pub is_qtext : ℕ → Bool
unfolding is_vchar
is_qtext r = if r == b'\\' || r == b'"' then false else is_vchar r

abbrev is_special : ℕ → Bool
is_special r =
    r == b'('
    || r == b')'
    || r == b'['
    || r == b']'
    || r == b';'
    || r == b'@'
    || r == b'\\'
    || r == b','

unfoldable pub is_atext : ℕ → Bool → Bool → Bool
unfolding is_vchar
is_atext r dot permissive =
    if r == b'.'
    then dot
    else if is_special r
    then permissive
    else if r == b'<' || r == b'>' || r == b'"' || r == b':'
    then false
    else is_vchar r
