-- ===== src/Smtp/Fold.antt =====
-- `writeHeader` and `writeLine` of email/smtpemail/writer.go, which fold long header lines. What they
-- write is their result.
use blocky_cloud.Prelude.{
  ℕ, zero, suc, ◌+◌, ◌-◌, Bool, true, false, List, [], ◌∷◌, ◌++◌, Option, none, some, ltb, leb,
  ◌==◌, if◌then◌else◌, length, take, drop,
}
use blocky_cloud.Text.{codes}
use blocky_cloud.Address.Utf8.{Bytes}

-- `s[i]`, which no caller asks for behind the end.
abbrev pub byte_at : Bytes → ℕ → ℕ
byte_at [] i = 0
byte_at (b ∷ s) zero = b
byte_at (b ∷ s) (suc i) = byte_at s i

abbrev pub one_later : Option ℕ → Option ℕ
one_later none = none
one_later (some i) = some (suc i)

-- `strings.IndexByte(s, b)`.
unfoldable pub index_byte : Bytes → ℕ → Option ℕ
index_byte [] b = none
index_byte (a ∷ s) b = let rest = one_later (index_byte s b) in if a == b then some 0 else rest

-- `lastIndexByte(s, b)`: the last of the first n bytes that is `b`.
unfoldable pub last_index_byte : Bytes → ℕ → ℕ → Option ℕ
last_index_byte s b zero = none
last_index_byte s b (suc i) =
    let rest = last_index_byte s b i in if byte_at s i == b then some i else rest

-- What `writeLine` does at the first space or newline of `s`, whose bytes before are `before`.
unfoldable pub later_break : Bytes → Bytes → Bytes × Bytes
later_break before [] = (before, [])
later_break before (b ∷ s) =
    let rest = later_break (before ++ b ∷ []) s in
    if b == b' '
    then (before ++ codes "\r\n ", s)
    else if b == b'\n'
    then (before ++ b ∷ [], s)
    else rest

abbrev pub break_at_space : Bytes → Option ℕ → Bytes × Bytes
break_at_space s (some i) = (take i s ++ codes "\r\n ", drop (suc i) s)
break_at_space s none = later_break (take 75 s) (drop 75 s)

abbrev pub early_newline : ℕ → Option ℕ → Bool
early_newline left none = false
early_newline left (some i) = ltb i left

abbrev pub break_at_newline : Bytes → Option ℕ → Bytes × Bytes
break_at_newline s none = ([], s)
break_at_newline s (some i) = (take (suc i) s, drop (suc i) s)

-- `writeLine`: what it writes, and the rest that it returns.
unfoldable pub write_line : Bytes → ℕ → Bytes × Bytes
write_line s left =
    let newline = index_byte s b'\n' in
    if early_newline left newline
    then break_at_newline s newline
    else break_at_space s (last_index_byte s b' ' left)

abbrev pub behind_line : Bytes → Bytes × Bytes × ℕ → Bytes × Bytes × ℕ
behind_line line (out, last, room) = (line ++ out, last, room)

-- The loop that folds a value. `room` is `charsLeft + 1`: `charsLeft` is -1 at least where it is read,
-- but for a long key at the start, where any value below 1 is as good. The result is what was written,
-- the rest that fits, and the room for it. A round writes a byte or more, or gives the empty rest room.
unfoldable pub fold_loop : ℕ → Bytes → ℕ → Bytes × Bytes × ℕ
fold_loop zero s room = ([], s, room)
fold_loop (suc fuel) s room =
    let (line, rest) = write_line s (room - 1) in
    let more = behind_line line (fold_loop fuel rest 76) in
    if leb room (length s) then more else ([], s, room)

abbrev pub room_behind : Bytes → ℕ → Option ℕ → ℕ
room_behind s room none = room - length s
room_behind s room (some i) = 76 - (length s - i - 1)

-- A value behind its separator: what is written, and the room that is left.
unfoldable pub write_folded : Bytes → ℕ → Bytes × ℕ
write_folded s room =
    let (out, last, room') = fold_loop (length s + 2) s room in
    (out ++ last, room_behind last room' (last_index_byte last b'\n' (length last)))

-- What stands before a value, and the room behind it.
unfoldable pub separator : Bool → ℕ → Bytes × ℕ
separator first room =
    if ltb room 2
    then (if first then codes "\r\n " else codes ",\r\n ", 76)
    else if first
    then ([], room)
    else (codes ", ", room - 2)

unfoldable pub write_values : Bool → ℕ → List Bytes → Bytes
write_values first room [] = []
write_values first room (s ∷ vs) =
    let (before, room') = separator first room in
    let (out, room'') = write_folded s room' in before ++ (out ++ write_values false room'' vs)

-- `writeHeader`.
unfoldable pub write_header : Bytes → List Bytes → Bytes
write_header k [] = k ++ codes ":\r\n"
write_header k (v ∷ vs) =
    k ++ (codes ": " ++ (write_values true (75 - length k) (v ∷ vs) ++ codes "\r\n"))
