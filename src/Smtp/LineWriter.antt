-- ===== src/Smtp/LineWriter.antt =====
-- `base64LineWriter` of email/smtpemail/writer.go, which breaks base64 text into lines.
use blocky_cloud.Prelude.{
  ℕ, zero, suc, ◌+◌, ◌-◌, ◌≤◌, ◌<◌, false, [], ◌∷◌, ◌++◌, ltb, ◌==◌, if◌then◌else◌, if_cases,
  ltb→lt, length, take, drop, ◌≡◌, refl, sym, ◌∙◌, ap, arith, append_assoc, append-nil,
  take-append-drop, length-take, length-drop,
}
use blocky_cloud.Address.Utf8.{Bytes}

abbrev pub max_line_len : ℕ
max_line_len = 76

-- The field `lineLen`, and what the writer below has been given.
pub record LineWriter : Type 0 where
  pub output : Bytes
  pub line_len : ℕ

-- The loop of `Write` and the call behind it. Each round passes a byte of `p` or, where the line is
-- full, starts a line, so two more than the length of `p` is enough fuel.
unfoldable pub write_loop : ℕ → LineWriter → Bytes → LineWriter
write_loop zero w p = w
write_loop (suc fuel) w p =
    let k = max_line_len - w.line_len in
    let rest =
      write_loop fuel
        (record { output = w.output ++ (take k p ++ b'\r' ∷ b'\n' ∷ []); line_len = 0 })
        (drop k p) in
    if ltb max_line_len (length p + w.line_len)
    then rest
    else record { output = w.output ++ p; line_len = w.line_len + length p }

unfoldable pub write_bytes : LineWriter → Bytes → LineWriter
write_bytes w p = write_loop (length p + 2) w p

-- The same text byte by byte: a byte that finds a full line starts a new one.
unfoldable pub put : LineWriter → ℕ → LineWriter
put w b =
    if w.line_len == max_line_len
    then record { output = w.output ++ b'\r' ∷ b'\n' ∷ b ∷ []; line_len = 1 }
    else record { output = w.output ++ b ∷ []; line_len = w.line_len + 1 }

unfoldable pub put_all : LineWriter → Bytes → LineWriter
put_all w [] = w
put_all w (b ∷ p) = put_all (put w b) p

put_all-append : (w : LineWriter) (p q : Bytes) → put_all w (p ++ q) ≡ put_all (put_all w p) q
unfolding put_all
put_all-append w [] q = refl
put_all-append w (b ∷ p) q = put_all-append (put w b) p q

fits_not_full : (n m : ℕ) → n + suc m ≤ max_line_len → (n == max_line_len) ≡ false
fits_not_full n m h = ground arith

nat_zero : (n : ℕ) → n + 0 ≡ n
nat_zero n = omega arith

nat_shift : (n m : ℕ) → n + 1 + m ≡ n + suc m
nat_shift n m = omega arith

-- A text that fits into the line is written as it is.
put_all-fits :
    (o : Bytes) (n : ℕ) (p : Bytes)
    → n + length p ≤ max_line_len
    → put_all (record { output = o; line_len = n }) p
      ≡ record { output = o ++ p; line_len = n + length p }
unfolding put_all put
put_all-fits o n [] h = rw (append-nil, nat_zero n) refl
put_all-fits o n (b ∷ p) h =
    let ih = put_all-fits (o ++ b ∷ []) (n + 1) p (omega arith) in
    let full = fits_not_full n (length p) h in
    rw (full, ih, append_assoc o (b ∷ []) p, nat_shift n (length p)) refl

put_all-full :
    (o : Bytes) (p : Bytes)
    → 0 < length p
    → put_all (record { output = o; line_len = max_line_len }) p
      ≡ put_all (record { output = o ++ b'\r' ∷ b'\n' ∷ []; line_len = 0 }) p
unfolding put_all put
put_all-full o (b ∷ p) h = rw (append_assoc o (b'\r' ∷ b'\n' ∷ []) (b ∷ [])) refl
put_all-full o [] h = ground arith

-- A text that does not fit is cut where the line is full.
put_all-cut :
    (o : Bytes) (n : ℕ) (p : Bytes)
    → n ≤ max_line_len
    → max_line_len < length p + n
    → put_all (record { output = o; line_len = n }) p
      ≡ put_all
          (record { output = o ++ (take (max_line_len - n) p ++ b'\r' ∷ b'\n' ∷ []); line_len = 0 })
          (drop (max_line_len - n) p)
put_all-cut o n p h l =
    let k = max_line_len - n in
    let w : LineWriter = record { output = o; line_len = n } in
    let t = length-take k p in
    let d = length-drop k p in
    let full : n + length (take k p) ≡ max_line_len = omega arith in
    ap (put_all w) (sym (take-append-drop k p))
    ∙ put_all-append w (take k p) (drop k p)
    ∙ ap (λ v. put_all v (drop k p)) (put_all-fits o n (take k p) (omega arith))
    ∙ ap (λ m. put_all (record { output = o ++ take k p; line_len = m }) (drop k p)) full
    ∙ put_all-full (o ++ take k p) (drop k p) (omega arith)
    ∙ ap (λ v. put_all (record { output = v; line_len = 0 }) (drop k p))
        (append_assoc o (take k p) (b'\r' ∷ b'\n' ∷ []))

write_loop-put_all :
    (fuel : ℕ) (o : Bytes) (n : ℕ) (p : Bytes)
    → n ≤ max_line_len
    → length p + (if n == max_line_len then 2 else 1) ≤ fuel
    → write_loop fuel (record { output = o; line_len = n }) p
      ≡ put_all (record { output = o; line_len = n }) p
unfolding write_loop
write_loop-put_all zero o n p h f = ground arith
write_loop-put_all (suc fuel) o n p h f =
    if_cases (λ w. w ≡ put_all (record { output = o; line_len = n }) p)
      (ltb max_line_len (length p + n)) _ _
      (λ q.
        write_loop-put_all fuel _ 0 (drop (max_line_len - n) p) (omega arith)
          (let d = length-drop (max_line_len - n) p in ground arith)
        ∙ sym (put_all-cut o n p h (ltb→lt _ _ q)))
      (λ q. sym (put_all-fits o n p (ground arith)))

put_all-line_len :
    (w : LineWriter) (p : Bytes) → w.line_len ≤ max_line_len → (put_all w p).line_len ≤ max_line_len
unfolding put_all
put_all-line_len w [] h = h
put_all-line_len w (b ∷ p) h = put_all-line_len (put w b) p (unfold put in ground arith)

-- With at most 76 bytes on the line, `Write` puts the bytes one by one, each on the line if it has
-- fewer than 76, else on a new line.
pub write_bytes-put_all :
    (w : LineWriter) (p : Bytes) → w.line_len ≤ max_line_len → write_bytes w p ≡ put_all w p
unfolding write_bytes
write_bytes-put_all w p h = write_loop-put_all (length p + 2) w.output w.line_len p h (ground arith)

-- With at most 76 bytes on the line, two calls of `Write` do what one call on the joined text does.
pub write_bytes-append :
    (w : LineWriter) (p q : Bytes)
    → w.line_len ≤ max_line_len
    → write_bytes (write_bytes w p) q ≡ write_bytes w (p ++ q)
write_bytes-append w p q h = rw (write_bytes-put_all w p h) (
    write_bytes-put_all (put_all w p) q (put_all-line_len w p h)
    ∙ sym (put_all-append w p q)
    ∙ sym (write_bytes-put_all w (p ++ q) h))

-- `Write` keeps the line within 76 bytes, if it starts within them.
pub write_bytes-line_len :
    (w : LineWriter) (p : Bytes)
    → w.line_len ≤ max_line_len
    → (write_bytes w p).line_len ≤ max_line_len
write_bytes-line_len w p h = rw (write_bytes-put_all w p h) (put_all-line_len w p h)
