-- ===== src/Smtp/Broken.antt =====
-- A value that has a line break of its own, as `openMultipart` of email/smtpemail/writer.go writes one, and
-- what `writeHeader` makes of it.
use blocky_cloud.Prelude.{
  Bool, not, ◌&&◌, ◌==◌, All-append, ℕ, suc, ◌+◌, ◌-◌, ◌≤◌, ◌<◌, true, false, [], ◌∷◌, ◌++◌, some,
  ltb, leb, length, take, drop, ◌≡◌, refl, sym, ap, ◌∙◌, arith, append_assoc, append-nil, if_cases,
  All,
}
use blocky_cloud.Text.{codes}
use blocky_cloud.Address.Utf8.{Bytes}
use blocky_cloud.Smtp.Fold.{index_byte, write_line, behind_line, fold_loop, write_folded}
use blocky_cloud.Smtp.Multipart.{Kind, mixed, related, alternative, kind_name, content_type_of}
use blocky_cloud.Smtp.Unfolded.{
  unfolded, IsText, unfolded-append, unfolded-break, write_folded-reads,
}

-- How a value is to be read: as it is where no byte of it ends a line, and as one line where two such texts
-- stand in it with a break between them that leaves each on a line of its own.
pub data ReadsAs (room : ℕ) : Bytes → Bytes → Type 0 where
  text : (v : Bytes) → All IsText v → ReadsAs room v v
  broken :
      (a b : Bytes)
      → All IsText a
      → All IsText b
      → length a + 3 ≤ room
      → length b < 75
      → ReadsAs room (a ++ (codes "\r\n " ++ b)) (a ++ b' ' ∷ b)

index_byte-break :
    (a b : Bytes) → All IsText a → index_byte (a ++ b'\r' ∷ b'\n' ∷ b) b'\n' ≡ some (suc (length a))
unfolding index_byte
index_byte-break [] b p = refl
index_byte-break (c ∷ a) b (h, p) = rw (h.no_newline, index_byte-break a b p) refl

take-break :
    (a b : Bytes) → take (suc (suc (length a))) (a ++ b'\r' ∷ b'\n' ∷ b) ≡ a ++ codes "\r\n"
take-break [] b = refl
take-break (c ∷ a) b = ap (λ l. c ∷ l) (take-break a b)

drop-break : (a b : Bytes) → drop (suc (suc (length a))) (a ++ b'\r' ∷ b'\n' ∷ b) ≡ b
drop-break [] b = refl
drop-break (c ∷ a) b = drop-break a b

write_line-break :
    (a b : Bytes) (left : ℕ)
    → All IsText a
    → length a + 1 < left
    → write_line (a ++ b'\r' ∷ b'\n' ∷ b) left ≡ (a ++ codes "\r\n", b)
unfolding write_line
write_line-break a b left p h =
    let early : ltb (suc (length a)) left ≡ true = ground arith in
    rw (index_byte-break a b p) (rw early (λ i. (take-break a b i, drop-break a b i)))

short_fits :
    (fuel : ℕ) (s : Bytes) (room : ℕ)
    → length s < room
    → fold_loop (suc fuel) s room ≡ ([], s, room)
unfolding fold_loop
short_fits fuel s room h = let f : leb room (length s) ≡ false = ground arith in rw f refl

-- What the loop has written, and the rest that fits.
abbrev all_of : Bytes × Bytes × ℕ → Bytes
all_of r = r.0 ++ r.1

loop_broken :
    (n : ℕ) (a b : Bytes) (room : ℕ)
    → All IsText a
    → length a + 3 ≤ room
    → length b < 75
    → all_of (fold_loop (suc (suc n)) (a ++ (codes "\r\n " ++ b)) room) ≡ a ++ (codes "\r\n " ++ b)
unfolding fold_loop
loop_broken n a b room p h k =
    let s = a ++ (codes "\r\n " ++ b) in
    let rest = short_fits n (b' ' ∷ b) 76 (omega (arith, k)) in
    if_cases (λ r. all_of r ≡ s) (leb room (length s)) _ _
      (λ q.
        ap (λ l. all_of (behind_line l.0 (fold_loop (suc n) l.1 76)))
          (write_line-break a (b' ' ∷ b) (room - 1) p (omega (arith, h)))
        ∙ ap (λ r. all_of (behind_line (a ++ codes "\r\n") r)) rest
        ∙ ap (λ l. l ++ b' ' ∷ b) (append-nil (a ++ codes "\r\n"))
        ∙ append_assoc a (codes "\r\n") (b' ' ∷ b))
      (λ q. refl)

broken_written :
    (a b : Bytes) (room : ℕ)
    → All IsText a
    → length a + 3 ≤ room
    → length b < 75
    → (write_folded (a ++ (codes "\r\n " ++ b)) room).0 ≡ a ++ (codes "\r\n " ++ b)
unfolding write_folded
broken_written a b room p h k =
    let s = a ++ (codes "\r\n " ++ b) in
    let e : length s + 2 ≡ suc (suc (length s)) = omega arith in
    ap (λ n. all_of (fold_loop n s room)) e ∙ loop_broken (length s) a b room p h k

reads_broken :
    (a b t : Bytes)
    → All IsText a
    → All IsText b
    → unfolded ((a ++ (codes "\r\n " ++ b)) ++ t) ≡ (a ++ b' ' ∷ b) ++ unfolded t
reads_broken a b t p q =
    ap unfolded (append_assoc a (codes "\r\n " ++ b) t)
    ∙ unfolded-append a (codes "\r\n " ++ (b ++ t)) p
    ∙ ap (λ l. a ++ l) (unfolded-break (b ++ t) ∙ ap (λ l. b' ' ∷ l) (unfolded-append b t q))
    ∙ sym (append_assoc a (b' ' ∷ b) (unfolded t))

pub write_folded-ReadsAs :
    (room : ℕ) (v w t : Bytes)
    → ReadsAs room v w
    → unfolded ((write_folded v room).0 ++ t) ≡ w ++ unfolded t
write_folded-ReadsAs room v w t (text _ p) = write_folded-reads v room t p
write_folded-ReadsAs room _ _ t (broken a b p q h k) =
    ap (λ l. unfolded (l ++ t)) (broken_written a b room p h k) ∙ reads_broken a b t p q

abbrev pub is_text : Bytes → Bool
is_text [] = true
is_text (b ∷ s) = not (b == b'\r') && (not (b == b'\n') && is_text s)

pub is_text-IsText : (s : Bytes) → is_text s ≡ true → All IsText s
is_text-IsText [] h = tt
is_text-IsText (b ∷ s) h = (
  record { no_return = ground arith; no_newline = ground arith },
  is_text-IsText s (ground arith),
)

with_boundary :
    (a b : Bytes)
    → is_text a ≡ true
    → length a ≤ 60
    → All IsText b
    → length b < 65
    → ReadsAs 63
        (a ++ (codes "\r\n " ++ (codes "boundary=" ++ b)))
        (a ++ b' ' ∷ (codes "boundary=" ++ b))
with_boundary a b t h p k =
    broken a (codes "boundary=" ++ b) (is_text-IsText a t)
      (All-append IsText (codes "boundary=") b (is_text-IsText (codes "boundary=") refl) p)
      (omega (arith, h)) (omega (arith, k))

-- The value that `openMultipart` gives for each kind, with a boundary of at most 64 bytes; those of a
-- multipart writer have 60.
content_type_of-ReadsAs :
    (boundary : Kind → Bytes) (k : Kind)
    → All IsText (boundary k)
    → length (boundary k) < 65
    → ReadsAs 63
        (content_type_of boundary k)
        (codes "multipart/" ++ (kind_name k ++ (codes "; boundary=" ++ boundary k)))
unfolding content_type_of
content_type_of-ReadsAs boundary mixed p h =
    with_boundary (codes "multipart/mixed;") (boundary mixed) refl (omega arith) p h
content_type_of-ReadsAs boundary related p h =
    with_boundary (codes "multipart/related;") (boundary related) refl (omega arith) p h
content_type_of-ReadsAs boundary alternative p h =
    with_boundary (codes "multipart/alternative;") (boundary alternative) refl (omega arith) p h
