-- ===== src/Smtp/HeaderText.antt =====
-- Header fields read back, once unfolded: `writeHeader` of email/smtpemail/writer.go.
use blocky_cloud.Prelude.{
  ℕ, ◌-◌, Bool, true, false, List, [], ◌∷◌, ◌++◌, ltb, if◌then◌else◌, length, ◌≡◌, refl, sym, ap,
  ◌∙◌, append_assoc, All, Bool-cases, inl, inr,
}
use blocky_cloud.Text.{codes}
use blocky_cloud.Address.Utf8.{Bytes}
use blocky_cloud.Smtp.Fold.{write_folded, separator, write_values, write_header}
use blocky_cloud.Smtp.Unfolded.{
  unfolded, IsText, unfolded-text, unfolded-append, space-IsText, unfolded-break,
  write_folded-reads,
}
use blocky_cloud.Smtp.Broken.{ReadsAs, write_folded-ReadsAs}

-- What stands before a value: nothing or a space before the first, a comma and a space before others.
abbrev pub lead : Bool → ℕ → Bytes
lead true room = if ltb room 2 then b' ' ∷ [] else []
lead false room = codes ", "

comma-IsText : IsText b','
comma-IsText = record { no_return = refl; no_newline = refl }

separator-reads :
    (first : Bool) (room : ℕ) (t : Bytes)
    → unfolded ((separator first room).0 ++ t) ≡ lead first room ++ unfolded t
unfolding separator
separator-reads true room t = elim (Bool-cases (ltb room 2)) [
  | inl q ↦ rw q (unfolded-break t)
  | inr q ↦ rw q refl
]
separator-reads false room t = elim (Bool-cases (ltb room 2)) [
  | inl q ↦
      rw q (
        unfolded-text b',' (codes "\r\n " ++ t) comma-IsText
        ∙ ap (λ l. b',' ∷ l) (unfolded-break t))
  | inr q ↦ rw q (unfolded-append (codes ", ") t (comma-IsText, (space-IsText, tt)))
]

-- The values, each behind what stands before it.
abbrev pub joined : Bool → ℕ → List Bytes → Bytes
joined first room [] = []
joined first room (s ∷ vs) = lead first room ++ (s ++ joined false 0 vs)

-- The first of some values, where it and the rest read as they are to.
first-reads :
    (first : Bool) (room : ℕ) (s w : Bytes) (vs : List Bytes) (t : Bytes)
    → let b = separator first room in
      ((u : Bytes) → unfolded ((write_folded s b.1).0 ++ u) ≡ w ++ unfolded u)
      → unfolded (write_values false (write_folded s b.1).1 vs ++ t)
        ≡ joined false 0 vs ++ unfolded t
      → unfolded (write_values first room (s ∷ vs) ++ t) ≡ joined first room (w ∷ vs) ++ unfolded t
unfolding write_values
first-reads first room s w vs t h k =
    let b = separator first room in
    let f = write_folded s b.1 in
    let rest = write_values false f.1 vs in
    ap unfolded (append_assoc b.0 (f.0 ++ rest) t ∙ ap (λ l. b.0 ++ l) (append_assoc f.0 rest t))
    ∙ separator-reads first room (f.0 ++ (rest ++ t))
    ∙ ap (λ l. lead first room ++ l)
        (h (rest ++ t) ∙ ap (λ l. w ++ l) k ∙ sym (append_assoc w (joined false 0 vs) (unfolded t)))
    ∙ sym (append_assoc (lead first room) (w ++ joined false 0 vs) (unfolded t))

write_values-reads :
    (room : ℕ) (vs : List Bytes) (t : Bytes)
    → All (All IsText) vs
    → unfolded (write_values false room vs ++ t) ≡ joined false 0 vs ++ unfolded t
unfolding write_values
write_values-reads room [] t p = refl
write_values-reads room (s ∷ vs) t (h, p) =
    let b = separator false room in
    first-reads false room s s vs t (λ u. write_folded-reads s b.1 u h)
      (write_values-reads (write_folded s b.1).1 vs t p)

colon-IsText : All IsText (codes ": ")
colon-IsText = (record { no_return = refl; no_newline = refl }, (space-IsText, tt))

end_of_line : unfolded (codes "\r\n") ≡ codes "\r\n"
unfolding unfolded
end_of_line = refl

-- A header field with a value or more unfolds to its key, a colon, a space and its values with commas
-- between them, where no byte of the key and of the values ends a line. The first value may also be two such
-- texts with a line break and a space between them, as in the Content-Type of a multipart, if the first text
-- fits its line and the other is shorter than 75 bytes: it then reads as both with the space between them. A
-- key of 74 bytes or more gets one more space.
pub write_header-unfolded :
    (k v w : Bytes) (vs : List Bytes)
    → All IsText k
    → ReadsAs (separator true (75 - length k)).1 v w
    → All (All IsText) vs
    → unfolded (write_header k (v ∷ vs))
      ≡ k ++ (codes ": " ++ (joined true (75 - length k) (w ∷ vs) ++ codes "\r\n"))
unfolding write_header
write_header-unfolded k v w vs p q ps =
    let room = 75 - length k in
    let b = separator true room in
    unfolded-append k _ p
    ∙ ap (λ l. k ++ l)
        (unfolded-append (codes ": ") _ colon-IsText
          ∙ ap (λ l. codes ": " ++ l)
              (first-reads true room v w vs (codes "\r\n") (λ u. write_folded-ReadsAs b.1 v w u q)
                  (write_values-reads (write_folded v b.1).1 vs (codes "\r\n") ps)
                ∙ ap (λ l. joined true room (w ∷ vs) ++ l) end_of_line))
