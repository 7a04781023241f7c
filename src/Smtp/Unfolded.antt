-- ===== src/Smtp/Unfolded.antt =====
-- Folded headers read as what was to be written: `writeHeader` of email/smtpemail/writer.go.
use blocky_cloud.Prelude.{
  ℕ, zero, suc, ◌+◌, ◌-◌, ◌≤◌, ◌<◌, false, ◌&&◌, [], ◌∷◌, ◌++◌, Option, none, some, leb, ◌==◌,
  if◌then◌else◌, if_cases, length, take, drop, ◌≡◌, refl, sym, ap, ◌∙◌, arith, append_assoc,
  take-append-drop, length-append, ==_iff, All, All-append, All-drop, Bool-cases, inl, inr,
  length-drop,
}
use mathlib.Core.Path.{subst}
use blocky_cloud.Text.{codes}
use blocky_cloud.Address.Utf8.{Bytes}
use blocky_cloud.Smtp.Fold.{
  byte_at, index_byte, last_index_byte, later_break, break_at_space, write_line, behind_line,
  fold_loop, write_folded,
}

-- The unfolding of RFC 5322: a line break before a space is taken out.
unfoldable pub unfolded : Bytes → Bytes
unfolded [] = []
unfolded (a ∷ []) = a ∷ []
unfolded (a ∷ b ∷ []) = a ∷ b ∷ []
unfolded (a ∷ b ∷ c ∷ s) =
    let next = unfolded (b ∷ c ∷ s) in
    let rest = unfolded (c ∷ s) in
    if (a == b'\r') && (b == b'\n') && (c == b' ') then rest else a ∷ next

-- A byte that ends no line.
pub record IsText (b : ℕ) : Type 0 where
  pub no_return : (b == b'\r') ≡ false
  pub no_newline : (b == b'\n') ≡ false

pub unfolded-text : (a : ℕ) (t : Bytes) → IsText a → unfolded (a ∷ t) ≡ a ∷ unfolded t
unfolding unfolded
unfolded-text a [] h = refl
unfolded-text a (b ∷ []) h = refl
unfolded-text a (b ∷ c ∷ t) h = rw (h.no_return) refl

pub unfolded-append : (s t : Bytes) → All IsText s → unfolded (s ++ t) ≡ s ++ unfolded t
unfolded-append [] t p = refl
unfolded-append (a ∷ s) t (h, p) =
    unfolded-text a (s ++ t) h ∙ ap (λ l. a ∷ l) (unfolded-append s t p)

pub space-IsText : IsText b' '
space-IsText = record { no_return = refl; no_newline = refl }

pub unfolded-break : (t : Bytes) → unfolded (codes "\r\n " ++ t) ≡ b' ' ∷ unfolded t
unfolding unfolded
unfolded-break t = unfolded-text b' ' t space-IsText

index_byte-IsText : (s : Bytes) → All IsText s → index_byte s b'\n' ≡ none
unfolding index_byte
index_byte-IsText [] p = refl
index_byte-IsText (b ∷ s) (h, p) = rw (h.no_newline, index_byte-IsText s p) refl

-- What was written stands for a part of `s`, and the rest is the remainder, which is shorter.
record IsCut (s : Bytes) (r : Bytes × Bytes) : Type 0 where
  line : Bytes
  reads : (t : Bytes) → unfolded (r.0 ++ t) ≡ line ++ unfolded t
  whole : line ++ r.1 ≡ s
  rest_text : All IsText r.1
  shorter : length r.1 ≤ length s - 1

-- A text, then a break in place of a space.
reads_break :
    (before t : Bytes)
    → All IsText before
    → unfolded ((before ++ codes "\r\n ") ++ t) ≡ (before ++ b' ' ∷ []) ++ unfolded t
reads_break before t p =
    ap unfolded (append_assoc before (codes "\r\n ") t)
    ∙ unfolded-append before (codes "\r\n " ++ t) p
    ∙ ap (λ l. before ++ l) (unfolded-break t)
    ∙ sym (append_assoc before (b' ' ∷ []) (unfolded t))

later_break-IsCut :
    (before s : Bytes)
    → All IsText before
    → All IsText s
    → IsCut (before ++ s) (later_break before s)
unfolding later_break
later_break-IsCut before [] p q = record {
  line = before;
  reads = λ t. unfolded-append before t p;
  whole = refl;
  rest_text = tt;
  shorter = omega arith;
}
later_break-IsCut before (b ∷ s) p (h, q) = elim (Bool-cases (b == b' ')) [
  | inl e ↦ rw e (record {
    line = before ++ b' ' ∷ [];
    reads = λ t. reads_break before t p;
    whole =
        append_assoc before (b' ' ∷ []) s ∙ ap (λ c. before ++ c ∷ s) (sym ((==_iff b b' ').0 e));
    rest_text = q;
    shorter = omega (arith, length-append before (b ∷ s));
  })
  | inr e ↦
      rw (e, h.no_newline)
        (subst (λ w. IsCut w (later_break (before ++ b ∷ []) s)) (append_assoc before (b ∷ []) s)
          (later_break-IsCut (before ++ b ∷ []) s (All-append IsText before (b ∷ []) p (h, tt)) q))
]

last_index_byte_lem : (s : Bytes) (b n i : ℕ) → last_index_byte s b n ≡ some i → byte_at s i ≡ b
unfolding last_index_byte
last_index_byte_lem s b zero i h = cc
last_index_byte_lem s b (suc n) i h = ground (arith, last_index_byte_lem s b n i)

cut_at : (s : Bytes) (i : ℕ) → byte_at s i ≡ b' ' → take i s ++ b' ' ∷ drop (suc i) s ≡ s
cut_at [] i h = ground arith
cut_at (b ∷ s) zero h = ap (λ c. c ∷ s) (sym h)
cut_at (b ∷ s) (suc i) h = ap (λ l. b ∷ l) (cut_at s i h)

All-take : (s : Bytes) (i : ℕ) → All IsText s → All IsText (take i s)
All-take s zero p = tt
All-take [] (suc i) p = tt
All-take (b ∷ s) (suc i) (h, p) = (h, All-take s i p)

break_at_space-IsCut :
    (s : Bytes) (left : ℕ) (o : Option ℕ)
    → last_index_byte s b' ' left ≡ o
    → All IsText s
    → IsCut s (break_at_space s o)
break_at_space-IsCut s left none e p =
    subst (λ w. IsCut w (later_break (take 75 s) (drop 75 s))) (take-append-drop 75 s)
      (later_break-IsCut (take 75 s) (drop 75 s) (All-take s 75 p) (All-drop IsText 75 s p))
break_at_space-IsCut s left (some i) e p = record {
  line = take i s ++ b' ' ∷ [];
  reads = λ t. reads_break (take i s) t (All-take s i p);
  whole =
      append_assoc (take i s) (b' ' ∷ []) (drop (suc i) s)
      ∙ cut_at s i (last_index_byte_lem s b' ' left i e);
  rest_text = All-drop IsText (suc i) s p;
  shorter = omega (arith, length-drop (suc i) s);
}

write_line-IsCut : (s : Bytes) (left : ℕ) → All IsText s → IsCut s (write_line s left)
unfolding write_line
write_line-IsCut s left p = rw (index_byte-IsText s p) (break_at_space-IsCut s left _ refl p)

-- The same of the whole loop, where the rest fits.
record IsFolded (s : Bytes) (r : Bytes × Bytes × ℕ) : Type 0 where
  line : Bytes
  reads : (t : Bytes) → unfolded (r.0 ++ t) ≡ line ++ unfolded t
  whole : line ++ r.1 ≡ s
  rest_text : All IsText r.1
  fits : length r.1 < r.2

IsFolded-behind :
    (s : Bytes) (r : Bytes × Bytes) (f : Bytes × Bytes × ℕ)
    → IsCut s r
    → IsFolded r.1 f
    → IsFolded s (behind_line r.0 f)
IsFolded-behind s r f c g = record {
  line = c.line ++ g.line;
  reads = λ t.
      ap unfolded (append_assoc r.0 f.0 t)
      ∙ c.reads (f.0 ++ t)
      ∙ ap (λ l. c.line ++ l) (g.reads t)
      ∙ sym (append_assoc c.line g.line (unfolded t));
  whole = append_assoc c.line g.line f.1 ∙ ap (λ l. c.line ++ l) (g.whole) ∙ c.whole;
  rest_text = g.rest_text;
  fits = g.fits;
}

fold_loop-IsFolded :
    (fuel : ℕ) (s : Bytes) (room : ℕ)
    → All IsText s
    → length s + (if room == 0 then 2 else 1) ≤ fuel
    → IsFolded s (fold_loop fuel s room)
unfolding fold_loop
fold_loop-IsFolded zero s room p f = ground arith
fold_loop-IsFolded (suc fuel) s room p f =
    if_cases (IsFolded s) (leb room (length s)) _ _
      (λ q.
        let c = write_line-IsCut s (room - 1) p in
        IsFolded-behind s _ _ c (
          fold_loop-IsFolded fuel (write_line s (room - 1)).1 76 c.rest_text
            (let d = c.shorter in ground arith)))
      (λ q. record {
        line = [];
        reads = λ t. refl;
        whole = refl;
        rest_text = p;
        fits = ground arith;
      })

pub write_folded-reads :
    (s : Bytes) (room : ℕ) (t : Bytes)
    → All IsText s
    → unfolded ((write_folded s room).0 ++ t) ≡ s ++ unfolded t
unfolding write_folded
write_folded-reads s room t p =
    let r = fold_loop (length s + 2) s room in
    let g = fold_loop-IsFolded (length s + 2) s room p (ground arith) in
    ap unfolded (append_assoc r.0 r.1 t)
    ∙ g.reads (r.1 ++ t)
    ∙ ap (λ l. g.line ++ l) (unfolded-append r.1 t g.rest_text)
    ∙ sym (append_assoc g.line r.1 (unfolded t))
    ∙ ap (λ l. l ++ unfolded t) g.whole
