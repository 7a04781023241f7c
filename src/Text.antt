-- ===== src/Text.antt =====
-- Go's strings as lists of bytes: literals, equality, and dictionaries with such keys.
use Prim.Native.Char.{code}
use Prim.Native.String.{String}
use blocky_cloud.Prelude.{
  ◌+◌, Bool, true, false, ◌&&◌, List, [], ◌∷◌, Option, none, some, leb, ◌==◌, if◌then◌else◌, ◌≡◌,
  refl, sym, ap, ◌∙◌, arith, Bool-cases, inl, inr,
}
use blocky_cloud.Address.Utf8.{Bytes}

-- The bytes of an ASCII literal.
abbrev pub codes : String → Bytes
codes String.[] = []
codes (String.◌∷◌ c s) = code c ∷ codes s

-- Equality of strings.
unfoldable pub same : Bytes → Bytes → Bool
same [] [] = true
same (a ∷ s) (b ∷ t) = a == b && same s t
same _ _ = false

pub same-eq : (s t : Bytes) → same s t ≡ true → s ≡ t
unfolding same
same-eq [] [] h = refl
same-eq (a ∷ s) (b ∷ t) h = ground (arith, same-eq s t)
same-eq [] (b ∷ t) h = ground arith
same-eq (a ∷ s) [] h = ground arith

pub same_refl : (s : Bytes) → same s s ≡ true
unfolding same
same_refl [] = refl
same_refl (a ∷ s) = ground (arith, same_refl s)

pub same_sym : (s t : Bytes) → same s t ≡ same t s
unfolding same
same_sym [] [] = refl
same_sym (a ∷ s) (b ∷ t) = ground (arith, same_sym s t)
same_sym [] (b ∷ t) = refl
same_sym (a ∷ s) [] = refl

-- `strings.ToLower` on ASCII letters.
unfoldable pub to_lower : Bytes → Bytes
to_lower [] = []
to_lower (b ∷ s) = (if leb b'A' b && leb b b'Z' then b + 32 else b) ∷ to_lower s

module _ {ℓ} {A : Type ℓ} where
  -- A map from strings: `m[k]`, and `m[k] = a`.
  unfoldable pub get : List (Bytes × A) → Bytes → Option A
  get [] k = none
  get ((f, v) ∷ m) k = let rest = get m k in if same f k then some v else rest

  unfoldable pub put : List (Bytes × A) → Bytes → A → List (Bytes × A)
  put [] k a = (k, a) ∷ []
  put ((f, v) ∷ m) k a = let rest = (f, v) ∷ put m k a in if same f k then (k, a) ∷ m else rest

  pub get-put :
      (m : List (Bytes × A)) (k : Bytes) (a : A) (k' : Bytes)
      → get (put m k a) k' ≡ (if same k k' then some a else get m k')
  unfolding get put
  get-put [] k a k' = refl
  get-put ((f, v) ∷ m) k a k' = elim (Bool-cases (same f k)) [
    | inl q ↦ elim (Bool-cases (same k k')) [
      | inl r ↦ rw (q, r) refl
      | inr r ↦ rw (q, r, ap (λ x. same x k') (same-eq f k q) ∙ r) refl
    ]
    | inr q ↦ elim (Bool-cases (same f k')) [
      | inl r ↦
          let n : same k k' ≡ false = ap (same k) (sym (same-eq f k' r)) ∙ same_sym k f ∙ q in
          rw (q, n, r) refl
      | inr r ↦ rw (q, r) (get-put m k a k')
    ]
  ]
