-- ===== src/Smtp/QueryOrder.antt =====
-- The order of a URL's query does not matter: `u.Query()` of email/smtpemail/urls.go is a Go map, whose
-- iteration has no order.
use mathlib.Core.List.{Permᴰ}
use blocky_cloud.Prelude.{
  ℤ, ℕ, ◌≤◌, Bool, List, [], ◌∷◌, Option, none, some, ◌==◌, ◌&&◌, ltb, if◌then◌else◌, ◌≡◌, refl,
  sym, ap, ◌∙◌, arith, sum_by,
}
use blocky_cloud.Address.Utf8.{Bytes}
use blocky_cloud.Smtp.SenderUrl.{
  Settings, Parameter, encoding_key, max_batch_size_key, max_handlers_key, charset_key,
  delivery_topic_key, unknown_key, Query, ParsedQuery, ok, err, parameter_of, set_parameter,
  set_values, then_parse, parse_query,
}

abbrev pub tag : Parameter → ℕ
tag encoding_key = 0
tag max_batch_size_key = 1
tag max_handlers_key = 2
tag charset_key = 3
tag delivery_topic_key = 4
tag unknown_key = 5

tag_small : (p : Parameter) → tag p ≤ 5
tag_small encoding_key = omega arith
tag_small max_batch_size_key = omega arith
tag_small max_handlers_key = omega arith
tag_small charset_key = omega arith
tag_small delivery_topic_key = omega arith
tag_small unknown_key = omega arith

-- What is parsed, without the parameter that an error names.
abbrev pub value : ParsedQuery Settings → Option Settings
value (ok s) = some s
value (err p) = none

module _ (to_lower : Bytes → Bytes) (parse_int : Bytes → Option ℤ) where
  set_parameter_comm :
      (p q : Parameter) (v w : Bytes) (s : Settings)
      → (tag p ≡ tag q → tag p ≡ 5)
      → value (
          then_parse
            (set_parameter to_lower parse_int p v s)
            (set_parameter to_lower parse_int q w))
        ≡ value (
            then_parse
              (set_parameter to_lower parse_int q w s)
              (set_parameter to_lower parse_int p v))
  unfolding set_parameter
  set_parameter_comm encoding_key encoding_key v w s n = absurd (omega (arith, n refl))
  set_parameter_comm max_batch_size_key max_batch_size_key v w s n = absurd (omega (arith, n refl))
  set_parameter_comm max_handlers_key max_handlers_key v w s n = absurd (omega (arith, n refl))
  set_parameter_comm charset_key charset_key v w s n = absurd (omega (arith, n refl))
  set_parameter_comm delivery_topic_key delivery_topic_key v w s n = absurd (omega (arith, n refl))
  set_parameter_comm unknown_key unknown_key v w s n = refl
  set_parameter_comm _ _ v w s n = ground arith

  set_values_comm :
      (p q : Parameter) (v w : List Bytes) (s : Settings)
      → (tag p ≡ tag q → tag p ≡ 5)
      → value (then_parse (set_values to_lower parse_int p v s) (set_values to_lower parse_int q w))
        ≡ value
            (then_parse (set_values to_lower parse_int q w s) (set_values to_lower parse_int p v))
  unfolding set_values
  set_values_comm p q (x ∷ []) (y ∷ []) s n = set_parameter_comm p q x y s n
  set_values_comm p q [] [] s n = refl
  set_values_comm p q [] (y ∷ []) s n = ground arith
  set_values_comm p q [] (y ∷ y' ∷ w) s n = refl
  set_values_comm p q (x ∷ x' ∷ v) [] s n = refl
  set_values_comm p q (x ∷ x' ∷ v) (y ∷ []) s n = ground arith
  set_values_comm p q (x ∷ x' ∷ v) (y ∷ y' ∷ w) s n = refl
  set_values_comm p q (x ∷ []) [] s n = ground arith
  set_values_comm p q (x ∷ []) (y ∷ y' ∷ w) s n = ground arith

  -- 1 for an entry that sets this parameter; there is nothing that an unknown one sets.
  abbrev pub sets : Bool → Parameter → Bytes × List Bytes → ℕ
  sets handlers p e =
      if (tag (parameter_of to_lower parse_int handlers e.0) == tag p) && ltb (tag p) 5
      then 1
      else 0

  abbrev pub count : Bool → Parameter → Query → ℕ
  count handlers p = sum_by (sets handlers p)

  count-perm :
      (handlers : Bool) (p : Parameter) {q r : Query}
      → Permᴰ q r
      → count handlers p q ≡ count handlers p r
  count-perm handlers p Permᴰ.nil = refl
  count-perm handlers p (Permᴰ.cons e h) =
      omega (arith, ap (sets handlers p) e, count-perm handlers p h)
  count-perm handlers p (Permᴰ.swap e f) =
      omega (arith, ap (sets handlers p) e, ap (sets handlers p) f)
  count-perm handlers p (Permᴰ.trans h k) = count-perm handlers p h ∙ count-perm handlers p k

same_bind :
    (m n : ParsedQuery Settings) (next : Settings → ParsedQuery Settings)
    → value m ≡ value n
    → value (then_parse m next) ≡ value (then_parse n next)
same_bind (ok s) (ok t) next h = let e : s ≡ t = cc in ap (λ u. value (next u)) e
same_bind (err p) (err q) next h = refl
same_bind (ok s) (err q) next h = cc
same_bind (err p) (ok t) next h = cc

same_next :
    (m : ParsedQuery Settings) (f g : Settings → ParsedQuery Settings)
    → ((s : Settings) → value (f s) ≡ value (g s))
    → value (then_parse m f) ≡ value (then_parse m g)
same_next (ok s) f g h = h s
same_next (err p) f g h = refl

then_assoc :
    (m : ParsedQuery Settings) (f g : Settings → ParsedQuery Settings)
    → then_parse m (λ s. then_parse (f s) g) ≡ then_parse (then_parse m f) g
then_assoc (ok s) f g = refl
then_assoc (err p) f g = refl

module _ (to_lower : Bytes → Bytes) (parse_int : Bytes → Option ℤ) (handlers : Bool) where
  parse : Query → Settings → Option Settings
  parse q s = value (parse_query to_lower parse_int handlers q s)

  abbrev entry : Bytes × List Bytes → Settings → ParsedQuery Settings
  entry e = set_values to_lower parse_int (parameter_of to_lower parse_int handlers e.0) e.1

  -- No known parameter is set twice.
  abbrev pub SetsOnce : Query → Type 0
  SetsOnce q = (p : Parameter) → count to_lower parse_int handlers p q ≤ 1

  differ :
      (a b : Bytes × List Bytes) (l : Query)
      → SetsOnce (a ∷ b ∷ l)
      → tag (parameter_of to_lower parse_int handlers a.0)
        ≡ tag (parameter_of to_lower parse_int handlers b.0)
      → tag (parameter_of to_lower parse_int handlers a.0) ≡ 5
  differ a b l once e =
      let p = parameter_of to_lower parse_int handlers b.0 in ground (arith, once p, tag_small p)

  swapped :
      (a b : Bytes × List Bytes) (l : Query) (s : Settings)
      → SetsOnce (a ∷ b ∷ l)
      → parse (a ∷ b ∷ l) s ≡ parse (b ∷ a ∷ l) s
  unfolding parse parse_query
  swapped (k, v) (j, w) l s once =
      let a : Bytes × List Bytes = (k, v) in
      let b : Bytes × List Bytes = (j, w) in
      let rest = parse_query to_lower parse_int handlers l in
      ap value (then_assoc (entry a s) (entry b) rest)
      ∙ same_bind (then_parse (entry a s) (entry b)) (then_parse (entry b s) (entry a)) rest (
          set_values_comm to_lower parse_int (parameter_of to_lower parse_int handlers k)
            (parameter_of to_lower parse_int handlers j) v w s (differ a b l once))
      ∙ ap value (sym (then_assoc (entry b s) (entry a) rest))

  parse-perm : {q r : Query} (s : Settings) → Permᴰ q r → SetsOnce q → parse q s ≡ parse r s
  unfolding parse parse_query
  parse-perm s Permᴰ.nil once = refl
  parse-perm s (Permᴰ.cons {a = a} {b = b} {l₁ = l} {l₂ = m} e h) once =
      ap (λ c. value (then_parse (entry c s) (parse_query to_lower parse_int handlers l))) e
      ∙ same_next (entry b s) _ _ (λ t. parse-perm t h (λ p. omega (arith, once p)))
  parse-perm s (Permᴰ.swap {a = a} {b = b} {a' = a'} {b' = b'} {l = l} e f) once =
      swapped a b l s once ∙ ap (λ c. parse (c ∷ a ∷ l) s) f ∙ ap (λ c. parse (a' ∷ c ∷ l) s) e
  parse-perm s (Permᴰ.trans h k) once =
      parse-perm s h once
      ∙ parse-perm s k (λ p. omega (arith, count-perm to_lower parse_int handlers p h, once p))

  -- Two orders of one query in which no known parameter is set twice are parsed to the same settings, or
  -- both refused.
  pub parse_query-perm :
      (q r : Query) (s : Settings)
      → Permᴰ q r
      → SetsOnce q
      → value (parse_query to_lower parse_int handlers q s)
        ≡ value (parse_query to_lower parse_int handlers r s)
  unfolding parse
  parse_query-perm q r s h once = parse-perm s h once
