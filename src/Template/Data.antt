-- ===== src/Template/Data.antt =====
-- The data of templates, and `mergeData` of email/emailtemplate/template.go.
use blocky_cloud.Prelude.{
  ℕ, List, [], ◌∷◌, Option, none, some, ◌≡◌, refl, sym, ap, ◌∙◌, Bool-cases, inl, inr,
}
use blocky_cloud.Text.{same, same-eq, get, put, get-put}
use blocky_cloud.Address.Utf8.{Bytes}

-- What an operation on templates ends in; `panics` is a value that gob cannot copy.
pub data Failure : Type 0 where
  not_found : Failure
  already_exists : Failure
  parse_failed : Failure
  render_failed : Failure
  panics : Failure

pub data Result (A : Type 0) : Type 0 where
  err : Failure → Result A
  ok : A → Result A

infixl 5 ◌>>=◌
abbrev pub ◌>>=◌ : {A B : Type 0} → Result A → (A → Result B) → Result B
err failure >>= next = err failure
ok a >>= next = next a

-- A chain that succeeds does so at its first step.
pub ok->>= :
    {A B : Type 0} (first : Result A) (next : A → Result B) (b : B)
    → (first >>= next) ≡ ok b
    → (a : A) × (first ≡ ok a) × (next a ≡ ok b)
ok->>= (err e) next b h = cc
ok->>= (ok a) next b h = (a, refl, h)

-- A value of the data, of type `any` in the code: an int, or a value of another type by its name.
pub data Value : Type 0 where
  int : ℕ → Value
  other : Bytes → Value

-- `map[string]any`; `none` is the nil map.
abbrev pub Map : Type 0
Map = List (Bytes × Value)

abbrev pub Data : Type 0
Data = Option Map

-- The loop `for k, v := range override { out[k] = v }`.
unfoldable pub put_all : Map → Map → Map
put_all out [] = out
put_all out ((k, v) ∷ m) = put_all (put out k v) m

-- `copy` is the encoding by gob and its decoding, `none` where they panic.
module _ (copy : Map → Option Map) where
  abbrev copied : Option Map → Result Map
  copied none = err panics
  copied (some m) = ok m

  -- `deepCopyMap` of a map that is not nil.
  unfoldable pub deep_copy_map : Map → Result Map
  deep_copy_map m = copied (copy m)

  unfoldable pub merge_data : Data → Data → Result Map
  merge_data none none = ok []
  merge_data (some base) none = deep_copy_map base
  merge_data none (some override) = ok override
  merge_data (some base) (some override) =
      deep_copy_map base >>= λ bc. ok (put_all (put_all [] bc) override)

-- The value of a key in data that may be nil.
abbrev pub value : Data → Bytes → Option Value
value none k = none
value (some m) k = get m k

abbrev pub or_else : Option Value → Option Value → Option Value
or_else (some v) w = some v
or_else none w = w

-- In a Go map no two entries have the same key; here the last one would count.
pub data IsMap : Map → Type 0 where
  nil : IsMap []
  entry : (k : Bytes) (v : Value) {m : Map} → get m k ≡ none → IsMap m → IsMap ((k, v) ∷ m)

get-put_all :
    (out m : Map) (k : Bytes) → IsMap m → get (put_all out m) k ≡ or_else (get m k) (get out k)
unfolding put_all get
get-put_all out [] k nil = refl
get-put_all out ((f, v) ∷ m) k (entry _ _ fresh w) = elim (Bool-cases (same f k)) [
  | inl q ↦
      let none_left = ap (get m) (sym (same-eq f k q)) ∙ fresh in
      rw (q, get-put_all (put out f v) m k w, none_left, get-put out f v k) (rw q refl)
  | inr q ↦ rw (q, get-put_all (put out f v) m k w, get-put out f v k) (rw q refl)
]

or_else-none : (v : Option Value) → or_else v none ≡ v
or_else-none none = refl
or_else-none (some v) = refl

abbrev pub IsData : Data → Type 0
IsData none = Unit {0}
IsData (some m) = IsMap m

abbrev pub some_data : Option Map → Option Data
some_data none = none
some_data (some m) = some (some m)

-- What gob makes of data: nil is not copied, and `none` is a panic.
abbrev pub data_copy : (Map → Option Map) → Data → Option Data
data_copy copy none = some none
data_copy copy (some m) = some_data (copy m)

-- The merge of data with an override; there is no data where it could not be copied.
abbrev pub Merges : Option Data → Data → Result Map → Type 0
Merges none override r = r ≡ err panics
Merges (some base) override r =
    (m : Map) × (r ≡ ok m) × ((k : Bytes) → get m k ≡ or_else (value override k) (value base k))

merged_value :
    (b o : Map)
    → IsMap b
    → IsMap o
    → (k : Bytes) → get (put_all (put_all [] b) o) k ≡ or_else (get o k) (get b k)
merged_value b o p q k =
    get-put_all (put_all [] b) o k q
    ∙ ap (or_else (get o k)) (get-put_all [] b k p ∙ unfold get in or_else-none (get b k))

copied-Merges :
    (copy : Map → Option Map) (r : Option Map) → Merges (some_data r) none (copied copy r)
copied-Merges copy none = refl
copied-Merges copy (some c) = (c, refl, λ k. refl)

copied_then-Merges :
    (copy : Map → Option Map) (o : Map) (r : Option Map)
    → ((c : Map) → r ≡ some c → IsMap c)
    → IsMap o
    → Merges (some_data r) (some o) (copied copy r >>= λ c. ok (put_all (put_all [] c) o))
copied_then-Merges copy o none p q = refl
copied_then-Merges copy o (some c) p q =
    (put_all (put_all [] c) o, refl, merged_value c o (p c refl) q)

module _ (copy : Map → Option Map) (maps : (m c : Map) → copy m ≡ some c → IsMap m → IsMap c) where
  -- Merging panics where gob cannot copy the map of `base`. Else it succeeds, and every key has the value of
  -- `override`, if it has one there, and else that of the copy.
  pub merge_data-value :
      (base override : Data)
      → IsData base
      → IsData override
      → Merges (data_copy copy base) override (merge_data copy base override)
  unfolding merge_data deep_copy_map
  merge_data-value none none p q = ([], refl, λ k. unfold get in refl)
  merge_data-value none (some o) p q = (o, refl, λ k. sym (or_else-none (get o k)))
  merge_data-value (some b) none p q = copied-Merges copy (copy b)
  merge_data-value (some b) (some o) p q =
      copied_then-Merges copy o (copy b) (λ c e. maps b c e p) q
