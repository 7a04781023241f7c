-- ===== src/Address/Limits.antt =====
-- What the addresses that email/address.go accepts look like: the length limits of its constants,
-- and the dots of their domains.
use blocky_cloud.Prelude.{
  ℕ, zero, suc, ◌+◌, ◌≤◌, ◌≡◌, refl, Bool, true, false, not, ◌&&◌, List, [], ◌∷◌, ◌++◌, Option,
  none, some, ltb, if◌then◌else◌, length, arith, All, All-append, take, drop,
}
use blocky_cloud.Address.Utf8.{Bytes}
use blocky_cloud.Address.Lexer.{
  Error, Parsed, ok, err, consume, peeks, is_empty, skip_space, skip_cfws, consume_atom, atom_loop,
  cut_atom, check_dots, double_dotted, ends_dotted,
}
use blocky_cloud.Address.Spec.{
  consume_addr_spec, consume_at, finish_spec, check_lengths, refuse_empty, max_email_domain_length,
  max_email_local_length, max_email_length,
}
use blocky_cloud.Address.Phrase.{Decoding}
use blocky_cloud.Address.Parser.{
  Address, Count, all_atext, append_address, one, finish_addr_spec, finish_angle, finish_name,
  parse_address_with, finish_attempt, group_round, parse_mailbox, group_loop, consume_group_list,
  parse_address,
}
use blocky_cloud.Address.Entry.{
  Result, done, fail, finish_parse, only, skip_commas, parse_single, list_round, list_loop,
  parse_list,
}

-- Not empty, with no dot at either end and no two dots in a row.
pub record IsDotted (atom : Bytes) : Type 0 where
  pub filled : 1 ≤ length atom
  pub no_leading : peeks b'.' atom ≡ false
  pub no_double : double_dotted atom ≡ false
  pub no_trailing : ends_dotted atom ≡ false

-- A local part of 1 to 64 bytes, an '@', and a domain of 1 to 255 bytes.
pub record IsSpec (spec : Bytes) : Type 0 where
  pub local : Bytes
  pub domain : Bytes
  pub splits : spec ≡ local ++ (b'@' ∷ domain)
  pub local_filled : 1 ≤ length local
  pub local_short : length local ≤ 64
  pub domain_short : length domain ≤ 255
  pub domain_dotted : IsDotted domain

-- A property of what a parser returns, if it returns a value.
pub data Returns {ℓ κ} {A : Type ℓ} (P : A → Type κ) : Parsed A → Type (ℓ ⊔ κ) where
  returns : {a : A} {s : Bytes} → P a → Returns P (ok a s)
  fails : {e : Error} {s : Bytes} → Returns P (err e s)

-- A branch at a time.
Returns-if {ℓ κ} :
    {A : Type ℓ} {P : A → Type κ} (b : Bool) {x y : Parsed A}
    → (b ≡ true → Returns P x)
    → (b ≡ false → Returns P y)
    → Returns P (if b then x else y)
Returns-if true f g = f refl
Returns-if false f g = g refl

check_dots-IsDotted :
    (atom rest : Bytes) → 1 ≤ length atom → Returns IsDotted (check_dots atom rest)
unfolding check_dots
check_dots-IsDotted atom rest h =
    Returns-if (peeks b'.' atom) (λ _. fails)
      (λ first.
        Returns-if (double_dotted atom) (λ _. fails)
          (λ double.
            Returns-if (ends_dotted atom) (λ _. fails)
              (λ last. returns (record {
                filled = h;
                no_leading = first;
                no_double = double;
                no_trailing = last;
              }))))

cut_atom-IsDotted : (b : ℕ) (s : Bytes) (i : Option ℕ) → Returns IsDotted (cut_atom false (b ∷ s) i)
unfolding cut_atom
cut_atom-IsDotted b s none = fails
cut_atom-IsDotted b s (some zero) = fails
cut_atom-IsDotted b s (some (suc i)) = check_dots-IsDotted (b ∷ take i s) (drop i s) (omega arith)

consume_atom-IsDotted : (s : Bytes) → Returns IsDotted (consume_atom true false s)
unfolding consume_atom cut_atom atom_loop
consume_atom-IsDotted [] = fails
consume_atom-IsDotted (b ∷ s) = cut_atom-IsDotted b s _

check_lengths-IsSpec :
    (orig local domain rest : Bytes)
    → 1 ≤ length local
    → IsDotted domain
    → Returns IsSpec (check_lengths orig local domain rest)
unfolding check_lengths
check_lengths-IsSpec orig local domain rest h d =
    Returns-if (ltb max_email_domain_length (length domain)) (λ _. fails)
      (λ domain_ok.
        Returns-if (ltb max_email_local_length (length local)) (λ _. fails)
          (λ local_ok.
            Returns-if (ltb max_email_length (length (local ++ (b'@' ∷ domain)))) (λ _. fails)
              (λ _. returns (record {
                local = local;
                domain = domain;
                splits = refl;
                local_filled = h;
                local_short = ground arith;
                domain_short = ground arith;
                domain_dotted = d;
              }))))

finish_spec-IsSpec :
    (orig local : Bytes) {r : Parsed Bytes}
    → 1 ≤ length local
    → Returns IsDotted r
    → Returns IsSpec (finish_spec orig local r)
unfolding finish_spec
finish_spec-IsSpec orig local h (returns d) = check_lengths-IsSpec orig local _ _ h d
finish_spec-IsSpec orig local h fails = fails

abbrev IsFilled : Bytes → Type 0
IsFilled local = 1 ≤ length local

consume_at-IsSpec :
    (orig : Bytes) {r : Parsed Bytes} → Returns IsFilled r → Returns IsSpec (consume_at orig r)
unfolding consume_at
consume_at-IsSpec orig (returns {a = local} {s = s} h) =
    let s' = skip_space (consume b'@' s).1 in
    Returns-if (not (consume b'@' s).0) (λ _. fails)
      (λ _.
        Returns-if (is_empty s') (λ _. fails)
          (λ _. finish_spec-IsSpec orig local h (consume_atom-IsDotted s')))
consume_at-IsSpec orig fails = fails

refuse_empty-IsFilled : (r : Parsed Bytes) → Returns IsFilled (refuse_empty r)
refuse_empty-IsFilled (ok [] s) = fails
refuse_empty-IsFilled (ok (b ∷ local) s) = returns (omega arith)
refuse_empty-IsFilled (err e s) = fails

dotted-IsFilled : {r : Parsed Bytes} → Returns IsDotted r → Returns IsFilled r
dotted-IsFilled (returns d) = returns d.filled
dotted-IsFilled fails = fails

pub consume_addr_spec-IsSpec : (s : Bytes) → Returns IsSpec (consume_addr_spec s)
unfolding consume_addr_spec
consume_addr_spec-IsSpec orig =
    let s = skip_space orig in
    Returns-if (is_empty s) (λ _. fails)
      (λ _.
        Returns-if (peeks b'"' s) (λ _. consume_at-IsSpec orig (refuse_empty-IsFilled _))
          (λ _. consume_at-IsSpec orig (dotted-IsFilled (consume_atom-IsDotted s))))

-- All addresses that were read so far.
abbrev Good : Option (List Address) → Type 0
Good none = Unit
Good (some l) = All (λ (a : Address). IsSpec a.address) l

abbrev GoodCount : Count → Type 0
GoodCount c = Good c.1

append_address-Good :
    (list : Option (List Address)) (name spec : Bytes)
    → Good list
    → IsSpec spec
    → Good (append_address list name spec)
append_address-Good none name spec g h = tt
append_address-Good (some l) name spec g h =
    All-append (λ (a : Address). IsSpec a.address) l _ g (h, tt)

one-Good :
    (list : Option (List Address)) (spec : Bytes) (r : Parsed Bytes)
    → Good list
    → IsSpec spec
    → Returns GoodCount (one list spec r)
one-Good list spec (ok name s) g h = returns (append_address-Good list name spec g h)
one-Good list spec (err e s) g h = fails

finish_angle-Good :
    (list : Option (List Address)) (name : Bytes) {r : Parsed Bytes}
    → Good list
    → Returns IsSpec r
    → Returns GoodCount (finish_angle list name r)
unfolding finish_angle
finish_angle-Good list name g (returns {a = spec} {s = s} h) =
    Returns-if (consume b'>' s).0 (λ _. returns (append_address-Good list name spec g h))
      (λ _. fails)
finish_angle-Good list name g fails = fails

abbrev GroupGood : (Option (List Address) → Bytes → Parsed Count) → Type 0
GroupGood group =
    (list : Option (List Address)) (s : Bytes) → Good list → Returns GoodCount (group list s)

finish_name-Good :
    (handle : Bool) (group : Option (List Address) → Bytes → Parsed Count)
    (list : Option (List Address)) (r : Parsed Bytes)
    → GroupGood group
    → Good list
    → Returns GoodCount (finish_name handle group list r)
unfolding finish_name
finish_name-Good handle group list (ok name s) k g =
    let s' = skip_space s in
    Returns-if (handle && (consume b':' s').0) (λ _. k list _ g)
      (λ _.
        Returns-if (consume b'<' s').0
          (λ _. finish_angle-Good list name g (consume_addr_spec-IsSpec _))
          (λ _. Returns-if (all_atext 0 name) (λ _. fails) (λ _. fails)))
finish_name-Good handle group list (err e s) k g = fails

module _ (decode : Bytes → Decoding) where
  finish_addr_spec-Good :
      (list : Option (List Address)) (spec s : Bytes)
      → Good list
      → IsSpec spec
      → Returns GoodCount (finish_addr_spec decode list spec s)
  unfolding finish_addr_spec
  finish_addr_spec-Good list spec s g h =
      Returns-if (peeks b'(' (skip_space s)) (λ _. one-Good list spec _ g h)
        (λ _. one-Good list spec (ok [] (skip_space s)) g h)

  finish_attempt-Good :
      (handle : Bool) (group : Option (List Address) → Bytes → Parsed Count)
      (list : Option (List Address)) {r : Parsed Bytes}
      → GroupGood group
      → Good list
      → Returns IsSpec r
      → Returns GoodCount (finish_attempt decode handle group list r)
  unfolding finish_attempt
  finish_attempt-Good handle group list k g (returns h) = finish_addr_spec-Good list _ _ g h
  finish_attempt-Good handle group list k g fails = finish_name-Good handle group list _ k g

  parse_address_with-Good :
      (handle : Bool) (group : Option (List Address) → Bytes → Parsed Count)
      (list : Option (List Address)) (s : Bytes)
      → GroupGood group
      → Good list
      → Returns GoodCount (parse_address_with decode handle group list s)
  unfolding parse_address_with
  parse_address_with-Good handle group list orig k g =
      let s = skip_space orig in
      Returns-if (is_empty s) (λ _. fails)
        (λ _. finish_attempt-Good handle group list k g (consume_addr_spec-IsSpec s))

  parse_mailbox-Good : GroupGood (parse_mailbox decode)
  unfolding parse_mailbox
  parse_mailbox-Good list s g = parse_address_with-Good false _ list s (λ l s g. fails) g

  group_round-Good :
      (again : ℕ → Option (List Address) → Bytes → Parsed Count) (total : ℕ) {r : Parsed Count}
      → ((total : ℕ) → GroupGood (again total))
      → Returns GoodCount r
      → Returns GoodCount (group_round again total r)
  unfolding group_round
  group_round-Good again total k (returns {a = c} {s = s} g) =
      let rest = (skip_cfws s).1 in
      Returns-if (not (skip_cfws s).0) (λ _. fails)
        (λ _.
          Returns-if (consume b';' rest).0 (λ _. returns g)
            (λ _. Returns-if (consume b',' rest).0 (λ _. k (total + c.0) c.1 _ g) (λ _. fails)))
  group_round-Good again total k fails = fails

  group_loop-Good : (fuel total : ℕ) → GroupGood (group_loop decode fuel total)
  unfolding group_loop
  group_loop-Good zero total list s g = fails
  group_loop-Good (suc fuel) total list s g =
      group_round-Good (group_loop decode fuel) total (λ n. group_loop-Good fuel n)
        (parse_mailbox-Good list (skip_space s) g)

  consume_group_list-Good : GroupGood (consume_group_list decode)
  unfolding consume_group_list
  consume_group_list-Good list orig g =
      let s = skip_space orig in
      Returns-if (consume b';' s).0 (λ _. returns g)
        (λ _. group_loop-Good (suc (length s)) 0 list s g)

  parse_address-Good : GroupGood (parse_address decode)
  unfolding parse_address
  parse_address-Good list s g = parse_address_with-Good true _ list s consume_group_list-Good g

abbrev Wrote : Result (List Address) → Type 0
Wrote (done l) = All (λ (a : Address). IsSpec a.address) l
Wrote (fail e) = Unit

abbrev Found : Result Address → Type 0
Found (done a) = IsSpec a.address
Found (fail e) = Unit

only-Found : (list : Option (List Address)) → Good list → Found (only list)
unfolding only
only-Found none g = tt
only-Found (some []) g = tt
only-Found (some (a ∷ [])) g = g.0
only-Found (some (a ∷ b ∷ l)) g = tt

finish_parse-Found : {r : Parsed Count} → Returns GoodCount r → Found (finish_parse r)
unfolding finish_parse
finish_parse-Found (returns {a = c} {s = s} g) = ground (arith, only-Found c.1 g)
finish_parse-Found fails = tt

module _ (decode : Bytes → Decoding) where
  -- Under any decoder, the address that `Parse` returns has a local part of 1 to 64 bytes, an '@' and
  -- a domain of 1 to 255 bytes with no dot at an end and no two dots in a row.
  pub parse_single-IsSpec :
      (s : Bytes) {a : Address} → parse_single decode s ≡ done a → IsSpec a.address
  unfolding parse_single
  parse_single-IsSpec s e = rw e at (finish_parse-Found (parse_address-Good decode (some []) s tt))

  list_round-Wrote :
      (again : Option (List Address) → Bytes → Result (List Address)) {r : Parsed Count}
      → ((list : Option (List Address)) (s : Bytes) → Good list → Wrote (again list s))
      → Returns GoodCount r
      → Wrote (list_round again r)
  unfolding list_round
  list_round-Wrote again k (returns {a = (n, some l)} {s = s} g) =
      ground (arith, k (some l) (skip_commas false (skip_cfws s).1) g, g)
  list_round-Wrote again k (returns {a = (n, none)} {s = s} g) =
      ground (arith, k none (skip_commas false (skip_cfws s).1) g)
  list_round-Wrote again k fails = tt

  list_loop-Wrote :
      (fuel : ℕ) (list : Option (List Address)) (s : Bytes)
      → Good list
      → Wrote (list_loop decode fuel list s)
  unfolding list_loop
  list_loop-Wrote zero list s g = tt
  list_loop-Wrote (suc fuel) list orig g =
      let s = skip_space orig in
      ground (
        arith,
        list_loop-Wrote fuel list (consume b',' s).1 g,
        list_round-Wrote (list_loop decode fuel) (list_loop-Wrote fuel)
            (parse_address-Good decode list s g),
      )

  -- The same of every address of the list that `ParseList` returns.
  pub parse_list-IsSpec :
      (s : Bytes) {l : List Address}
      → parse_list decode s ≡ done l
      → All (λ (a : Address). IsSpec a.address) l
  unfolding parse_list
  parse_list-IsSpec s e = rw e at (list_loop-Wrote (suc (length s)) (some []) s tt)
