-- ===== src/Address/Verify.antt =====
-- `VerifyFormat` and `VerifyListFormat` of email/address.go run the parser with no list to fill;
-- they accept and refuse exactly what `Parse` and `ParseList` do.
use blocky_cloud.Prelude.{
  ℕ, zero, suc, ◌+◌, ◌≡◌, refl, Bool, true, false, not, ◌&&◌, List, [], ◌∷◌, Option, none, some,
  length, length-append, arith, if_cases₂,
}
use blocky_cloud.Address.Utf8.{Bytes}
use blocky_cloud.Address.Lexer.{
  Error, unclosed_angle, missing_at_or_angle, no_angle_addr, no_address, misformatted_comment,
  expected_comma, Parsed, ok, err, consume, peeks, is_empty, skip_space, skip_cfws,
}
use blocky_cloud.Address.Phrase.{Decoding}
use blocky_cloud.Address.Parser.{
  Address, Count, all_atext, append_address, one, finish_addr_spec, finish_angle, finish_name,
  parse_address_with, finish_attempt, group_round, parse_mailbox, group_loop, consume_group_list,
  parse_address,
}
use blocky_cloud.Address.Entry.{
  Result, done, fail, finish_parse, finish_verify, only, skip_commas, parse_single, verify_single,
  list_round, verify_round, list_loop, parse_list, verify_list_loop, verify_list,
}

-- The same run with a list and without one: the same error, or the same count and rest, and as many
-- entries behind those of the list as the count says.
data Agrees (l : List Address) : Parsed Count → Parsed Count → Type 0 where
  fails : (e : Error) (s : Bytes) → Agrees l (err e s) (err e s)
  counts :
      (n : ℕ) (l' : List Address) (s : Bytes)
      → length l' ≡ length l + n
      → Agrees l (ok (n, some l') s) (ok (n, none) s)

append_address-Agrees :
    (l : List Address) (name spec s : Bytes)
    → Agrees l
        (ok (1, append_address (some l) name spec) s)
        (ok (1, append_address none name spec) s)
append_address-Agrees l name spec s =
    counts 1 _ s (length-append l (record { name = name; address = spec } ∷ []))

one-Agrees :
    (l : List Address) (spec : Bytes) (r : Parsed Bytes)
    → Agrees l (one (some l) spec r) (one none spec r)
one-Agrees l spec (ok name s) = append_address-Agrees l name spec s
one-Agrees l spec (err e s) = fails e s

finish_angle-Agrees :
    (l : List Address) (name : Bytes) (r : Parsed Bytes)
    → Agrees l (finish_angle (some l) name r) (finish_angle none name r)
unfolding finish_angle
finish_angle-Agrees l name (err e s) = fails e s
finish_angle-Agrees l name (ok spec s) =
    if_cases₂ (Agrees l) (consume b'>' s).0 (λ _. append_address-Agrees l name spec _)
      (λ _. fails unclosed_angle _)

abbrev GroupAgrees : (Option (List Address) → Bytes → Parsed Count) → Type 0
GroupAgrees group = (l : List Address) (s : Bytes) → Agrees l (group (some l) s) (group none s)

finish_name-Agrees :
    (handle : Bool) (group : Option (List Address) → Bytes → Parsed Count) (l : List Address)
    (r : Parsed Bytes)
    → GroupAgrees group
    → Agrees l (finish_name handle group (some l) r) (finish_name handle group none r)
unfolding finish_name
finish_name-Agrees handle group l (err e s) g = fails e s
finish_name-Agrees handle group l (ok name s) g =
    let s' = skip_space s in
    if_cases₂ (Agrees l) (handle && (consume b':' s').0) (λ _. g l _)
      (λ _.
        if_cases₂ (Agrees l) (consume b'<' s').0 (λ _. finish_angle-Agrees l name _)
          (λ _.
            if_cases₂ (Agrees l) (all_atext 0 name) (λ _. fails missing_at_or_angle _)
              (λ _. fails no_angle_addr _)))

module _ (decode : Bytes → Decoding) where
  finish_addr_spec-Agrees :
      (l : List Address) (spec s : Bytes)
      → Agrees l (finish_addr_spec decode (some l) spec s) (finish_addr_spec decode none spec s)
  unfolding finish_addr_spec
  finish_addr_spec-Agrees l spec s =
      if_cases₂ (Agrees l) (peeks b'(' (skip_space s)) (λ _. one-Agrees l spec _)
        (λ _. one-Agrees l spec (ok [] (skip_space s)))

  finish_attempt-Agrees :
      (handle : Bool) (group : Option (List Address) → Bytes → Parsed Count) (l : List Address)
      (r : Parsed Bytes)
      → GroupAgrees group
      → Agrees l
          (finish_attempt decode handle group (some l) r)
          (finish_attempt decode handle group none r)
  unfolding finish_attempt
  finish_attempt-Agrees handle group l (ok spec s) g = finish_addr_spec-Agrees l spec s
  finish_attempt-Agrees handle group l (err e s) g = finish_name-Agrees handle group l _ g

  parse_address_with-Agrees :
      (handle : Bool) (group : Option (List Address) → Bytes → Parsed Count) (l : List Address)
      (s : Bytes)
      → GroupAgrees group
      → Agrees l
          (parse_address_with decode handle group (some l) s)
          (parse_address_with decode handle group none s)
  unfolding parse_address_with
  parse_address_with-Agrees handle group l orig g =
      if_cases₂ (Agrees l) (is_empty (skip_space orig)) (λ _. fails no_address _)
        (λ _. finish_attempt-Agrees handle group l _ g)

  parse_mailbox-Agrees :
      (l : List Address) (s : Bytes)
      → Agrees l (parse_mailbox decode (some l) s) (parse_mailbox decode none s)
  unfolding parse_mailbox
  parse_mailbox-Agrees l s = parse_address_with-Agrees false _ l s (λ l s. fails no_address s)

  group_round-Agrees :
      (again : ℕ → Option (List Address) → Bytes → Parsed Count) (l l' : List Address) (total : ℕ)
      {r r' : Parsed Count}
      → ((total : ℕ) (l' : List Address) (s : Bytes)
          → length l' ≡ length l + total
          → Agrees l (again total (some l') s) (again total none s))
      → length l' ≡ length l + total
      → Agrees l' r r'
      → Agrees l (group_round again total r) (group_round again total r')
  unfolding group_round
  group_round-Agrees again l l' total h k (fails e s) = fails e s
  group_round-Agrees again l l' total h k (counts n l'' s e) =
      let rest = (skip_cfws s).1 in
      if_cases₂ (Agrees l) (not (skip_cfws s).0) (λ _. fails misformatted_comment rest)
        (λ _.
          if_cases₂ (Agrees l) (consume b';' rest).0 (λ _. counts (total + n) l'' _ (omega arith))
            (λ _.
              if_cases₂ (Agrees l) (consume b',' rest).0 (λ _. h (total + n) l'' _ (omega arith))
                (λ _. fails expected_comma rest)))

  group_loop-Agrees :
      (fuel total : ℕ) (l l' : List Address) (s : Bytes)
      → length l' ≡ length l + total
      → Agrees l (group_loop decode fuel total (some l') s) (group_loop decode fuel total none s)
  unfolding group_loop
  group_loop-Agrees zero total l l' s e = fails expected_comma s
  group_loop-Agrees (suc fuel) total l l' s e =
      group_round-Agrees (group_loop decode fuel) l l' total
        (λ total l' s. group_loop-Agrees fuel total l l' s) e
        (parse_mailbox-Agrees l' (skip_space s))

  consume_group_list-Agrees : GroupAgrees (consume_group_list decode)
  unfolding consume_group_list
  consume_group_list-Agrees l orig =
      let s = skip_space orig in
      if_cases₂ (Agrees l) (consume b';' s).0 (λ _. counts 0 l _ (omega arith))
        (λ _. group_loop-Agrees (suc (length s)) 0 l l s (omega arith))

  parse_address-Agrees :
      (l : List Address) (s : Bytes)
      → Agrees l (parse_address decode (some l) s) (parse_address decode none s)
  unfolding parse_address
  parse_address-Agrees l s = parse_address_with-Agrees true _ l s consume_group_list-Agrees

-- A result without its value.
abbrev pub forget {ℓ} : {A : Type ℓ} → Result A → Result (Unit {0})
forget (done a) = done tt
forget (fail e) = fail e

finish_verify_lem :
    {r r' : Parsed Count} → Agrees [] r r' → finish_verify r' ≡ forget (finish_parse r)
unfolding finish_verify finish_parse only
finish_verify_lem (fails e s) = refl
finish_verify_lem (counts n l s e) = ground arith

verify_round_lem :
    (again : Bytes → Result (Unit {0}))
    (again' : Option (List Address) → Bytes → Result (List Address)) (l : List Address)
    {r r' : Parsed Count}
    → ((l : List Address) (s : Bytes) → again s ≡ forget (again' (some l) s))
    → Agrees l r r'
    → verify_round again r' ≡ forget (list_round again' r)
unfolding verify_round list_round
verify_round_lem again again' l h (fails e s) = refl
verify_round_lem again again' l h (counts n l' s e) =
    ground (arith, h l' (skip_commas false (skip_cfws s).1))

module _ (decode : Bytes → Decoding) where
  -- Under any decoder, `VerifyFormat` succeeds on exactly the texts that `Parse` reads as one
  -- address, and fails with the same error on all others.
  pub verify_single-parse_single :
      (s : Bytes) → verify_single decode s ≡ forget (parse_single decode s)
  unfolding verify_single parse_single
  verify_single-parse_single s = finish_verify_lem (parse_address-Agrees decode [] s)

  verify_list_loop_lem :
      (fuel : ℕ) (l : List Address) (s : Bytes)
      → verify_list_loop decode fuel s ≡ forget (list_loop decode fuel (some l) s)
  unfolding verify_list_loop list_loop
  verify_list_loop_lem zero l s = refl
  verify_list_loop_lem (suc fuel) l orig =
      let s = skip_space orig in
      ground (
        arith,
        verify_list_loop_lem fuel l (consume b',' s).1,
        verify_round_lem (verify_list_loop decode fuel) (list_loop decode fuel) l
            (verify_list_loop_lem fuel) (parse_address-Agrees decode l s),
      )

  -- Under any decoder, `VerifyListFormat` succeeds on exactly the texts that `ParseList` reads as a
  -- list of addresses, and fails with the same error on all others.
  pub verify_list-parse_list : (s : Bytes) → verify_list decode s ≡ forget (parse_list decode s)
  unfolding verify_list parse_list
  verify_list-parse_list s = verify_list_loop_lem (suc (length s)) [] s
