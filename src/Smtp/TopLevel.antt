-- ===== src/Smtp/TopLevel.antt =====
-- How many bodies and multiparts stand at the top level of a message that `writeMessage` of
-- email/smtpemail/writer.go writes: readers expect one.
use blocky_cloud.Prelude.{
  ℕ, suc, ◌+◌, Bool, true, false, ◌&&◌, ◌||◌, List, [], ◌∷◌, ◌++◌, ltb, ◌==◌, if◌then◌else◌, length,
  ◌≡◌, refl, ap, ◌∙◌, arith,
}
use blocky_cloud.Address.Utf8.{Bytes}
use blocky_cloud.Smtp.Message.{Part, File, Mail}
use blocky_cloud.Smtp.Multipart.{
  Kind, mixed, related, alternative, at_depth, has_mixed_part, has_related_part,
  has_alternative_part, write_top, write_message,
}
use blocky_cloud.Smtp.Nesting.{
  Forest, nil, leaf, multi, beside, within, part_leaves, file_leaves, flatten, tree,
  write_message-flatten,
}

-- The trees that stand beside each other at the top.
unfoldable pub roots : Forest → ℕ
roots nil = 0
roots (leaf h content encoding f) = suc (roots f)
roots (multi k inside f) = suc (roots f)

roots-beside : (f g : Forest) → roots (beside f g) ≡ roots f + roots g
unfolding roots beside
roots-beside nil g = omega arith
roots-beside (leaf h content encoding f) g = omega (arith, roots-beside f g)
roots-beside (multi k inside f) g = omega (arith, roots-beside f g)

roots-part_leaves : (charset : Bytes) (ps : List Part) → roots (part_leaves charset ps) ≡ length ps
unfolding roots part_leaves
roots-part_leaves charset [] = refl
roots-part_leaves charset (p ∷ ps) = ap suc (roots-part_leaves charset ps)

roots-file_leaves :
    (media_type : Bytes → Bytes) (b : Bool) (fs : List File)
    → roots (file_leaves media_type b fs) ≡ length fs
unfolding roots file_leaves
roots-file_leaves media_type b [] = refl
roots-file_leaves media_type b (f ∷ fs) = ap suc (roots-file_leaves media_type b fs)

roots-within :
    (b : Bool) (k : Kind) (f : Forest) → roots (within b k f) ≡ (if b then 1 else roots f)
unfolding roots
roots-within true k f = refl
roots-within false k f = refl

-- A group of files behind a forest, within its multipart.
roots-group :
    (media_type : Bytes → Bytes) (b is_attachment : Bool) (k : Kind) (f : Forest) (fs : List File)
    → roots (within b k (beside f (file_leaves media_type is_attachment fs)))
      ≡ (if b then 1 else roots f + length fs)
roots-group media_type b is_attachment k f fs =
    roots-within b k _
    ∙ ap (λ n. if b then 1 else n)
        (roots-beside f _ ∙ ap (λ n. roots f + n) (roots-file_leaves media_type is_attachment fs))

-- What stands at the top level, for the numbers of parts, embedded files and attachments.
abbrev pub expected_roots : ℕ → ℕ → ℕ → ℕ
expected_roots p e a =
    if (p == 0) && (ltb 0 e && (a == 1)) then 2 else if p + e + a == 0 then 0 else 1

count :
    (p e a : ℕ)
    → (if (ltb 0 p && ltb 0 a) || ltb 1 a
        then 1
        else (if (ltb 0 p && ltb 0 e) || ltb 1 e then 1 else (if ltb 1 p then 1 else p) + e) + a)
      ≡ expected_roots p e a
count p e a = ground arith

module _ (boundary : Kind → Bytes) (media_type : Bytes → Bytes) (now : Bytes) where
  roots-tree :
      (m : Mail)
      → roots (tree media_type m)
        ≡ expected_roots (length m.parts) (length m.embedded) (length m.attachments)
  unfolding tree has_mixed_part has_related_part has_alternative_part
  roots-tree m =
      let inner = within (has_alternative_part m) alternative (part_leaves m.charset m.parts) in
      let middle =
        within (has_related_part m) related
          (beside inner (file_leaves media_type false m.embedded)) in
      roots-group media_type (has_mixed_part m) true mixed middle m.attachments
      ∙ ap (λ n. if has_mixed_part m then 1 else n + length m.attachments)
          (roots-group media_type (has_related_part m) false related inner m.embedded
            ∙ ap (λ n. if has_related_part m then 1 else n + length m.embedded)
                (roots-within (has_alternative_part m) alternative _
                  ∙ ap (λ n. if has_alternative_part m then 1 else n)
                      (roots-part_leaves m.charset m.parts)))
      ∙ count (length m.parts) (length m.embedded) (length m.attachments)

  -- What writeMessage writes behind the fields of the message is a tree written down: every multipart
  -- holds its parts at the depth behind it, is closed once, and the writers end closed, without a write
  -- behind the array of three. At the top level stands one body or multipart, or none for an empty
  -- message; but two where there is no part, an embedded file or more, and exactly one attached file.
  pub write_message-tree :
      (m : Mail)
      → (write_message boundary media_type now m
          ≡ at_depth 0 (write_top now m ++ flatten boundary 0 (tree media_type m)))
        × (roots (tree media_type m)
            ≡ expected_roots (length m.parts) (length m.embedded) (length m.attachments))
  write_message-tree m = (write_message-flatten boundary media_type now m, roots-tree m)
