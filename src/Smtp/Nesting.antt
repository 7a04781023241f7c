-- ===== src/Smtp/Nesting.antt =====
-- The nesting of the parts of a message: `writeMessage` of email/smtpemail/writer.go.
use blocky_cloud.Prelude.{
  ℕ, suc, ◌≤◌, Bool, true, false, List, [], ◌∷◌, ◌++◌, if◌then◌else◌, ◌≡◌, refl, sym, ap, ◌∙◌,
  arith, append_assoc, append-nil,
}
use blocky_cloud.Text.{codes}
use blocky_cloud.Address.Utf8.{Bytes}
use blocky_cloud.Smtp.Message.{Header, Part, File, Mail}
use blocky_cloud.Smtp.Multipart.{
  Kind, mixed, related, alternative, Token, end_of_parts, Writer, at_depth, write_headers,
  write_body, has_mixed_part, has_related_part, has_alternative_part, opening, open_multipart,
  close_multipart, part_header, write_parts, file_header_of, write_files, write_top, if_opened,
  if_closed, write_message,
}

-- What a message is made of: bodies with their headers, and multiparts that hold more of these.
pub data Forest : Type 0 where
  nil : Forest
  leaf : Header → Bytes → Bytes → Forest → Forest
  multi : Kind → Forest → Forest → Forest

unfoldable pub beside : Forest → Forest → Forest
beside nil g = g
beside (leaf h content encoding f) g = leaf h content encoding (beside f g)
beside (multi k inside f) g = multi k inside (beside f g)

abbrev pub within : Bool → Kind → Forest → Forest
within b k f = if b then multi k f nil else f

unfoldable pub part_leaves : Bytes → List Part → Forest
part_leaves charset [] = nil
part_leaves charset (p ∷ ps) =
    leaf (part_header charset p) p.content p.encoding (part_leaves charset ps)

module _ (boundary : Kind → Bytes) where
  unfoldable pub flatten : ℕ → Forest → List Token
  flatten d nil = []
  flatten d (leaf h content encoding f) =
      (write_headers h d ++ write_body content encoding d) ++ flatten d f
  flatten d (multi k inside f) =
      opening boundary k d ++ (flatten (suc d) inside ++ (end_of_parts d ∷ flatten d f))

  flatten-beside : (d : ℕ) (f g : Forest) → flatten d (beside f g) ≡ flatten d f ++ flatten d g
  unfolding flatten beside
  flatten-beside d nil g = refl
  flatten-beside d (leaf h content encoding f) g =
      rw (flatten-beside d f g) (sym (append_assoc _ (flatten d f) (flatten d g)))
  flatten-beside d (multi k inside f) g = rw (flatten-beside d f g) (
      sym (
        append_assoc (opening boundary k d) _ (flatten d g)
        ∙ ap (λ l. opening boundary k d ++ l)
            (append_assoc (flatten (suc d) inside) _ (flatten d g))))

  write_parts-at_depth :
      (charset : Bytes) (ps : List Part) (d : ℕ) (ts : List Token)
      → write_parts charset ps (at_depth d ts)
        ≡ at_depth d (ts ++ flatten d (part_leaves charset ps))
  unfolding write_parts flatten part_leaves
  write_parts-at_depth charset [] d ts = ap (at_depth d) (sym (append-nil ts))
  write_parts-at_depth charset (p ∷ ps) d ts =
      write_parts-at_depth charset ps d _ ∙ ap (at_depth d) (append_assoc ts _ _)

  open_multipart-at_depth :
      (k : Kind) (d : ℕ) (ts : List Token)
      → d ≤ 2
      → open_multipart boundary k (at_depth d ts) ≡ at_depth (suc d) (ts ++ opening boundary k d)
  unfolding open_multipart
  open_multipart-at_depth k d ts p = ground arith

  -- What is written between the opening and the closing of a multipart nests.
  if_closed-if_opened :
      (b : Bool) (k : Kind) (write : Writer → Writer) (f : Forest) (n d : ℕ) (ts : List Token)
      → n ≤ 2
      → d ≤ n
      → ((e : ℕ) (us : List Token)
          → e ≤ suc n
          → write (at_depth e us) ≡ at_depth e (us ++ flatten e f))
      → if_closed b (write (if_opened boundary b k (at_depth d ts)))
        ≡ at_depth d (ts ++ flatten d (within b k f))
  unfolding flatten close_multipart
  if_closed-if_opened false k write f n d ts p q writes = writes d ts (omega arith)
  if_closed-if_opened true k write f n d ts p q writes =
      ap (λ w. close_multipart (write w)) (open_multipart-at_depth k d ts (omega arith))
      ∙ ap close_multipart (writes (suc d) (ts ++ opening boundary k d) (omega arith))
      ∙ ap (at_depth d) (
          append_assoc (ts ++ opening boundary k d) (flatten (suc d) f) _
          ∙ append_assoc ts (opening boundary k d) _)

module _ (media_type : Bytes → Bytes) where
  unfoldable pub file_leaves : Bool → List File → Forest
  file_leaves is_attachment [] = nil
  file_leaves is_attachment (f ∷ fs) =
      leaf (file_header_of media_type is_attachment f) f.to_writer (codes "base64")
        (file_leaves is_attachment fs)

  -- The parts, and the embedded and the attached files around them.
  unfoldable pub tree : Mail → Forest
  tree m =
      let inner = within (has_alternative_part m) alternative (part_leaves m.charset m.parts) in
      let middle =
        within (has_related_part m) related (beside inner (file_leaves false m.embedded)) in
      within (has_mixed_part m) mixed (beside middle (file_leaves true m.attachments))

module _ (boundary : Kind → Bytes) (media_type : Bytes → Bytes) (now : Bytes) where
  write_files-at_depth :
      (b : Bool) (fs : List File) (d : ℕ) (ts : List Token)
      → write_files media_type b fs (at_depth d ts)
        ≡ at_depth d (ts ++ flatten boundary d (file_leaves media_type b fs))
  unfolding write_files flatten file_leaves
  write_files-at_depth b [] d ts = ap (at_depth d) (sym (append-nil ts))
  write_files-at_depth b (f ∷ fs) d ts =
      write_files-at_depth b fs d _ ∙ ap (at_depth d) (append_assoc ts _ _)

  -- Where each writer goes on at its depth, so do two in turn.
  then_files :
      (write : Writer → Writer) (b : Bool) (fs : List File) (f : Forest) (d : ℕ) (ts : List Token)
      → write (at_depth d ts) ≡ at_depth d (ts ++ flatten boundary d f)
      → write_files media_type b fs (write (at_depth d ts))
        ≡ at_depth d (ts ++ flatten boundary d (beside f (file_leaves media_type b fs)))
  then_files write b fs f d ts writes =
      ap (write_files media_type b fs) writes
      ∙ write_files-at_depth b fs d (ts ++ flatten boundary d f)
      ∙ ap (at_depth d) (
          append_assoc ts (flatten boundary d f) _
          ∙ ap (λ l. ts ++ l) (sym (flatten-beside boundary d f (file_leaves media_type b fs))))

  -- The parts within their multipart, if there is one.
  write_inner : Mail → Writer → Writer
  write_inner m w =
      if_closed (has_alternative_part m)
        (write_parts m.charset m.parts (if_opened boundary (has_alternative_part m) alternative w))

  write_middle : Mail → Writer → Writer
  unfolding write_inner
  write_middle m w = if_closed (has_related_part m) (
      write_files media_type false m.embedded
        (write_inner m (if_opened boundary (has_related_part m) related w)))

  inner : Mail → Forest
  inner m = within (has_alternative_part m) alternative (part_leaves m.charset m.parts)

  middle : Mail → Forest
  unfolding inner
  middle m =
      within (has_related_part m) related
        (beside (inner m) (file_leaves media_type false m.embedded))

  write_inner-at_depth :
      (m : Mail) (d : ℕ) (ts : List Token)
      → d ≤ 2
      → write_inner m (at_depth d ts) ≡ at_depth d (ts ++ flatten boundary d (inner m))
  unfolding write_inner inner
  write_inner-at_depth m d ts p =
      if_closed-if_opened boundary (has_alternative_part m) alternative
        (write_parts m.charset m.parts) (part_leaves m.charset m.parts) 2 d ts (omega arith) p
        (λ e us q. write_parts-at_depth boundary m.charset m.parts e us)

  write_middle-at_depth :
      (m : Mail) (d : ℕ) (ts : List Token)
      → d ≤ 1
      → write_middle m (at_depth d ts) ≡ at_depth d (ts ++ flatten boundary d (middle m))
  unfolding write_middle middle
  write_middle-at_depth m d ts p =
      if_closed-if_opened boundary (has_related_part m) related
        (λ w. write_files media_type false m.embedded (write_inner m w))
        (beside (inner m) (file_leaves media_type false m.embedded)) 1 d ts (omega arith) p
        (λ e us q.
          then_files (write_inner m) false m.embedded (inner m) e us
            (write_inner-at_depth m e us q))

  pub write_message-flatten :
      (m : Mail)
      → write_message boundary media_type now m
        ≡ at_depth 0 (write_top now m ++ flatten boundary 0 (tree media_type m))
  unfolding write_message tree write_middle middle
  write_message-flatten m =
      if_closed-if_opened boundary (has_mixed_part m) mixed
        (λ w. write_files media_type true m.attachments (write_middle m w))
        (beside (middle m) (file_leaves media_type true m.attachments)) 0 0 (write_top now m)
        (omega arith) (omega arith)
        (λ e us q.
          then_files (write_middle m) true m.attachments (middle m) e us
            (write_middle-at_depth m e us q))
