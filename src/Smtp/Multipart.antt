-- ===== src/Smtp/Multipart.antt =====
-- `messageWriter` of email/smtpemail/writer.go: the parts of a message and how they nest.
-- `boundary` is the boundary of a `multipart.Writer`, one for each kind, since no kind is opened twice;
-- `media_type` is `mime.TypeByExtension` of a name's extension, empty if it knows none; `now` is the
-- present time, formatted. A map of headers is written in the order of its entries.
use blocky_cloud.Prelude.{
  ℕ, zero, suc, Bool, true, false, ◌&&◌, ◌||◌, List, [], ◌∷◌, ◌++◌, Option, none, some, ltb,
  if◌then◌else◌, length,
}
use blocky_cloud.Text.{codes, same}
use blocky_cloud.Address.Utf8.{Bytes}
use blocky_cloud.Address.Lexer.{is_empty}
use blocky_cloud.Smtp.Message.{Header, set_field, get_header, Part, File, Mail}

pub data Kind : Type 0 where
  mixed : Kind
  related : Kind
  alternative : Kind

-- What reaches the output: a header field of the message itself, the empty line behind these, a part of
-- the multipart writer with this index, a body with its encoding, and the end of a multipart.
pub data Token : Type 0 where
  field : Bytes → List Bytes → Token
  end_of_header : Token
  part : ℕ → Header → Token
  body : Bytes → Bytes → Token
  end_of_parts : ℕ → Token

-- `depth` is the number of open multipart writers; `panics` is a write behind the array of three.
pub record Writer : Type 0 where
  pub tokens : List Token
  pub depth : ℕ
  pub panics : Bool

-- A writer that has not panicked.
abbrev pub at_depth : ℕ → List Token → Writer
at_depth d ts = record { tokens = ts; depth = d; panics = false }

abbrev pub emit : Writer → List Token → Writer
emit w ts = record w { tokens = w.tokens ++ ts }

-- `_, ok := h[k]`.
abbrev pub is_set : Option (List Bytes) → Bool
is_set none = false
is_set (some v) = true

abbrev pub has_field : Header → Bytes → Bool
has_field h k = is_set (get_header h k)

unfoldable pub fields_of : Header → List Token
fields_of [] = []
fields_of ((k, v) ∷ h) =
    let rest = fields_of h in if same k (codes "Bcc") then rest else field k v ∷ rest

-- `writeHeaders`; inside a multipart the header is that of a part.
unfoldable pub write_headers : Header → ℕ → List Token
write_headers h zero = fields_of h
write_headers h (suc d) = part d h ∷ []

-- `writeBody`.
unfoldable pub write_body : Bytes → Bytes → ℕ → List Token
write_body content encoding zero = end_of_header ∷ body encoding content ∷ []
write_body content encoding (suc d) = body encoding content ∷ []

unfoldable pub default_field : Header → Bytes → Bytes → Header
default_field h k v = if has_field h k then h else set_field h k (v ∷ [])

unfoldable pub has_mixed_part : Mail → Bool
has_mixed_part m =
    (ltb 0 (length m.parts) && ltb 0 (length m.attachments)) || ltb 1 (length m.attachments)

unfoldable pub has_related_part : Mail → Bool
has_related_part m =
    (ltb 0 (length m.parts) && ltb 0 (length m.embedded)) || ltb 1 (length m.embedded)

unfoldable pub has_alternative_part : Mail → Bool
has_alternative_part m = ltb 1 (length m.parts)

abbrev pub kind_name : Kind → Bytes
kind_name mixed = codes "mixed"
kind_name related = codes "related"
kind_name alternative = codes "alternative"

abbrev pub close_at : Writer → ℕ → Writer
close_at w zero = w
close_at w (suc d) = record {
  tokens = w.tokens ++ end_of_parts d ∷ [];
  depth = d;
  panics = w.panics;
}

-- `closeMultipart`.
unfoldable pub close_multipart : Writer → Writer
close_multipart w = close_at w w.depth

-- `writePart`, and the loop over the parts.
unfoldable pub part_header : Bytes → Part → Header
part_header charset p =
    (codes "Content-Type", (p.content_type ++ (codes "; charset=" ++ charset)) ∷ [])
    ∷ (codes "Content-Transfer-Encoding", p.encoding ∷ [])
    ∷ []

unfoldable pub write_parts : Bytes → List Part → Writer → Writer
write_parts charset [] w = w
write_parts charset (p ∷ ps) w = write_parts charset ps (
    emit w
      (write_headers (part_header charset p) w.depth ++ write_body p.content p.encoding w.depth))

abbrev pub named_value : Bytes → Bytes → Bytes → Bytes
named_value value key name = value ++ (codes "; " ++ (key ++ (codes "=\"" ++ (name ++ codes "\""))))

unfoldable pub write_top : Bytes → Mail → List Token
write_top now m =
    (if has_field m.header (codes "Mime-Version")
      then []
      else field (codes "Mime-Version") (codes "1.0" ∷ []) ∷ [])
    ++ ((if has_field m.header (codes "Date") then [] else field (codes "Date") (now ∷ []) ∷ [])
        ++ fields_of m.header)

abbrev pub if_closed : Bool → Writer → Writer
if_closed b w = if b then close_multipart w else w

module _ (boundary : Kind → Bytes) where
  unfoldable pub content_type_of : Kind → Bytes
  content_type_of k = codes "multipart/" ++ (kind_name k ++ (codes ";\r\n boundary=" ++ boundary k))

  abbrev pub opening : Kind → ℕ → List Token
  opening k zero = field (codes "Content-Type") (content_type_of k ∷ []) ∷ end_of_header ∷ []
  opening k (suc d) = part d ((codes "Content-Type", content_type_of k ∷ []) ∷ []) ∷ []

  -- `openMultipart`.
  unfoldable pub open_multipart : Kind → Writer → Writer
  open_multipart k w = record {
    tokens = w.tokens ++ opening k w.depth;
    depth = suc w.depth;
    panics = w.panics || ltb 2 w.depth;
  }

  abbrev pub if_opened : Bool → Kind → Writer → Writer
  if_opened b k w = if b then open_multipart k w else w

module _ (media_type : Bytes → Bytes) where
  unfoldable pub media_type_or : Bytes → Bytes
  media_type_or name =
      let t = media_type name in if is_empty t then codes "application/octet-stream" else t

  -- The header that `addFiles` completes.
  unfoldable pub file_header_of : Bool → File → Header
  file_header_of is_attachment f =
      let h =
        default_field f.file_header (codes "Content-Type")
          (named_value (media_type_or f.name) (codes "name") f.name) in
      let h = default_field h (codes "Content-Transfer-Encoding") (codes "base64") in
      let h = default_field h (codes "Content-Disposition") (
        named_value (if is_attachment then codes "attachment" else codes "inline")
          (codes "filename") f.name) in
      if is_attachment
      then h
      else default_field h (codes "Content-ID") (b'<' ∷ (f.name ++ b'>' ∷ []))

  -- `addFiles`.
  unfoldable pub write_files : Bool → List File → Writer → Writer
  write_files is_attachment [] w = w
  write_files is_attachment (f ∷ fs) w = write_files is_attachment fs (
      emit w (
        write_headers (file_header_of is_attachment f) w.depth
        ++ write_body f.to_writer (codes "base64") w.depth))

module _ (boundary : Kind → Bytes) (media_type : Bytes → Bytes) (now : Bytes) where
  -- `writeMessage`.
  unfoldable pub write_message : Mail → Writer
  write_message m =
      let w = if_opened boundary (has_mixed_part m) mixed (at_depth 0 (write_top now m)) in
      let w = if_opened boundary (has_related_part m) related w in
      let w = if_opened boundary (has_alternative_part m) alternative w in
      let w = write_parts m.charset m.parts w in
      let w = if_closed (has_alternative_part m) w in
      let w = write_files media_type false m.embedded w in
      let w = if_closed (has_related_part m) w in
      let w = write_files media_type true m.attachments w in if_closed (has_mixed_part m) w
