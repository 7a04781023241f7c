-- ===== src/Smtp/Message.antt =====
-- `message` of email/smtpemail/message.go, and how `prepare` fills one from a `driver.Message`.
-- `q_encode` and `b_encode` are `Encode` of the two encoders of Go's mime package, with the charset.
use blocky_cloud.Prelude.{
  ℕ, Bool, false, not, ◌&&◌, ◌||◌, List, [], ◌∷◌, ◌++◌, Option, none, some, ◌==◌, if◌then◌else◌,
}
use blocky_cloud.Address.Utf8.{Bytes}
use blocky_cloud.Address.Lexer.{is_empty}
use blocky_cloud.Address.Phrase.{Decoding}
use blocky_cloud.Address.Parser.{Address}
use blocky_cloud.Address.Entry.{Result, done, fail, parse_single}
use blocky_cloud.Smtp.Codes.{codes}
use blocky_cloud.Text.{same}

-- The map from header fields to values: a later entry of a field replaces an earlier one.
abbrev pub Header : Type 0
Header = List (Bytes × List Bytes)

-- `h[field] = value`.
unfoldable pub set_field : Header → Bytes → List Bytes → Header
set_field [] field value = (field, value) ∷ []
set_field ((f, v) ∷ h) field value =
    let rest = (f, v) ∷ set_field h field value in if same f field then (field, value) ∷ h else rest

-- `getHeader`; a field that is not set has no value.
unfoldable pub get_header : Header → Bytes → Option (List Bytes)
get_header [] field = none
get_header ((f, v) ∷ h) field =
    let rest = get_header h field in if same f field then some v else rest

pub record Part : Type 0 where
  pub content_type : Bytes
  pub content : Bytes
  pub encoding : Bytes

-- The fields of `driver.Attachment` that are read; the text stands for its reader.
pub record Attachment : Type 0 where
  pub content_id : Bytes
  pub filename : Bytes
  pub attachment_type : Bytes
  pub inline : Bool
  pub text : Bytes

pub record File : Type 0 where
  pub name : Bytes
  pub file_header : Header
  pub to_writer : Bytes

-- `message` without its buffer, which is empty between the calls of `formatAddress`.
pub record Mail : Type 0 where
  pub id : Bytes
  pub from : Bytes
  pub to : List Bytes
  pub header : Header
  pub parts : List Part
  pub attachments : List File
  pub embedded : List File
  pub charset : Bytes
  pub encoding : Bytes

-- `driver.Message`, without its callbacks. A time is a number.
pub record DriverMessage : Type 0 where
  pub message_id : Bytes
  pub from : Bytes
  pub to : List Bytes
  pub cc : List Bytes
  pub bcc : List Bytes
  pub subject : Bytes
  pub html_body : Bytes
  pub text_body : Bytes
  pub reply_to : Bytes
  pub date : ℕ
  pub attachments : List Attachment

unfoldable pub new_message : Mail
new_message = record {
  id = [];
  from = [];
  to = [];
  header = [];
  parts = [];
  attachments = [];
  embedded = [];
  charset = codes "UTF-8";
  encoding = codes "quoted-printable";
}

-- `reset`: what the pool's next user finds.
unfoldable pub reset_message : Mail → Mail
reset_message m = record m { header = []; parts = []; attachments = []; embedded = [] }

-- `getRecipients`.
unfoldable pub get_recipients : DriverMessage → List Bytes
get_recipients d = d.to ++ (d.cc ++ d.bcc)

unfoldable pub has_specials : Bytes → Bool
has_specials [] = false
has_specials (c ∷ s) =
    c == b'('
    || c == b')'
    || c == b'<'
    || c == b'>'
    || c == b'['
    || c == b']'
    || c == b':'
    || c == b';'
    || c == b'@'
    || c == b'\\'
    || c == b','
    || c == b'.'
    || c == b'"'
    || has_specials s

-- The loop of `formatAddress` over the bytes of a name.
unfoldable pub escape : Bytes → Bytes
escape [] = []
escape (b ∷ s) = let rest = b ∷ escape s in if b == b'\\' || b == b'"' then b'\\' ∷ rest else rest

-- `newPart` without settings, `setBody` and `addAlternative`.
unfoldable pub new_part : Mail → Bytes → Bytes → Part
new_part m ty body = record { content_type = ty; content = body; encoding = m.encoding }

unfoldable pub set_body : Mail → Bytes → Bytes → Mail
set_body m ty body = record m { parts = new_part m ty body ∷ [] }

unfoldable pub add_alternative : Mail → Bytes → Bytes → Mail
add_alternative m ty body = record m { parts = m.parts ++ new_part m ty body ∷ [] }

-- `appendFile`.
unfoldable pub new_file : Attachment → File
new_file a =
    let h =
      if not (is_empty a.attachment_type)
      then set_field [] (codes "Content-Type") (a.attachment_type ∷ [])
      else [] in
    let h' =
      if not (is_empty a.content_id)
      then set_field h (codes "Content-ID") ((b'<' ∷ (a.content_id ++ b'>' ∷ [])) ∷ [])
      else h in
    record { name = a.filename; file_header = h'; to_writer = a.text }

-- The loop of `prepare` over the attachments, with `embed` and `attach`.
unfoldable pub add_files : Mail → List Attachment → Mail
add_files m [] = m
add_files m (a ∷ as_) =
    add_files
      (if a.inline
        then record m { embedded = m.embedded ++ new_file a ∷ [] }
        else record m { attachments = m.attachments ++ new_file a ∷ [] })
      as_

-- The parts of `prepare`.
unfoldable pub add_bodies : Mail → DriverMessage → Mail
add_bodies m d =
    let html = not (is_empty d.html_body) in
    let text = not (is_empty d.text_body) in
    let m' = if html then set_body m (codes "text/html") d.html_body else m in
    if html && text
    then add_alternative m' (codes "text/plain") d.text_body
    else if text
    then set_body m' (codes "text/plain") d.text_body
    else m'

-- The next step of `prepare`, if there was no error.
abbrev pub then_mail : Result Mail → (Mail → Result Mail) → Result Mail
then_mail (done m) next = next m
then_mail (fail e) next = fail e

module _ (decode : Bytes → Decoding) (q_encode b_encode : Bytes → Bytes → Bytes) where
  unfoldable pub format_address : Bytes → Address → Bytes
  format_address charset a =
      let enc = q_encode charset a.name in
      let shown =
        if same enc a.name
        then b'"' ∷ (escape a.name ++ b'"' ∷ [])
        else if has_specials a.name
        then b_encode charset a.name
        else enc in
      if is_empty a.name then a.address else shown ++ (codes " <" ++ (a.address ++ b'>' ∷ []))

  -- `setAddressHeader` with one address.
  abbrev pub set_parsed : Mail → Bytes → Result Address → Result Mail
  set_parsed m field (done a) =
      done (record m { header = set_field m.header field (format_address m.charset a ∷ []) })
  set_parsed m field (fail e) = fail e

  unfoldable pub set_address_header : Mail → Bytes → Bytes → Result Mail
  set_address_header m field addr = set_parsed m field (parse_single decode addr)

  -- The loops of `prepare` over `msg.To` and `msg.Cc`.
  unfoldable pub set_each : Mail → Bytes → List Bytes → Result Mail
  set_each m field [] = done m
  set_each m field (addr ∷ rest) =
      then_mail (set_address_header m field addr) (λ m'. set_each m' field rest)

  unfoldable pub set_header : Mail → Bytes → Bytes → Mail
  set_header m field value = record m {
    header = set_field m.header field (q_encode m.charset value ∷ []);
  }

  -- The fields behind the attachments.
  unfoldable pub finish_prepare : DriverMessage → Mail → Mail
  finish_prepare d m =
      if not (is_empty d.message_id) then set_header m (codes "Message-ID") d.message_id else m

  -- All of `prepare` behind the loop over `msg.Cc`.
  unfoldable pub set_rest : DriverMessage → Mail → Result Mail
  set_rest d m3 =
      let m4 = add_files (add_bodies (set_header m3 (codes "Subject") d.subject) d) d.attachments in
      then_mail
        (if not (is_empty d.reply_to)
          then set_address_header m4 (codes "Reply-To") d.reply_to
          else done m4)
        (λ m5. done (finish_prepare d m5))

  unfoldable pub prepare : Mail → DriverMessage → Result Mail
  prepare m0 d =
      let m = record m0 { id = d.message_id; from = d.from; to = get_recipients d } in
      then_mail (set_address_header m (codes "From") d.from) (λ m1.
        then_mail (set_each m1 (codes "To") d.to)
          (λ m2. then_mail (set_each m2 (codes "Cc") d.cc) (set_rest d)))
