-- ===== src/Template/Execute.antt =====
-- `Execute` of `ParsedTemplateVersion` and of `ParsedTemplates` in email/emailtemplate/template.go.
-- `render` is the execution of a template by Go's text/template, `none` where it fails.
use blocky_cloud.Prelude.{
  ℕ, ◌+◌, Bool, true, false, not, ◌&&◌, ◌||◌, List, [], ◌∷◌, ◌++◌, Option, none, some,
  if◌then◌else◌,
}
use blocky_cloud.Text.{codes, same, put}
use blocky_cloud.Address.Utf8.{Bytes}
use blocky_cloud.Address.Lexer.{is_empty}
use blocky_cloud.Smtp.Message.{Attachment, DriverMessage}
use blocky_cloud.Template.Data.{
  not_found, render_failed, Result, ok, err, ◌>>=◌, int, Data, Map, merge_data,
}
use blocky_cloud.Template.Store.{ParsedTemplateVersion, ParsedTemplates, find_version}

-- `driver.TemplatedMessage`, without its callbacks. A time is a number.
pub record TemplatedMessage : Type 0 where
  pub message_id : Bytes
  pub from : Bytes
  pub to : List Bytes
  pub cc : List Bytes
  pub bcc : List Bytes
  pub html_body : Bytes
  pub text_body : Bytes
  pub subject : Bytes
  pub attachments : List Attachment
  pub date : ℕ
  pub reply_to : Bytes
  pub template_name : Bytes
  pub template_data : Data
  pub template_version : Bytes

-- `delete(m, k)`.
unfoldable pub remove : Map → Bytes → Map
remove [] k = []
remove ((f, v) ∷ m) k = let rest = remove m k in if same f k then rest else (f, v) ∷ rest

module _ {T : Type 0} (render : T → Map → Option Bytes) where
  abbrev pub rendered : Option Bytes → Result Bytes
  rendered none = err render_failed
  rendered (some s) = ok s

  -- The template's text, if there is a template, else the text that is given.
  unfoldable pub render_or : Option T → Map → Bytes → Result Bytes
  render_or none m s = ok s
  render_or (some t) m s = rendered (render t m)

  abbrev pub one : Bool → Bytes → List Bytes
  one keep_empty s = if is_empty s && not keep_empty then [] else s ∷ []

  -- The recipient that a template gives where the message names none; an empty one is kept in To only.
  unfoldable pub render_first : Bool → Option T → Map → List Bytes → Result (List Bytes)
  render_first keep_empty (some t) m [] = rendered (render t m) >>= λ s. ok (one keep_empty s)
  render_first keep_empty _ m given = ok []

  -- A recipient: the template's text under the key `_index`, if there is a template and it is asked.
  unfoldable pub render_at : Option T → Map → ℕ → Bool → Bytes → Result (Bytes × Map)
  render_at (some t) m idx true addr =
      let m' = put m (codes "_index") (int idx) in
      rendered (render t m') >>= λ s. ok (s, remove m' (codes "_index"))
  render_at _ m idx asked addr = ok (addr, m)

  -- The loops over the recipients; in those of To and of Bcc a template is asked for empty ones only.
  unfoldable pub render_each : Bool → Option T → Map → ℕ → List Bytes → Result (List Bytes × Map)
  render_each always t m idx [] = ok ([], m)
  render_each always t m idx (addr ∷ rest) =
      render_at t m idx (always || is_empty addr) addr >>= λ r.
      render_each always t r.1 (idx + 1) rest >>= λ rs. ok (r.0 ∷ rs.0, rs.1)

  -- `from` is rendered only where the message has none.
  unfoldable pub render_from : Option T → Map → Bytes → Result Bytes
  render_from t m from = if is_empty from then render_or t m from else ok from

  -- The rest of `Execute`, behind the merge. The loop for Bcc ranges over the Cc of the message.
  unfoldable pub execute_with :
      ParsedTemplateVersion T → TemplatedMessage → Map → Result DriverMessage
  execute_with p i m = do
    from ← render_from p.from m i.from
    to_first ← render_first true p.to m i.to
    to ← render_each false p.to m 0 i.to
    cc_first ← render_first false p.cc to.1 i.cc
    cc ← render_each true p.cc to.1 0 i.cc
    bcc_first ← render_first false p.bcc cc.1 i.bcc
    bcc ← render_each false p.bcc cc.1 0 i.cc
    subject ← render_or p.subj bcc.1 i.subject
    html ← render_or p.html bcc.1 i.html_body
    text ← render_or p.text bcc.1 i.text_body
    ok (record {
      message_id = i.message_id;
      from = from;
      to = to_first ++ to.0;
      cc = cc_first ++ cc.0;
      bcc = bcc_first ++ bcc.0;
      subject = subject;
      html_body = html;
      text_body = text;
      reply_to = i.reply_to;
      date = i.date;
      attachments = [];
    })

  module _ (copy : Map → Option Map) where
    -- `ParsedTemplateVersion.Execute`.
    unfoldable pub execute_version :
        ParsedTemplateVersion T → TemplatedMessage → Result DriverMessage
    execute_version p i =
        merge_data copy (some p.version_data) i.template_data >>= λ m. execute_with p i m

    abbrev pub execute_found :
        Option (ParsedTemplateVersion T) → TemplatedMessage → Result DriverMessage
    execute_found none i = err not_found
    execute_found (some p) i = execute_version p i

    -- `ParsedTemplates.Execute`.
    unfoldable pub execute : ParsedTemplates T → TemplatedMessage → Result DriverMessage
    execute ps i = execute_found (find_version ps i.template_name i.template_version) i
