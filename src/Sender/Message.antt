-- ===== src/Sender/Message.antt =====
-- The messages of the portable senders, and how `Send` turns them into those of a driver:
-- email/message.go, email/templated_message.go, email/message_sender.go, email/templated_sender.go.
use blocky_cloud.Prelude.{ℕ, ◌+◌, Bool, List, [], ◌∷◌, map, if◌then◌else◌, length}
use blocky_cloud.Address.Utf8.{Bytes}
use blocky_cloud.Address.Lexer.{is_empty}
use blocky_cloud.Smtp.Message.{Attachment, DriverMessage}
use blocky_cloud.Template.Data.{Data}
use blocky_cloud.Template.Execute.{TemplatedMessage}

-- `Attachment` of email/attachment.go; the text stands for its file.
pub record EmailAttachment : Type 0 where
  pub attachment_id : Bytes
  pub content_id : Bytes
  pub file : Bytes
  pub filename : Bytes
  pub attachment_type : Bytes
  pub inline : Bool

-- `Message` of email/message.go, without its callbacks. A time is a number, 0 for the zero time.
pub record EmailMessage : Type 0 where
  pub message_id : Bytes
  pub from : Bytes
  pub to : List Bytes
  pub cc : List Bytes
  pub bcc : List Bytes
  pub html_body : Bytes
  pub text_body : Bytes
  pub subject : Bytes
  pub attachments : List EmailAttachment
  pub reply_to : Bytes
  pub date : ℕ

-- `TemplatedMessage` of email/templated_message.go.
pub record EmailTemplate : Type 0 where
  pub message : EmailMessage
  pub template_name : Bytes
  pub template_version : Bytes
  pub template_data : Data

unfoldable pub driver_attachment : EmailAttachment → Attachment
driver_attachment a = record {
  content_id = a.content_id;
  filename = a.filename;
  attachment_type = a.attachment_type;
  inline = a.inline;
  text = a.file;
}

-- The message that `Sender.Send` hands to the batcher.
unfoldable pub driver_message : EmailMessage → DriverMessage
driver_message m = record {
  message_id = m.message_id;
  from = m.from;
  to = m.to;
  cc = m.cc;
  bcc = m.bcc;
  subject = m.subject;
  html_body = m.html_body;
  text_body = m.text_body;
  reply_to = m.reply_to;
  date = m.date;
  attachments = map driver_attachment m.attachments;
}

-- The message that `TemplatedSender.Send` hands to the batcher.
unfoldable pub driver_templated_message : EmailTemplate → TemplatedMessage
driver_templated_message t = record {
  message_id = t.message.message_id;
  from = t.message.from;
  to = t.message.to;
  cc = t.message.cc;
  bcc = t.message.bcc;
  html_body = t.message.html_body;
  text_body = t.message.text_body;
  subject = t.message.subject;
  attachments = map driver_attachment t.message.attachments;
  date = t.message.date;
  reply_to = t.message.reply_to;
  template_name = t.template_name;
  template_data = t.template_data;
  template_version = t.template_version;
}

-- The loop over the attachments of the size function; `Size()` is the length of the file.
unfoldable pub attachment_sizes : List Attachment → ℕ
attachment_sizes [] = 0
attachment_sizes (a ∷ as_) = length a.text + attachment_sizes as_

-- The size function of `newSenderBatcher`.
unfoldable pub message_size : DriverMessage → ℕ
message_size d =
    (if is_empty d.html_body then 0 else 1)
    + (if is_empty d.text_body then 0 else 1)
    + attachment_sizes d.attachments
