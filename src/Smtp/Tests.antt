-- ===== src/Smtp/Tests.antt =====
-- Runs of `sendMessage` against small servers, and of the functions on bounces.
use blocky_cloud.Prelude.{
  ℕ, true, List, [], ◌∷◌, Option, none, some, ◌==◌, if◌then◌else◌, ◌≡◌, refl, arith, ◌⊎◌, ap, All,
}
use blocky_cloud.Address.Utf8.{Bytes, decode_rune, encode_rune}
use blocky_cloud.Smtp.Codes.{codes}
use blocky_cloud.Smtp.StatusMap.{all_codes}
use blocky_cloud.Text.{same}
use blocky_cloud.Smtp.Bounce.{
  find_info, bounce_status_map, compare_reasons, choose_status, itoa_loop, itoa, extract_loop,
  extract_msg_bounce_reason,
}
use blocky_cloud.Smtp.Session.{
  Command, dial_tcp, new_client, mail, rcpt, reset, data_, write, end_data, hello, SmtpError, eof,
  protocol, Dialer, dial, say_hello, secure, authenticate_with, choose_auth, own, authenticate,
}
use blocky_cloud.Smtp.Sender.{
  BouncedRecipient, bounce, send, Sent, event, failed, panics, Message, status_of, bounced,
  rcpt_round, rcpt_loop, deliver, mail_round, mail_loop, send_message, bounce_type_transient,
}
use blocky_cloud.Smtp.Reasons.{is_ascii_digit, status_of-enhanced, IsCodeChar}
use blocky_cloud.Smtp.LineWriter.{write_bytes, put_all, write_bytes-put_all}
use blocky_cloud.Smtp.Descriptions.{to_text, find_description}
use blocky_cloud.Smtp.Transaction.{IsOutcome, send_message-IsOutcome}
use blocky_cloud.Smtp.Verdict.{IsHard, hard_bounce-transient, send_message_closed}

abbrev alice : Bytes
alice = codes "a@x"

abbrev bob : Bytes
bob = codes "b@x"

abbrev letter : Message
letter = record { id = codes "1"; from = alice; to = alice ∷ bob ∷ [] }

abbrev pub dialer : Dialer
dialer = record {
  host = codes "h";
  port = 25;
  username = [];
  password = [];
  local_name = codes "me";
  own_auth = true;
  ssl = true;
}

abbrev pub no_extension : List Command → Bytes → Option Bytes
no_extension h name = none

abbrev pub takes_all : List Command → Option SmtpError
takes_all h = none

abbrev full_box : List Command → Option SmtpError
full_box (rcpt (b ∷ s) ∷ h) =
    if b == b'a' then some (protocol 550 (codes "5.1.1 no such user")) else none
full_box h = none

abbrev closed : List Command → Option SmtpError
closed (mail s ∷ h) = some eof
closed h = none

-- What `sendMessage` returns for the letter.
sent_to : (List Command → Option SmtpError) → Sent × List Command
unfolding same find_info bounce_status_map all_codes compare_reasons choose_status itoa_loop itoa
    extract_loop extract_msg_bounce_reason status_of bounced rcpt_round rcpt_loop deliver mail_round
    mail_loop send_message decode_rune encode_rune is_ascii_digit dial say_hello secure
    authenticate_with choose_auth
sent_to reply = send_message is_ascii_digit reply no_extension dialer letter true []

sent_all :
    sent_to takes_all
    ≡ (event (send (codes "1")), end_data ∷ write ∷ data_ ∷ rcpt bob ∷ rcpt alice ∷ mail alice ∷ [])
unfolding sent_to
sent_all = refl

sent_half : sent_to full_box ≡ (
  event (
      bounce
        (record {
          email = alice;
          diagnostic_code = codes "smtp: 550 5.1.1 no such user";
          status = codes "5.1.1";
        }
          ∷ [])
        bounce_type_transient
        (codes "1")),
  reset ∷ rcpt bob ∷ rcpt alice ∷ mail alice ∷ [],
)
unfolding sent_to
sent_half = refl

sent_closed :
    sent_to closed
    ≡ (panics, authenticate own ∷ hello (codes "me") ∷ new_client ∷ dial_tcp ∷ mail alice ∷ [])
unfolding sent_to
sent_closed = refl

send_message-IsOutcome_example :
    IsOutcome is_ascii_digit full_box letter []
      (send_message is_ascii_digit full_box no_extension dialer letter true [])
send_message-IsOutcome_example =
    send_message-IsOutcome is_ascii_digit full_box no_extension dialer letter []

abbrev rest_of_code : Bytes
rest_of_code = codes ".1.1"

dot : IsCodeChar b'.'
unfolding is_ascii_digit
dot = record { holds = refl }

one : IsCodeChar b'1'
unfolding is_ascii_digit
one = record { holds = refl }

rest_of_code-IsCodeChar : All IsCodeChar rest_of_code
rest_of_code-IsCodeChar = (dot, (one, (dot, (one, tt))))

known_code : (bounce_status_map (b'5' ∷ rest_of_code)).specific ≡ true
unfolding bounce_status_map find_info all_codes same
known_code = refl

starts_with_digit : is_ascii_digit b'5' ≡ true
unfolding is_ascii_digit
starts_with_digit = refl

status_of-enhanced_example :
    status_of is_ascii_digit 550 (codes " 5.1.1 no such user") ≡ codes "5.1.1"
status_of-enhanced_example =
    status_of-enhanced is_ascii_digit (λ b h. refl) 550 1 b'5' rest_of_code (codes "no such user")
      starts_with_digit rest_of_code-IsCodeChar known_code

abbrev refused : BouncedRecipient
refused = record {
  email = alice;
  diagnostic_code = codes "smtp: 550 5.1.1 no such user";
  status = codes "5.1.1";
}

refused-IsHard : All IsHard (refused ∷ [])
unfolding bounce_status_map find_info all_codes same
refused-IsHard = (record { hard = refl }, tt)

full_box_event :
    (send_message is_ascii_digit full_box no_extension dialer letter true []).0
    ≡ event (bounce (refused ∷ []) bounce_type_transient (codes "1"))
full_box_event = unfold sent_to in ap (λ s. s.0) sent_half

hard_bounce-transient_example : ◌≡◌ {A = ℕ} bounce_type_transient bounce_type_transient
hard_bounce-transient_example =
    hard_bounce-transient is_ascii_digit full_box no_extension dialer letter [] (refused ∷ [])
      bounce_type_transient (codes "1") full_box_event refused-IsHard

-- The connection is closed at `Mail`, and a new one is made.
send_message_closed_example :
    let r = dial closed no_extension dialer (mail alice ∷ []) in
    let s = (send_message is_ascii_digit closed no_extension dialer letter true []).0 in
    ((e : SmtpError) × (r.error ≡ some e) × (s ≡ failed e)) ⊎ ((r.error ≡ none) × (s ≡ panics))
send_message_closed_example =
    send_message_closed is_ascii_digit closed no_extension dialer letter [] refl

write_bytes-put_all_example :
    write_bytes (record { output = codes "ab"; line_len = 76 }) (codes "cd")
    ≡ put_all (record { output = codes "ab"; line_len = 76 }) (codes "cd")
write_bytes-put_all_example =
    write_bytes-put_all (record { output = codes "ab"; line_len = 76 }) (codes "cd") (omega arith)

-- The text of `bounceReason.String`.
full_text : to_text (codes "452") ≡ codes "452 - action aborted: insufficient system storage"
unfolding to_text find_description all_codes same
full_text = refl

no_text : to_text [] ≡ codes "no bounce reason found"
unfolding to_text
no_text = refl
