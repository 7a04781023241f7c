-- ===== src/Smtp/Sender.antt =====
-- `smtpSender.redial` and `sendMessage` of email/smtpemail/smtp_sender.go. Times are left out of the
-- event, and the text that `WriteTo` writes is one call.
use blocky_cloud.Prelude.{
  ℕ, zero, suc, Bool, true, false, List, [], ◌∷◌, ◌++◌, Option, none, some, if◌then◌else◌, ltb,
}
use blocky_cloud.Address.Utf8.{Bytes}
use blocky_cloud.Smtp.Codes.{codes}
use blocky_cloud.Smtp.Bounce.{bounce_status_map, choose_status, itoa, extract_msg_bounce_reason}
use blocky_cloud.Smtp.Session.{
  Command, mail, rcpt, reset, data_, write, end_data, SmtpError, eof, protocol, Dialer, dial,
}

-- `driver.BounceType`.
abbrev pub bounce_type_transient : ℕ
bounce_type_transient = 1

abbrev pub bounce_type_permanent : ℕ
bounce_type_permanent = 2

-- `driver.BouncedRecipient`.
pub record BouncedRecipient : Type 0 where
  pub email : Bytes
  pub diagnostic_code : Bytes
  pub status : Bytes

-- The two kinds of `driver.DeliveryEvent` that `sendMessage` makes.
pub data DeliveryEvent : Type 0 where
  bounce : List BouncedRecipient → ℕ → Bytes → DeliveryEvent
  send : Bytes → DeliveryEvent

-- What `sendMessage` returns; `panics` is a call on a nil client.
pub data Sent : Type 0 where
  event : DeliveryEvent → Sent
  failed : SmtpError → Sent
  no_connection : Sent
  panics : Sent

-- The fields of `message` that `sendMessage` reads.
pub record Message : Type 0 where
  pub id : Bytes
  pub from : Bytes
  pub to : List Bytes

-- The recipients that were refused so far, with the greatest type, behind the calls `history`; or
-- the error that ends the loop.
pub data Rcpts : Type 0 where
  rcpts_done : ℕ → List BouncedRecipient → List Command → Rcpts
  rcpts_failed : SmtpError → List Command → Rcpts

-- `if driver.BounceType(res.Type) > bt { bt = driver.BounceType(res.Type) }`.
abbrev pub worse : ℕ → BouncedRecipient → ℕ
worse bt r = let t = (bounce_status_map r.status).type_ in if ltb bt t then t else bt

module _ (is_digit : ℕ → Bool) where
  -- `fmt.Sprintf("smtp: %d %s", protoErr.Code, protoErr.Msg)`.
  abbrev diagnostic : ℕ → Bytes → Bytes
  diagnostic code msg = codes "smtp: " ++ (itoa code ++ b' ' ∷ msg)

  unfoldable pub status_of : ℕ → Bytes → Bytes
  status_of code msg = choose_status (itoa code) (extract_msg_bounce_reason is_digit msg)

  -- The entry of a refused recipient.
  unfoldable pub bounced : Bytes → ℕ → Bytes → BouncedRecipient
  bounced to code msg = record {
    email = to;
    diagnostic_code = diagnostic code msg;
    status = status_of code msg;
  }

  -- A round of the loop over the recipients behind the call of `Rcpt`; `again` is the next round.
  unfoldable pub rcpt_round :
      (ℕ → List BouncedRecipient → Rcpts)
      → Bytes
      → ℕ
      → List BouncedRecipient
      → List Command
      → Option SmtpError
      → Rcpts
  rcpt_round again to bt list h none = again bt list
  rcpt_round again to bt list h (some (protocol code msg)) =
      let r = bounced to code msg in again (worse bt r) (list ++ r ∷ [])
  rcpt_round again to bt list h (some e) = rcpts_failed e (reset ∷ h)

  module _ (reply : List Command → Option SmtpError) where
    unfoldable pub rcpt_loop : List Bytes → ℕ → List BouncedRecipient → List Command → Rcpts
    rcpt_loop [] bt list h = rcpts_done bt list h
    rcpt_loop (to ∷ ts) bt list h =
        let h' = rcpt to ∷ h in
        rcpt_round (λ bt' list'. rcpt_loop ts bt' list' h') to bt list h' (reply h')

    -- `w.Close()` and the event, behind `WriteTo`.
    abbrev pub finish_data : Message → List Command → Option SmtpError → Sent × List Command
    finish_data m h none = (event (send m.id), h)
    finish_data m h (some e) = (failed e, reset ∷ h)

    abbrev pub close_data : Message → List Command → Option SmtpError → Sent × List Command
    close_data m h none = finish_data m (end_data ∷ h) (reply (end_data ∷ h))
    close_data m h (some e) = (failed e, h)

    abbrev pub write_data : Message → List Command → Option SmtpError → Sent × List Command
    write_data m h none = close_data m (write ∷ h) (reply (write ∷ h))
    write_data m h (some e) = (failed e, reset ∷ h)

    abbrev pub finish_bounce :
        Message → ℕ → List BouncedRecipient → List Command → Option SmtpError → Sent × List Command
    finish_bounce m bt list h none = (event (bounce list bt m.id), h)
    finish_bounce m bt list h (some e) = (failed e, h)

    -- All behind the loop over the recipients.
    unfoldable pub deliver : Message → Rcpts → Sent × List Command
    deliver m (rcpts_failed e h) = (failed e, h)
    deliver m (rcpts_done bt [] h) = write_data m (data_ ∷ h) (reply (data_ ∷ h))
    deliver m (rcpts_done bt (r ∷ list) h) =
        finish_bounce m bt (r ∷ list) (reset ∷ h) (reply (reset ∷ h))

    module _ (extension : List Command → Bytes → Option Bytes) where
      -- Behind a call of `Mail`: `again` is the next round, with the client that `redial` has stored
      -- and the calls so far.
      abbrev pub redialed :
          (Bool → List Command → Sent × List Command)
          → Option SmtpError
          → Bool
          → List Command
          → Sent × List Command
      redialed again none client h = again client h
      redialed again (some e) client h = (failed e, h)

      unfoldable pub mail_round :
          (Bool → List Command → Sent × List Command)
          → Dialer
          → Message
          → List Command
          → Option SmtpError
          → Sent × List Command
      mail_round again d m h none = deliver m (rcpt_loop m.to 0 [] h)
      mail_round again d m h (some eof) =
          let r = dial reply extension d h in redialed again r.error r.client r.history
      mail_round again d m h (some e) = (failed e, reset ∷ h)

      -- The loop over `retries`, with whether the sender's client is not nil.
      unfoldable pub mail_loop : ℕ → Dialer → Message → Bool → List Command → Sent × List Command
      mail_loop zero d m client h = (no_connection, h)
      mail_loop (suc retries) d m false h = (panics, h)
      mail_loop (suc retries) d m true h =
          let h' = mail m.from ∷ h in mail_round (mail_loop retries d m) d m h' (reply h')

      unfoldable pub send_message : Dialer → Message → Bool → List Command → Sent × List Command
      send_message = mail_loop 3
