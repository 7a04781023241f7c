-- ===== src/Smtp/Transaction.antt =====
-- What a conversation of `sendMessage` (email/smtpemail/smtp_sender.go) amounts to.
use blocky_cloud.Prelude.{
  ℕ, suc, Bool, true, false, List, [], ◌∷◌, Option, none, some, ◌≡◌, refl, arith,
}
use blocky_cloud.Address.Utf8.{Bytes}
use blocky_cloud.Smtp.Session.{
  Command, mail, reset, data_, write, end_data, SmtpError, eof, protocol, other, Dialer, Dialed,
  dial, say_hello, secure, authenticate_with,
}
use blocky_cloud.Smtp.Sender.{
  BouncedRecipient, bounce, send, Sent, event, failed, panics, Message, Rcpts, finish_data,
  close_data, write_data, finish_bounce, redialed, rcpts_done, deliver, mail_round, mail_loop,
  send_message,
}
use blocky_cloud.Smtp.Recipients.{
  after, worst, IsAnswered, IsRcpts, all, stopped, rcpt_loop-IsRcpts,
}

module _ (reply : List Command → Option SmtpError)
    (extension : List Command → Bytes → Option Bytes) where
  -- `dial` never returns a client.
  pub dial_client : (d : Dialer) (h : List Command) → (dial reply extension d h).client ≡ false
  unfolding dial say_hello secure authenticate_with
  dial_client d h = ground arith

module _ (is_digit : ℕ → Bool) (reply : List Command → Option SmtpError) where
  -- The ways in which a call of `sendMessage` may end: what it returns, and the calls so far.
  pub data IsOutcome (m : Message) (h : List Command) : Sent × List Command → Type 0 where
    -- Every recipient was taken, and then the message, to its end.
    delivered :
        reply (mail m.from ∷ h) ≡ none
        → IsAnswered is_digit reply m.to (mail m.from ∷ h) []
        → IsOutcome m h (event (send m.id), end_data ∷ write ∷ data_ ∷ after m.to (mail m.from ∷ h))
    -- The refused recipients are reported, and the conversation is reset before any data.
    bounced_back :
        (r : BouncedRecipient) (rs : List BouncedRecipient)
        → reply (mail m.from ∷ h) ≡ none
        → IsAnswered is_digit reply m.to (mail m.from ∷ h) (r ∷ rs)
        → IsOutcome m h
            (event (bounce (r ∷ rs) (worst 0 (r ∷ rs)) m.id), reset ∷ after m.to (mail m.from ∷ h))
    -- The error of a call, behind which the conversation is reset.
    broken :
        (e : SmtpError) (h' : List Command)
        → reply h' ≡ some e
        → IsOutcome m h (failed e, reset ∷ h')
    -- The conversation could not be reset behind a refusal.
    not_reset :
        (e : SmtpError) (r : BouncedRecipient) (rs : List BouncedRecipient)
        → IsAnswered is_digit reply m.to (mail m.from ∷ h) (r ∷ rs)
        → reply (reset ∷ after m.to (mail m.from ∷ h)) ≡ some e
        → IsOutcome m h (failed e, reset ∷ after m.to (mail m.from ∷ h))
    -- The message could not be written, and the conversation stays within the data.
    half_written :
        (e : SmtpError)
        → reply (write ∷ data_ ∷ after m.to (mail m.from ∷ h)) ≡ some e
        → IsOutcome m h (failed e, write ∷ data_ ∷ after m.to (mail m.from ∷ h))
    -- The server had closed the connection, and another could not be made.
    lost :
        (e : SmtpError) (h' : List Command)
        → reply (mail m.from ∷ h) ≡ some eof
        → IsOutcome m h (failed e, h')
    -- The server had closed the connection, and the new client is nil.
    crashed : (h' : List Command) → reply (mail m.from ∷ h) ≡ some eof → IsOutcome m h (panics, h')

  -- The calls of `Mail` and of `Rcpt` for all recipients.
  abbrev envelope : Message → List Command → List Command
  envelope m h = after m.to (mail m.from ∷ h)

  module _ (m : Message) (h : List Command) (q : reply (mail m.from ∷ h) ≡ none) where
    finish_data-IsOutcome :
        IsAnswered is_digit reply m.to (mail m.from ∷ h) []
        → (o : Option SmtpError) → reply (end_data ∷ write ∷ data_ ∷ envelope m h) ≡ o
        → IsOutcome m h (finish_data is_digit reply m (end_data ∷ write ∷ data_ ∷ envelope m h) o)
    finish_data-IsOutcome a none w = delivered q a
    finish_data-IsOutcome a (some e) w = broken e (end_data ∷ write ∷ data_ ∷ envelope m h) w

    close_data-IsOutcome :
        IsAnswered is_digit reply m.to (mail m.from ∷ h) []
        → (o : Option SmtpError) → reply (write ∷ data_ ∷ envelope m h) ≡ o
        → IsOutcome m h (close_data is_digit reply m (write ∷ data_ ∷ envelope m h) o)
    close_data-IsOutcome a none w = finish_data-IsOutcome a (reply _) refl
    close_data-IsOutcome a (some e) w = half_written e w

    write_data-IsOutcome :
        IsAnswered is_digit reply m.to (mail m.from ∷ h) []
        → (o : Option SmtpError) → reply (data_ ∷ envelope m h) ≡ o
        → IsOutcome m h (write_data is_digit reply m (data_ ∷ envelope m h) o)
    write_data-IsOutcome a none w = close_data-IsOutcome a (reply _) refl
    write_data-IsOutcome a (some e) w = broken e (data_ ∷ envelope m h) w

    finish_bounce-IsOutcome :
        (r : BouncedRecipient) (rs : List BouncedRecipient)
        → IsAnswered is_digit reply m.to (mail m.from ∷ h) (r ∷ rs)
        → (o : Option SmtpError) → reply (reset ∷ envelope m h) ≡ o
        → IsOutcome m h
            (finish_bounce is_digit reply m (worst 0 (r ∷ rs)) (r ∷ rs) (reset ∷ envelope m h) o)
    finish_bounce-IsOutcome r rs a none w = bounced_back r rs q a
    finish_bounce-IsOutcome r rs a (some e) w = not_reset e r rs a w

    deliver-done :
        (new : List BouncedRecipient)
        → IsAnswered is_digit reply m.to (mail m.from ∷ h) new
        → IsOutcome m h (deliver is_digit reply m (rcpts_done (worst 0 new) new (envelope m h)))
    unfolding deliver
    deliver-done [] a = write_data-IsOutcome a (reply _) refl
    deliver-done (r ∷ rs) a = finish_bounce-IsOutcome r rs a (reply _) refl

    deliver-IsOutcome :
        (r : Rcpts)
        → IsRcpts is_digit reply m.to 0 [] (mail m.from ∷ h) r
        → IsOutcome m h (deliver is_digit reply m r)
    deliver-IsOutcome r (stopped e h' w) = unfold deliver in broken e h' w
    deliver-IsOutcome r (all new list' a e) = rw e (deliver-done new a)

  module _ (extension : List Command → Bytes → Option Bytes) where
    -- A closed connection is not replaced: the next call is one on a nil client.
    redialed_lem :
        (d : Dialer) (m : Message) (n : ℕ) (h h' : List Command) (r : Dialed)
        → reply (mail m.from ∷ h) ≡ some eof
        → r.client ≡ false
        → (o : Option SmtpError)
        → IsOutcome m h (
            redialed is_digit reply extension
              (mail_loop is_digit reply extension (suc n) d m)
              o
              r.client
              r.history)
    unfolding mail_loop
    redialed_lem d m n h h' r q c none = rw c (crashed r.history q)
    redialed_lem d m n h h' r q c (some e) = lost e r.history q

    mail_round-IsOutcome :
        (n : ℕ) (d : Dialer) (m : Message) (h : List Command) (o : Option SmtpError)
        → reply (mail m.from ∷ h) ≡ o
        → IsOutcome m h (
            mail_round is_digit reply extension
              (mail_loop is_digit reply extension (suc n) d m)
              d
              m
              (mail m.from ∷ h)
              o)
    unfolding mail_round
    mail_round-IsOutcome n d m h none q =
        deliver-IsOutcome m h q _ (rcpt_loop-IsRcpts is_digit reply m.to 0 [] (mail m.from ∷ h))
    mail_round-IsOutcome n d m h (some eof) q =
        let r = dial reply extension d (mail m.from ∷ h) in
        redialed_lem d m n h r.history r q (dial_client reply extension d (mail m.from ∷ h)) r.error
    mail_round-IsOutcome n d m h (some (protocol code msg)) q = broken (protocol code msg) _ q
    mail_round-IsOutcome n d m h (some (other e)) q = broken (other e) _ q

    -- With a client, `sendMessage` ends in one of the ways of `IsOutcome`.
    pub send_message-IsOutcome :
        (d : Dialer) (m : Message) (h : List Command)
        → IsOutcome m h (send_message is_digit reply extension d m true h)
    unfolding send_message mail_loop
    send_message-IsOutcome d m h = mail_round-IsOutcome 1 d m h (reply (mail m.from ∷ h)) refl
