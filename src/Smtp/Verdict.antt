-- ===== src/Smtp/Verdict.antt =====
-- The verdict of a bounce event, and what a closed connection ends in: smtp_sender.go and dialer.go of
-- email/smtpemail.
use blocky_cloud.Prelude.{
  ℕ, Bool, true, false, List, [], ◌∷◌, Option, none, some, ◌≡◌, refl, All, suc, ◌⊎◌, inl, inr,
}
use mathlib.Core.Path.{subst}
use blocky_cloud.Address.Utf8.{Bytes}
use blocky_cloud.Smtp.StatusMap.{hard_bounce}
use blocky_cloud.Smtp.Bounce.{bounce_status_map}
use blocky_cloud.Smtp.Session.{Command, mail, SmtpError, eof, Dialer, Dialed, dial}
use blocky_cloud.Smtp.Sender.{
  BouncedRecipient, bounce, Sent, event, failed, panics, Message, mail_round, mail_loop,
  send_message, redialed, bounce_type_transient,
}
use blocky_cloud.Smtp.Recipients.{worst}
use blocky_cloud.Smtp.Transaction.{
  dial_client, IsOutcome, delivered, bounced_back, broken, not_reset, half_written, lost, crashed,
  send_message-IsOutcome,
}

-- A recipient whose status the map calls a hard bounce.
pub record IsHard (r : BouncedRecipient) : Type 0 where
  pub hard : (bounce_status_map r.status).type_ ≡ hard_bounce

worst-IsHard : (rs : List BouncedRecipient) → All IsHard rs → worst hard_bounce rs ≡ hard_bounce
worst-IsHard [] p = refl
worst-IsHard (r ∷ rs) (h, p) = rw (h.hard) (worst-IsHard rs p)

-- An event, if it is a bounce of hard bounces only, is transient.
unfoldable pub IsTransient : Sent → Type 0
IsTransient (event (bounce list bt id)) = All IsHard list → bt ≡ bounce_type_transient
IsTransient _ = Unit {0}

module _ (is_digit : ℕ → Bool) (reply : List Command → Option SmtpError)
    (extension : List Command → Bytes → Option Bytes) where
  IsOutcome-IsTransient :
      (m : Message) (h : List Command) (s : Sent × List Command)
      → IsOutcome is_digit reply m h s
      → IsTransient s.0
  unfolding IsTransient
  IsOutcome-IsTransient m h s (bounced_back r rs q a) = λ p. rw (p.0.hard) (worst-IsHard rs p.1)
  IsOutcome-IsTransient m h s (delivered q a) = tt
  IsOutcome-IsTransient m h s (broken e h' q) = tt
  IsOutcome-IsTransient m h s (not_reset e r rs a q) = tt
  IsOutcome-IsTransient m h s (half_written e q) = tt
  IsOutcome-IsTransient m h s (lost e h' q) = tt
  IsOutcome-IsTransient m h s (crashed h' q) = tt

  -- If all recipients of a bounce event have a status that the map calls a hard bounce, the event's
  -- type is transient.
  pub hard_bounce-transient :
      (d : Dialer) (m : Message) (h : List Command) (list : List BouncedRecipient) (bt : ℕ)
      (id : Bytes)
      → (send_message is_digit reply extension d m true h).0 ≡ event (bounce list bt id)
      → All IsHard list
      → bt ≡ bounce_type_transient
  unfolding IsTransient
  hard_bounce-transient d m h list bt id e p =
      subst (λ x. IsTransient x) e
        (IsOutcome-IsTransient m h _ (send_message-IsOutcome is_digit reply extension d m h)) p

  redialed_closed :
      (d : Dialer) (m : Message) (r : Dialed) (n : ℕ) (o : Option SmtpError)
      → r.client ≡ false
      → r.error ≡ o
      → let s =
          (redialed is_digit reply extension
            (mail_loop is_digit reply extension (suc n) d m)
            o
            r.client
            r.history).0 in
        ((e : SmtpError) × (r.error ≡ some e) × (s ≡ failed e)) ⊎ ((r.error ≡ none) × (s ≡ panics))
  unfolding mail_loop
  redialed_closed d m r n none c w = inr (w, rw c refl)
  redialed_closed d m r n (some e) c w = inl (e, w, refl)

  -- If the server has closed the connection by the time of `Mail`, `sendMessage` fails with the error
  -- of `dial`, or it calls a nil client.
  pub send_message_closed :
      (d : Dialer) (m : Message) (h : List Command)
      → reply (mail m.from ∷ h) ≡ some eof
      → let r = dial reply extension d (mail m.from ∷ h) in
        let s = (send_message is_digit reply extension d m true h).0 in
        ((e : SmtpError) × (r.error ≡ some e) × (s ≡ failed e)) ⊎ ((r.error ≡ none) × (s ≡ panics))
  unfolding send_message mail_loop mail_round
  send_message_closed d m h q = rw q (
      redialed_closed d m (dial reply extension d (mail m.from ∷ h)) 1 _
        (dial_client reply extension d (mail m.from ∷ h)) refl)
