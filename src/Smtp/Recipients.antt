-- ===== src/Smtp/Recipients.antt =====
-- The recipients of a message, as `sendMessage` (email/smtpemail/smtp_sender.go) offers them one by one.
use blocky_cloud.Prelude.{
  ℕ, Bool, List, [], ◌∷◌, ◌++◌, Option, none, some, ◌≡◌, refl, sym, ◌∙◌, append-nil, append_assoc,
}
use blocky_cloud.Address.Utf8.{Bytes}
use blocky_cloud.Smtp.Session.{Command, rcpt, reset, SmtpError, eof, protocol, other}
use blocky_cloud.Smtp.Sender.{
  BouncedRecipient, worse, bounced, Rcpts, rcpts_done, rcpts_failed, rcpt_round, rcpt_loop,
}

-- The calls behind those of `Rcpt` for all recipients.
abbrev pub after : List Bytes → List Command → List Command
after [] h = h
after (to ∷ ts) h = after ts (rcpt to ∷ h)

-- The type of an event whose recipients so far had the type `bt`.
abbrev pub worst : ℕ → List BouncedRecipient → ℕ
worst bt [] = bt
worst bt (r ∷ rs) = worst (worse bt r) rs

module _ (is_digit : ℕ → Bool) (reply : List Command → Option SmtpError) where
  -- The server takes a recipient or refuses it with a reply, and these are the refused ones.
  pub data IsAnswered : List Bytes → List Command → List BouncedRecipient → Type 0 where
    nobody : {h : List Command} → IsAnswered [] h []
    accepts :
        {to : Bytes} {ts : List Bytes} {h : List Command} {list : List BouncedRecipient}
        → reply (rcpt to ∷ h) ≡ none
        → IsAnswered ts (rcpt to ∷ h) list
        → IsAnswered (to ∷ ts) h list
    refuses :
        {to : Bytes} {ts : List Bytes} {h : List Command} {list : List BouncedRecipient} (code : ℕ)
        (msg : Bytes)
        → reply (rcpt to ∷ h) ≡ some (protocol code msg)
        → IsAnswered ts (rcpt to ∷ h) list
        → IsAnswered (to ∷ ts) h (bounced is_digit to code msg ∷ list)

  pub data IsRcpts (ts : List Bytes) (bt : ℕ) (list : List BouncedRecipient) (h : List Command)
      : Rcpts → Type 0 where
    all :
        (new list' : List BouncedRecipient)
        → IsAnswered ts h new
        → list' ≡ list ++ new
        → IsRcpts ts bt list h (rcpts_done (worst bt new) list' (after ts h))
    stopped :
        (e : SmtpError) (h' : List Command)
        → reply h' ≡ some e
        → IsRcpts ts bt list h (rcpts_failed e (reset ∷ h'))

  IsRcpts-accept :
      {to : Bytes} {ts : List Bytes} {bt : ℕ} {list : List BouncedRecipient} {h : List Command}
      {r : Rcpts}
      → reply (rcpt to ∷ h) ≡ none
      → IsRcpts ts bt list (rcpt to ∷ h) r
      → IsRcpts (to ∷ ts) bt list h r
  IsRcpts-accept q (all new list' a e) = all new list' (accepts q a) e
  IsRcpts-accept q (stopped e h' w) = stopped e h' w

  IsRcpts-refuse :
      {to : Bytes} {ts : List Bytes} {bt : ℕ} {list : List BouncedRecipient} {h : List Command}
      (code : ℕ) (msg : Bytes) {r : Rcpts}
      → reply (rcpt to ∷ h) ≡ some (protocol code msg)
      → (let b = bounced is_digit to code msg in
          IsRcpts ts (worse bt b) (list ++ b ∷ []) (rcpt to ∷ h) r)
      → IsRcpts (to ∷ ts) bt list h r
  IsRcpts-refuse {to} {list = list} code msg q (all new list' a e) =
      let b = bounced is_digit to code msg in
      all (b ∷ new) list' (refuses code msg q a) (e ∙ append_assoc list (b ∷ []) new)
  IsRcpts-refuse code msg q (stopped e h' w) = stopped e h' w

  rcpt_round-IsRcpts :
      (again : ℕ → List BouncedRecipient → Rcpts) (to : Bytes) (ts : List Bytes) (bt : ℕ)
      (list : List BouncedRecipient) (h : List Command)
      → ((bt' : ℕ) (list' : List BouncedRecipient)
          → IsRcpts ts bt' list' (rcpt to ∷ h) (again bt' list'))
      → (o : Option SmtpError) → reply (rcpt to ∷ h) ≡ o
      → IsRcpts (to ∷ ts) bt list h (rcpt_round is_digit again to bt list (rcpt to ∷ h) o)
  unfolding rcpt_round
  rcpt_round-IsRcpts again to ts bt list h ih none q = IsRcpts-accept q (ih bt list)
  rcpt_round-IsRcpts again to ts bt list h ih (some (protocol code msg)) q =
      IsRcpts-refuse code msg q (ih _ _)
  rcpt_round-IsRcpts again to ts bt list h ih (some eof) q = stopped eof (rcpt to ∷ h) q
  rcpt_round-IsRcpts again to ts bt list h ih (some (other e)) q = stopped (other e) (rcpt to ∷ h) q

  -- The loop keeps the refused recipients in their order, with the greatest of their types.
  pub rcpt_loop-IsRcpts :
      (ts : List Bytes) (bt : ℕ) (list : List BouncedRecipient) (h : List Command)
      → IsRcpts ts bt list h (rcpt_loop is_digit reply ts bt list h)
  unfolding rcpt_loop
  rcpt_loop-IsRcpts [] bt list h = all [] list nobody (sym (append-nil list))
  rcpt_loop-IsRcpts (to ∷ ts) bt list h =
      rcpt_round-IsRcpts _ to ts bt list h
        (λ bt' list'. rcpt_loop-IsRcpts ts bt' list' (rcpt to ∷ h)) (reply (rcpt to ∷ h)) refl
