-- ===== src/Smtp/Session.antt =====
-- A conversation with an SMTP server, and `Dialer.dial` of email/smtpemail/dialer.go.
-- The server and the network are the parameter `reply`: what a call returns, given all calls of the
-- conversation so far, the newest first and the call itself among them. `extension` is what
-- `Client.Extension` finds in the server's greeting.
use blocky_cloud.Prelude.{
  ℕ, Bool, true, false, not, ◌&&◌, ◌||◌, List, [], ◌∷◌, Option, none, some, ◌==◌, if◌then◌else◌,
}
use blocky_cloud.Address.Utf8.{Bytes}
use blocky_cloud.Address.Lexer.{is_empty}
use blocky_cloud.Smtp.Codes.{codes}

-- The mechanism of an authentication: the dialer's own, or one of those that `dial` chooses from.
pub data Auth : Type 0 where
  own : Auth
  cram_md5 : Auth
  login : Auth
  plain : Auth

-- The calls that reach the network.
pub data Command : Type 0 where
  dial_tcp : Command
  new_client : Command
  hello : Bytes → Command
  start_tls : Command
  authenticate : Auth → Command
  close : Command
  mail : Bytes → Command
  rcpt : Bytes → Command
  reset : Command
  data_ : Command
  write : Command
  end_data : Command

-- `io.EOF`, a `textproto.Error` with its code and its text, and any other error.
pub data SmtpError : Type 0 where
  eof : SmtpError
  protocol : ℕ → Bytes → SmtpError
  other : Bytes → SmtpError

-- `own_auth` says whether the field `Auth` is set.
pub record Dialer : Type 0 where
  pub host : Bytes
  pub port : ℕ
  pub username : Bytes
  pub password : Bytes
  pub local_name : Bytes
  pub own_auth : Bool
  pub ssl : Bool

-- `strings.Contains(s, sub)`.
unfoldable pub starts_with : Bytes → Bytes → Bool
starts_with s [] = true
starts_with [] (a ∷ sub) = false
starts_with (b ∷ s) (a ∷ sub) = a == b && starts_with s sub

unfoldable pub contains : Bytes → Bytes → Bool
contains [] sub = is_empty sub
contains (b ∷ s) sub = starts_with (b ∷ s) sub || contains s sub

-- The authentication that `dial` uses, from the server's extension AUTH.
abbrev offered : Option Bytes → Option Auth
offered none = none
offered (some auths) =
    if contains auths (codes "CRAM-MD5")
    then some cram_md5
    else if contains auths (codes "LOGIN") && not (contains auths (codes "PLAIN"))
    then some login
    else some plain

unfoldable pub choose_auth : Dialer → Option Bytes → Option Auth
choose_auth d auths =
    if d.own_auth then some own else if not (is_empty d.username) then offered auths else none

-- What `dial` returns: the client, `true` where it is not nil, and the error; and the calls so far.
pub record Dialed : Type 0 where
  pub client : Bool
  pub error : Option SmtpError
  pub history : List Command

abbrev failed_dial : SmtpError → List Command → Dialed
failed_dial e h = record { client = false; error = some e; history = h }

module _ (reply : List Command → Option SmtpError)
    (extension : List Command → Bytes → Option Bytes) where
  -- `c` with what follows it where it succeeds.
  abbrev then_call : List Command → (List Command → Dialed) → Option SmtpError → Dialed
  then_call h next none = next h
  then_call h next (some e) = failed_dial e h

  -- The same for a call whose error has the connection closed.
  abbrev or_close : List Command → (List Command → Dialed) → Option SmtpError → Dialed
  or_close h next none = next h
  or_close h next (some e) = failed_dial e (close ∷ h)

  -- The last line of `dial` returns a nil client and no error.
  abbrev finish_dial : List Command → Dialed
  finish_dial h = record { client = false; error = none; history = h }

  abbrev auth_step : Option Auth → List Command → Dialed
  auth_step none h = finish_dial h
  auth_step (some a) h = or_close (authenticate a ∷ h) finish_dial (reply (authenticate a ∷ h))

  unfoldable pub authenticate_with : Dialer → List Command → Dialed
  authenticate_with d h = auth_step (choose_auth d (extension h (codes "AUTH"))) h

  abbrev tls_offered : Dialer → List Command → Option Bytes → Dialed
  tls_offered d h none = authenticate_with d h
  tls_offered d h (some _) = or_close (start_tls ∷ h) (authenticate_with d) (reply (start_tls ∷ h))

  unfoldable pub secure : Dialer → List Command → Dialed
  secure d h =
      if not d.ssl then tls_offered d h (extension h (codes "STARTTLS")) else authenticate_with d h

  unfoldable pub say_hello : Dialer → List Command → Dialed
  say_hello d h =
      let c = hello d.local_name in
      if not (is_empty d.local_name)
      then then_call (c ∷ h) (secure d) (reply (c ∷ h))
      else secure d h

  abbrev greet : Dialer → List Command → Dialed
  greet d h = then_call (new_client ∷ h) (say_hello d) (reply (new_client ∷ h))

  unfoldable pub dial : Dialer → List Command → Dialed
  dial d h = then_call (dial_tcp ∷ h) (greet d) (reply (dial_tcp ∷ h))
