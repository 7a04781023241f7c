-- ===== src/Smtp/LoginAuth.antt =====
-- `loginAuth` of email/smtpemail/login_auth.go. `ServerInfo` is the one of `net/smtp`.
use blocky_cloud.Prelude.{Bool, not, ◌&&◌, List, [], ◌∷◌, false, true, if◌then◌else◌}
use blocky_cloud.Text.{codes, same}
use blocky_cloud.Address.Utf8.{Bytes}
use blocky_cloud.Smtp.DialerUrl.{OwnAuth}

pub record ServerInfo : Type 0 where
  pub name : Bytes
  pub tls : Bool
  pub mechanisms : List Bytes

-- What `Start` returns: the mechanism LOGIN, or one of its errors.
pub data Started : Type 0 where
  starts : Started
  unencrypted : Started
  wrong_host : Started

-- What `Next` returns.
pub data LoginAnswer : Type 0 where
  silent : LoginAnswer
  says : Bytes → LoginAnswer
  unexpected : Bytes → LoginAnswer

-- The loop over `server.Auth`.
unfoldable pub is_advertised : List Bytes → Bool
is_advertised [] = false
is_advertised (m ∷ ms) = if same m (codes "LOGIN") then true else is_advertised ms

unfoldable pub login_start : OwnAuth → ServerInfo → Started
login_start a server =
    if not server.tls && not (is_advertised server.mechanisms)
    then unencrypted
    else if not (same server.name a.host)
    then wrong_host
    else starts

unfoldable pub login_next : OwnAuth → Bytes → Bool → LoginAnswer
login_next a from_server more =
    if not more
    then silent
    else if same from_server (codes "Username:")
    then says a.username
    else if same from_server (codes "Password:")
    then says a.password
    else unexpected from_server
