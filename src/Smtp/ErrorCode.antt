-- ===== src/Smtp/ErrorCode.antt =====
-- `errorCode` of email/smtpemail/message_sender.go: the gRPC code of an error of the driver. The code and the
-- text of a `protocol` error are those of the `textproto.Error` that `errors.As` finds; no other error has one.
use blocky_cloud.Prelude.{ℕ, Bool, true, false, ◌==◌, ◌||◌, ◌&&◌, if◌then◌else◌, ◌≡◌, arith}
use blocky_cloud.Text.{codes}
use blocky_cloud.Address.Utf8.{Bytes}
use blocky_cloud.Smtp.Session.{contains, SmtpError, eof, protocol, other}

-- The names of package codes that `errorCode` uses.
pub data GrpcCode : Type 0 where
  invalid_argument not_found permission_denied resource_exhausted failed_precondition : GrpcCode
  unimplemented internal unavailable unauthenticated : GrpcCode

-- The cases 451 and 550, which read the text.
unfoldable pub aborted_code : Bytes → GrpcCode
aborted_code msg =
    if contains msg (codes "Authentication") then unauthenticated else failed_precondition

unfoldable pub refused_code : Bytes → GrpcCode
refused_code msg =
    if contains msg (codes "bad requests")
    then invalid_argument
    else if contains msg (codes "spam")
    then failed_precondition
    else invalid_argument

unfoldable pub reply_code : ℕ → Bytes → GrpcCode
reply_code n msg =
    if n == 403
    then permission_denied
    else if n == 421
    then resource_exhausted
    else if n == 450 || n == 452
    then unavailable
    else if n == 451
    then aborted_code msg
    else if n == 455
    then internal
    else if n == 500 || n == 501 || n == 503
    then internal
    else if n == 502 || n == 504
    then unimplemented
    else if n == 510
    then invalid_argument
    else if n == 512
    then not_found
    else if n == 530 || n == 535 || n == 538
    then unauthenticated
    else if n == 541
    then failed_precondition
    else if n == 550
    then refused_code msg
    else if n == 552
    then resource_exhausted
    else if n == 553
    then invalid_argument
    else internal

unfoldable pub error_code : SmtpError → GrpcCode
error_code (protocol n msg) = reply_code n msg
error_code eof = internal
error_code (other msg) = internal

abbrev is_unauthenticated : GrpcCode → Bool
is_unauthenticated unauthenticated = true
is_unauthenticated _ = false

-- An error is Unauthenticated exactly for the replies 530, 535 and 538, and 451 with the word in its text.
reply_code_unauthenticated :
    (n : ℕ) (msg : Bytes)
    → is_unauthenticated (reply_code n msg)
      ≡ (n == 530 || n == 535 || n == 538 || (n == 451 && contains msg (codes "Authentication")))
unfolding reply_code aborted_code refused_code
reply_code_unauthenticated n msg = ground arith
