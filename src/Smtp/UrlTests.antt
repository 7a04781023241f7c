-- ===== src/Smtp/UrlTests.antt =====
-- The options of a sender's URL, at concrete inputs: email/smtpemail/urls.go.
use mathlib.Core.List.{Permᴰ}
use blocky_cloud.Prelude.{
  ℤ, pos, negsuc, ℕ, Bool, true, false, [], ◌∷◌, Option, none, some, ◌≡◌, ◌≢◌, refl, arith, ◌<◌,
  if◌then◌else◌,
}
use blocky_cloud.Text.{codes, same}
use blocky_cloud.Address.Utf8.{Bytes}
use blocky_cloud.Smtp.SenderUrl.{
  Settings, encoding_key, max_batch_size_key, max_handlers_key, charset_key, delivery_topic_key,
  unknown_key, base64, quoted_printable, Query, parameter_of, from_string, set_parameter,
  set_values, parse_query, at_least_one, open_sender,
}
use blocky_cloud.Smtp.Session.{login, plain, Dialer}
use blocky_cloud.Smtp.DialerUrl.{
  DialerUrl, accepted, OwnAuth, new_dialer, validate, smtp_auth, is_mechanism, set_dialer,
  set_entry, set_query, finish_dialer, set_address, parse_dialer, parse_dialer_url,
}
use blocky_cloud.Smtp.LoginAuth.{ServerInfo, starts, says, login_start, login_next}
use blocky_cloud.Smtp.LoginHost.{parse_dialer_url-login_start}
use blocky_cloud.Smtp.Anonymous.{IsAnonymous, parse_dialer_url-IsAnonymous}
use blocky_cloud.Smtp.QueryOrder.{value, SetsOnce, parse_query-perm}

-- Keys are lower case already.
abbrev lower : Bytes → Bytes
lower s = s

abbrev number : Bytes → Option ℤ
number s = if same s (codes "3") then some (pos 3) else none

abbrev unset : Settings
unset = record {
  opts = record {
    encoding = quoted_printable;
    max_batch_size = negsuc 0;
    max_handlers = pos 0;
    charset = [];
  };
  topic_url = [];
}

abbrev ordered : Query
ordered = (codes "encoding", codes "b64" ∷ []) ∷ (codes "maxbatchsize", codes "3" ∷ []) ∷ []

abbrev reversed : Query
reversed = (codes "maxbatchsize", codes "3" ∷ []) ∷ (codes "encoding", codes "b64" ∷ []) ∷ []

ordered-SetsOnce : SetsOnce lower number true ordered
unfolding parameter_of same
ordered-SetsOnce encoding_key = omega arith
ordered-SetsOnce max_batch_size_key = omega arith
ordered-SetsOnce max_handlers_key = omega arith
ordered-SetsOnce charset_key = omega arith
ordered-SetsOnce delivery_topic_key = omega arith
ordered-SetsOnce unknown_key = omega arith

parse_query-perm_example :
    value (parse_query lower number true ordered unset)
    ≡ value (parse_query lower number true reversed unset)
parse_query-perm_example =
    parse_query-perm lower number true ordered reversed unset (Permᴰ.swap refl refl)
      ordered-SetsOnce

ordered_parsed :
    value (parse_query lower number true ordered unset)
    ≡ some (record {
      opts = record {
        encoding = base64;
        max_batch_size = pos 3;
        max_handlers = pos 0;
        charset = [];
      };
      topic_url = [];
    })
unfolding parse_query set_values set_parameter parameter_of same from_string
ordered_parsed = refl

-- An unset size is one message per batch.
unset_size : (open_sender unset.opts).batcher_options.max_batch_size ≡ 1
unfolding open_sender at_least_one
unset_size = refl

-- smtp://me:pw@h:3?auth=plain
abbrev with_password : DialerUrl
with_password = record {
  username = codes "me";
  password = codes "pw";
  host_port = codes "h:3";
  query = (codes "auth", codes "plain" ∷ []) ∷ [];
}

abbrev split_server : Bytes → Bytes × Bytes
split_server s = (codes "h", codes "3")

abbrev port_of : Bytes → Option ℕ
port_of s = if same s (codes "3") then some 3 else none

abbrev no_bool : Bytes → Option Bool
no_bool s = none

abbrev its_dialer : Dialer
its_dialer = record {
  host = codes "h";
  port = 3;
  username = [];
  password = [];
  local_name = codes "localhost";
  own_auth = true;
  ssl = false;
}

abbrev its_auth : OwnAuth
its_auth = record { mechanism = plain; username = []; password = []; host = codes "h" }

port_of_bound : (s : Bytes) (n : ℕ) → port_of s ≡ some n → n < 65536
port_of_bound s n h = ground arith

with_password_parsed :
    parse_dialer_url lower no_bool split_server port_of (some with_password)
    ≡ accepted (its_dialer, some its_auth)
unfolding parse_dialer_url parse_dialer new_dialer set_address set_query set_entry set_dialer
    is_mechanism finish_dialer smtp_auth validate same
with_password_parsed = refl

parse_dialer_url-IsAnonymous_example : IsAnonymous its_dialer (some its_auth)
parse_dialer_url-IsAnonymous_example =
    parse_dialer_url-IsAnonymous lower no_bool split_server port_of port_of_bound
      (some with_password) its_dialer (some its_auth) with_password_parsed

-- smtp://me:pw@h:3?auth=login
abbrev with_login : DialerUrl
with_login = record with_password { query = (codes "auth", codes "login" ∷ []) ∷ [] }

abbrev its_login : OwnAuth
its_login = record { mechanism = login; username = []; password = []; host = [] }

abbrev its_server : ServerInfo
its_server = record { name = codes "h"; tls = true; mechanisms = codes "LOGIN" ∷ [] }

with_login_parsed :
    parse_dialer_url lower no_bool split_server port_of (some with_login)
    ≡ accepted (its_dialer, some its_login)
unfolding parse_dialer_url parse_dialer new_dialer set_address set_query set_entry set_dialer
    is_mechanism finish_dialer smtp_auth validate same
with_login_parsed = refl

parse_dialer_url-login_start_example : login_start its_login its_server ≢ starts
parse_dialer_url-login_start_example =
    parse_dialer_url-login_start lower no_bool split_server port_of port_of_bound (some with_login)
      its_dialer its_login its_server with_login_parsed refl refl

-- The answer to a challenge.
asked_for :
    login_next (record its_login { password = codes "pw" }) (codes "Password:") true
    ≡ says (codes "pw")
unfolding login_next same
asked_for = refl
