-- ===== src/Smtp/DialerUrl.antt =====
-- `ParseDialerURL` and `Dialer.Validate` of email/smtpemail/dialer.go, and `smtpAuth` of
-- email/smtpemail/urls.go. A URL is what `url.Parse` makes of it: the name and password of its user, both
-- empty where it has none, its `Host` and the entries of its query. `net.SplitHostPort`, without its error,
-- `strconv.ParseUint` for 16 bits, `strconv.ParseBool` and `strings.ToLower` are parameters.
use blocky_cloud.Prelude.{
  ℕ, Bool, true, false, ◌==◌, List, [], ◌∷◌, Option, none, some, ◌||◌, if◌then◌else◌,
}
use blocky_cloud.Text.{codes, same}
use blocky_cloud.Address.Utf8.{Bytes}
use blocky_cloud.Address.Lexer.{is_empty}
use blocky_cloud.Smtp.Session.{Auth, cram_md5, login, plain, Dialer}

pub record DialerUrl : Type 0 where
  pub username : Bytes
  pub password : Bytes
  pub host_port : Bytes
  pub query : List (Bytes × List Bytes)

pub data UrlError : Type 0 where
  bad_url : UrlError
  bad_port : UrlError
  bad_parameter : UrlError
  bad_auth : UrlError
  missing_host : UrlError
  missing_port : UrlError

pub data Checked (A : Type 0) : Type 0 where
  accepted : A → Checked A
  refused : UrlError → Checked A

-- What an `smtp.Auth` of the dialer's own is made of.
pub record OwnAuth : Type 0 where
  pub mechanism : Auth
  pub username : Bytes
  pub password : Bytes
  pub host : Bytes

abbrev pub and_then : {A B : Type 0} → Checked A → (A → Checked B) → Checked B
and_then (accepted a) next = next a
and_then (refused e) next = refused e

-- `d := Dialer{LocalName: "localhost"}`, with the credentials that are assigned to it.
unfoldable pub new_dialer : DialerUrl → Dialer
new_dialer u = record {
  host = [];
  port = 0;
  username = if is_empty u.username then u.username else [];
  password = if is_empty u.password then u.password else [];
  local_name = codes "localhost";
  own_auth = false;
  ssl = false;
}

-- `Validate`: its error, where there is one.
unfoldable pub validate : Dialer → Option UrlError
validate d =
    if is_empty d.host then some missing_host else if d.port == 0 then some missing_port else none

abbrev pub validated : {A : Type 0} → A → Option UrlError → Checked A
validated a none = accepted a
validated a (some e) = refused e

module _ (to_lower : Bytes → Bytes) where
  -- `smtpAuth`; a `loginAuth` has no host.
  unfoldable pub smtp_auth : Bytes → Bytes → Bytes → Bytes → Checked OwnAuth
  smtp_auth user pass host auth =
      let a = to_lower auth in
      if same a (codes "plain")
      then accepted (record { mechanism = plain; username = user; password = pass; host = host })
      else if same a (codes "login")
      then accepted (record { mechanism = login; username = user; password = pass; host = [] })
      else if same a (codes "md5")
      then accepted (record { mechanism = cram_md5; username = user; password = pass; host = [] })
      else refused bad_auth

  unfoldable pub is_mechanism : Bytes → Bool
  is_mechanism auth =
      let a = to_lower auth in
      same a (codes "plain") || same a (codes "login") || same a (codes "md5")

  module _ (parse_bool : Bytes → Option Bool) where
    abbrev pub with_bool : Dialer × Bytes → Option Bool → Checked (Dialer × Bytes)
    with_bool s none = refused bad_parameter
    with_bool s (some b) = accepted (record s.0 { ssl = b }, s.1)

    unfoldable pub set_ssl : Bytes → Dialer × Bytes → Checked (Dialer × Bytes)
    set_ssl v s =
        if is_empty v then accepted (record s.0 { ssl = true }, s.1) else with_bool s (parse_bool v)

    -- A round of the loop for a key with one value: the dialer and `auth`.
    unfoldable pub set_dialer : Bytes → Bytes → Dialer × Bytes → Checked (Dialer × Bytes)
    set_dialer k v s =
        if same k (codes "localname")
        then accepted (record s.0 { local_name = v }, s.1)
        else if same k (codes "ssl")
        then set_ssl v s
        else if same k (codes "auth")
        then (if is_mechanism v then accepted (s.0, v) else refused bad_parameter)
        else refused bad_parameter

    -- Any other number of values is refused, for every key.
    unfoldable pub set_entry : Bytes → List Bytes → Dialer × Bytes → Checked (Dialer × Bytes)
    set_entry k [] s = refused bad_parameter
    set_entry k (v ∷ []) s = set_dialer (to_lower k) v s
    set_entry k (v ∷ w ∷ vs) s = refused bad_parameter

    unfoldable pub set_query : List (Bytes × List Bytes) → Dialer × Bytes → Checked (Dialer × Bytes)
    set_query [] s = accepted s
    set_query ((k, v) ∷ query) s = and_then (set_entry k v s) (set_query query)

    -- The authentication and the validation behind the loop.
    unfoldable pub finish_dialer : Dialer × Bytes → Checked (Dialer × Option OwnAuth)
    finish_dialer (d, auth) =
        if is_empty auth
        then validated (d, none) (validate d)
        else and_then (smtp_auth d.username d.password d.host auth) (λ a.
          let d' : Dialer = record d { own_auth = true } in validated (d', some a) (validate d'))

    module _ (split_host_port : Bytes → Bytes × Bytes) (parse_uint : Bytes → Option ℕ) where
      abbrev pub with_port : Dialer → Option ℕ → Checked Dialer
      with_port d none = refused bad_port
      with_port d (some n) = accepted (record d { port = n })

      -- The host and the port; `if host != ""` assigns what is empty otherwise.
      unfoldable pub set_address : Bytes → Dialer → Checked Dialer
      set_address host_port d =
          let s = split_host_port host_port in
          let d' : Dialer = record d { host = s.0 } in
          if is_empty s.1 then accepted d' else with_port d' (parse_uint s.1)

      unfoldable pub parse_dialer : DialerUrl → Checked (Dialer × Option OwnAuth)
      parse_dialer u =
          and_then (set_address u.host_port (new_dialer u))
            (λ d. and_then (set_query u.query (d, [])) finish_dialer)

      -- `ParseDialerURL` of what `url.Parse` returns: the dialer, and its field `Auth`.
      unfoldable pub parse_dialer_url : Option DialerUrl → Checked (Dialer × Option OwnAuth)
      parse_dialer_url none = refused bad_url
      parse_dialer_url (some u) = parse_dialer u
