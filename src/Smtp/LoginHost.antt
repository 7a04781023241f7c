-- ===== src/Smtp/LoginHost.antt =====
-- The login of a dialer that `ParseDialerURL` returns: email/smtpemail/dialer.go, email/smtpemail/urls.go
-- and email/smtpemail/login_auth.go.
use mathlib.Core.Path.{subst}
use blocky_cloud.Prelude.{
  ℕ, ◌<◌, Bool, true, false, [], Option, none, some, ◌≡◌, ◌≢◌, refl, sym, ap, ◌∙◌, arith,
}
use blocky_cloud.Text.{codes, same, same-eq}
use blocky_cloud.Address.Utf8.{Bytes}
use blocky_cloud.Address.Lexer.{is_empty}
use blocky_cloud.Smtp.Session.{login, Dialer}
use blocky_cloud.Smtp.DialerUrl.{
  DialerUrl, Checked, accepted, refused, OwnAuth, validate, validated, UrlError, smtp_auth,
  finish_dialer, set_query, set_address, new_dialer, parse_dialer, parse_dialer_url,
}
use blocky_cloud.Smtp.DialerQuery.{Accepts, Accepts-if, Accepts-and_then}
use blocky_cloud.Smtp.LoginAuth.{ServerInfo, starts, login_start}
use blocky_cloud.Smtp.Anonymous.{parse_dialer_url-IsAnonymous}

login_start_host :
    (a : OwnAuth) (server : ServerInfo) → login_start a server ≡ starts → server.name ≡ a.host
unfolding login_start
login_start_host a server s = ground (arith, same-eq server.name a.host)

-- A login without a host.
abbrev pub Hostless : OwnAuth → Type 0
Hostless a = a.mechanism ≡ login → a.host ≡ []

abbrev OwnHostless : Dialer × Option OwnAuth → Type 0
OwnHostless r = (a : OwnAuth) → r.1 ≡ some a → Hostless a

abbrev Any : {A : Type 0} → A → Type 0
Any a = Unit

Accepts-Any : {A : Type 0} (x : Checked A) → Accepts Any x
Accepts-Any (accepted a) = tt
Accepts-Any (refused e) = tt

validated-OwnHostless :
    (r : Dialer × Option OwnAuth) (e : Option UrlError)
    → OwnHostless r
    → Accepts OwnHostless (validated r e)
validated-OwnHostless r none h = h
validated-OwnHostless r (some e) h = tt

module _ (to_lower : Bytes → Bytes) (parse_bool : Bytes → Option Bool) where
  smtp_auth-Hostless :
      (user pass host auth : Bytes) → Accepts Hostless (smtp_auth to_lower user pass host auth)
  unfolding smtp_auth
  smtp_auth-Hostless user pass host auth =
      let a = to_lower auth in
      Accepts-if Hostless (same a (codes "plain")) _ _ (λ e. absurd cc)
        (Accepts-if Hostless (same a (codes "login")) _ _ (λ e. refl)
          (Accepts-if Hostless (same a (codes "md5")) _ _ (λ e. refl) tt))

  finish_dialer-OwnHostless :
      (s : Dialer × Bytes) → Accepts OwnHostless (finish_dialer to_lower parse_bool s)
  unfolding finish_dialer
  finish_dialer-OwnHostless (d, auth) =
      Accepts-if OwnHostless (is_empty auth) _ _
        (validated-OwnHostless (d, none) (validate d) (λ a e. absurd cc))
        (Accepts-and_then Hostless OwnHostless
          (smtp_auth to_lower d.username d.password d.host auth) _
          (smtp_auth-Hostless d.username d.password d.host auth)
          (λ c h.
            validated-OwnHostless (record d { own_auth = true }, some c) _
              (λ a e. let s : c ≡ a = cc in subst Hostless s h)))

  module _ (split_host_port : Bytes → Bytes × Bytes) (parse_uint : Bytes → Option ℕ) where
    parse_dialer-OwnHostless :
        (u : DialerUrl)
        → Accepts OwnHostless (parse_dialer to_lower parse_bool split_host_port parse_uint u)
    unfolding parse_dialer
    parse_dialer-OwnHostless u =
        let at =
          set_address to_lower parse_bool split_host_port parse_uint u.host_port (new_dialer u) in
        Accepts-and_then Any OwnHostless at _ (Accepts-Any at) (λ d _.
          let q = set_query to_lower parse_bool u.query (d, []) in
          Accepts-and_then Any OwnHostless q (finish_dialer to_lower parse_bool) (Accepts-Any q)
            (λ s _. finish_dialer-OwnHostless s))

    module _ (bounded : (s : Bytes) (n : ℕ) → parse_uint s ≡ some n → n < 65536) where
      -- Where parsed ports have 16 bits, a dialer that ParseDialerURL returns with the mechanism
      -- LOGIN as its own cannot begin it: Start refuses every server of the dialer's host.
      pub parse_dialer_url-login_start :
          (u : Option DialerUrl) (d : Dialer) (a : OwnAuth) (server : ServerInfo)
          → parse_dialer_url to_lower parse_bool split_host_port parse_uint u ≡ accepted (d, some a)
          → a.mechanism ≡ login
          → server.name ≡ d.host
          → login_start a server ≢ starts
      unfolding parse_dialer_url
      parse_dialer_url-login_start none d a server h m n s = absurd cc
      parse_dialer_url-login_start (some u) d a server h m n s =
          let no_host : a.host ≡ [] =
            subst (Accepts OwnHostless) h (parse_dialer-OwnHostless u) a refl m in
          let anonymous =
            parse_dialer_url-IsAnonymous to_lower parse_bool split_host_port parse_uint bounded
              (some u) d (some a) h in
          let e : d.host ≡ [] = sym n ∙ login_start_host a server s ∙ no_host in
          let f : true ≡ false = sym (ap is_empty e) ∙ anonymous.host in absurd cc
