-- ===== src/Smtp/Anonymous.antt =====
-- What a dialer that `ParseDialerURL` of email/smtpemail/dialer.go returns can do.
use mathlib.Core.Path.{subst}
use blocky_cloud.Prelude.{
  ℕ, ◌<◌, Bool, true, false, ◌==◌, [], ◌∷◌, Option, none, some, if◌then◌else◌, ◌≡◌, refl, ◌∙◌,
  arith, Bool-cases, inl, inr,
}
use blocky_cloud.Text.{codes, same}
use blocky_cloud.Address.Utf8.{Bytes}
use blocky_cloud.Address.Lexer.{is_empty}
use blocky_cloud.Smtp.Session.{own, Dialer, choose_auth}
use blocky_cloud.Smtp.DialerUrl.{
  DialerUrl, accepted, OwnAuth, new_dialer, validate, validated, smtp_auth, set_query,
  finish_dialer, with_port, set_address, parse_dialer, parse_dialer_url,
}
use blocky_cloud.Smtp.DialerQuery.{
  IsKept-refl, Accepts, Accepts-if, Accepts-and_then, Keeps, set_query-Keeps,
}

-- No name and no password.
abbrev pub Blank : OwnAuth → Type 0
Blank c = (c.username ≡ []) × (c.password ≡ [])

-- A dialer with a host and a port, but without credentials: none of its own, and none that `dial`
-- would choose from a server's offer.
pub record IsAnonymous (d : Dialer) (a : Option OwnAuth) : Type 0 where
  pub host : is_empty d.host ≡ false
  pub port_positive : 0 < d.port
  pub port_bound : d.port < 65536
  pub username : d.username ≡ []
  pub password : d.password ≡ []
  pub credentials : (c : OwnAuth) → a ≡ some c → Blank c
  pub chosen :
      (offer : Option Bytes) → choose_auth d offer ≡ (if d.own_auth then some own else none)

is_empty_lem : (s : Bytes) → (if is_empty s then s else []) ≡ []
is_empty_lem [] = refl
is_empty_lem (b ∷ s) = refl

choose_auth_blank :
    (d : Dialer) (offer : Option Bytes)
    → d.username ≡ []
    → choose_auth d offer ≡ (if d.own_auth then some own else none)
unfolding choose_auth
choose_auth_blank d offer e = rw e refl

module _ (to_lower : Bytes → Bytes) (parse_bool : Bytes → Option Bool) where
  abbrev Anonymous : Dialer × Option OwnAuth → Type 0
  Anonymous r = IsAnonymous r.0 r.1

  module _ (split_host_port : Bytes → Bytes × Bytes) (parse_uint : Bytes → Option ℕ)
      (bounded : (s : Bytes) (n : ℕ) → parse_uint s ≡ some n → n < 65536) where
    -- A dialer behind the address and the loop.
    record IsBlank (d : Dialer) : Type 0 where
      port_bound : d.port < 65536
      username : d.username ≡ []
      password : d.password ≡ []

    with_port-IsBlank :
        (d : Dialer) (s : Bytes)
        → IsBlank d
        → Accepts IsBlank
            (with_port to_lower parse_bool split_host_port parse_uint d (parse_uint s))
    with_port-IsBlank d s h = given (parse_uint s) (λ n e. bounded s n e)
      where
        given :
            (o : Option ℕ)
            → ((n : ℕ) → o ≡ some n → n < 65536)
            → Accepts IsBlank (with_port to_lower parse_bool split_host_port parse_uint d o)
        given none b = tt
        given (some n) b = record {
          port_bound = b n refl;
          username = h.username;
          password = h.password;
        }

    set_address-IsBlank :
        (d : Dialer) (s : Bytes)
        → IsBlank d
        → Accepts IsBlank (set_address to_lower parse_bool split_host_port parse_uint s d)
    unfolding set_address
    set_address-IsBlank d s h =
        let at = split_host_port s in
        let d' : Dialer = record d { host = at.0 } in
        let b : IsBlank d' = record {
          port_bound = h.port_bound;
          username = h.username;
          password = h.password;
        } in
        Accepts-if IsBlank (is_empty at.1) _ _ b (with_port-IsBlank d' at.1 b)

    validated-IsAnonymous :
        (d : Dialer) (a : Option OwnAuth)
        → IsBlank d
        → ((c : OwnAuth) → a ≡ some c → Blank c)
        → Accepts Anonymous (validated (d, a) (validate d))
    unfolding validate
    validated-IsAnonymous d a h e = elim (Bool-cases (is_empty d.host)) [
      | inl no_host ↦ rw no_host tt
      | inr host ↦ elim (Bool-cases (d.port == 0)) [
        | inl no_port ↦ rw (host, no_port) tt
        | inr port ↦
            rw (host, port)
              (record {
                host = host;
                port_positive = ground (arith, port);
                port_bound = h.port_bound;
                username = h.username;
                password = h.password;
                credentials = e;
                chosen = λ offer. choose_auth_blank d offer h.username;
              })
      ]
    ]

    smtp_auth-Blank :
        (d : Dialer) (auth : Bytes)
        → IsBlank d
        → Accepts Blank (smtp_auth to_lower d.username d.password d.host auth)
    unfolding smtp_auth
    smtp_auth-Blank d auth h =
        let a = to_lower auth in
        let given : (d.username ≡ []) × (d.password ≡ []) = (h.username, h.password) in
        Accepts-if Blank (same a (codes "plain")) _ _ given (
          Accepts-if Blank (same a (codes "login")) _ _ given
            (Accepts-if Blank (same a (codes "md5")) _ _ given tt))

    finish_dialer-IsAnonymous :
        (s : Dialer × Bytes) → IsBlank s.0 → Accepts Anonymous (finish_dialer to_lower parse_bool s)
    unfolding finish_dialer
    finish_dialer-IsAnonymous (d, auth) h =
        Accepts-if Anonymous (is_empty auth) _ _ (validated-IsAnonymous d none h (λ c e. cc)) (
          Accepts-and_then Blank Anonymous (smtp_auth to_lower d.username d.password d.host auth) _
            (smtp_auth-Blank d auth h)
            (λ c e.
              validated-IsAnonymous (record d { own_auth = true }) (some c)
                (record { port_bound = h.port_bound; username = h.username; password = h.password })
                (λ c' f. let same : c ≡ c' = cc in subst Blank same e)))

    parse_dialer-IsAnonymous :
        (u : DialerUrl)
        → Accepts Anonymous (parse_dialer to_lower parse_bool split_host_port parse_uint u)
    unfolding parse_dialer new_dialer
    parse_dialer-IsAnonymous u =
        Accepts-and_then IsBlank Anonymous
          (set_address to_lower parse_bool split_host_port parse_uint u.host_port (new_dialer u)) _
          (set_address-IsBlank (new_dialer u) u.host_port (record {
            port_bound = omega arith;
            username = is_empty_lem u.username;
            password = is_empty_lem u.password;
          }))
          (λ d b.
            Accepts-and_then (Keeps d) Anonymous (set_query to_lower parse_bool u.query (d, []))
              (finish_dialer to_lower parse_bool)
              (set_query-Keeps to_lower parse_bool u.query d (d, []) (IsKept-refl d))
              (λ s k. finish_dialer-IsAnonymous s (record {
                port_bound = omega (arith, k.port, b.port_bound);
                username = k.username ∙ b.username;
                password = k.password ∙ b.password;
              })))

    -- Where the ports that are parsed have 16 bits, a dialer of ParseDialerURL has a host and a port of 1 to
    -- 65535, but no user name and no password, nor has its own authentication, and `dial`
    -- chooses no other one.
    pub parse_dialer_url-IsAnonymous :
        (u : Option DialerUrl) (d : Dialer) (a : Option OwnAuth)
        → parse_dialer_url to_lower parse_bool split_host_port parse_uint u ≡ accepted (d, a)
        → IsAnonymous d a
    unfolding parse_dialer_url
    parse_dialer_url-IsAnonymous none d a h = absurd (cc)
    parse_dialer_url-IsAnonymous (some u) d a h =
        subst (Accepts Anonymous) h (parse_dialer-IsAnonymous u)
