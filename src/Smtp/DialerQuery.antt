-- ===== src/Smtp/DialerQuery.antt =====
-- The loop of `ParseDialerURL` over the query, email/smtpemail/dialer.go, sets neither the server nor the
-- credentials.
use blocky_cloud.Prelude.{
  Bool, true, false, List, [], ◌∷◌, Option, none, some, if◌then◌else◌, ◌≡◌, refl, ◌∙◌,
}
use blocky_cloud.Text.{codes, same}
use blocky_cloud.Address.Utf8.{Bytes}
use blocky_cloud.Address.Lexer.{is_empty}
use blocky_cloud.Smtp.Session.{Dialer}
use blocky_cloud.Smtp.DialerUrl.{
  Checked, accepted, refused, and_then, is_mechanism, with_bool, set_ssl, set_dialer, set_entry,
  set_query,
}

-- What the loop over the query leaves as it was.
pub record IsKept (d e : Dialer) : Type 0 where
  pub host : e.host ≡ d.host
  pub port : e.port ≡ d.port
  pub username : e.username ≡ d.username
  pub password : e.password ≡ d.password

pub IsKept-refl : (d : Dialer) → IsKept d d
IsKept-refl d = record { host = refl; port = refl; username = refl; password = refl }

pub IsKept-trans : (d e f : Dialer) → IsKept d e → IsKept e f → IsKept d f
IsKept-trans d e f h k = record {
  host = k.host ∙ h.host;
  port = k.port ∙ h.port;
  username = k.username ∙ h.username;
  password = k.password ∙ h.password;
}

-- What is true of every result that is accepted.
abbrev pub Accepts : {A : Type 0} → (A → Type 0) → Checked A → Type 0
Accepts P (accepted a) = P a
Accepts P (refused e) = Unit

pub Accepts-if :
    {A : Type 0} (P : A → Type 0) (b : Bool) (x y : Checked A)
    → Accepts P x
    → Accepts P y
    → Accepts P (if b then x else y)
Accepts-if P true x y h k = h
Accepts-if P false x y h k = k

pub Accepts-and_then :
    {A B : Type 0} (P : A → Type 0) (Q : B → Type 0) (x : Checked A) (next : A → Checked B)
    → Accepts P x
    → ((a : A) → P a → Accepts Q (next a))
    → Accepts Q (and_then x next)
Accepts-and_then P Q (accepted a) next h k = k a h
Accepts-and_then P Q (refused e) next h k = tt

abbrev pub Keeps : Dialer → Dialer × Bytes → Type 0
Keeps d t = IsKept d t.0

module _ (to_lower : Bytes → Bytes) (parse_bool : Bytes → Option Bool) where
  with_bool-Keeps :
      (s : Dialer × Bytes) (b : Option Bool)
      → Accepts (Keeps s.0) (with_bool to_lower parse_bool s b)
  with_bool-Keeps s none = tt
  with_bool-Keeps s (some b) = record { host = refl; port = refl; username = refl; password = refl }

  set_dialer-Keeps :
      (k v : Bytes) (s : Dialer × Bytes)
      → Accepts (Keeps s.0) (set_dialer to_lower parse_bool k v s)
  unfolding set_dialer set_ssl
  set_dialer-Keeps k v s =
      Accepts-if (Keeps s.0) (same k (codes "localname")) _ _
        (record { host = refl; port = refl; username = refl; password = refl })
        (Accepts-if (Keeps s.0) (same k (codes "ssl")) _ _
          (Accepts-if (Keeps s.0) (is_empty v) _ _
            (record { host = refl; port = refl; username = refl; password = refl })
            (with_bool-Keeps s (parse_bool v)))
          (Accepts-if (Keeps s.0) (same k (codes "auth")) _ _
            (Accepts-if (Keeps s.0) (is_mechanism to_lower v) _ _ (IsKept-refl s.0) tt) tt))

  set_entry-Keeps :
      (k : Bytes) (v : List Bytes) (s : Dialer × Bytes)
      → Accepts (Keeps s.0) (set_entry to_lower parse_bool k v s)
  unfolding set_entry
  set_entry-Keeps k [] s = tt
  set_entry-Keeps k (v ∷ []) s = set_dialer-Keeps (to_lower k) v s
  set_entry-Keeps k (v ∷ w ∷ vs) s = tt

  pub set_query-Keeps :
      (q : List (Bytes × List Bytes)) (d : Dialer) (s : Dialer × Bytes)
      → IsKept d s.0
      → Accepts (Keeps d) (set_query to_lower parse_bool q s)
  unfolding set_query
  set_query-Keeps [] d s h = h
  set_query-Keeps ((k, v) ∷ q) d s h =
      Accepts-and_then (Keeps s.0) (Keeps d) (set_entry to_lower parse_bool k v s) _
        (set_entry-Keeps k v s) (λ t e. set_query-Keeps q d t (IsKept-trans d s.0 t.0 h e))
