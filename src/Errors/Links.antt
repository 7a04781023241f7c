-- ===== src/Errors/Links.antt =====
-- The chain of an error as a list: what errors.Is and errors.As of the Go library find there.
use blocky_cloud.Prelude.{
  ℕ, Bool, false, ◌||◌, List, [], ◌∷◌, Option, none, some, arith, ap, ◌≡◌, refl,
}
use blocky_cloud.Errors.Chain.{
  Sentinel, Error, sentinel, coded, coded_over, leaf, over, same_sentinel, is, as_retry, as_code,
}

-- An error and those that it wraps, from the outside in.
abbrev pub links : Error → List Error
links (coded_over c m e) = coded_over c m e ∷ links e
links (over x e) = over x e ∷ links e
links e = e ∷ []

-- What an error is by itself, without what it wraps.
abbrev pub equals : Sentinel → Error → Bool
equals t (sentinel s) = same_sentinel s t
equals t (leaf x) = x.is_like t
equals t (over x e) = x.is_like t
equals t _ = false

abbrev pub is_retry_error : Error → Bool
is_retry_error (leaf x) = x.is_retry
is_retry_error (over x e) = x.is_retry
is_retry_error _ = false

abbrev pub own_code : Error → Option ℕ
own_code (coded c m) = some c
own_code (coded_over c m e) = some c
own_code _ = none

abbrev pub any : (Error → Bool) → List Error → Bool
any p [] = false
any p (e ∷ es) = p e || any p es

abbrev pub or_later : Option ℕ → Option ℕ → Option ℕ
or_later none c = c
or_later (some c) d = some c

abbrev pub first : List Error → Option ℕ
first [] = none
first (e ∷ es) = or_later (own_code e) (first es)

pub is-any : (t : Sentinel) (e : Error) → is t e ≡ any (equals t) (links e)
unfolding is
is-any t (sentinel s) = ground arith
is-any t (coded c m) = refl
is-any t (coded_over c m e) = is-any t e
is-any t (leaf x) = ground arith
is-any t (over x e) = ap (λ b. x.is_like t || b) (is-any t e)

pub as_retry-any : (e : Error) → as_retry e ≡ any is_retry_error (links e)
unfolding as_retry
as_retry-any (sentinel s) = refl
as_retry-any (coded c m) = refl
as_retry-any (coded_over c m e) = as_retry-any e
as_retry-any (leaf x) = ground arith
as_retry-any (over x e) = ap (λ b. x.is_retry || b) (as_retry-any e)

pub as_code-first : (e : Error) → as_code e ≡ first (links e)
unfolding as_code
as_code-first (sentinel s) = refl
as_code-first (coded c m) = refl
as_code-first (coded_over c m e) = refl
as_code-first (leaf x) = refl
as_code-first (over x e) = as_code-first e
