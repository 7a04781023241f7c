-- ===== src/Errors/Code.antt =====
-- `DoNotWrap`, `Code` and `ErrorAs` of bcerrors/errors.go, and `wrapError` of
-- email/delivery_subscription.go.
use blocky_cloud.Prelude.{
  ℕ, Bool, true, false, ◌||◌, Option, none, some, arith, ap, ◌∙◌, if◌then◌else◌, ◌≡◌, refl,
  Bool-cases, inl, inr,
}
use blocky_cloud.Address.Utf8.{Bytes}
use blocky_cloud.Errors.Chain.{
  Sentinel, eof, canceled, deadline_exceeded, Traits, Error, sentinel, coded, coded_over, leaf,
  over, is, as_retry, as_code,
}
use blocky_cloud.Errors.Links.{
  links, equals, is_retry_error, any, first, is-any, as_retry-any, as_code-first,
}
use blocky_cloud.Text.{codes}

-- `New`, without the frame of its caller.
abbrev pub new : ℕ → Option Error → Bytes → Error
new code none msg = coded code msg
new code (some e) msg = coded_over code msg e

unfoldable pub do_not_wrap : Error → Bool
do_not_wrap e =
    if is eof e
    then true
    else if is canceled e
    then true
    else if is deadline_exceeded e
    then true
    else as_retry e

-- The codes of package codes that `Code` names.
abbrev pub code_ok : ℕ
code_ok = 0

abbrev pub code_canceled : ℕ
code_canceled = 1

abbrev pub code_unknown : ℕ
code_unknown = 2

abbrev pub code_deadline_exceeded : ℕ
code_deadline_exceeded = 4

-- The code of an error that has a method `GRPCStatus`; those that an error wraps are not asked.
unfoldable pub grpc_code : Error → ℕ
grpc_code (leaf x) = elim x.grpc_code [ none ↦ code_unknown | some c ↦ c ]
grpc_code (over x e) = elim x.grpc_code [ none ↦ code_unknown | some c ↦ c ]
grpc_code _ = code_unknown

abbrev plain_code : Error → Option ℕ → ℕ
plain_code e (some c) = c
plain_code e none =
    if is canceled e
    then code_canceled
    else if is deadline_exceeded e
    then code_deadline_exceeded
    else grpc_code e

-- `Code`.
unfoldable pub code_of : Option Error → ℕ
code_of none = code_ok
code_of (some e) = plain_code e (as_code e)

-- `err = e.Unwrap()` where `err` is a `*Error`.
unfoldable pub unwrap_coded : Error → Option Error
unwrap_coded (coded c m) = none
unwrap_coded (coded_over c m e) = some e
unwrap_coded e = some e

-- `ErrorAs` on a target that is a pointer; `error_as` is the driver's test.
unfoldable pub error_as : Option Error → (Option Error → Bool) → Bool
error_as none f = false
error_as (some e) f = f (unwrap_coded e)

-- `wrapError` on an error that is not nil; `error_code` is the driver's method.
unfoldable pub wrap : (Error → ℕ) → Error → Error
wrap error_code e = if do_not_wrap e then e else new (error_code e) (some e) (codes "email")

unfoldable pub wrap_error : (Error → ℕ) → Option Error → Option Error
unfolding wrap
wrap_error error_code none = none
wrap_error error_code (some e) = some (wrap error_code e)

-- An error with this in its chain is handed on as it is.
abbrev pub is_kept : Error → Bool
is_kept e =
    any (equals eof) (links e)
    || any (equals canceled) (links e)
    || any (equals deadline_exceeded) (links e)
    || any is_retry_error (links e)

do_not_wrap_chain : (e : Error) → do_not_wrap e ≡ is_kept e
unfolding do_not_wrap
do_not_wrap_chain e =
    ground (arith, is-any eof e, is-any canceled e, is-any deadline_exceeded e, as_retry-any e)

-- The code of a chain: that of its first `*Error`, else Canceled or DeadlineExceeded where one of it is
-- that, else the code of the outermost one's status.
abbrev pub code_from : Error → Option ℕ → ℕ
code_from e (some c) = c
code_from e none =
    if any (equals canceled) (links e)
    then code_canceled
    else if any (equals deadline_exceeded) (links e)
    then code_deadline_exceeded
    else grpc_code e

abbrev pub chain_code : Error → ℕ
chain_code e = code_from e (first (links e))

plain_code_chain : (e : Error) (o : Option ℕ) → plain_code e o ≡ code_from e o
plain_code_chain e (some c) = refl
plain_code_chain e none = rw (is-any canceled e, is-any deadline_exceeded e) refl

code_of_chain : (e : Error) → code_of (some e) ≡ chain_code e
unfolding code_of
code_of_chain e = ap (plain_code e) (as_code-first e) ∙ plain_code_chain e (first (links e))

-- The code of a wrapped error is the driver's, but where EOF, Canceled, DeadlineExceeded or an error of
-- retry is in its chain: then it is that of the first `*Error` in the chain, else Canceled or
-- DeadlineExceeded where one of it is that, else that of the status of the error itself. No error has the
-- code OK.
pub code_of-wrap_error :
    (error_code : Error → ℕ) (err : Option Error)
    → code_of (wrap_error error_code err)
      ≡ elim err [ none ↦ code_ok | some e ↦ if is_kept e then chain_code e else error_code e ]
unfolding wrap_error
code_of-wrap_error error_code none = unfold code_of in refl
code_of-wrap_error error_code (some e) = elim (Bool-cases (is_kept e)) [
  | inl q ↦ rw (q, do_not_wrap_chain e ∙ q) (code_of_chain e)
  | inr q ↦ rw (q, do_not_wrap_chain e ∙ q) (unfold code_of in unfold as_code in refl)
]

-- An error that is no `*Error` itself.
pub data IsForeign : Error → Type 0 where
  is_sentinel : (s : Sentinel) → IsForeign (sentinel s)
  is_leaf : (x : Traits) → IsForeign (leaf x)
  is_over : (x : Traits) (e : Error) → IsForeign (over x e)

-- The driver's test sees its own error, if that is no `*Error`, through `wrapError` and `ErrorAs`.
error_as-wrap_error :
    (error_code : Error → ℕ) (e : Error) (f : Option Error → Bool)
    → IsForeign e
    → error_as (wrap_error error_code (some e)) f ≡ f (some e)
unfolding wrap_error error_as unwrap_coded
error_as-wrap_error error_code e f h = elim (Bool-cases (do_not_wrap e)) [
  | inl q ↦ rw q (own_lem e f h)
  | inr q ↦ rw q refl
]
  where
    own_lem : (e : Error) (f : Option Error → Bool) → IsForeign e → f (unwrap_coded e) ≡ f (some e)
    own_lem e f (is_sentinel s) = refl
    own_lem e f (is_leaf x) = refl
    own_lem e f (is_over x e') = refl
