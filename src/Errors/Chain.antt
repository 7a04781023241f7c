-- ===== src/Errors/Chain.antt =====
-- Go's errors as chains that `Unwrap` follows, with `errors.Is` and `errors.As` of the Go library.
use blocky_cloud.Prelude.{ℕ, Bool, true, false, ◌||◌, Option, none, some}
use blocky_cloud.Address.Utf8.{Bytes}

-- The sentinel values that the code compares with.
pub data Sentinel : Type 0 where
  eof : Sentinel
  canceled : Sentinel
  deadline_exceeded : Sentinel

abbrev pub same_sentinel : Sentinel → Sentinel → Bool
same_sentinel eof eof = true
same_sentinel canceled canceled = true
same_sentinel deadline_exceeded deadline_exceeded = true
same_sentinel _ _ = false

-- What the code can see of an error of a type from elsewhere: its method `Is`, whether it is a
-- `*retry.ContextError`, the code of its `GRPCStatus`, and its text.
pub record Traits : Type 0 where
  pub is_like : Sentinel → Bool
  pub is_retry : Bool
  pub grpc_code : Option ℕ
  pub text : Bytes

-- `coded` is a `*bcerrors.Error` that wraps nothing, `coded_over` one that wraps an error; `leaf` and
-- `over` are errors of other types.
pub data Error : Type 0 where
  sentinel : Sentinel → Error
  coded : ℕ → Bytes → Error
  coded_over : ℕ → Bytes → Error → Error
  leaf : Traits → Error
  over : Traits → Error → Error

-- `errors.Is(err, target)`.
unfoldable pub is : Sentinel → Error → Bool
is t (sentinel s) = same_sentinel s t
is t (coded c m) = false
is t (coded_over c m e) = is t e
is t (leaf x) = x.is_like t
is t (over x e) = x.is_like t || is t e

-- `errors.As` with a `*retry.ContextError` as its target.
unfoldable pub as_retry : Error → Bool
as_retry (sentinel s) = false
as_retry (coded c m) = false
as_retry (coded_over c m e) = as_retry e
as_retry (leaf x) = x.is_retry
as_retry (over x e) = x.is_retry || as_retry e

-- `errors.As` with a `*Error` as its target, and the code of what it finds.
unfoldable pub as_code : Error → Option ℕ
as_code (sentinel s) = none
as_code (coded c m) = some c
as_code (coded_over c m e) = some c
as_code (leaf x) = none
as_code (over x e) = as_code e
