-- ===== src/Errors.antt =====
-- errors.go: the sentinel errors, `OpError` and `MultiError`, and the results of fallible code. The
-- other errors of the package are `fmt.Errorf` values; each has a constructor with its arguments.
pub mod Collect
use go_runit.Common.{ℕ, String, Bool, true, false, Option, none, some, List, [], ◌∷◌, ◌++◌, ◌==◌}
use go_runit.Operation.{Operation}
use go_runit.Service.{ServiceType}

-- A path, cut at its separators: what `filepath.Abs` returns has no `.`, no `..` and no empty
-- segment, and `filepath.Join` of such a path and a plain name appends a segment.
abbrev pub FilePath : Type 0
FilePath = List String

abbrev pub join : FilePath → String → FilePath
join p name = p ++ name ∷ []

pub data Sentinel : Type 0 where
  not_supervised control_not_ready timeout decode : Sentinel

pub data Error : Type 0 where
  sentinel : Sentinel → Error
  -- `fmt.Errorf("%w: … status file must be … bytes, got %d", ErrDecode, …)`
  decode_size : ServiceType → ℕ → Error
  -- `invalid … status size: %d` of the parsers and the clients
  invalid_size : ServiceType → ℕ → Error
  -- `operation %s not supported by …`, `SIG… not supported by …`
  unsupported_op : ServiceType → Operation → Error
  -- `unsupported service type: %v`, `unknown service type: %v`
  unsupported_type : ServiceType → Error
  -- an error that `os`, `net`, `io` or `context` made
  external : ℕ → Error
  -- `io.EOF` and `io.ErrUnexpectedEOF`
  eof unexpected_eof : Error
  -- `resolving service dir: %w`
  resolving : Error → Error
  op_error : Operation → FilePath → Error → Error

-- `errors.Unwrap`: `OpError.Unwrap`, and the `%w` of `fmt.Errorf`.
pub unwrap : Error → Option Error
unwrap (op_error op path e) = some e
unwrap (resolving e) = some e
unwrap (decode_size t n) = some (sentinel decode)
unwrap _ = none

sentinel_index : Sentinel → ℕ
sentinel_index not_supervised = 0
sentinel_index control_not_ready = 1
sentinel_index timeout = 2
sentinel_index decode = 3

-- `errors.Is(err, target)` for a sentinel: some error of the chain is the target.
unfoldable pub is_error : Sentinel → Error → Bool
unfolding sentinel_index
is_error s (sentinel t) = sentinel_index s == sentinel_index t
is_error s (decode_size t n) = sentinel_index s == sentinel_index decode
is_error s (op_error op path e) = is_error s e
is_error s (resolving e) = is_error s e
is_error s _ = false

-- A call of a Go function that returns a value and an error, and may panic.
pub data Result {ℓ} (A : Type ℓ) : Type ℓ where
  ok : A → Result A
  err : Error → Result A
  panic : Result A

infixl 5 ◌>>=◌
abbrev pub ◌>>=◌ {ℓ κ} : {A : Type ℓ} {B : Type κ} → Result A → (A → Result B) → Result B
ok a >>= f = f a
err e >>= f = err e
panic >>= f = panic

pub record MultiError : Type 0 where
  pub errors : List Error

abbrev pub no_errors : MultiError
no_errors = record { errors = [] }

-- `MultiError.Add`; a nil error is `none`.
unfoldable pub add : MultiError → Option Error → MultiError
add m none = m
add m (some e) = record { errors = m.errors ++ e ∷ [] }

-- `MultiError.Err`.
multi_err : MultiError → List Error → Option MultiError
multi_err m [] = none
multi_err m (e ∷ es) = some m

unfoldable pub err_of : MultiError → Option MultiError
unfolding multi_err
err_of m = multi_err m m.errors
