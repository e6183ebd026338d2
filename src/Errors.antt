-- ===== src/Errors.antt =====
-- errors.go: canonical codes, statuses, and structured errors in an error chain. Go's `error` values
-- are a data type with one constructor for each way in which the program makes one; the walk of
-- `errors.As` down a chain is written out.
use procframe.Prelude.{◌≡◌, refl, String, Bool, true, false, Option, none, some}
use procframe.Prelude.Text.{◌+++◌}

-- `type Code string`, and its constants.
abbrev pub Code : Type 0
Code = String

abbrev pub invalid_argument : Code
invalid_argument = "invalid_argument"

abbrev pub not_found : Code
not_found = "not_found"

abbrev pub internal : Code
internal = "internal"

abbrev pub unauthenticated : Code
unauthenticated = "unauthenticated"

abbrev pub unavailable : Code
unavailable = "unavailable"

abbrev pub already_exists : Code
already_exists = "already_exists"

abbrev pub permission_denied : Code
permission_denied = "permission_denied"

abbrev pub conflict : Code
conflict = "conflict"

pub record Status : Type 0 where
  pub code : Code
  pub message : String
  pub retryable : Bool

-- The error values that the program compares by identity: io.EOF, flag.ErrHelp, errHelp of the
-- CLI runner, and the two errors of a context that has ended.
pub data Sentinel : Type 0 where
  eof flag_help help_displayed canceled deadline_exceeded : Sentinel

-- `wrapping` is fmt.Errorf with %w (its text and what it wraps), `joined` is errors.Join, and
-- `plain` is any error that wraps nothing.
mutual
  pub data Error : Type 0 where
    plain : String → Error
    sentinel : Sentinel → Error
    wrapping : String → Error → Error
    joined : Error → Error → Error
    status_error : Status → Cause → Error

  pub data Cause : Type 0 where
    no_cause : Cause
    cause : Error → Cause

-- The mapper that an application configures at a boundary; `none` is its `false`.
abbrev pub ErrorMapper : Type 0
ErrorMapper = Error → Option Status

-- `*StatusError`, as the value that it is used as.
pub record StatusError : Type 0 where
  pub status : Status
  pub cause_of : Cause

abbrev pub as_error : StatusError → Error
as_error e = status_error e.status e.cause_of

unfoldable pub new_error : Code → String → StatusError
new_error code msg = record {
  status = record { code = code; message = msg; retryable = false };
  cause_of = no_cause;
}

unfoldable pub wrap_error : Code → String → Error → StatusError
unfolding new_error
wrap_error code msg e = record (new_error code msg) { cause_of = cause e }

-- The copy that `WithRetryable` makes; the receiver stays as it is.
unfoldable pub with_retryable : StatusError → StatusError
with_retryable e = record e { status = record (e.status) { retryable = true } }

-- errors.As with a `*StatusError` target: the chain in pre-order, depth first.
unfoldable pub as_status_error : Error → Option StatusError
as_status_error (plain t) = none
as_status_error (sentinel s) = none
as_status_error (wrapping t e) = as_status_error e
as_status_error (joined a b) =
    let other = as_status_error b in
    elim (as_status_error a) [ none ↦ other | some found ↦ some found ]
as_status_error (status_error s c) = some (record { status = s; cause_of = c })

unfoldable pub status_of : Error → Option Status
unfolding as_status_error
status_of e = elim (as_status_error e) [ none ↦ none | some found ↦ some (found.status) ]

unfoldable pub code_of : Error → Option Code
unfolding status_of
code_of e = elim (status_of e) [ none ↦ none | some status ↦ some (status.code) ]

-- `Error()`.
unfoldable pub error_text : Error → String
error_text (plain t) = t
error_text (sentinel eof) = "EOF"
error_text (sentinel flag_help) = "flag: help requested"
error_text (sentinel help_displayed) = "help displayed"
error_text (sentinel canceled) = "context canceled"
error_text (sentinel deadline_exceeded) = "context deadline exceeded"
error_text (wrapping t e) = t
error_text (joined a b) = error_text a +++ "\n" +++ error_text b
error_text (status_error s c) = s.code +++ ": " +++ s.message

-- `Unwrap()` of a `*StatusError`.
unfoldable pub unwrap : StatusError → Option Error
unwrap e = elim e.cause_of [ no_cause ↦ none | cause inner ↦ some inner ]

-- `(*T, error)` of a function that the program does not control: both may be there, or neither.
abbrev pub Returned : Type 0 → Type 0
Returned A = Option A × Option Error

-- `(T, error)` of a function that returns one of the two.
pub data Result (A : Type 0) : Type 0 where
  err : Error → Result A
  ok : A → Result A

module _ {A B : Type 0} where
  infixl 5 ◌>>=◌
  -- `if err != nil { return err }` behind a call.
  abbrev pub ◌>>=◌ : Result A → (A → Result B) → Result B
  err e >>= rest = err e
  ok value >>= rest = rest value

  pub bind-eq-ok :
      (r : Result A) (rest : A → Result B) {end : B}
      → (r >>= rest) ≡ ok end
      → (value : A) × (r ≡ ok value) × (rest value ≡ ok end)
  bind-eq-ok (err e) rest h = cc
  bind-eq-ok (ok value) rest h = (value, refl, h)

pub ok-injective : {A : Type 0} {a b : A} → ok a ≡ ok b → a ≡ b
ok-injective h = cc

pub err-not-ok : {A : Type 0} {a : A} (e : Error) → err e ≡ ok a → ⊥
err-not-ok e h = cc

pub err-injective : {A : Type 0} {a b : Error} → ◌≡◌ {A = Result A} (err a) (err b) → a ≡ b
err-injective h = cc
