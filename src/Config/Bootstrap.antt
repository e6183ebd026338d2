-- ===== src/Config/Bootstrap.antt =====
-- config/bootstrap.go: the bootstrap flags in front of the procedure's arguments.
pub mod RoundTrip
pub mod Rest
use procframe.Prelude.{
  ℕ, zero, suc, ◌≡◌, refl, String, Bool, true, false, ◌||◌, Option, none, some, List, [], ◌∷◌, ◌++◌,
  ◌==◌, if◌then◌else◌, contains, lookup, insert,
}
use procframe.Prelude.Text.{◌+++◌, cut_prefix, cut_equals}
use procframe.Errors.{Error, plain, Result, ok, err, ◌>>=◌}

abbrev pub reserved_config_flag : String
reserved_config_flag = "config"

-- `*BootstrapSpec`; nil is refused by `buildAllowedBootstrapFlags`.
pub record BootstrapSpec : Type 0 where
  pub flag : String

pub record BootstrapResult : Type 0 where
  pub config_path : String
  pub values : List (String × String)
  pub rest : List String

is_some : {A : Type 0} → Option A → Bool
is_some none = false
is_some (some a) = true

unfoldable pub validate_bootstrap_flag : String → Option Error
unfolding is_some
validate_bootstrap_flag name =
    if name == ""
    then some (plain "bootstrap flag name must not be empty")
    else if is_some (cut_prefix "--" name)
    then some (plain ("bootstrap flag \"" +++ name +++ "\" must not include -- prefix"))
    else if is_some (cut_equals name)
    then some (plain ("bootstrap flag \"" +++ name +++ "\" must not include '='"))
    else none

allow : Option Error → String → List String → Result (List String)
allow (some e) flag allowed = err e
allow none flag allowed = ok (flag ∷ allowed)

-- The loop of `buildAllowedBootstrapFlags`; the set is a list.
unfoldable pub build_allowed_from : List String → List (Option BootstrapSpec) → Result (List String)
unfolding allow
build_allowed_from allowed [] = ok allowed
build_allowed_from allowed (none ∷ specs) = err (plain "bootstrap spec must not be nil")
build_allowed_from allowed (some spec ∷ specs) =
    allow (validate_bootstrap_flag spec.flag) spec.flag allowed >>= λ more.
    build_allowed_from more specs

unfoldable pub build_allowed_bootstrap_flags : List (Option BootstrapSpec) → Result (List String)
build_allowed_bootstrap_flags specs = build_allowed_from [] specs

-- What `splitBootstrapArg` returns but for its error.
pub data BootstrapArg : Type 0 where
  not_recognized : BootstrapArg
  recognized : String → String → ℕ → BootstrapArg

looks_like_flag_token : String → Bool
unfolding is_some
looks_like_flag_token arg = is_some (cut_prefix "--" arg)

-- The value behind a flag without `=`.
value_behind : String → List String → Result BootstrapArg
unfolding looks_like_flag_token
value_behind name [] = err (plain ("--" +++ name +++ " requires a value"))
value_behind name (next ∷ rest) =
    if looks_like_flag_token next
    then err (plain ("--" +++ name +++ " requires a value"))
    else ok (recognized name next 1)

-- `name != ReservedConfigFlag` and not in `allowed`.
unfoldable pub is_bootstrap : List String → String → Bool
is_bootstrap allowed name = name == reserved_config_flag || contains name allowed

split_name : List String → List String → String → Option (String × String) → Result BootstrapArg
unfolding value_behind
split_name allowed rest whole (some (name, value)) =
    if is_bootstrap allowed name then ok (recognized name value 0) else ok not_recognized
split_name allowed rest whole none =
    if is_bootstrap allowed whole then value_behind whole rest else ok not_recognized

split_dashes : List String → List String → Option String → Result BootstrapArg
unfolding split_name
split_dashes allowed rest none = ok not_recognized
split_dashes allowed rest (some name_value) =
    if name_value == ""
    then ok not_recognized
    else split_name allowed rest name_value (cut_equals name_value)

-- `splitBootstrapArg` at `arg`, with the arguments behind it. An argument is `--` exactly if nothing
-- is left behind its prefix.
unfoldable pub split_bootstrap_arg : List String → String → List String → Result BootstrapArg
unfolding split_dashes
split_bootstrap_arg allowed arg rest = split_dashes allowed rest (cut_prefix "--" arg)

put_value : String → String → BootstrapResult → Option String → Result BootstrapResult
put_value name value out (some dup) = err (plain ("--" +++ name +++ " specified multiple times"))
put_value name value out none = ok (record out { values = insert name value out.values })

unfoldable pub apply_bootstrap_value : BootstrapResult → String → String → Result BootstrapResult
unfolding put_value
apply_bootstrap_value out name value =
    if name == reserved_config_flag
    then (if out.config_path == ""
        then ok (record out { config_path = value })
        else err (plain "--config specified multiple times"))
    else put_value name value out (lookup name out.values)

-- One round of the loop of `ParseBootstrapArgs` behind the split, with the rest of the loop.
take_arg :
    BootstrapResult
    → List String
    → (BootstrapResult → ℕ → Result BootstrapResult)
    → BootstrapArg
    → Result BootstrapResult
take_arg out args go not_recognized = ok (record out { rest = args })
take_arg out args go (recognized name value consumed) =
    apply_bootstrap_value out name value >>= λ out'. go out' consumed

-- The loop over the arguments that are left; `skip` is what `i += consumed` steps over.
unfoldable pub bootstrap_loop :
    List String → BootstrapResult → ℕ → List String → Result BootstrapResult
unfolding take_arg
bootstrap_loop allowed out skip [] = ok out
bootstrap_loop allowed out (suc skip) (arg ∷ rest) = bootstrap_loop allowed out skip rest
bootstrap_loop allowed out zero (arg ∷ rest) =
    split_bootstrap_arg allowed arg rest
    >>= take_arg out (arg ∷ rest) λ out' consumed. bootstrap_loop allowed out' consumed rest

abbrev pub no_values : BootstrapResult
no_values = record { config_path = ""; values = []; rest = [] }

unfoldable pub parse_bootstrap_args :
    List String → List (Option BootstrapSpec) → Result BootstrapResult
parse_bootstrap_args argv specs =
    build_allowed_bootstrap_flags specs >>= λ allowed. bootstrap_loop allowed no_values 0 argv
