-- ===== src/Config/Bootstrap/RoundTrip.antt =====
-- Bootstrap flags that are written with `=` are read back.
use Prim.Native.String.append
use procframe.Prelude.{
  ◌≡◌, ◌≢◌, refl, String, true, false, Option, none, some, List, [], ◌∷◌, ◌++◌, arith, ◌==◌, eq_iff,
  map, contains, lookup, All, ap, ◌∙◌, sym, append_assoc, append-nil, Bool-cases, inl, inr,
}
use mathlib.Core.Path.{subst}
use procframe.Prelude.Distinct.{Distinct, insert-new, Distinct-fresh}
use procframe.Prelude.Text.{◌+++◌, cut_prefix, cut_equals}
use procframe.Errors.{Error, ok, bind-eq-ok}
use procframe.Config.Bootstrap.{
  BootstrapSpec, BootstrapResult, not_recognized, recognized, reserved_config_flag,
  validate_bootstrap_flag, allow, build_allowed_from, build_allowed_bootstrap_flags, is_bootstrap,
  split_bootstrap_arg, apply_bootstrap_value, bootstrap_loop, parse_bootstrap_args,
}

pub cut_equals-append :
    (name value : String)
    → cut_equals name ≡ none
    → cut_equals (name +++ "=" +++ value) ≡ some (name, value)
cut_equals-append String.[] value h =
    rw (append.nil ("=" +++ value), append.cons "=" "" value, append.nil value)
cut_equals-append (String.◌∷◌ c name) value h =
    rw (append.cons c name ("=" +++ value)) (ground (arith, cut_equals-append name value))

-- A flag name that `validateBootstrapFlag` accepts.
abbrev IsValidName : String → Type 0
IsValidName name = validate_bootstrap_flag name ≡ none

valid_cut : (name : String) → IsValidName name → cut_equals name ≡ none
unfolding validate_bootstrap_flag
valid_cut name h = ground arith

valid_nonempty : (name : String) → IsValidName name → name ≢ ""
unfolding validate_bootstrap_flag
valid_nonempty name h = ground (arith, eq_iff name "")

contains-All :
    (P : String → Type 0) (k : String) (ks : List String) → All P ks → contains k ks ≡ true → P k
contains-All P k [] all h = cc
contains-All P k (j ∷ js) all h = elim (Bool-cases (k == j)) [
  | inl e ↦ subst P (sym ((eq_iff k j).0 e)) all.0
  | inr e ↦ contains-All P k js all.1 (rw e at h)
]

allow-valid :
    (o : Option Error) (flag : String) (acc more : List String)
    → validate_bootstrap_flag flag ≡ o
    → allow o flag acc ≡ ok more
    → All IsValidName acc
    → All IsValidName more
unfolding allow
allow-valid (some e) flag acc more v h all = cc
allow-valid none flag acc more v h all =
    let same : flag ∷ acc ≡ more = cc in subst (All IsValidName) same (v, all)

build_allowed-valid :
    (acc : List String) (specs : List (Option BootstrapSpec)) (allowed : List String)
    → build_allowed_from acc specs ≡ ok allowed
    → All IsValidName acc
    → All IsValidName allowed
unfolding build_allowed_from
build_allowed-valid acc [] allowed h all =
    let same : acc ≡ allowed = cc in subst (All IsValidName) same all
build_allowed-valid acc (none ∷ specs) allowed h all = cc
build_allowed-valid acc (some spec ∷ specs) allowed h all =
    let (more, allow_ok, rest) =
      bind-eq-ok (allow (validate_bootstrap_flag spec.flag) spec.flag acc) _ h in
    build_allowed-valid more specs allowed rest (allow-valid _ spec.flag acc more refl allow_ok all)

-- A flag and its value, as one argument.
abbrev pub render : String × String → String
render (name, value) = "--" +++ (name +++ "=" +++ value)

cut_dashes : (s : String) → cut_prefix "--" ("--" +++ s) ≡ some s
cut_dashes s = rw (append.cons "-" "-" s, append.cons "-" "" s, append.nil s)

cut_equals-nonempty : (s : String) {p : String × String} → cut_equals s ≡ some p → (s == "") ≡ false
cut_equals-nonempty s h = elim (Bool-cases (s == "")) [
  | inl e ↦ cc (sym h ∙ ap cut_equals ((eq_iff s "").0 e))
  | inr e ↦ e
]

module _ (allowed : List String) where
  -- The values that can be written: of flags that are allowed, and not of `--config`.
  abbrev pub IsWritable : String × String → Type 0
  IsWritable (name, value) = (contains name allowed ≡ true) × (name ≢ reserved_config_flag)

  -- The arguments that end the bootstrap flags.
  abbrev pub Stops : List String → Type 0
  Stops [] = Unit
  Stops (arg ∷ behind) = split_bootstrap_arg allowed arg behind ≡ ok not_recognized

module _ (allowed : List String) (valid : All IsValidName allowed) where
  split-render :
      (name value : String) (behind : List String)
      → contains name allowed ≡ true
      → split_bootstrap_arg allowed (render (name, value)) behind ≡ ok (recognized name value 0)
  unfolding split_bootstrap_arg is_bootstrap
  split-render name value behind known =
      let cut =
        cut_equals-append name value
          (valid_cut name (contains-All IsValidName name allowed valid known)) in
      rw (cut_dashes (name +++ "=" +++ value), cut_equals-nonempty _ cut, cut) (ground arith)

  abbrev so_far : List (String × String) → BootstrapResult
  so_far m = record { config_path = ""; values = m; rest = [] }

  apply-new :
      (name value : String) (m : List (String × String))
      → name ≢ reserved_config_flag
      → lookup name m ≡ none
      → apply_bootstrap_value (so_far m) name value ≡ ok (so_far (m ++ (name, value) ∷ []))
  unfolding apply_bootstrap_value
  apply-new name value m other fresh =
      ground (arith, eq_iff name reserved_config_flag, insert-new name value m fresh)

  loop-Stops :
      (out : BootstrapResult) (rest : List String)
      → out.rest ≡ []
      → Stops allowed rest
      → bootstrap_loop allowed out 0 rest ≡ ok (record out { rest = rest })
  unfolding bootstrap_loop
  loop-Stops out [] e h = ground arith
  loop-Stops out (arg ∷ behind) e h = rw h

  loop-once :
      (m : List (String × String)) (name value : String) (behind : List String)
      → IsWritable allowed (name, value)
      → lookup name m ≡ none
      → bootstrap_loop allowed (so_far m) 0 (render (name, value) ∷ behind)
        ≡ bootstrap_loop allowed (so_far (m ++ (name, value) ∷ [])) 0 behind
  unfolding bootstrap_loop
  loop-once m name value behind w fresh =
      rw (split-render name value behind w.0, apply-new name value m w.1 fresh)

  loop-render :
      (m kvs : List (String × String)) (rest : List String)
      → All (IsWritable allowed) kvs
      → Distinct (m ++ kvs)
      → Stops allowed rest
      → bootstrap_loop allowed (so_far m) 0 (map render kvs ++ rest)
        ≡ ok (record { config_path = ""; values = m ++ kvs; rest = rest })
  loop-render m [] rest w d stop = rw append-nil (loop-Stops (so_far m) rest refl stop)
  loop-render m ((name, value) ∷ kvs) rest w d stop =
      loop-once m name value (map render kvs ++ rest) w.0 (Distinct-fresh name value m kvs d)
      ∙ loop-render (m ++ (name, value) ∷ []) kvs rest w.1
          (rw (append_assoc m ((name, value) ∷ []) kvs) d) stop
      ∙ ap (λ all. ok (record { config_path = ""; values = all; rest = rest }))
          (append_assoc m ((name, value) ∷ []) kvs)

-- Arguments that write distinct flags of the specs, none of them `--config`, in the form `--flag=value` are read back as they
-- were written, in their order, whatever the values hold, and the parse ends at the first argument
-- that is no bootstrap flag.
pub parse_bootstrap_args-render :
    (specs : List (Option BootstrapSpec)) (allowed : List String) (kvs : List (String × String))
    (rest : List String)
    → build_allowed_bootstrap_flags specs ≡ ok allowed
    → All (IsWritable allowed) kvs
    → Distinct kvs
    → Stops allowed rest
    → parse_bootstrap_args (map render kvs ++ rest) specs
      ≡ ok (record { config_path = ""; values = kvs; rest = rest })
unfolding parse_bootstrap_args build_allowed_bootstrap_flags
parse_bootstrap_args-render specs allowed kvs rest built w d stop =
    rw built
      (loop-render allowed (build_allowed-valid [] specs allowed built tt) [] kvs rest w d stop)
