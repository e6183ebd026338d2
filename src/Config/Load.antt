-- ===== src/Config/Load.antt =====
-- config/load.go and spec.go: one configuration from its defaults, a file, the environment and the
-- bootstrap flags, in this order.
pub mod Conflicts
pub mod Order
use procframe.Prelude.{
  String, Bool, ◌&&◌, Option, none, some, List, [], ◌∷◌, ◌++◌, ◌==◌, if◌then◌else◌, lookup, insert,
}
use procframe.Prelude.Text.{◌+++◌}
use procframe.Errors.{Error, plain, wrapping, error_text, Result, ok, err, ◌>>=◌}
use procframe.Config.Bootstrap.{BootstrapSpec, BootstrapResult, parse_bootstrap_args}

-- `EnvLookup`.
abbrev pub EnvLookup : Type 0
EnvLookup = String → Option String

-- `Spec`. The closures change the configuration, of type `C`, which is lost with an error. A map is
-- the list of its entries, in the order of one iteration over it.
pub record Spec (C : Type 0) : Type 0 where
  pub env_names : List (String × String)
  pub bootstrap_specs : List (Option BootstrapSpec)
  pub apply_defaults : C → Result C
  pub apply_config_file : String → C → Result C
  pub apply_env : EnvLookup → C → Result C
  pub apply_bootstrap : List (String × String) → C → Result C
  pub validate_required : C → Option Error

-- A field of a struct, as reflection shows it: whether it is embedded, whether it is a pointer, and
-- the spec where it is a `SpecProvider`.
pub record Field (C : Type 0) : Type 0 where
  pub anonymous : Bool
  pub pointer : Bool
  pub provider : Option (Spec C)

-- What `*T` is: a `SpecProvider`, a struct of that name, or another type of that name.
pub data Target (C : Type 0) : Type 0 where
  direct : Spec C → Target C
  struct_of : String → List (Field C) → Target C
  no_struct : String → Target C

-- A panic of the runtime stands as this error.
abbrev pub nil_dereference : Error
nil_dereference = plain "runtime error: invalid memory address or nil pointer dereference"

abbrev pub index_out_of_range : Error
index_out_of_range = plain "runtime error: index out of range"

-- What the two maps of `detectConflicts` hold so far.
pub record Seen : Type 0 where
  pub env_seen : List (String × String)
  pub flag_seen : List (String × Unit {0})

env_conflict : String → String → String → Error
env_conflict name prev path =
    plain ("env var \"" +++ name +++ "\" conflict: " +++ prev +++ " and " +++ path)

flag_conflict : String → Unit {0} → Unit {0} → Error
flag_conflict name prev value =
    plain ("bootstrap flag --" +++ name +++ " conflict: declared by multiple configs")

module _ {V : Type 0} (clash : String → V → V → Error) where
  -- `if prev, dup := seen[name]; dup { return ... }; seen[name] = value`.
  unfoldable pub claim : String → V → List (String × V) → Result (List (String × V))
  claim name value seen = elim (lookup name seen) [
    | some prev ↦ err (clash name prev value)
    | none ↦ ok (insert name value seen)
  ]

  unfoldable pub claim_all : List (String × V) → List (String × V) → Result (List (String × V))
  claim_all seen [] = ok seen
  claim_all seen ((name, value) ∷ rest) = claim name value seen >>= λ more. claim_all more rest

-- The two inner loops of `detectConflicts`.
unfoldable pub claim_env :
    List (String × String) → List (String × String) → Result (List (String × String))
unfolding env_conflict
claim_env = claim_all env_conflict

unfoldable pub claim_flags :
    List (String × Unit {0}) → List (Option BootstrapSpec) → Result (List (String × Unit {0}))
unfolding flag_conflict
claim_flags seen [] = ok seen
claim_flags seen (none ∷ rest) = err nil_dereference
claim_flags seen (some spec ∷ rest) =
    claim flag_conflict spec.flag tt seen >>= λ more. claim_flags more rest

-- `if err := spec.ValidateRequired(); err != nil { return err }`, with the rest of the loop.
unfoldable pub checked : Option Error → Result (Unit {0}) → Result (Unit {0})
checked none others = others
checked (some e) others = err e

module _ {C : Type 0} where
  provided : Option (Spec C) → List (Spec C) → List (Spec C)
  provided none specs = specs
  provided (some spec) specs = spec ∷ specs

  -- The loop over the fields.
  field_specs : List (Field C) → List (Spec C)
  unfolding provided
  field_specs [] = []
  field_specs (field ∷ fields) =
      let others = field_specs fields in
      if field.anonymous && field.pointer then provided field.provider others else others

  some_specs : String → List (Spec C) → Result (List (Spec C))
  some_specs name [] =
      err (plain ("config type " +++ name +++ " has no embedded SpecProvider fields"))
  some_specs name (spec ∷ specs) = ok (spec ∷ specs)

  unfoldable pub collect_specs : Target C → Result (List (Spec C))
  unfolding field_specs some_specs
  collect_specs (direct spec) = ok (spec ∷ [])
  collect_specs (struct_of name fields) = some_specs name (field_specs fields)
  collect_specs (no_struct name) =
      err (plain ("config type " +++ name +++ " must be a struct or implement SpecProvider"))

  -- The outer loop of `detectConflicts`.
  unfoldable pub detect_from : Seen → List (Spec C) → Result (Unit {0})
  detect_from seen [] = ok tt
  detect_from seen (spec ∷ specs) = claim_env seen.env_seen spec.env_names >>= λ env.
      claim_flags seen.flag_seen spec.bootstrap_specs >>= λ flags.
      detect_from (record { env_seen = env; flag_seen = flags }) specs

  unfoldable pub detect_conflicts : List (Spec C) → Result (Unit {0})
  detect_conflicts [] = ok tt
  detect_conflicts (spec ∷ []) = ok tt
  detect_conflicts (a ∷ b ∷ specs) =
      detect_from (record { env_seen = []; flag_seen = [] }) (a ∷ b ∷ specs)

  unfoldable pub all_bootstrap_specs : List (Spec C) → List (Option BootstrapSpec)
  all_bootstrap_specs [] = []
  all_bootstrap_specs (spec ∷ specs) = spec.bootstrap_specs ++ all_bootstrap_specs specs

  unfoldable pub parse_unified_bootstrap : List String → List (Spec C) → Result BootstrapResult
  parse_unified_bootstrap argv specs = parse_bootstrap_args argv (all_bootstrap_specs specs)

  -- `fmt.Errorf("<stage>: %w", err)`.
  unfoldable pub in_stage : String → Result C → Result C
  in_stage stage (ok c) = ok c
  in_stage stage (err e) = err (wrapping (stage +++ ": " +++ error_text e) e)

  -- The loop over the specs of `applyAllDefaults`, `applyAllEnv` and `applyAllBootstrap`.
  unfoldable pub apply_all : String → (Spec C → C → Result C) → List (Spec C) → C → Result C
  unfolding in_stage
  apply_all stage apply [] c = ok c
  apply_all stage apply (spec ∷ specs) c =
      in_stage stage (apply spec c) >>= apply_all stage apply specs

  unfoldable pub file_of : String → List (Spec C) → C → Result C
  unfolding in_stage
  file_of path [] c = err index_out_of_range
  file_of path (spec ∷ []) c =
      in_stage ("load config file \"" +++ path +++ "\"") (spec.apply_config_file path c)
  file_of path (a ∷ b ∷ specs) c = err (plain "--config is not supported with composite configs")

  unfoldable pub apply_config_file : String → List (Spec C) → C → Result C
  unfolding file_of
  apply_config_file path specs c = if path == "" then ok c else file_of path specs c

  unfoldable pub validate_all_required : List (Spec C) → C → Result (Unit {0})
  unfolding checked
  validate_all_required [] c = ok tt
  validate_all_required (spec ∷ specs) c =
      checked (spec.validate_required c) (validate_all_required specs c)

  -- `loadInto` behind `collectSpecs`, from the bootstrap flags on.
  unfoldable pub load_parsed :
      EnvLookup → List (Spec C) → BootstrapResult → C → Result (C × List String)
  load_parsed env specs r c = apply_config_file r.config_path specs c >>= λ c₁.
      apply_all "apply env" (λ spec. spec.apply_env env) specs c₁ >>= λ c₂.
      apply_all "apply bootstrap" (λ spec. spec.apply_bootstrap r.values) specs c₂ >>= λ c₃.
      validate_all_required specs c₃ >>= λ valid. ok (c₃, r.rest)

  unfoldable pub load_specs : EnvLookup → List String → List (Spec C) → C → Result (C × List String)
  load_specs env argv specs c = detect_conflicts specs >>= λ clear.
      apply_all "apply defaults" (λ spec. spec.apply_defaults) specs c >>= λ c₁.
      parse_unified_bootstrap argv specs >>= λ r. load_parsed env specs r c₁

  -- `Load`, with `c` for what `new(T)` and the embedded pointers hold.
  unfoldable pub load : EnvLookup → Target C → C → List String → Result (C × List String)
  load env target c argv = collect_specs target >>= λ specs. load_specs env argv specs c
