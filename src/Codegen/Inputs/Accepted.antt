-- ===== src/Codegen/Inputs/Accepted.antt =====
-- What the generator accepts as a whole, and that the configurations of it load together.
use mathlib.Core.Path.{subst}
use procframe.Prelude.{
  ◌≡◌, refl, sym, ap, ◌∙◌, String, true, Option, none, some, List, [], ◌∷◌, ◌++◌, All, Bool-cases,
  inl, inr, lookup, arith,
}
use procframe.Prelude.Text.{◌+++◌}
use procframe.Prelude.Distinct.{Distinct}
use procframe.Errors.{Result, ok}
use procframe.Strconv.{Strconv}
use procframe.Config.Load.{Spec, detect_conflicts}
use procframe.Config.Load.Conflicts.{
  env_entries, all_flags, flag_entries, HasFlags, IsDeclared, detect_conflicts-Distinct,
}
use procframe.Codegen.Naming.{Letters}
use procframe.Codegen.ConfigModel.{Kind, ConfigFieldInfo, ConfigInfo, flag_name, is_config_proto}
use procframe.Codegen.ConfigSpec.{emitted_env_names, emitted_bootstrap_specs, emitted_spec}
use procframe.Codegen.Tree.{ServiceInfo}
use procframe.Codegen.Validate.Commands.{typed_paths}
use procframe.Codegen.Validate.Accepted.{IsAcceptable, env_claims, flag_claims}
use procframe.Codegen.Descriptors.{ProtoFile}
use procframe.Codegen.Inputs.{generated_messages, validate_config_collisions}
use procframe.Codegen.Inputs.Enums.{IsSpelled, message_enums}
use procframe.Codegen.Inputs.Bound.{Binds}
use procframe.Codegen.Inputs.Seen.{AllMayClaim, all_env_claims, all_flag_claims}
use procframe.Codegen.Inputs.Claimed.{generated_configs, validate_config_collisions-accepts}

-- The entries of an emitted spec are what the message claims.
env_names-claims :
    (go_name : String) (fields : List ConfigFieldInfo)
    → emitted_env_names go_name fields ≡ env_claims go_name fields
unfolding emitted_env_names
env_names-claims go_name [] = refl
env_names-claims go_name (f ∷ fs) = elim (Bool-cases f.has_env) [
  | inl on ↦
      rw on (ap (λ l. (f.env, go_name +++ "." +++ f.proto_name) ∷ l) (env_names-claims go_name fs))
  | inr off ↦ rw off (env_names-claims go_name fs)
]

specs-IsDeclared : (fields : List ConfigFieldInfo) → All IsDeclared (emitted_bootstrap_specs fields)
unfolding emitted_bootstrap_specs
specs-IsDeclared [] = tt
specs-IsDeclared (f ∷ fs) = elim (Bool-cases f.bootstrap) [
  | inl on ↦ rw on (tt, specs-IsDeclared fs)
  | inr off ↦ rw off (specs-IsDeclared fs)
]

-- The keys of claims, as entries of a set.
abbrev keys_of : List (String × String) → List (String × Unit {0})
keys_of [] = []
keys_of ((k, v) ∷ m) = (k, tt) ∷ keys_of m

lookup-keys :
    (k : String) (m : List (String × String)) → lookup k m ≡ none → lookup k (keys_of m) ≡ none
unfolding lookup
lookup-keys k [] h = refl
lookup-keys k ((j, v) ∷ m) h = ground (arith, lookup-keys k m)

keys-Distinct : (m : List (String × String)) → Distinct m → Distinct (keys_of m)
keys-Distinct [] d = tt
keys-Distinct ((k, v) ∷ m) d = (lookup-keys k m d.0, keys-Distinct m d.1)

keys-append : (xs ys : List (String × String)) → keys_of (xs ++ ys) ≡ keys_of xs ++ keys_of ys
keys-append [] ys = refl
keys-append ((k, v) ∷ xs) ys = ap (λ l. (k, tt) ∷ l) (keys-append xs ys)

flags-claims :
    (go_name : String) (fields : List ConfigFieldInfo)
    → flag_entries (emitted_bootstrap_specs fields) ≡ keys_of (flag_claims go_name fields)
unfolding emitted_bootstrap_specs flag_name
flags-claims go_name [] = refl
flags-claims go_name (f ∷ fs) = elim (Bool-cases f.bootstrap) [
  | inl on ↦ rw on (ap (λ l. (flag_name f, tt) ∷ l) (flags-claims go_name fs))
  | inr off ↦ rw off (flags-claims go_name fs)
]

module _ {C : Type 0} (closures : ConfigInfo → Spec C) where
  -- The specs of the configurations, as they are emitted.
  abbrev pub emitted_specs : List ConfigInfo → List (Spec C)
  emitted_specs [] = []
  emitted_specs (cfg ∷ cfgs) = emitted_spec (closures cfg) cfg ∷ emitted_specs cfgs

  specs-env : (cfgs : List ConfigInfo) → env_entries (emitted_specs cfgs) ≡ all_env_claims cfgs
  unfolding emitted_spec
  specs-env [] = refl
  specs-env (cfg ∷ cfgs) = cc (env_names-claims cfg.go_name cfg.fields, specs-env cfgs)

  specs-flags :
      (cfgs : List ConfigInfo) → all_flags (emitted_specs cfgs) ≡ keys_of (all_flag_claims cfgs)
  unfolding emitted_spec
  specs-flags [] = refl
  specs-flags (cfg ∷ cfgs) =
      cc (flags-claims cfg.go_name cfg.fields, specs-flags cfgs)
      ∙ sym (keys-append (flag_claims cfg.go_name cfg.fields) (all_flag_claims cfgs))

  specs-HasFlags : (cfgs : List ConfigInfo) → All HasFlags (emitted_specs cfgs)
  unfolding emitted_spec
  specs-HasFlags [] = tt
  specs-HasFlags (cfg ∷ cfgs) = (specs-IsDeclared cfg.fields, specs-HasFlags cfgs)

  detects :
      (cfgs : List ConfigInfo)
      → Distinct (all_env_claims cfgs)
      → Distinct (all_flag_claims cfgs)
      → detect_conflicts (emitted_specs cfgs) ≡ ok tt
  unfolding detect_conflicts
  detects [] de df = refl
  detects (a ∷ []) de df = refl
  detects (a ∷ b ∷ cfgs) de df =
      let all = a ∷ b ∷ cfgs in
      (detect_conflicts-Distinct (emitted_spec (closures a) a) (emitted_spec (closures b) b)
          (emitted_specs cfgs) (specs-HasFlags all)).1
        (
          subst Distinct (sym (specs-env all)) de,
          subst Distinct (sym (specs-flags all)) (keys-Distinct _ df),
        )

  -- The configuration messages that pass the check across the files of a request load together: Load
  -- finds no conflict between the specs that are emitted for them.
  pub collisions-detect :
      (quote : String → String) (base : String → String) (sort : List String → List String)
      (pattern : String) (files : List ProtoFile)
      → validate_config_collisions quote base sort pattern files ≡ ok tt
      → detect_conflicts (emitted_specs (generated_configs quote base sort pattern files)) ≡ ok tt
  collisions-detect quote base sort pattern files h =
      let (all, envs, flags) =
        (validate_config_collisions-accepts quote base sort pattern files).0 h in
      detects (generated_configs quote base sort pattern files) envs flags

module _ {Float32 Float64 Bytes : Type 0} (strconv : Strconv Float32 Float64) (letters : Letters)
    (decode : String → Result Bytes) (text : Kind → String) (base : String → String)
    (sort : List String → List String) (pattern : String) where
  open strconv use {quote}

  -- A configuration of a file that is a config proto.
  abbrev pub IsGood : Option ConfigInfo → Type 0
  IsGood none = Unit
  IsGood (some cfg) =
      is_config_proto base pattern cfg.file_path ≡ true
      → All (IsAcceptable strconv letters decode) cfg.fields
        × Distinct (env_claims cfg.go_name cfg.fields)
        × Distinct (flag_claims cfg.go_name cfg.fields)

  pub record IsAcceptedInputs (files : List ProtoFile) (services : List ServiceInfo)
      (cfg : Option ConfigInfo) : Type 0 where
    pub apart : Distinct (typed_paths services)
    pub spelled : All (IsSpelled letters) (message_enums (generated_messages files))
    pub bound : All (Binds files) services
    pub good : IsGood cfg
    pub may_claim : All AllMayClaim (generated_configs quote base sort pattern files)
    pub envs : Distinct (all_env_claims (generated_configs quote base sort pattern files))
    pub flags : Distinct (all_flag_claims (generated_configs quote base sort pattern files))
