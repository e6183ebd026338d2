-- ===== src/Codegen/ConfigRun/Loaded.antt =====
-- What the printed code of a configuration message loads.
use mathlib.Core.Path.{subst}
use procframe.Prelude.{
  ℕ, Bool, false, ap, if◌then◌else◌, ◌≡◌, refl, sym, ◌∙◌, String, true, Option, none, some, List,
  [], ◌∷◌, ◌⊎◌, arith, eq_iff, ◌==◌, All, if-true, if-false, lookup, Bool-cases, inl, inr,
}
use procframe.Prelude.Text.{◌+++◌}
use procframe.Prelude.Distinct.{Distinct, or_else}
use procframe.Errors.{Error, Result, ok, err, ◌>>=◌, bind-eq-ok, ok-injective, err-not-ok}
use procframe.Config.Bootstrap.{BootstrapResult}
use procframe.Config.Field.{validate_required}
use procframe.Config.Load.{
  EnvLookup, Spec, in_stage, apply_all, apply_config_file, file_of, validate_all_required,
  load_parsed, load_specs, checked, detect_conflicts, parse_unified_bootstrap,
}
use procframe.Codegen.ConfigModel.{ConfigFieldInfo}
use procframe.Codegen.ConfigSpec.{emitted_spec}
use procframe.Codegen.ConfigRun.{
  Held, path_of, is_present, first_error, check_required, config_spec, load_config_file,
}
use procframe.Codegen.ConfigRun.Layers.{
  default_source, env_source, flag_source, defaults-layer, env-layer, flags-layer,
}
use procframe.Codegen.ConfigRun.Settled.{names_of, Settled, layer-Settled}
use procframe.Codegen.ConfigRun.Filed.{FromFile, load_config_file-FromFile}
use procframe.Codegen.ConfigRun.Given.{IsGiven, fields-IsGiven}
use procframe.Config.Json.{Json, Messages}

module _ {V J : Type 0} (go_name : String) (parse : ConfigFieldInfo → String → Result V)
    (json : Json J) (quote : String → String) (messages : Messages (List (String × V)))
    (read_file : String → Result String) (decode_int32 : String → Result ℕ)
    (format_int : ℕ → String) (as_int32 : V → J) (file_path : String)
    (fields : List ConfigFieldInfo) where
  abbrev load_file : String → Held V → Result (Held V)
  load_file =
      load_config_file go_name parse json quote messages read_file decode_int32 format_int as_int32
        fields

  abbrev spec_of : Spec (Held V)
  spec_of = config_spec go_name parse load_file file_path fields

  abbrev IsPresent : Held V → ConfigFieldInfo → Type 0
  IsPresent held field = field.required ≡ true → lookup field.go_name held.presence ≡ some tt

  -- Where the values of a loaded configuration come from: a bootstrap flag goes before an environment
  -- variable, that before the file, and that before a default. A required field has a text in one of
  -- these, or the file has it.
  pub record IsLayered (env : EnvLookup) (argv rest : List String) (start final : Held V)
      : Type 0 where
    pub parsed : BootstrapResult
    pub defaults : Held V
    pub filed : Held V
    pub split : parse_unified_bootstrap argv (spec_of ∷ []) ≡ ok parsed
    pub left : parsed.rest ≡ rest
    pub defaulted : All (λ f. Settled go_name parse f (default_source f) start defaults) fields
    pub from_file :
        ((parsed.config_path ≡ "") × (filed ≡ defaults))
        ⊎ FromFile go_name parse json quote messages read_file decode_int32 format_int as_int32
            fields parsed.config_path defaults filed
    pub settled :
        All
          (λ f.
            Settled go_name parse f
              (or_else (flag_source parsed.values f) (env_source env f))
              filed
              final)
          fields
    pub complete :
        All
          (IsGiven go_name parse json quote messages read_file decode_int32 format_int as_int32
            fields
            (λ f. or_else (flag_source parsed.values f) (env_source env f))
            default_source
            parsed.config_path
            defaults)
          fields

  -- A later layer over an earlier one.
  Settled-over :
      (f : ConfigFieldInfo) (late early : Option String) (a b c : Held V)
      → Settled go_name parse f early a b
      → Settled go_name parse f late b c
      → Settled go_name parse f (or_else late early) a c
  Settled-over f none none a b c first second = (second.0 ∙ first.0, second.1 ∙ first.1)
  Settled-over f none (some raw) a b c (v, parsed, value, mark) second =
      (v, parsed, second.0 ∙ value, second.1 ∙ mark)
  Settled-over f (some raw) none a b c first (v, parsed, value, mark) =
      (v, parsed, value, mark ∙ ap (λ old. if f.required then some tt else old) first.1)
  Settled-over f (some raw) (some earlier) a b c (w, parsed_first, before, mark_first)
        (v, parsed, value, mark) =
      (
        v,
        parsed,
        value,
        mark
            ∙ ap (λ old. if f.required then some tt else old) mark_first
            ∙ kept f.required (lookup f.go_name a.presence),
      )
    where
      kept :
          (b : Bool) (old : Option (Unit {0}))
          → (if b then some tt else (if b then some tt else old)) ≡ (if b then some tt else old)
      kept true old = refl
      kept false old = refl

  All-over :
      (late early : ConfigFieldInfo → Option String) (a b c : Held V) (fs : List ConfigFieldInfo)
      → All (λ f. Settled go_name parse f (early f) a b) fs
      → All (λ f. Settled go_name parse f (late f) b c) fs
      → All (λ f. Settled go_name parse f (or_else (late f) (early f)) a c) fs
  All-over late early a b c [] first second = tt
  All-over late early a b c (f ∷ fs) first second = (
    Settled-over f (late f) (early f) a b c first.0 second.0,
    All-over late early a b c fs first.1 second.1,
  )

  stage-ok :
      (stage : String) (r : Result (Held V)) {final : Held V}
      → (in_stage stage r >>= λ c. ok c) ≡ ok final
      → r ≡ ok final
  unfolding in_stage
  stage-ok stage (ok c) h = h
  stage-ok stage (err e) h = absurd (err-not-ok _ h)

  all-ok :
      (stage : String) (apply : Spec (Held V) → Held V → Result (Held V)) (c final : Held V)
      → apply_all stage apply (spec_of ∷ []) c ≡ ok final
      → apply spec_of c ≡ ok final
  unfolding apply_all in_stage
  all-ok stage apply c final h = stage-ok stage (apply spec_of c) h

  file-ok :
      (path : String) (c next : Held V)
      → apply_config_file path (spec_of ∷ []) c ≡ ok next
      → ((path ≡ "") × (next ≡ c)) ⊎ (load_file path c ≡ ok next)
  unfolding apply_config_file file_of in_stage config_spec emitted_spec
  file-ok path c next h = elim (Bool-cases (path == "")) [
    | inl empty ↦ inl ((eq_iff path "").0 empty, sym (ok-injective (sym (if-true _ _ empty) ∙ h)))
    | inr given ↦ inr (read (load_file path c) (sym (if-false _ _ given) ∙ h))
  ]
    where
      read :
          (r : Result (Held V))
          → in_stage ("load config file \"" +++ path +++ "\"") r ≡ ok next
          → r ≡ ok next
      read (ok c) h = h
      read (err e) h = absurd (err-not-ok _ h)

  first_error-none :
      (o rest : Option Error) → first_error go_name parse o rest ≡ none → (o ≡ none) × (rest ≡ none)
  first_error-none none rest h = (refl, h)
  first_error-none (some e) rest h = absurd (ground arith)

  present-ok :
      (path : String) (o : Option (Unit {0}))
      → validate_required path (is_present go_name parse o) ≡ none
      → o ≡ some tt
  unfolding validate_required
  present-ok path (some there) h = refl
  present-ok path none h = absurd (ground arith)

  required-ok :
      (fs : List ConfigFieldInfo) (held : Held V)
      → check_required go_name parse fs held ≡ none
      → All (IsPresent held) fs
  unfolding check_required
  required-ok [] held h = tt
  required-ok (f ∷ fs) held h = elim (Bool-cases f.required) [
    | inl on ↦
        let (present, rest) = first_error-none _ _ (sym (if-true _ _ on) ∙ h) in
        (
          λ e. present-ok (path_of go_name parse f) (lookup f.go_name held.presence) present,
          required-ok fs held rest,
        )
    | inr off ↦ (λ e. absurd (ground arith), required-ok fs held (sym (if-false _ _ off) ∙ h))
  ]

  checked-ok : (o : Option Error) → checked o (ok tt) ≡ ok tt → o ≡ none
  unfolding checked
  checked-ok none h = refl
  checked-ok (some e) h = absurd (err-not-ok e h)

  all_required-ok :
      (c : Held V) → validate_all_required (spec_of ∷ []) c ≡ ok tt → All (IsPresent c) fields
  unfolding validate_all_required config_spec emitted_spec
  all_required-ok c h = required-ok fields c (checked-ok (check_required go_name parse fields c) h)

  -- The steps of a load that succeeds, put together.
  steps-IsLayered :
      (env : EnvLookup) (argv : List String) (start defaults filed mid last : Held V)
      (parsed : BootstrapResult)
      → Distinct (names_of fields)
      → start.presence ≡ []
      → parse_unified_bootstrap argv (spec_of ∷ []) ≡ ok parsed
      → apply_all "apply defaults" (λ spec. spec.apply_defaults) (spec_of ∷ []) start ≡ ok defaults
      → apply_config_file parsed.config_path (spec_of ∷ []) defaults ≡ ok filed
      → apply_all "apply env" (λ spec. spec.apply_env env) (spec_of ∷ []) filed ≡ ok mid
      → apply_all "apply bootstrap" (λ spec. spec.apply_bootstrap parsed.values) (spec_of ∷ []) mid
        ≡ ok last
      → validate_all_required (spec_of ∷ []) last ≡ ok tt
      → IsLayered env argv parsed.rest start last
  unfolding config_spec emitted_spec
  steps-IsLayered env argv start defaults filed mid last parsed d unset split defaulting filing
        from_env flagged complete =
      let defaulted = layer-Settled go_name parse default_source fields start defaults d (
        defaults-layer go_name parse fields start defaults
          (all-ok _ _ start defaults defaulting)) in
      let from_file =
        elim (file-ok parsed.config_path defaults filed filing)
          as (λ o.
            ((parsed.config_path ≡ "") × (filed ≡ defaults))
            ⊎ FromFile go_name parse json quote messages read_file decode_int32 format_int as_int32
                fields parsed.config_path defaults filed) [
                  | inl no_file ↦ inl no_file
                  | inr read ↦ inr (
                      load_config_file-FromFile go_name parse json quote messages read_file
                        decode_int32 format_int as_int32 fields parsed.config_path defaults filed d
                        read)
                ] in
      let settled =
        All-over (flag_source parsed.values) (env_source env) filed mid last fields
          (layer-Settled go_name parse (env_source env) fields filed mid d
            (env-layer go_name parse env fields filed mid (all-ok _ _ filed mid from_env)))
          (layer-Settled go_name parse (flag_source parsed.values) fields mid last d (
            flags-layer go_name parse parsed.values fields mid last
              (all-ok _ _ mid last flagged))) in
      record {
        parsed = parsed;
        defaults = defaults;
        filed = filed;
        split = split;
        left = refl;
        defaulted = defaulted;
        from_file = from_file;
        settled = settled;
        complete =
            fields-IsGiven go_name parse json quote messages read_file decode_int32 format_int
              as_int32 fields (λ f. or_else (flag_source parsed.values f) (env_source env f))
              default_source parsed.config_path start defaults filed last unset from_file defaulted
              settled (all_required-ok last complete);
      }

  -- Where the Go names of the fields are distinct and no field is marked as present yet, a load of the
  -- printed spec alone that succeeds gives each field the value of its bootstrap flag, where the command
  -- line has one, or else that of its environment variable, where it is set, and else what the file, or
  -- without a file the default, has left there; each value of a flag, a variable or a default is what
  -- the field's parser reads; and each required field has a text in one of these, or the file has it
  -- and not as null.
  pub load_specs-IsLayered :
      (env : EnvLookup) (argv rest : List String) (start final : Held V)
      → Distinct (names_of fields)
      → start.presence ≡ []
      → load_specs env argv (spec_of ∷ []) start ≡ ok (final, rest)
      → IsLayered env argv rest start final
  unfolding load_specs load_parsed
  load_specs-IsLayered env argv rest start final d unset h =
      let one = spec_of ∷ [] in
      let (clear, cleared, h₁) = bind-eq-ok (detect_conflicts one) _ h in
      let (defaults, defaulting, h₂) = bind-eq-ok (apply_all _ _ one start) _ h₁ in
      let (parsed, split, h₃) = bind-eq-ok (parse_unified_bootstrap argv one) _ h₂ in
      let (filed, filing, h₄) =
        bind-eq-ok (apply_config_file parsed.config_path one defaults) _ h₃ in
      let (mid, from_env, h₅) = bind-eq-ok (apply_all _ _ one filed) _ h₄ in
      let (last, flagged, h₆) = bind-eq-ok (apply_all _ _ one mid) _ h₅ in
      let (valid, complete, h₇) = bind-eq-ok (validate_all_required one last) _ h₆ in
      subst (λ q. IsLayered env argv q.1 start q.0) (ok-injective h₇)
        (steps-IsLayered env argv start defaults filed mid last parsed d unset split defaulting
          filing from_env flagged complete)
