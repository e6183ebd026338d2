-- ===== src/Codegen/Validate/Accepted.antt =====
-- Which configurations the generator accepts.
use mathlib.Core.Path.{subst}
use procframe.Prelude.{
  ◌≡◌, ◌≢◌, ◌↔◌, refl, sym, ap, ◌∙◌, String, Bool, true, false, Option, none, some, List, [], ◌∷◌,
  ◌++◌, ◌==◌, arith, eq_iff, append_assoc, append-nil, All, Bool-cases, inl, inr, if-true, if-false,
}
use procframe.Prelude.Text.{◌+++◌}
use procframe.Prelude.Distinct.{Distinct, Distinct-add, Distinct-fresh, Distinct-front}
use procframe.Errors.{Error, Result, ok, err, ◌>>=◌, bind-eq-ok, ok-injective, err-not-ok}
use procframe.Strconv.{Strconv}
use procframe.Config.Bootstrap.{reserved_config_flag}
use procframe.Config.Load.{claim}
use procframe.Config.Load.Conflicts.{claim-new, claim-ok}
use procframe.Codegen.Naming.{Letters}
use procframe.Codegen.ConfigModel.{ConfigFieldInfo, ConfigInfo, flag_name, is_config_proto}
use procframe.Codegen.Validate.{
  claim_unless, validate_config_env, validate_config_bootstrap, is_complex_config_field,
  validate_config_field_type, unless, parse_config_value, default_error, validate_config_default,
  validate_fields, validate_config_info,
}

-- What a field claims.
abbrev pub claimed : Bool → String → String → List (String × String)
claimed true name path = (name, path) ∷ []
claimed false name path = []

abbrev pub Named : Bool → String → String → Type 0
Named on name refused = on ≡ true → name ≢ refused

module _ (name refused : String) (refusal : Error) (clash : String → String → String → Error)
    (path : String) (seen : List (String × String)) where
  pub claim_unless-ok :
      (on : Bool) (more : List (String × String))
      → Distinct seen
      → claim_unless on name refused refusal clash path seen ≡ ok more
      → Named on name refused
        × Distinct (seen ++ claimed on name path)
        × (seen ++ claimed on name path ≡ more)
  unfolding claim_unless
  claim_unless-ok false more d h =
      (λ e. absurd (ground arith), rw append-nil d, append-nil seen ∙ ok-injective h)
  claim_unless-ok true more d h = elim (Bool-cases (name == refused)) [
    | inl taken ↦ absurd (err-not-ok refusal (sym (if-true _ _ taken) ∙ h))
    | inr free ↦
        let (fresh, same) = claim-ok clash name path seen more (sym (if-false _ _ free) ∙ h) in
        (
          (λ e. λ eq. ground (arith, eq_iff name refused)),
          Distinct-add name path seen d fresh,
          same,
        )
  ]

  pub claim_unless-Distinct :
      (on : Bool)
      → Named on name refused
      → Distinct (seen ++ claimed on name path)
      → claim_unless on name refused refusal clash path seen ≡ ok (seen ++ claimed on name path)
  unfolding claim_unless
  claim_unless-Distinct false named d = ap ok (sym (append-nil seen))
  claim_unless-Distinct true named d =
      if-false {b = name == refused} (err refusal) (claim clash name path seen)
        (ground (arith, eq_iff name refused, named refl))
      ∙ claim-new clash name path seen (Distinct-fresh name path seen [] d)

unless-ok :
    {A : Type 0} (o : Option Error) (rest : Result A) {end : A}
    → unless o rest ≡ ok end
    → (o ≡ none) × (rest ≡ ok end)
unless-ok none rest h = (refl, h)
unless-ok (some e) rest h = absurd (err-not-ok e h)

-- What the fields of a message claim.
abbrev pub env_claims : String → List ConfigFieldInfo → List (String × String)
env_claims go_name [] = []
env_claims go_name (f ∷ fs) =
    claimed f.has_env f.env (go_name +++ "." +++ f.proto_name) ++ env_claims go_name fs

abbrev pub flag_claims : String → List ConfigFieldInfo → List (String × String)
flag_claims go_name [] = []
flag_claims go_name (f ∷ fs) =
    claimed f.bootstrap (flag_name f) (go_name +++ "." +++ f.proto_name) ++ flag_claims go_name fs

-- A complex field has none of the three options.
abbrev pub IsPlain : ConfigFieldInfo → Type 0
IsPlain field =
    is_complex_config_field field ≡ true
    → (field.has_env ≡ false) × (field.bootstrap ≡ false) × (field.has_default ≡ false)

field_type-IsPlain :
    (path : String) (field : ConfigFieldInfo)
    → (validate_config_field_type path field ≡ none) ↔ IsPlain field
unfolding validate_config_field_type
field_type-IsPlain path field = (
  λ h c. (ground arith, ground arith, ground arith),
  λ plain. elim (Bool-cases (is_complex_config_field field)) [
    | inl complex ↦ let (e, b, d) = plain complex in rw (complex, e, b, d) refl
    | inr simple ↦ rw simple refl
  ],
)

module _ {Float32 Float64 Bytes : Type 0} (strconv : Strconv Float32 Float64) (letters : Letters)
    (decode : String → Result Bytes) where
  -- What is asked of one field: a complex field has no option for a scalar; an environment variable
  -- is named; a bootstrap flag is not the reserved one; and a default is read by the parser of the
  -- field's kind.
  pub record IsAcceptable (field : ConfigFieldInfo) : Type 0 where
    pub plain : IsPlain field
    pub env_named : Named field.has_env field.env ""
    pub flag_free : Named field.bootstrap (flag_name field) reserved_config_flag
    pub readable :
        field.has_default ≡ true
        → parse_config_value strconv letters decode field field.default_string field.kind ≡ none

  default-readable :
      (path : String) (field : ConfigFieldInfo)
      → (validate_config_default strconv letters decode path field ≡ none) ↔ (
          field.has_default ≡ true
          → parse_config_value strconv letters decode field field.default_string field.kind ≡ none)
  unfolding validate_config_default default_error
  default-readable path field = (
    λ h given.
        kept (parse_config_value strconv letters decode field field.default_string field.kind)
          (sym (if-true _ _ given) ∙ h),
    λ reads. elim (Bool-cases field.has_default) [
      | inl given ↦
          if-true _ _ given ∙ ap (default_error strconv letters decode path field) (reads given)
      | inr absent ↦ if-false _ _ absent
    ],
  )
    where
      kept :
          (o : Option Error) → default_error strconv letters decode path field o ≡ none → o ≡ none
      kept none h = refl
      kept (some e) h = ground arith

  fields-ok :
      (go_name : String) (fields : List ConfigFieldInfo) (envs flags : List (String × String))
      → Distinct envs
      → Distinct flags
      → validate_fields strconv letters decode go_name fields envs flags ≡ ok tt
      → All IsAcceptable fields
        × Distinct (envs ++ env_claims go_name fields)
        × Distinct (flags ++ flag_claims go_name fields)
  unfolding validate_fields validate_config_env validate_config_bootstrap
  fields-ok go_name [] envs flags de df h = (tt, rw append-nil de, rw append-nil df)
  fields-ok go_name (f ∷ fs) envs flags de df h =
      let path = go_name +++ "." +++ f.proto_name in
      let e = claimed f.has_env f.env path in
      let b = claimed f.bootstrap (flag_name f) path in
      let (typed, behind) = unless-ok (validate_config_field_type path f) _ h in
      let (envs', claimed_env, rest) = bind-eq-ok _ _ behind in
      let (flags', claimed_flag, last) = bind-eq-ok _ _ rest in
      let (reads, looped) =
        unless-ok (validate_config_default strconv letters decode path f) _ last in
      let (named, de', same) =
        claim_unless-ok f.env "" _ _ path envs f.has_env envs' de claimed_env in
      let (free, df', same') =
        claim_unless-ok (flag_name f) _ _ _ path flags f.bootstrap flags' df claimed_flag in
      let (all, des, dfs) =
        fields-ok go_name fs envs' flags' (subst Distinct same de') (subst Distinct same' df')
          looped in
      (
        (
          record {
            plain = (field_type-IsPlain path f).0 typed;
            env_named = named;
            flag_free = free;
            readable = (default-readable path f).0 reads;
          },
          all,
        ),
        subst Distinct
            (ap (λ l. l ++ env_claims go_name fs) (sym same)
              ∙ append_assoc envs e (env_claims go_name fs))
            des,
        subst Distinct
            (ap (λ l. l ++ flag_claims go_name fs) (sym same')
              ∙ append_assoc flags b (flag_claims go_name fs))
            dfs,
      )

  fields-Distinct :
      (go_name : String) (fields : List ConfigFieldInfo) (envs flags : List (String × String))
      → All IsAcceptable fields
      → Distinct (envs ++ env_claims go_name fields)
      → Distinct (flags ++ flag_claims go_name fields)
      → validate_fields strconv letters decode go_name fields envs flags ≡ ok tt
  unfolding validate_fields validate_config_env validate_config_bootstrap
  fields-Distinct go_name [] envs flags all de df = refl
  fields-Distinct go_name (f ∷ fs) envs flags all de df =
      let path = go_name +++ "." +++ f.proto_name in
      let e = claimed f.has_env f.env path in
      let b = claimed f.bootstrap (flag_name f) path in
      let de' = subst Distinct (sym (append_assoc envs e (env_claims go_name fs))) de in
      let df' = subst Distinct (sym (append_assoc flags b (flag_claims go_name fs))) df in
      ap
        (λ o. unless o (
          validate_config_env strconv.quote path f envs >>= λ more.
          validate_config_bootstrap strconv.quote path f flags >>= λ more'.
          unless (validate_config_default strconv letters decode path f)
            (validate_fields strconv letters decode go_name fs more more')))
        ((field_type-IsPlain path f).1 all.0.plain)
      ∙ ap
          (λ r. r >>= λ more. validate_config_bootstrap strconv.quote path f flags >>= λ more'.
            unless (validate_config_default strconv letters decode path f)
              (validate_fields strconv letters decode go_name fs more more'))
          (claim_unless-Distinct f.env "" _ _ path envs f.has_env all.0.env_named
            (Distinct-front _ (env_claims go_name fs) de'))
      ∙ ap
          (λ r. r >>= λ more'.
            unless (validate_config_default strconv letters decode path f)
              (validate_fields strconv letters decode go_name fs (envs ++ e) more'))
          (claim_unless-Distinct (flag_name f) _ _ _ path flags f.bootstrap all.0.flag_free
            (Distinct-front _ (flag_claims go_name fs) df'))
      ∙ ap
          (λ o.
            unless o (validate_fields strconv letters decode go_name fs (envs ++ e) (flags ++ b)))
          ((default-readable path f).1 all.0.readable)
      ∙ fields-Distinct go_name fs (envs ++ e) (flags ++ b) all.1 de' df'

  -- A configuration of a file that is a config proto is accepted exactly if each of its fields is
  -- acceptable by itself and no environment variable and no bootstrap flag is claimed by two fields.
  pub validate_config_info-accepts :
      (base : String → String) (pattern : String) (cfg : ConfigInfo)
      → is_config_proto base pattern cfg.file_path ≡ true
      → (validate_config_info strconv letters decode base pattern (some cfg) ≡ ok tt) ↔ (
          All IsAcceptable cfg.fields
          × Distinct (env_claims cfg.go_name cfg.fields)
          × Distinct (flag_claims cfg.go_name cfg.fields))
  unfolding validate_config_info
  validate_config_info-accepts base pattern cfg is = (
    λ h. fields-ok cfg.go_name cfg.fields [] [] tt tt (sym (if-true _ _ is) ∙ h),
    λ a. if-true _ _ is ∙ fields-Distinct cfg.go_name cfg.fields [] [] a.0 a.1 a.2,
  )
