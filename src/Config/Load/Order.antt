-- ===== src/Config/Load/Order.antt =====
-- What a successful load guarantees, and in which order the sources come.
use mathlib.Core.Path.{subst}
use procframe.Prelude.{
  ◌≡◌, refl, ap, ◌⊎◌, inl, inr, String, none, List, [], ◌∷◌, ◌==◌, eq_iff, All, Bool-cases,
  Option-cases,
}
use procframe.Errors.{Result, ok, bind-eq-ok, ok-injective, err-not-ok}
use procframe.Config.Bootstrap.{BootstrapResult}
use procframe.Config.Load.{
  EnvLookup, Spec, Target, collect_specs, detect_conflicts, parse_unified_bootstrap, apply_all,
  file_of, apply_config_file, validate_all_required, load_parsed, load_specs, load,
}

module _ {C : Type 0} where
  abbrev pub IsSingle : List (Spec C) → Type 0
  IsSingle [] = ⊥
  IsSingle (spec ∷ []) = Unit
  IsSingle (a ∷ b ∷ specs) = ⊥

  -- `complete`: no spec misses a required field of the configuration that is handed out. `single`: a
  -- path that is not empty was given only where there is one spec.
  pub record IsLoaded (target : Target C) (argv : List String) (final : C) (rest : List String)
      : Type 0 where
    pub specs : List (Spec C)
    pub parsed : BootstrapResult
    pub collected : collect_specs target ≡ ok specs
    pub clear : detect_conflicts specs ≡ ok tt
    pub split : parse_unified_bootstrap argv specs ≡ ok parsed
    pub left : parsed.rest ≡ rest
    pub complete : All (λ spec. spec.validate_required final ≡ none) specs
    pub single : (parsed.config_path ≡ "") ⊎ IsSingle specs

  validate-ok :
      (specs : List (Spec C)) (c : C)
      → validate_all_required specs c ≡ ok tt
      → All (λ spec. spec.validate_required c ≡ none) specs
  unfolding validate_all_required
  validate-ok [] c h = tt
  validate-ok (spec ∷ specs) c h = elim (Option-cases (spec.validate_required c)) [
    | inl e ↦ (e, validate-ok specs c (rw e at h))
    | inr (x, e) ↦ absurd (err-not-ok x (rw e at h))
  ]

  file_of-IsSingle :
      (path : String) (specs : List (Spec C)) (c c' : C)
      → file_of path specs c ≡ ok c'
      → IsSingle specs
  unfolding file_of
  file_of-IsSingle path [] c c' h = cc
  file_of-IsSingle path (spec ∷ []) c c' h = tt
  file_of-IsSingle path (a ∷ b ∷ specs) c c' h = cc

  file-IsSingle :
      (path : String) (specs : List (Spec C)) (c c' : C)
      → apply_config_file path specs c ≡ ok c'
      → (path ≡ "") ⊎ IsSingle specs
  unfolding apply_config_file
  file-IsSingle path specs c c' h = elim (Bool-cases (path == "")) [
    | inl e ↦ inl ((eq_iff path "").0 e)
    | inr e ↦ inr (file_of-IsSingle path specs c c' (rw e at h))
  ]

  -- A configuration that is handed out passes the check for required fields of each of its specs, as
  -- it is handed out; the specs have no conflict; a configuration file with a path that is not empty was
  -- given only for a single spec; and the arguments left are those behind the bootstrap flags.
  pub load-IsLoaded :
      (env : EnvLookup) (target : Target C) (c : C) (argv : List String) (final : C)
      (rest : List String)
      → load env target c argv ≡ ok (final, rest)
      → IsLoaded target argv final rest
  unfolding load load_specs load_parsed
  load-IsLoaded env target c argv final rest h =
      let (specs, collected, h₁) = bind-eq-ok (collect_specs target) _ h in
      let (clear, cleared, h₂) = bind-eq-ok (detect_conflicts specs) _ h₁ in
      let (c₁, defaults, h₃) = bind-eq-ok (apply_all _ _ specs c) _ h₂ in
      let (r, parsed, h₄) = bind-eq-ok (parse_unified_bootstrap argv specs) _ h₃ in
      let (c₂, filed, h₅) = bind-eq-ok (apply_config_file r.config_path specs c₁) _ h₄ in
      let (c₃, from_env, h₆) = bind-eq-ok (apply_all _ _ specs c₂) _ h₅ in
      let (c₄, flagged, h₇) = bind-eq-ok (apply_all _ _ specs c₃) _ h₆ in
      let (valid, checked, h₈) = bind-eq-ok (validate_all_required specs c₄) _ h₇ in
      let same = ok-injective h₈ in
      record {
        specs = specs;
        parsed = r;
        collected = collected;
        clear = cleared;
        split = parsed;
        left = ap (λ p. p.1) same;
        complete =
            subst (λ x. All (λ spec. spec.validate_required x ≡ none) specs) (ap (λ p. p.0) same)
              (validate-ok specs c₄ checked);
        single = file-IsSingle r.config_path specs c₁ c₂ filed;
      }

  -- One function for each spec, in the order of the specs.
  abbrev pub each : (Spec C → C → C) → List (Spec C) → C → C
  each f [] c = c
  each f (spec ∷ specs) c = each f specs (f spec c)

  apply_all-each :
      (stage : String) (apply : Spec C → C → Result C) (f : Spec C → C → C) (specs : List (Spec C))
      (c : C)
      → All (λ spec. (x : C) → apply spec x ≡ ok (f spec x)) specs
      → apply_all stage apply specs c ≡ ok (each f specs c)
  unfolding apply_all
  apply_all-each stage apply f [] c all = refl
  apply_all-each stage apply f (spec ∷ specs) c all =
      rw (all.0 c) (apply_all-each stage apply f specs (f spec c) all.1)

  validate-none :
      (specs : List (Spec C)) (c : C)
      → All (λ spec. spec.validate_required c ≡ none) specs
      → validate_all_required specs c ≡ ok tt
  unfolding validate_all_required
  validate-none [] c all = refl
  validate-none (spec ∷ specs) c all = rw all.0 (validate-none specs c all.1)

  -- Where no source fails, the sources are applied in the order defaults, file, environment and
  -- bootstrap flags, each source for all specs before the next one, so that a later source has the
  -- last word; and the load succeeds if that configuration has all its required fields.
  pub load-each :
      (env : EnvLookup) (target : Target C) (c : C) (argv : List String) (specs : List (Spec C))
      (r : BootstrapResult) (defaults from_env flags : Spec C → C → C) (file : C → C)
      → collect_specs target ≡ ok specs
      → detect_conflicts specs ≡ ok tt
      → parse_unified_bootstrap argv specs ≡ ok r
      → All (λ spec. (x : C) → spec.apply_defaults x ≡ ok (defaults spec x)) specs
      → ((x : C) → apply_config_file r.config_path specs x ≡ ok (file x))
      → All (λ spec. (x : C) → spec.apply_env env x ≡ ok (from_env spec x)) specs
      → All (λ spec. (x : C) → spec.apply_bootstrap r.values x ≡ ok (flags spec x)) specs
      → All
          (λ spec.
            spec.validate_required
              (each flags specs (each from_env specs (file (each defaults specs c))))
            ≡ none)
          specs
      → load env target c argv
        ≡ ok (each flags specs (each from_env specs (file (each defaults specs c))), r.rest)
  unfolding load load_specs load_parsed
  load-each env target c argv specs r defaults from_env flags file collected clear parsed d f e b
        v =
      rw
        (
          collected,
          clear,
          apply_all-each "apply defaults" (λ spec. spec.apply_defaults) defaults specs c d,
          parsed,
          f (each defaults specs c),
          apply_all-each "apply env" (λ spec. spec.apply_env env) from_env specs _ e,
          apply_all-each "apply bootstrap" (λ spec. spec.apply_bootstrap r.values) flags specs _ b,
          validate-none specs _ v,
        )
        refl
