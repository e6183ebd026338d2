-- ===== src/Codegen/ConfigRun/Layers.antt =====
-- The printed functions for the defaults, the environment and the flags, as one kind of layer.
use procframe.Prelude.{
  ◌≡◌, refl, sym, ap, ◌∙◌, String, Option, none, some, List, [], ◌∷◌, ◌==◌, if◌then◌else◌, if-true,
  if-false, lookup, Bool-cases, inl, inr,
}
use procframe.Errors.{Result, ok, err, ◌>>=◌, bind-eq-ok, err-not-ok}
use procframe.Config.Field.{apply_env, env_applied, looked_up}
use procframe.Config.Load.{EnvLookup}
use procframe.Codegen.ConfigModel.{ConfigFieldInfo, flag_name}
use procframe.Codegen.ConfigRun.{
  Held, path_of, set_field, named_error, apply_defaults, parsed_into, flag_parsed, env_setter,
  env_result, apply_env_with, flag_result, apply_bootstrap,
}

-- The text that a layer has for a field.
abbrev pub default_source : ConfigFieldInfo → Option String
default_source field = if field.has_default then some field.default_string else none

abbrev pub env_source : EnvLookup → ConfigFieldInfo → Option String
env_source env field =
    if field.has_env then (if field.env == "" then none else env field.env) else none

abbrev pub flag_source : List (String × String) → ConfigFieldInfo → Option String
flag_source given field = if field.bootstrap then lookup (flag_name field) given else none

module _ {V : Type 0} (go_name : String) (parse : ConfigFieldInfo → String → Result V) where
  abbrev pub step : ConfigFieldInfo → Option String → Held V → Result (Held V)
  step field none held = ok held
  step field (some raw) held = parse field raw >>= λ v. ok (set_field go_name parse field v held)

  -- A layer: each field that it has a text for is set to what the text is parsed to.
  unfoldable pub layer :
      (ConfigFieldInfo → Option String) → List ConfigFieldInfo → Held V → Result (Held V)
  layer source [] held = ok held
  layer source (field ∷ fields) held =
      step field (source field) held >>= λ next. layer source fields next

  layer-step :
      (source : ConfigFieldInfo → Option String) (f : ConfigFieldInfo) (fs : List ConfigFieldInfo)
      (o : Option String) (held next final : Held V)
      → source f ≡ o
      → step f o held ≡ ok next
      → layer source fs next ≡ ok final
      → layer source (f ∷ fs) held ≡ ok final
  unfolding layer
  layer-step source f fs o held next final is stepped rest =
      ap (λ x. step f x held >>= λ n. layer source fs n) is
      ∙ ap (λ r. r >>= λ n. layer source fs n) stepped
      ∙ rest

  parsed-step :
      (f : ConfigFieldInfo) (raw : String) (v : V) (held : Held V)
      → parse f raw ≡ ok v
      → step f (some raw) held ≡ ok (set_field go_name parse f v held)
  parsed-step f raw v held h = ap (λ r. r >>= λ x. ok (set_field go_name parse f x held)) h

  named-ok :
      (what : String) (r : Result V) {v : V} → named_error go_name parse what r ≡ ok v → r ≡ ok v
  named-ok what (ok v) h = h
  named-ok what (err e) h = absurd (err-not-ok _ h)

  pub defaults-layer :
      (fields : List ConfigFieldInfo) (held final : Held V)
      → apply_defaults go_name parse fields held ≡ ok final
      → layer default_source fields held ≡ ok final
  unfolding apply_defaults layer
  defaults-layer [] held final h = h
  defaults-layer (f ∷ fs) held final h = elim (Bool-cases f.has_default) [
    | inl on ↦
        let (v, named, rest) =
          bind-eq-ok
            (named_error go_name parse (path_of go_name parse f) (parse f f.default_string)) _
            (sym (if-true _ _ on) ∙ h) in
        layer-step default_source f fs (some f.default_string) held _ final (if-true _ _ on)
          (parsed-step f f.default_string v held (named-ok _ _ named))
          (defaults-layer fs (set_field go_name parse f v held) final rest)
    | inr off ↦
        layer-step default_source f fs none held held final (if-false _ _ off) refl
          (defaults-layer fs held final (sym (if-false _ _ off) ∙ h))
  ]

  setter-ok :
      (f : ConfigFieldInfo) (raw : String) (r : Result V) (held next : Held V)
      → env_result go_name parse f (env_applied f.env (parsed_into go_name parse f held r))
        ≡ ok next
      → (r >>= λ v. ok (set_field go_name parse f v held)) ≡ ok next
  setter-ok f raw (ok v) held next h = h
  setter-ok f raw (err e) held next h = absurd (err-not-ok _ h)

  looked_up-ok :
      (f : ConfigFieldInfo) (o : Option String) (held next : Held V)
      → env_result go_name parse f (looked_up f.env (env_setter go_name parse f) o held) ≡ ok next
      → step f o held ≡ ok next
  looked_up-ok f none held next h = h
  looked_up-ok f (some raw) held next h = setter-ok f raw (parse f raw) held next h

  env-step :
      (env : EnvLookup) (f : ConfigFieldInfo) (held next : Held V)
      → env_result go_name parse f
          (apply_env (some env) f.env (some (env_setter go_name parse f)) held)
        ≡ ok next
      → step f (if f.env == "" then none else env f.env) held ≡ ok next
  unfolding apply_env
  env-step env f held next h = elim (Bool-cases (f.env == "")) [
    | inl empty ↦
        ap (λ o. step f o held) (if-true none (env f.env) empty)
        ∙ sym (ap (env_result go_name parse f) (if-true (held, none) _ empty))
        ∙ h
    | inr named ↦
        ap (λ o. step f o held) (if-false none (env f.env) named)
        ∙ looked_up-ok f (env f.env) held next
            (sym (ap (env_result go_name parse f) (if-false (held, none) _ named)) ∙ h)
  ]

  pub env-layer :
      (env : EnvLookup) (fields : List ConfigFieldInfo) (held final : Held V)
      → apply_env_with go_name parse env fields held ≡ ok final
      → layer (env_source env) fields held ≡ ok final
  unfolding apply_env_with layer
  env-layer env [] held final h = h
  env-layer env (f ∷ fs) held final h = elim (Bool-cases f.has_env) [
    | inl on ↦
        let (next, set, rest) =
          bind-eq-ok
            (env_result go_name parse f
              (apply_env (some env) f.env (some (env_setter go_name parse f)) held))
            _ (sym (if-true _ _ on) ∙ h) in
        layer-step (env_source env) f fs _ held next final (if-true _ none on)
          (env-step env f held next set) (env-layer env fs next final rest)
    | inr off ↦
        layer-step (env_source env) f fs none held held final
          (if-false (if f.env == "" then none else env f.env) none off) refl
          (env-layer env fs held final (sym (if-false _ _ off) ∙ h))
  ]

  flag-step :
      (f : ConfigFieldInfo) (o : Option String) (held next : Held V)
      → flag_result go_name parse f held o ≡ ok next
      → step f o held ≡ ok next
  flag-step f none held next h = h
  flag-step f (some raw) held next h = by_parse (parse f raw) h
    where
      by_parse :
          (r : Result V)
          → flag_parsed go_name parse f held r ≡ ok next
          → (r >>= λ v. ok (set_field go_name parse f v held)) ≡ ok next
      by_parse (ok v) h = h
      by_parse (err e) h = absurd (err-not-ok _ h)

  pub flags-layer :
      (given : List (String × String)) (fields : List ConfigFieldInfo) (held final : Held V)
      → apply_bootstrap go_name parse given fields held ≡ ok final
      → layer (flag_source given) fields held ≡ ok final
  unfolding apply_bootstrap layer
  flags-layer given [] held final h = h
  flags-layer given (f ∷ fs) held final h = elim (Bool-cases f.bootstrap) [
    | inl on ↦
        let (next, set, rest) =
          bind-eq-ok (flag_result go_name parse f held (lookup (flag_name f) given)) _
            (sym (if-true _ _ on) ∙ h) in
        layer-step (flag_source given) f fs _ held next final (if-true _ none on)
          (flag-step f (lookup (flag_name f) given) held next set)
          (flags-layer given fs next final rest)
    | inr off ↦
        layer-step (flag_source given) f fs none held held final
          (if-false (lookup (flag_name f) given) none off) refl
          (flags-layer given fs held final (sym (if-false _ _ off) ∙ h))
  ]
