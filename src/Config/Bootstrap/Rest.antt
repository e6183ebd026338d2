-- ===== src/Config/Bootstrap/Rest.antt =====
-- What the parse of the bootstrap flags leaves, and what it may have taken.
use mathlib.Core.Path.{subst}
use procframe.Prelude.{
  ℕ, zero, suc, ◌≡◌, ◌≢◌, refl, String, true, Option, List, [], ◌∷◌, ◌++◌, arith, eq_iff, contains,
  insert, All, ap, ◌∙◌, sym, inl, inr, ◌⊎◌,
}
use procframe.Prelude.Distinct.{insert-All}
use procframe.Errors.{ok, bind-eq-ok}
use procframe.Config.Bootstrap.{
  BootstrapSpec, BootstrapResult, BootstrapArg, not_recognized, recognized, reserved_config_flag,
  take_arg, build_allowed_bootstrap_flags, is_bootstrap, split_bootstrap_arg, apply_bootstrap_value,
  bootstrap_loop, no_values, parse_bootstrap_args,
}
use procframe.Config.Bootstrap.RoundTrip.{Stops}

module _ (allowed : List String) where
  abbrev pub IsAllowed : String → Type 0
  IsAllowed name = contains name allowed ≡ true

  -- What the loop keeps true of its result.
  pub record IsSound (args : List String) (r : BootstrapResult) : Type 0 where
    pub used : List String
    pub split : args ≡ used ++ r.rest
    pub allowed_values : All (λ e. IsAllowed e.0) r.values
    pub stops : Stops allowed r.rest

  recognized_name :
      (arg : String) (rest : List String) (name value : String) (consumed : ℕ)
      → split_bootstrap_arg allowed arg rest ≡ ok (recognized name value consumed)
      → is_bootstrap allowed name ≡ true
  unfolding split_bootstrap_arg
  recognized_name arg [] name value consumed h = ground arith
  recognized_name arg (next ∷ rest) name value consumed h = ground arith

  is_bootstrap-IsAllowed :
      (name : String)
      → is_bootstrap allowed name ≡ true
      → name ≢ reserved_config_flag
      → IsAllowed name
  unfolding is_bootstrap
  is_bootstrap-IsAllowed name h other = ground (arith, eq_iff name reserved_config_flag)

  apply_values :
      (out out' : BootstrapResult) (name value : String)
      → apply_bootstrap_value out name value ≡ ok out'
      → (out'.rest ≡ out.rest)
        × ((out'.values ≡ out.values)
            ⊎ ((name ≢ reserved_config_flag) × (out'.values ≡ insert name value out.values)))
  unfolding apply_bootstrap_value
  apply_values out out' name value h = ground (arith, eq_iff name reserved_config_flag)

  apply-IsAllowed :
      (out out' : BootstrapResult) (name value : String)
      → apply_bootstrap_value out name value ≡ ok out'
      → is_bootstrap allowed name ≡ true
      → All (λ e. IsAllowed e.0) out.values
      → All (λ e. IsAllowed e.0) out'.values
  apply-IsAllowed out out' name value h known all = elim ((apply_values out out' name value h).1) [
    | inl same ↦ rw same all
    | inr (other, more) ↦ rw more (
        insert-All (λ e. IsAllowed e.0) name value out.values
          (is_bootstrap-IsAllowed name known other) all)
  ]

  -- An argument in front of a sound rest.
  IsSound-cons :
      (arg : String) {rest : List String} {r : BootstrapResult}
      → IsSound rest r
      → IsSound (arg ∷ rest) r
  IsSound-cons arg v = record {
    used = arg ∷ v.used;
    split = ap (λ l. arg ∷ l) v.split;
    allowed_values = v.allowed_values;
    stops = v.stops;
  }

  -- One round; `go` is the statement for the rest of the loop.
  round-IsSound :
      (out : BootstrapResult) (arg : String) (rest : List String) (b : BootstrapArg)
      (r : BootstrapResult)
      → split_bootstrap_arg allowed arg rest ≡ ok b
      → take_arg out (arg ∷ rest) (λ out' k. bootstrap_loop allowed out' k rest) b ≡ ok r
      → out.rest ≡ []
      → All (λ e. IsAllowed e.0) out.values
      → ((out' : BootstrapResult) (k : ℕ)
          → bootstrap_loop allowed out' k rest ≡ ok r
          → out'.rest ≡ []
          → All (λ e. IsAllowed e.0) out'.values
          → IsSound rest r)
      → IsSound (arg ∷ rest) r
  unfolding take_arg
  round-IsSound out arg rest not_recognized r stop t e all go =
      let same : record out { rest = arg ∷ rest } ≡ r = cc in
      subst (IsSound (arg ∷ rest)) same
        (record { used = []; split = refl; allowed_values = all; stops = stop })
  round-IsSound out arg rest (recognized name value consumed) r found t e all go =
      let (out', applied, looped) = bind-eq-ok (apply_bootstrap_value out name value) _ t in
      IsSound-cons arg (
        go out' consumed looped ((apply_values out out' name value applied).0 ∙ e) (
          apply-IsAllowed out out' name value applied
            (recognized_name arg rest name value consumed found) all))

  loop-IsSound :
      (out : BootstrapResult) (skip : ℕ) (args : List String) (r : BootstrapResult)
      → bootstrap_loop allowed out skip args ≡ ok r
      → out.rest ≡ []
      → All (λ e. IsAllowed e.0) out.values
      → IsSound args r
  unfolding bootstrap_loop
  loop-IsSound out skip [] r h e all =
      let same : out ≡ r = cc in
      subst (IsSound []) same
        (record { used = []; split = sym e; allowed_values = all; stops = rw e tt })
  loop-IsSound out (suc skip) (arg ∷ rest) r h e all =
      IsSound-cons arg (loop-IsSound out skip rest r h e all)
  loop-IsSound out zero (arg ∷ rest) r h e all =
      let (b, split_ok, taken) = bind-eq-ok (split_bootstrap_arg allowed arg rest) _ h in
      round-IsSound out arg rest b r split_ok taken e all (λ out' k. loop-IsSound out' k rest r)

-- A successful parse splits the arguments, in their order, into those that it used and the rest; the
-- rest begins with an argument that is no bootstrap flag; and every value is of a flag that the
-- specs declare.
pub parse_bootstrap_args-IsSound :
    (argv : List String) (specs : List (Option BootstrapSpec)) (r : BootstrapResult)
    → parse_bootstrap_args argv specs ≡ ok r
    → (allowed : List String) × (build_allowed_bootstrap_flags specs ≡ ok allowed)
      × IsSound allowed argv r
unfolding parse_bootstrap_args
parse_bootstrap_args-IsSound argv specs r h =
    let (allowed, built, looped) = bind-eq-ok (build_allowed_bootstrap_flags specs) _ h in
    (allowed, built, loop-IsSound allowed no_values 0 argv r looped refl tt)
