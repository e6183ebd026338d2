-- ===== src/Config/Load/Conflicts.antt =====
-- When a composite configuration is accepted.
use procframe.Prelude.{
  ◌≡◌, refl, sym, ap, ◌∙◌, ◌↔◌, String, Option, none, some, List, [], ◌∷◌, ◌++◌, arith,
  append_assoc, append-nil, All, lookup, fun_ext,
}
use mathlib.Core.Path.{subst}
use procframe.Prelude.Distinct.{Distinct, insert-new, Distinct-add, Distinct-fresh, Distinct-front}
use procframe.Errors.{Error, ok, ◌>>=◌, bind-eq-ok}
use procframe.Config.Bootstrap.{BootstrapSpec}
use procframe.Config.Load.{
  Spec, claim, claim_all, claim_env, claim_flags, flag_conflict, detect_from, detect_conflicts,
}

module _ {V : Type 0} (clash : String → V → V → Error) where
  pub claim-new :
      (name : String) (value : V) (seen : List (String × V))
      → lookup name seen ≡ none
      → claim clash name value seen ≡ ok (seen ++ (name, value) ∷ [])
  unfolding claim
  claim-new name value seen h = ground (arith, insert-new name value seen h)

  pub claim-ok :
      (name : String) (value : V) (seen more : List (String × V))
      → claim clash name value seen ≡ ok more
      → (lookup name seen ≡ none) × (seen ++ (name, value) ∷ [] ≡ more)
  unfolding claim
  claim-ok name value seen more h = ground (arith, insert-new name value seen)

  pub claim_all-ok :
      (seen es more : List (String × V))
      → claim_all clash seen es ≡ ok more
      → Distinct seen
      → Distinct (seen ++ es) × (seen ++ es ≡ more)
  unfolding claim_all
  claim_all-ok seen [] more h d = (rw append-nil d, append-nil seen ∙ cc)
  claim_all-ok seen ((name, value) ∷ es) more h d =
      let (one, claimed, looped) = bind-eq-ok (claim clash name value seen) _ h in
      let (fresh, same) = claim-ok name value seen one claimed in
      let (distinct, whole) =
        claim_all-ok one es more looped
          (subst Distinct same (Distinct-add name value seen d fresh)) in
      let moved : one ++ es ≡ seen ++ (name, value) ∷ es =
        ap (λ l. l ++ es) (sym same) ∙ append_assoc seen ((name, value) ∷ []) es in
      (subst Distinct moved distinct, sym moved ∙ whole)

  pub claim_all-Distinct :
      (seen es : List (String × V))
      → Distinct (seen ++ es)
      → claim_all clash seen es ≡ ok (seen ++ es)
  unfolding claim_all
  claim_all-Distinct seen [] d = ap ok (sym (append-nil seen))
  claim_all-Distinct seen ((name, value) ∷ es) d =
      rw (claim-new name value seen (Distinct-fresh name value seen es d)) (
        claim_all-Distinct (seen ++ (name, value) ∷ []) es
          (rw (append_assoc seen ((name, value) ∷ []) es) d)
        ∙ ap ok (append_assoc seen ((name, value) ∷ []) es))

-- The flags of one spec, as entries of a set.
abbrev pub flag_entries : List (Option BootstrapSpec) → List (String × Unit {0})
flag_entries [] = []
flag_entries (none ∷ specs) = flag_entries specs
flag_entries (some spec ∷ specs) = (spec.flag, tt) ∷ flag_entries specs

abbrev pub IsDeclared : Option BootstrapSpec → Type 0
IsDeclared none = ⊥
IsDeclared (some spec) = Unit

claim_flags-entries :
    (seen : List (String × Unit {0})) (specs : List (Option BootstrapSpec))
    → All IsDeclared specs
    → claim_flags seen specs ≡ claim_all flag_conflict seen (flag_entries specs)
unfolding claim_flags claim_all
claim_flags-entries seen [] all = refl
claim_flags-entries seen (none ∷ specs) all = absurd all.0
claim_flags-entries seen (some spec ∷ specs) all =
    ap (λ next. claim flag_conflict spec.flag tt seen >>= next)
      (fun_ext λ more. claim_flags-entries more specs all.1)

module _ {C : Type 0} where
  -- The environment variables and the flags of all the specs.
  abbrev pub env_entries : List (Spec C) → List (String × String)
  env_entries [] = []
  env_entries (spec ∷ specs) = spec.env_names ++ env_entries specs

  abbrev pub all_flags : List (Spec C) → List (String × Unit {0})
  all_flags [] = []
  all_flags (spec ∷ specs) = flag_entries spec.bootstrap_specs ++ all_flags specs

  abbrev pub HasFlags : Spec C → Type 0
  HasFlags spec = All IsDeclared spec.bootstrap_specs

  detect_from-ok :
      (env : List (String × String)) (flags : List (String × Unit {0})) (specs : List (Spec C))
      → All HasFlags specs
      → Distinct env
      → Distinct flags
      → detect_from (record { env_seen = env; flag_seen = flags }) specs ≡ ok tt
      → Distinct (env ++ env_entries specs) × Distinct (flags ++ all_flags specs)
  unfolding detect_from claim_env
  detect_from-ok env flags [] all de df h = (rw append-nil de, rw append-nil df)
  detect_from-ok env flags (spec ∷ specs) all de df h =
      let (env', claimed, rest) = bind-eq-ok (claim_env env spec.env_names) _ h in
      let (flags', flagged, looped) = bind-eq-ok (claim_flags flags spec.bootstrap_specs) _ rest in
      let (de', same) = claim_all-ok _ env spec.env_names env' claimed de in
      let (df', same_flags) =
        claim_all-ok flag_conflict flags (flag_entries spec.bootstrap_specs) flags'
          (sym (claim_flags-entries flags spec.bootstrap_specs all.0) ∙ flagged) df in
      let (e, f) =
        detect_from-ok env' flags' specs all.1 (subst Distinct same de')
          (subst Distinct same_flags df') looped in
      (
        subst Distinct
            (ap (λ l. l ++ env_entries specs) (sym same)
              ∙ append_assoc env spec.env_names (env_entries specs))
            e,
        subst Distinct
            (ap (λ l. l ++ all_flags specs) (sym same_flags)
              ∙ append_assoc flags (flag_entries spec.bootstrap_specs) (all_flags specs))
            f,
      )

  detect_from-Distinct :
      (env : List (String × String)) (flags : List (String × Unit {0})) (specs : List (Spec C))
      → All HasFlags specs
      → Distinct (env ++ env_entries specs)
      → Distinct (flags ++ all_flags specs)
      → detect_from (record { env_seen = env; flag_seen = flags }) specs ≡ ok tt
  unfolding detect_from claim_env
  detect_from-Distinct env flags [] all de df = refl
  detect_from-Distinct env flags (spec ∷ specs) all de df =
      let fs = flag_entries spec.bootstrap_specs in
      let de' = subst Distinct (sym (append_assoc env spec.env_names (env_entries specs))) de in
      let df' = subst Distinct (sym (append_assoc flags fs (all_flags specs))) df in
      rw
        (
          claim_all-Distinct _ env spec.env_names (Distinct-front _ (env_entries specs) de'),
          claim_flags-entries flags spec.bootstrap_specs all.0,
          claim_all-Distinct flag_conflict flags fs (Distinct-front _ (all_flags specs) df'),
        )
        (detect_from-Distinct (env ++ spec.env_names) (flags ++ fs) specs all.1 de' df')

  -- A composite configuration, whose specs declare their flags (none is nil), is accepted exactly if
  -- no environment variable and no bootstrap flag is named twice, in one spec or across them.
  pub detect_conflicts-Distinct :
      (a b : Spec C) (specs : List (Spec C))
      → All HasFlags (a ∷ b ∷ specs)
      → (detect_conflicts (a ∷ b ∷ specs) ≡ ok tt)
        ↔ (Distinct (env_entries (a ∷ b ∷ specs)) × Distinct (all_flags (a ∷ b ∷ specs)))
  unfolding detect_conflicts
  detect_conflicts-Distinct a b specs all = (
    λ h. detect_from-ok [] [] (a ∷ b ∷ specs) all tt tt h,
    λ d. detect_from-Distinct [] [] (a ∷ b ∷ specs) all d.0 d.1,
  )
