-- ===== src/Codegen/Validate/Commands.antt =====
-- Which commands the generator accepts.
use mathlib.Core.Path.{subst}
use procframe.Prelude.{
  ◌≡◌, ◌↔◌, refl, sym, ap, ◌∙◌, fun_ext, String, List, [], ◌∷◌, ◌++◌, append_assoc, append-nil,
  if◌then◌else◌, Bool-cases, inl, inr,
}
use procframe.Prelude.Text.{join}
use procframe.Prelude.Distinct.{Distinct, Distinct-front}
use procframe.Errors.{ok, ◌>>=◌, bind-eq-ok}
use procframe.Config.Load.{claim, claim_all}
use procframe.Config.Load.Conflicts.{claim_all-ok, claim_all-Distinct}
use procframe.Codegen.Tree.{MethodInfo, ServiceInfo}
use procframe.Codegen.Validate.{
  duplicate_path, check_paths, check_services, validate_duplicate_paths,
}

-- The paths of the commands, as they are typed, with the methods behind them.
abbrev pub method_paths : ServiceInfo → List MethodInfo → List (String × String)
method_paths svc [] = []
method_paths svc (m ∷ ms) =
    let rest = method_paths svc ms in
    if m.cli then (join " " (svc.path ++ m.path), m.full_name) ∷ rest else rest

abbrev pub typed_paths : List ServiceInfo → List (String × String)
typed_paths [] = []
typed_paths (svc ∷ svcs) = method_paths svc svc.methods ++ typed_paths svcs

module _ (quote : String → String) where
  check_paths-claims :
      (svc : ServiceInfo) (ms : List MethodInfo) (seen : List (String × String))
      → check_paths quote svc ms seen ≡ claim_all (duplicate_path quote) seen (method_paths svc ms)
  unfolding check_paths claim_all
  check_paths-claims svc [] seen = refl
  check_paths-claims svc (m ∷ ms) seen = elim (Bool-cases m.cli) [
    | inl exposed ↦ rw exposed (
        ap
          (λ next.
            claim (duplicate_path quote) (join " " (svc.path ++ m.path)) m.full_name seen >>= next)
          (fun_ext λ more. check_paths-claims svc ms more))
    | inr hidden ↦ rw hidden (check_paths-claims svc ms seen)
  ]

  check_services-ok :
      (svcs : List ServiceInfo) (seen : List (String × String))
      → Distinct seen
      → check_services quote svcs seen ≡ ok tt
      → Distinct (seen ++ typed_paths svcs)
  unfolding check_services
  check_services-ok [] seen d h = rw append-nil d
  check_services-ok (svc ∷ svcs) seen d h =
      let now = method_paths svc svc.methods in
      let (more, checked, rest) = bind-eq-ok (check_paths quote svc svc.methods seen) _ h in
      let (d', same) =
        claim_all-ok _ seen now more (sym (check_paths-claims svc svc.methods seen) ∙ checked) d in
      subst Distinct
        (ap (λ l. l ++ typed_paths svcs) (sym same) ∙ append_assoc seen now (typed_paths svcs))
        (check_services-ok svcs more (subst Distinct same d') rest)

  check_services-Distinct :
      (svcs : List ServiceInfo) (seen : List (String × String))
      → Distinct (seen ++ typed_paths svcs)
      → check_services quote svcs seen ≡ ok tt
  unfolding check_services
  check_services-Distinct [] seen d = refl
  check_services-Distinct (svc ∷ svcs) seen d =
      let now = method_paths svc svc.methods in
      let d' = subst Distinct (sym (append_assoc seen now (typed_paths svcs))) d in
      ap (λ r. r >>= λ more. check_services quote svcs more)
        (check_paths-claims svc svc.methods seen
          ∙ claim_all-Distinct _ seen now (Distinct-front (seen ++ now) (typed_paths svcs) d'))
      ∙ check_services-Distinct svcs (seen ++ now) d'

  -- The commands of the services are accepted exactly if no two of them are typed alike.
  pub validate_duplicate_paths-Distinct :
      (services : List ServiceInfo)
      → (validate_duplicate_paths quote services ≡ ok tt) ↔ Distinct (typed_paths services)
  unfolding validate_duplicate_paths
  validate_duplicate_paths-Distinct services =
      (check_services-ok services [] tt, check_services-Distinct services [])
