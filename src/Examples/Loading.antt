-- ===== src/Examples/Loading.antt =====
-- A composite configuration of two specs on a small environment.
use procframe.Prelude.{◌≡◌, refl, ◌↔◌, String, none, some, List, [], ◌∷◌, true, lookup, insert, map}
use procframe.Prelude.Distinct.{Distinct}
use procframe.Errors.{ok}
use procframe.Config.Bootstrap.{
  BootstrapResult, parse_bootstrap_args, build_allowed_bootstrap_flags, build_allowed_from,
  validate_bootstrap_flag, bootstrap_loop, split_bootstrap_arg, is_bootstrap, apply_bootstrap_value,
}
use procframe.Config.Load.{
  EnvLookup, Spec, Target, struct_of, claim, claim_all, claim_env, claim_flags, collect_specs,
  detect_from, detect_conflicts, all_bootstrap_specs, parse_unified_bootstrap, apply_all,
  apply_config_file, validate_all_required, load_parsed, load_specs, load,
}
use procframe.Config.Load.Conflicts.{env_entries, all_flags, detect_conflicts-Distinct}
use procframe.Config.Load.Order.{IsLoaded, load-IsLoaded, load-each}

-- The configuration is the list of what was applied to it, the last one first.
abbrev Log : Type 0
Log = List String

abbrev logging : String → Spec Log
logging name = record {
  env_names = (name, "field") ∷ [];
  bootstrap_specs = some (record { flag = name }) ∷ [];
  apply_defaults = λ c. ok ("defaults" ∷ c);
  apply_config_file = λ path c. ok ("file" ∷ c);
  apply_env = λ env c. ok ("env" ∷ c);
  apply_bootstrap = λ values c. ok ("flags" ∷ c);
  validate_required = λ c. none;
}

abbrev both : List (Spec Log)
both = logging "log" ∷ logging "port" ∷ []

abbrev both_target : Target Log
both_target =
    struct_of "Config"
      (map (λ spec. record { anonymous = true; pointer = true; provider = some spec }) both)

abbrev no_env : EnvLookup
no_env name = none

abbrev some_argv : List String
some_argv = "--port=80" ∷ "list" ∷ []

abbrev some_parsed : BootstrapResult
some_parsed = record { config_path = ""; values = ("port", "80") ∷ []; rest = "list" ∷ [] }

both-clear : detect_conflicts both ≡ ok tt
unfolding detect_conflicts detect_from claim_env claim_flags claim_all claim lookup insert
both-clear = refl

both-parsed : parse_unified_bootstrap some_argv both ≡ ok some_parsed
unfolding parse_unified_bootstrap all_bootstrap_specs parse_bootstrap_args
    build_allowed_bootstrap_flags build_allowed_from validate_bootstrap_flag bootstrap_loop
    split_bootstrap_arg is_bootstrap apply_bootstrap_value lookup insert
both-parsed = refl

both-collected : collect_specs both_target ≡ ok both
unfolding collect_specs
both-collected = refl

abbrev whole_log : Log
whole_log = "flags" ∷ "flags" ∷ "env" ∷ "env" ∷ "defaults" ∷ "defaults" ∷ []

no_file : (x : Log) → apply_config_file "" both x ≡ ok x
unfolding apply_config_file
no_file x = refl

load-each_example : load no_env both_target [] some_argv ≡ ok (whole_log, "list" ∷ [])
load-each_example =
    load-each no_env both_target [] some_argv both some_parsed (λ spec c. "defaults" ∷ c)
      (λ spec c. "env" ∷ c) (λ spec c. "flags" ∷ c) (λ c. c) both-collected both-clear both-parsed
      ((λ x. refl), ((λ x. refl), tt)) no_file ((λ x. refl), ((λ x. refl), tt))
      ((λ x. refl), ((λ x. refl), tt)) (refl, (refl, tt))

both-loaded : load no_env both_target [] some_argv ≡ ok (whole_log, "list" ∷ [])
unfolding load load_specs load_parsed collect_specs detect_conflicts detect_from claim_env
    claim_flags claim_all claim lookup insert parse_unified_bootstrap all_bootstrap_specs
    parse_bootstrap_args build_allowed_bootstrap_flags build_allowed_from validate_bootstrap_flag
    bootstrap_loop split_bootstrap_arg is_bootstrap apply_bootstrap_value apply_all
    apply_config_file validate_all_required
both-loaded = refl

load-IsLoaded_example : IsLoaded both_target some_argv whole_log ("list" ∷ [])
load-IsLoaded_example =
    load-IsLoaded no_env both_target [] some_argv whole_log ("list" ∷ []) both-loaded

detect_conflicts-Distinct_example :
    (detect_conflicts both ≡ ok tt) ↔ (Distinct (env_entries both) × Distinct (all_flags both))
detect_conflicts-Distinct_example =
    detect_conflicts-Distinct (logging "log") (logging "port") [] ((tt, tt), ((tt, tt), tt))
