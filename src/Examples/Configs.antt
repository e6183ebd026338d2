-- ===== src/Examples/Configs.antt =====
-- The bootstrap flags of a configuration on small inputs.
use procframe.Prelude.{◌≡◌, refl, String, Option, some, List, [], ◌∷◌, map, ◌++◌, lookup, insert}
use procframe.Errors.{ok}
use procframe.Config.Bootstrap.{
  BootstrapSpec, BootstrapResult, build_allowed_bootstrap_flags, build_allowed_from,
  parse_bootstrap_args, bootstrap_loop, split_bootstrap_arg, is_bootstrap, apply_bootstrap_value,
  validate_bootstrap_flag,
}
use procframe.Config.Bootstrap.RoundTrip.{render, parse_bootstrap_args-render}
use procframe.Config.Bootstrap.Rest.{IsSound, parse_bootstrap_args-IsSound}

abbrev some_specs : List (Option BootstrapSpec)
some_specs = some (record { flag = "log" }) ∷ some (record { flag = "port" }) ∷ []

some_specs-allowed : build_allowed_bootstrap_flags some_specs ≡ ok ("port" ∷ "log" ∷ [])
unfolding build_allowed_bootstrap_flags build_allowed_from validate_bootstrap_flag
some_specs-allowed = refl

parse_bootstrap_args-render_example :
    parse_bootstrap_args
      (map render (("port", "80") ∷ ("log", "a=b") ∷ []) ++ "list" ∷ "--port=1" ∷ [])
      some_specs
    ≡ ok (record {
      config_path = "";
      values = ("port", "80") ∷ ("log", "a=b") ∷ [];
      rest = "list" ∷ "--port=1" ∷ [];
    })
unfolding split_bootstrap_arg lookup
parse_bootstrap_args-render_example =
    parse_bootstrap_args-render some_specs ("port" ∷ "log" ∷ [])
      (("port", "80") ∷ ("log", "a=b") ∷ []) ("list" ∷ "--port=1" ∷ []) some_specs-allowed
      ((refl, λ p. cc p), ((refl, λ p. cc p), tt)) (refl, (refl, tt)) refl

abbrev some_argv : List String
some_argv = "--config" ∷ "app.json" ∷ "--port=80" ∷ "list" ∷ []

abbrev some_result : BootstrapResult
some_result = record { config_path = "app.json"; values = ("port", "80") ∷ []; rest = "list" ∷ [] }

some_argv-parsed : parse_bootstrap_args some_argv some_specs ≡ ok some_result
unfolding parse_bootstrap_args build_allowed_bootstrap_flags build_allowed_from
    validate_bootstrap_flag bootstrap_loop split_bootstrap_arg is_bootstrap apply_bootstrap_value
    lookup insert
some_argv-parsed = refl

parse_bootstrap_args-IsSound_example :
    (allowed : List String) × (build_allowed_bootstrap_flags some_specs ≡ ok allowed)
    × IsSound allowed some_argv some_result
parse_bootstrap_args-IsSound_example =
    parse_bootstrap_args-IsSound some_argv some_specs some_result some_argv-parsed

-- A first `--config` with an empty value does not count.
config_twice :
    parse_bootstrap_args ("--config=" ∷ "--config=app.json" ∷ []) []
    ≡ ok (record { config_path = "app.json"; values = []; rest = [] })
unfolding parse_bootstrap_args build_allowed_bootstrap_flags build_allowed_from bootstrap_loop
    split_bootstrap_arg is_bootstrap apply_bootstrap_value
config_twice = refl
