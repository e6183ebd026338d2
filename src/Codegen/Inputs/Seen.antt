-- ===== src/Codegen/Inputs/Seen.antt =====
-- The environment variables and bootstrap flags that messages claim, behind those that are seen.
use mathlib.Core.Path.{subst}
use procframe.Prelude.{
  ◌≡◌, refl, sym, ap, ◌∙◌, String, List, [], ◌∷◌, ◌++◌, append_assoc, append-nil, All,
}
use procframe.Prelude.Distinct.{Distinct, Distinct-front}
use procframe.Config.Bootstrap.{reserved_config_flag}
use procframe.Codegen.ConfigModel.{ConfigFieldInfo, ConfigInfo, flag_name}
use procframe.Codegen.Validate.Accepted.{Named, env_claims, flag_claims}
use procframe.Codegen.Inputs.{Claims}

-- What a field claims is named, and is not the flag of the configuration file.
abbrev pub MayClaim : ConfigFieldInfo → Type 0
MayClaim field =
    Named field.has_env field.env "" × Named field.bootstrap (flag_name field) reserved_config_flag

abbrev pub all_env_claims : List ConfigInfo → List (String × String)
all_env_claims [] = []
all_env_claims (cfg ∷ cfgs) = env_claims cfg.go_name cfg.fields ++ all_env_claims cfgs

abbrev pub all_flag_claims : List ConfigInfo → List (String × String)
all_flag_claims [] = []
all_flag_claims (cfg ∷ cfgs) = flag_claims cfg.go_name cfg.fields ++ all_flag_claims cfgs

abbrev pub AllMayClaim : ConfigInfo → Type 0
AllMayClaim cfg = All MayClaim cfg.fields

-- Nothing is claimed twice.
abbrev pub IsApart : Claims → Type 0
IsApart seen = Distinct seen.env_seen × Distinct seen.bootstrap_seen

abbrev pub extended : Claims → List (String × String) → List (String × String) → Claims
extended seen envs flags = record {
  env_seen = seen.env_seen ++ envs;
  bootstrap_seen = seen.bootstrap_seen ++ flags;
}

pub extended-nil : (seen : Claims) → extended seen [] [] ≡ seen
extended-nil seen = cc (append-nil seen.env_seen, append-nil seen.bootstrap_seen)

pub extended-append :
    (seen : Claims) (es fs es' fs' : List (String × String))
    → extended (extended seen es fs) es' fs' ≡ extended seen (es ++ es') (fs ++ fs')
extended-append seen es fs es' fs' =
    cc (append_assoc seen.env_seen es es', append_assoc seen.bootstrap_seen fs fs')

-- Claims behind those that are seen are apart already without what follows them.
pub IsApart-front :
    (seen : Claims) (es fs es' fs' : List (String × String))
    → IsApart (extended seen (es ++ es') (fs ++ fs'))
    → IsApart (extended seen es fs)
IsApart-front seen es fs es' fs' apart =
    let (de, df) = subst IsApart (sym (extended-append seen es fs es' fs')) apart in
    (Distinct-front (seen.env_seen ++ es) es' de, Distinct-front (seen.bootstrap_seen ++ fs) fs' df)

pub alone_claims :
    (seen : Claims) (cfg : ConfigInfo)
    → extended seen (all_env_claims (cfg ∷ [])) (all_flag_claims (cfg ∷ []))
      ≡ extended seen (env_claims cfg.go_name cfg.fields) (flag_claims cfg.go_name cfg.fields)
alone_claims seen cfg = cc (
  append-nil (env_claims cfg.go_name cfg.fields),
  append-nil (flag_claims cfg.go_name cfg.fields),
)

env_claims-append :
    (cs ds : List ConfigInfo) → all_env_claims (cs ++ ds) ≡ all_env_claims cs ++ all_env_claims ds
env_claims-append [] ds = refl
env_claims-append (c ∷ cs) ds =
    ap (λ l. env_claims c.go_name c.fields ++ l) (env_claims-append cs ds)
    ∙ sym (append_assoc (env_claims c.go_name c.fields) (all_env_claims cs) (all_env_claims ds))

flag_claims-append :
    (cs ds : List ConfigInfo)
    → all_flag_claims (cs ++ ds) ≡ all_flag_claims cs ++ all_flag_claims ds
flag_claims-append [] ds = refl
flag_claims-append (c ∷ cs) ds =
    ap (λ l. flag_claims c.go_name c.fields ++ l) (flag_claims-append cs ds)
    ∙ sym (append_assoc (flag_claims c.go_name c.fields) (all_flag_claims cs) (all_flag_claims ds))

-- The claims of one file and then of the others are those of all.
pub joined_claims :
    (seen more : Claims) (cs ds : List ConfigInfo)
    → extended seen (all_env_claims cs) (all_flag_claims cs) ≡ more
    → extended more (all_env_claims ds) (all_flag_claims ds)
      ≡ extended seen (all_env_claims (cs ++ ds)) (all_flag_claims (cs ++ ds))
joined_claims seen more cs ds same =
    ap (λ s. extended s (all_env_claims ds) (all_flag_claims ds)) (sym same)
    ∙ extended-append seen (all_env_claims cs) (all_flag_claims cs) (all_env_claims ds)
        (all_flag_claims ds)
    ∙ cc (env_claims-append cs ds, flag_claims-append cs ds)
