-- ===== src/Codegen/Inputs/Claimed.antt =====
-- Which environment variables and bootstrap flags the files of a request may claim.
use mathlib.Core.Path.{subst}
use procframe.Prelude.{
  ◌≡◌, ◌↔◌, refl, sym, ap, ◌∙◌, String, Option, none, some, List, [], ◌∷◌, ◌++◌, All, All-append,
  All-split, if◌then◌else◌, if-true, if-false, Bool-cases, inl, inr,
}
use procframe.Prelude.Text.{◌+++◌}
use procframe.Prelude.Distinct.{Distinct, Distinct-front}
use procframe.Errors.{Result, ok, err, ◌>>=◌, bind-eq-ok, ok-injective}
use procframe.Codegen.ConfigModel.{ConfigFieldInfo, ConfigInfo, flag_name}
use procframe.Codegen.Validate.{validate_config_env, validate_config_bootstrap}
use procframe.Codegen.Validate.Accepted.{
  claimed, claim_unless-ok, claim_unless-Distinct, env_claims, flag_claims,
}
use procframe.Codegen.Descriptors.{ProtoFile}
use procframe.Codegen.Options.{extract_config_info}
use procframe.Codegen.Inputs.{
  Claims, claim_fields, claim_config, claim_files, validate_config_collisions,
}
use procframe.Codegen.Inputs.Seen.{
  MayClaim, all_env_claims, all_flag_claims, AllMayClaim, IsApart, extended, extended-nil,
  extended-append, IsApart-front, alone_claims, joined_claims,
}

module _ (quote : String → String) (base : String → String) (sort : List String → List String)
    (pattern : String) where
  fields-ok :
      (go_name : String) (fields : List ConfigFieldInfo) (seen more : Claims)
      → IsApart seen
      → claim_fields quote base sort pattern go_name fields seen ≡ ok more
      → All MayClaim fields
        × IsApart (extended seen (env_claims go_name fields) (flag_claims go_name fields))
        × (extended seen (env_claims go_name fields) (flag_claims go_name fields) ≡ more)
  unfolding claim_fields validate_config_env validate_config_bootstrap
  fields-ok go_name [] seen more apart h =
      (tt, subst IsApart (sym (extended-nil seen)) apart, extended-nil seen ∙ ok-injective h)
  fields-ok go_name (f ∷ fs) seen more apart h =
      let path = go_name +++ "." +++ f.proto_name in
      let e = claimed f.has_env f.env path in
      let b = claimed f.bootstrap (flag_name f) path in
      let (envs, claimed_env, rest) =
        bind-eq-ok (validate_config_env quote path f seen.env_seen) _ h in
      let (flags, claimed_flag, looped) =
        bind-eq-ok (validate_config_bootstrap quote path f seen.bootstrap_seen) _ rest in
      let (named, de, same) =
        claim_unless-ok f.env "" _ _ path seen.env_seen f.has_env envs apart.0 claimed_env in
      let (free, df, same') =
        claim_unless-ok (flag_name f) _ _ _ path seen.bootstrap_seen f.bootstrap flags apart.1
          claimed_flag in
      let next : extended seen e b ≡ record { env_seen = envs; bootstrap_seen = flags } =
        cc (same, same') in
      let (all, apart', whole) =
        fields-ok go_name fs (extended seen e b) more (de, df)
          (ap (claim_fields quote base sort pattern go_name fs) next ∙ looped) in
      let joined = extended-append seen e b (env_claims go_name fs) (flag_claims go_name fs) in
      (((named, free), all), subst IsApart joined apart', sym joined ∙ whole)

  fields-pass :
      (go_name : String) (fields : List ConfigFieldInfo) (seen : Claims)
      → All MayClaim fields
      → IsApart (extended seen (env_claims go_name fields) (flag_claims go_name fields))
      → claim_fields quote base sort pattern go_name fields seen
        ≡ ok (extended seen (env_claims go_name fields) (flag_claims go_name fields))
  unfolding claim_fields validate_config_env validate_config_bootstrap
  fields-pass go_name [] seen all apart = ap ok (sym (extended-nil seen))
  fields-pass go_name (f ∷ fs) seen all apart =
      let path = go_name +++ "." +++ f.proto_name in
      let e = claimed f.has_env f.env path in
      let b = claimed f.bootstrap (flag_name f) path in
      let es = env_claims go_name fs in
      let bs = flag_claims go_name fs in
      let (de, df) = IsApart-front seen e b es bs apart in
      ap
        (λ r. r >>= λ envs. validate_config_bootstrap quote path f seen.bootstrap_seen >>= λ flags.
          claim_fields quote base sort pattern go_name fs
            (record { env_seen = envs; bootstrap_seen = flags }))
        (claim_unless-Distinct f.env "" _ _ path seen.env_seen f.has_env all.0.0 de)
      ∙ ap
          (λ r. r >>= λ flags.
            claim_fields quote base sort pattern go_name fs
              (record { env_seen = seen.env_seen ++ e; bootstrap_seen = flags }))
          (claim_unless-Distinct (flag_name f) _ _ _ path seen.bootstrap_seen f.bootstrap all.0.1
            df)
      ∙ fields-pass go_name fs (extended seen e b) all.1
          (subst IsApart (sym (extended-append seen e b es bs)) apart)
      ∙ ap ok (extended-append seen e b es bs)

  -- The configurations of the files that are generated.
  abbrev pub read_config : Result (Option ConfigInfo) → List ConfigInfo
  read_config (err e) = []
  read_config (ok none) = []
  read_config (ok (some cfg)) = cfg ∷ []

  abbrev pub generated_configs : List ProtoFile → List ConfigInfo
  generated_configs [] = []
  generated_configs (f ∷ files) =
      let rest = generated_configs files in
      if f.generate then read_config (extract_config_info base sort pattern f) ++ rest else rest

  config-ok :
      (r : Result (Option ConfigInfo)) (seen more : Claims)
      → IsApart seen
      → claim_config quote base sort pattern r seen ≡ ok more
      → All AllMayClaim (read_config r)
        × IsApart (extended seen (all_env_claims (read_config r)) (all_flag_claims (read_config r)))
        × (extended seen (all_env_claims (read_config r)) (all_flag_claims (read_config r)) ≡ more)
  config-ok (err e) seen more apart h =
      (tt, subst IsApart (sym (extended-nil seen)) apart, extended-nil seen ∙ ok-injective h)
  config-ok (ok none) seen more apart h =
      (tt, subst IsApart (sym (extended-nil seen)) apart, extended-nil seen ∙ ok-injective h)
  config-ok (ok (some cfg)) seen more apart h =
      let (all, apart', same) = fields-ok cfg.go_name cfg.fields seen more apart h in
      let alone = alone_claims seen cfg in
      ((all, tt), subst IsApart (sym alone) apart', alone ∙ same)

  config-pass :
      (r : Result (Option ConfigInfo)) (seen : Claims)
      → All AllMayClaim (read_config r)
      → IsApart (extended seen (all_env_claims (read_config r)) (all_flag_claims (read_config r)))
      → claim_config quote base sort pattern r seen
        ≡ ok (extended seen (all_env_claims (read_config r)) (all_flag_claims (read_config r)))
  config-pass (err e) seen all apart = ap ok (sym (extended-nil seen))
  config-pass (ok none) seen all apart = ap ok (sym (extended-nil seen))
  config-pass (ok (some cfg)) seen all apart =
      let alone = alone_claims seen cfg in
      fields-pass cfg.go_name cfg.fields seen all.0 (subst IsApart alone apart) ∙ ap ok (sym alone)

  -- What is asked of configurations behind the claims that are seen.
  abbrev AreFree : Claims → List ConfigInfo → Type 0
  AreFree seen cfgs =
      All AllMayClaim cfgs × IsApart (extended seen (all_env_claims cfgs) (all_flag_claims cfgs))

  files-ok :
      (files : List ProtoFile) (seen : Claims)
      → IsApart seen
      → claim_files quote base sort pattern files seen ≡ ok tt
      → AreFree seen (generated_configs files)
  unfolding claim_files
  files-ok [] seen apart h = (tt, subst IsApart (sym (extended-nil seen)) apart)
  files-ok (f ∷ files) seen apart h =
      let now = read_config (extract_config_info base sort pattern f) in
      elim (Bool-cases f.generate) [
        | inl on ↦
            let (more, claims, looped) =
              bind-eq-ok
                (claim_config quote base sort pattern (extract_config_info base sort pattern f)
                  seen)
                _ (sym (if-true _ _ on) ∙ h) in
            let (all, apart', same) =
              config-ok (extract_config_info base sort pattern f) seen more apart claims in
            let (others, whole) = files-ok files more (subst IsApart same apart') looped in
            subst (AreFree seen) (sym (if-true (now ++ generated_configs files) _ on)) (
              All-append AllMayClaim now (generated_configs files) all others,
              subst IsApart (joined_claims seen more now (generated_configs files) same) whole,
            )
        | inr off ↦
            subst (AreFree seen)
              (sym (if-false (now ++ generated_configs files) (generated_configs files) off))
              (files-ok files seen apart (sym (if-false _ _ off) ∙ h))
      ]

  files-pass :
      (files : List ProtoFile) (seen : Claims)
      → AreFree seen (generated_configs files)
      → claim_files quote base sort pattern files seen ≡ ok tt
  unfolding claim_files
  files-pass [] seen free = refl
  files-pass (f ∷ files) seen free =
      let r = extract_config_info base sort pattern f in
      let now = read_config r in
      let rest = generated_configs files in
      elim (Bool-cases f.generate) [
        | inl on ↦
            let (all, apart) = subst (AreFree seen) (if-true (now ++ rest) rest on) free in
            let (first, others) = All-split AllMayClaim now rest all in
            let next = extended seen (all_env_claims now) (all_flag_claims now) in
            let parts = subst IsApart (sym (joined_claims seen next now rest refl)) apart in
            if-true _ _ on
            ∙ ap (λ x. x >>= λ more. claim_files quote base sort pattern files more)
                (config-pass r seen first (
                  Distinct-front (seen.env_seen ++ all_env_claims now) (all_env_claims rest)
                      parts.0,
                  Distinct-front (seen.bootstrap_seen ++ all_flag_claims now) (all_flag_claims rest)
                      parts.1,
                ))
            ∙ files-pass files next (others, parts)
        | inr off ↦
            if-false _ _ off
            ∙ files-pass files seen (subst (AreFree seen) (if-false (now ++ rest) rest off) free)
      ]

  -- The configurations of all the files of a request are accepted exactly if no environment variable
  -- and no bootstrap flag is claimed twice in them, and none of these is the empty name or the flag of
  -- the configuration file.
  pub validate_config_collisions-accepts :
      (files : List ProtoFile)
      → (validate_config_collisions quote base sort pattern files ≡ ok tt) ↔ (
          All AllMayClaim (generated_configs files)
          × Distinct (all_env_claims (generated_configs files))
          × Distinct (all_flag_claims (generated_configs files)))
  unfolding validate_config_collisions
  validate_config_collisions-accepts files = (
    λ h.
        let (all, apart) =
          files-ok files (record { env_seen = []; bootstrap_seen = [] }) (tt, tt) h in
        (all, apart.0, apart.1),
    λ free.
        files-pass files (record { env_seen = []; bootstrap_seen = [] }) (free.0, (free.1, free.2)),
  )
