-- ===== src/Codegen/ConfigRun/Given.antt =====
-- Which layer has given a required field, told from its mark of presence.
use procframe.Prelude.{
  ◌≡◌, refl, sym, ap, ◌∙◌, String, true, Option, none, some, List, [], ◌∷◌, arith, ℕ, ◌⊎◌, All,
  lookup, Bool-cases, inl, inr,
}
use procframe.Errors.{Result, ok}
use procframe.Config.Json.{Json, Messages}
use procframe.Config.File.{merge_json_file}
use procframe.Codegen.ConfigModel.{ConfigFieldInfo}
use procframe.Codegen.ConfigRun.{Held, is_present, file_parsers, secret_fields}
use procframe.Codegen.ConfigRun.Settled.{Settled}
use procframe.Codegen.ConfigRun.Filed.{IsMarked, FromFile}

abbrev pub HasText : Option String → Type 0
HasText o = (raw : String) × (o ≡ some raw)

module _ {V J : Type 0} (go_name : String) (parse : ConfigFieldInfo → String → Result V)
    (json : Json J) (quote : String → String) (messages : Messages (List (String × V)))
    (read_file : String → Result String) (decode_int32 : String → Result ℕ)
    (format_int : ℕ → String) (as_int32 : V → J) where
  -- The file of that path has the field, and not as null.
  abbrev pub InFile : List ConfigFieldInfo → String → Held V → ConfigFieldInfo → Type 0
  InFile fields path held f =
      (after : List (String × V)) × (present : List (String × Unit {0})) × (merge_json_file json
          quote messages read_file path held.values
          (file_parsers go_name parse json quote messages read_file decode_int32 format_int as_int32
            fields)
          (secret_fields go_name parse json quote messages read_file decode_int32 format_int
            as_int32 fields)
        ≡ (after, ok present))
      × (lookup f.json_name present ≡ some tt)

  -- A mark that a layer leaves is its own, where it has a text, or else was there before.
  pub Settled-marked :
      (f : ConfigFieldInfo) (o : Option String) (held final : Held V)
      → Settled go_name parse f o held final
      → lookup f.go_name final.presence ≡ some tt
      → HasText o ⊎ (lookup f.go_name held.presence ≡ some tt)
  Settled-marked f none held final same h = inr (sym same.1 ∙ h)
  Settled-marked f (some raw) held final set h = inl (raw, refl)

  present-some : (o : Option (Unit {0})) → is_present go_name parse o ≡ true → o ≡ some tt
  present-some none h = ground arith
  present-some (some there) h = refl

  pub FromFile-marked :
      (fields : List ConfigFieldInfo) (path : String) (held next : Held V) (f : ConfigFieldInfo)
      (present : List (String × Unit {0}))
      → IsMarked go_name parse json quote messages read_file decode_int32 format_int as_int32
          present held.presence next.presence f
      → lookup f.go_name next.presence ≡ some tt
      → (lookup f.json_name present ≡ some tt) ⊎ (lookup f.go_name held.presence ≡ some tt)
  FromFile-marked fields path held next f present marked h =
      elim (Bool-cases (is_present go_name parse (lookup f.json_name present))) [
        | inl there ↦ inl (present-some (lookup f.json_name present) there)
        | inr gone ↦ inr (ground arith)
      ]

  -- A required field is given by a flag or an environment variable (`late`), by the file, or by a
  -- default.
  abbrev pub IsGiven :
      List ConfigFieldInfo
      → (ConfigFieldInfo → Option String)
      → (ConfigFieldInfo → Option String)
      → String
      → Held V
      → ConfigFieldInfo
      → Type 0
  IsGiven fields late early path defaults f =
      f.required ≡ true → HasText (late f) ⊎ (InFile fields path defaults f ⊎ HasText (early f))

  module _ (fields : List ConfigFieldInfo) (late early : ConfigFieldInfo → Option String)
      (path : String) (start defaults filed final : Held V) (unset : start.presence ≡ []) where
    -- The file has left all as it was, or was read, with the marks of these fields.
    abbrev Merged : List (String × Unit {0}) → Type 0
    Merged present =
        merge_json_file json quote messages read_file path defaults.values
          (file_parsers go_name parse json quote messages read_file decode_int32 format_int as_int32
            fields)
          (secret_fields go_name parse json quote messages read_file decode_int32 format_int
            as_int32 fields)
        ≡ (filed.values, ok present)

    abbrev Marked : List (String × Unit {0}) → ConfigFieldInfo → Type 0
    Marked present f =
        IsMarked go_name parse json quote messages read_file decode_int32 format_int as_int32
          present defaults.presence filed.presence f

    abbrev Read : List (String × Unit {0}) → List ConfigFieldInfo → Type 0
    Read present fs = (filed ≡ defaults) ⊎ (Merged present × All (Marked present) fs)

    later_fields :
        (present : List (String × Unit {0})) (f : ConfigFieldInfo) (fs : List ConfigFieldInfo)
        → Read present (f ∷ fs)
        → Read present fs
    later_fields present f fs (inl same) = inl same
    later_fields present f fs (inr (merged, marked)) = inr (merged, marked.1)

    by_default :
        (f : ConfigFieldInfo)
        → Settled go_name parse f (early f) start defaults
        → lookup f.go_name defaults.presence ≡ some tt
        → HasText (early f)
    unfolding lookup
    by_default f settled h = elim (Settled-marked f (early f) start defaults settled h) [
      | inl text ↦ text
      | inr before ↦ absurd (let e = sym (ap (lookup f.go_name) unset) ∙ before in ground arith)
    ]

    by_file :
        (present : List (String × Unit {0})) (f : ConfigFieldInfo) (fs : List ConfigFieldInfo)
        → Read present (f ∷ fs)
        → lookup f.go_name filed.presence ≡ some tt
        → InFile fields path defaults f ⊎ (lookup f.go_name defaults.presence ≡ some tt)
    by_file present f fs (inl same) h =
        inr (ap (λ (c : Held V). lookup f.go_name c.presence) (sym same) ∙ h)
    by_file present f fs (inr (merged, marked)) h =
        elim (FromFile-marked fields path defaults filed f present marked.0 h) [
          | inl there ↦ inl (filed.values, present, merged, there)
          | inr before ↦ inr before
        ]

    marked-IsGiven :
        (present : List (String × Unit {0})) (fs : List ConfigFieldInfo)
        → Read present fs
        → All (λ f. Settled go_name parse f (early f) start defaults) fs
        → All (λ f. Settled go_name parse f (late f) filed final) fs
        → All (λ f. f.required ≡ true → lookup f.go_name final.presence ≡ some tt) fs
        → All (IsGiven fields late early path defaults) fs
    marked-IsGiven present [] read first last complete = tt
    marked-IsGiven present (f ∷ fs) read first last complete = (
      λ needed. elim (Settled-marked f (late f) filed final last.0 (complete.0 needed)) [
        | inl text ↦ inl text
        | inr left ↦ elim (by_file present f fs read left) [
          | inl there ↦ inr (inl there)
          | inr before ↦ inr (inr (by_default f first.0 before))
        ]
      ],
      marked-IsGiven present fs (later_fields present f fs read) first.1 last.1 complete.1,
    )

    -- Every required field that is marked in the end was given by a layer.
    pub fields-IsGiven :
        ((path ≡ "") × (filed ≡ defaults))
          ⊎ FromFile go_name parse json quote messages read_file decode_int32 format_int as_int32
              fields path defaults filed
        → All (λ f. Settled go_name parse f (early f) start defaults) fields
        → All (λ f. Settled go_name parse f (late f) filed final) fields
        → All (λ f. f.required ≡ true → lookup f.go_name final.presence ≡ some tt) fields
        → All (IsGiven fields late early path defaults) fields
    fields-IsGiven (inl (none_given, same)) first last complete =
        marked-IsGiven [] fields (inl same) first last complete
    fields-IsGiven (inr (present, merged, marked)) first last complete =
        marked-IsGiven present fields (inr (merged, marked)) first last complete
