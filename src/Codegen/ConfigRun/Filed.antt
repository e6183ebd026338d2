-- ===== src/Codegen/ConfigRun/Filed.antt =====
-- What the printed function for the configuration file leaves in the marks of presence.
use mathlib.Core.Path.{subst}
use procframe.Prelude.{
  ◌≡◌, refl, ap, ◌∙◌, String, Bool, true, false, ◌&&◌, none, some, List, [], ◌∷◌, ◌==◌, arith,
  eq_iff, ℕ, All, if◌then◌else◌, lookup, insert,
}
use procframe.Prelude.Distinct.{Distinct, lookup-insert_self, lookup-insert_other}
use procframe.Errors.{Result, ok, err, err-not-ok, ok-injective}
use procframe.Config.Json.{Json, Messages}
use procframe.Config.File.{merge_json_file}
use procframe.Codegen.ConfigModel.{ConfigFieldInfo}
use procframe.Codegen.ConfigRun.{
  Held, is_present, mark_present, file_read, file_parsers, secret_fields, load_config_file,
}
use procframe.Codegen.ConfigRun.Settled.{names_of}

module _ {V J : Type 0} (go_name : String) (parse : ConfigFieldInfo → String → Result V)
    (json : Json J) (quote : String → String) (messages : Messages (List (String × V)))
    (read_file : String → Result String) (decode_int32 : String → Result ℕ)
    (format_int : ℕ → String) (as_int32 : V → J) where
  abbrev marks :
      List (String × Unit {0})
      → List ConfigFieldInfo
      → List (String × Unit {0})
      → List (String × Unit {0})
  marks present fields old =
      mark_present go_name parse json quote messages read_file decode_int32 format_int as_int32
        present fields old

  -- The field is required, and among the fields that the file gives.
  abbrev is_given : List (String × Unit {0}) → ConfigFieldInfo → Bool
  is_given present f = f.required && is_present go_name parse (lookup f.json_name present)

  -- The file marks the field where it gives it, and else leaves the mark as it is.
  abbrev pub IsMarked :
      List (String × Unit {0})
      → List (String × Unit {0})
      → List (String × Unit {0})
      → ConfigFieldInfo
      → Type 0
  IsMarked present old new f = lookup f.go_name new ≡ (
      if f.required && is_present go_name parse (lookup f.json_name present)
      then some tt
      else lookup f.go_name old)

  mark_self :
      (b : Bool) (name : String) (old : List (String × Unit {0}))
      → lookup name (if b then insert name tt old else old)
        ≡ (if b then some tt else lookup name old)
  mark_self true name old = lookup-insert_self name tt old
  mark_self false name old = refl

  mark_other :
      (b : Bool) (name other : String) (old : List (String × Unit {0}))
      → (name == other) ≡ false
      → lookup other (if b then insert name tt old else old) ≡ lookup other old
  mark_other true name other old h = lookup-insert_other name other tt old h
  mark_other false name other old h = refl

  marks-other :
      (present : List (String × Unit {0})) (fs : List ConfigFieldInfo) (name : String)
      (old : List (String × Unit {0}))
      → lookup name (names_of fs) ≡ none
      → lookup name (marks present fs old) ≡ lookup name old
  unfolding mark_present lookup
  marks-other present [] name old absent = refl
  marks-other present (f ∷ fs) name old absent =
      marks-other present fs name _ (ground arith)
      ∙ mark_other (is_given present f) f.go_name name old (ground arith)

  -- A field with another name keeps what it has.
  IsMarked-before :
      (present old new final : List (String × Unit {0})) (f : ConfigFieldInfo) (b : Bool)
      (gs : List ConfigFieldInfo)
      → lookup f.go_name (names_of gs) ≡ none
      → new ≡ (if b then insert f.go_name tt old else old)
      → All (IsMarked present new final) gs
      → All (IsMarked present old final) gs
  unfolding lookup
  IsMarked-before present old new final f b [] absent is all = tt
  IsMarked-before present old new final f b (g ∷ gs) absent is all = (
    all.0
        ∙ ap (λ o. if is_given present g then some tt else o)
            (ap (lookup g.go_name) is
              ∙ mark_other b f.go_name g.go_name old
                  (ground (arith, eq_iff f.go_name g.go_name, eq_iff g.go_name f.go_name))),
    IsMarked-before present old new final f b gs (ground arith) is all.1,
  )

  marks-IsMarked :
      (present : List (String × Unit {0})) (fs : List ConfigFieldInfo)
      (old : List (String × Unit {0}))
      → Distinct (names_of fs)
      → All (IsMarked present old (marks present fs old)) fs
  unfolding mark_present
  marks-IsMarked present [] old d = tt
  marks-IsMarked present (f ∷ fs) old d =
      let new = if is_given present f then insert f.go_name tt old else old in
      (
        marks-other present fs f.go_name new d.0 ∙ mark_self (is_given present f) f.go_name old,
        IsMarked-before present old new (marks present fs new) f (is_given present f) fs d.0 refl
            (marks-IsMarked present fs new d.1),
      )

  file_read-ok :
      (fields : List ConfigFieldInfo) (held next : Held V)
      (q : List (String × V) × Result (List (String × Unit {0})))
      → file_read go_name parse json quote messages read_file decode_int32 format_int as_int32
          fields held q
        ≡ ok next
      → (present : List (String × Unit {0})) × (q ≡ (next.values, ok present))
        × (marks present fields held.presence ≡ next.presence)
  file_read-ok fields held next (after, err e) h = absurd (err-not-ok e h)
  file_read-ok fields held next (after, ok present) h =
      let same = ok-injective h in
      (
        present,
        ap (λ (n : Held V). (n.values, ok present)) same,
        ap (λ (n : Held V). n.presence) same,
      )

  -- A file that is read: what the merge returns is what the message holds, and its report marks the
  -- fields.
  abbrev pub FromFile : List ConfigFieldInfo → String → Held V → Held V → Type 0
  FromFile fields path held next =
      (present : List (String × Unit {0})) × (merge_json_file json quote messages read_file path
          held.values
          (file_parsers go_name parse json quote messages read_file decode_int32 format_int as_int32
            fields)
          (secret_fields go_name parse json quote messages read_file decode_int32 format_int
            as_int32 fields)
        ≡ (next.values, ok present))
      × All (IsMarked present held.presence next.presence) fields

  pub load_config_file-FromFile :
      (fields : List ConfigFieldInfo) (path : String) (held next : Held V)
      → Distinct (names_of fields)
      → load_config_file go_name parse json quote messages read_file decode_int32 format_int
          as_int32 fields path held
        ≡ ok next
      → FromFile fields path held next
  unfolding load_config_file
  load_config_file-FromFile fields path held next d h =
      let (present, merged, marked) = file_read-ok fields held next _ h in
      (
        present,
        merged,
        subst (λ new. All (IsMarked present held.presence new) fields) marked
            (marks-IsMarked present fields held.presence d),
      )
