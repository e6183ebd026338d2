-- ===== src/Codegen/Inputs/Bound.antt =====
-- Which uses of bind_into the generator accepts.
use procframe.Prelude.{
  ◌≡◌, ◌≢◌, ◌↔◌, refl, sym, ap, ◌∙◌, String, true, Option, none, some, List, [], ◌∷◌, ◌==◌, arith,
  eq_iff, All, if-true, if-false, Bool-cases, inl, inr,
}
use procframe.Errors.{ok, ◌>>=◌, bind-eq-ok, err-not-ok}
use procframe.Codegen.ConfigModel.{Kind}
use procframe.Codegen.Tree.{MethodInfo, ServiceInfo}
use procframe.Codegen.Descriptors.{ProtoField, ProtoMessage, ProtoFile}
use procframe.Codegen.Inputs.{
  is_message_kind, find_field, find_message, bound_field, bound_message, validate_bind_into_method,
  bind_methods, validate_bind_into,
}

-- The field of that name is there, and is a message.
abbrev pub HasMessage : Option ProtoField → Type 0
HasMessage none = ⊥
HasMessage (some field) = is_message_kind field.kind ≡ true

-- The request of the method has such a field, where its message is in a generated file.
abbrev pub BoundIn : String → Option ProtoMessage → Type 0
BoundIn bind_into none = Unit
BoundIn bind_into (some msg) = HasMessage (find_field msg.fields bind_into)

abbrev pub IsBound : List ProtoFile → String → MethodInfo → Type 0
IsBound files bind_into m = m.cli ≡ true → BoundIn bind_into (find_message files m.input_go_name)

-- A service that binds binds in all its commands.
abbrev pub Binds : List ProtoFile → ServiceInfo → Type 0
Binds files svc = svc.bind_into ≢ "" → All (IsBound files svc.bind_into) svc.methods

module _ (quote : String → String) (text : Kind → String) where
  field-HasMessage :
      (bind_into : String) (m : MethodInfo) (o : Option ProtoField)
      → (bound_field quote text bind_into m o ≡ ok tt) ↔ HasMessage o
  unfolding bound_field
  field-HasMessage bind_into m none = (λ h. absurd (err-not-ok _ h), λ h. absurd h)
  field-HasMessage bind_into m (some field) = (
    λ h. elim (Bool-cases (is_message_kind field.kind)) [
      | inl is ↦ is
      | inr other ↦ absurd (err-not-ok _ (sym (if-false _ _ other) ∙ h))
    ],
    λ h. if-true _ _ h,
  )

  message-BoundIn :
      (bind_into : String) (m : MethodInfo) (o : Option ProtoMessage)
      → (bound_message quote text bind_into m o ≡ ok tt) ↔ BoundIn bind_into o
  unfolding bound_message
  message-BoundIn bind_into m none = (λ h. tt, λ h. refl)
  message-BoundIn bind_into m (some msg) =
      field-HasMessage bind_into m (find_field msg.fields bind_into)

  methods-IsBound :
      (bind_into : String) (ms : List MethodInfo) (files : List ProtoFile)
      → (bind_methods quote text bind_into ms files ≡ ok tt) ↔ All (IsBound files bind_into) ms
  unfolding bind_methods validate_bind_into_method
  methods-IsBound bind_into [] files = (λ h. tt, λ h. refl)
  methods-IsBound bind_into (m ∷ ms) files =
      let rest = methods-IsBound bind_into ms files in
      let one = message-BoundIn bind_into m (find_message files m.input_go_name) in
      elim (Bool-cases m.cli) [
        | inl exposed ↦ (
          λ h.
              let (valid, first, others) =
                bind-eq-ok
                  (bound_message quote text bind_into m (find_message files m.input_go_name)) _
                  (sym (if-true _ _ exposed) ∙ h) in
              (λ e. one.0 first, rest.0 others),
          λ all.
              if-true _ _ exposed
              ∙ ap (λ r. r >>= λ valid. bind_methods quote text bind_into ms files)
                  (one.1 (all.0 exposed))
              ∙ rest.1 all.1,
        )
        | inr internal ↦ (
          λ h. (λ e. absurd (ground arith), rest.0 (sym (if-false _ _ internal) ∙ h)),
          λ all. if-false _ _ internal ∙ rest.1 all.1,
        )
      ]

  -- The uses of bind_into are accepted exactly if each service that has it names a message field of the
  -- request of each of its commands, as far as the requests are in generated files.
  pub validate_bind_into-Binds :
      (services : List ServiceInfo) (files : List ProtoFile)
      → (validate_bind_into quote text services files ≡ ok tt) ↔ All (Binds files) services
  unfolding validate_bind_into
  validate_bind_into-Binds [] files = (λ h. tt, λ h. refl)
  validate_bind_into-Binds (svc ∷ services) files =
      let rest = validate_bind_into-Binds services files in
      let own = methods-IsBound svc.bind_into svc.methods files in
      elim (Bool-cases (svc.bind_into == "")) [
        | inl absent ↦ (
          λ h. (
            λ named. absurd (named ((eq_iff svc.bind_into "").0 absent)),
            rest.0 (sym (if-true _ _ absent) ∙ h),
          ),
          λ all. if-true _ _ absent ∙ rest.1 all.1,
        )
        | inr given ↦ (
          λ h.
              let (valid, first, others) =
                bind-eq-ok (bind_methods quote text svc.bind_into svc.methods files) _
                  (sym (if-false _ _ given) ∙ h) in
              (λ named. own.0 first, rest.0 others),
          λ all.
              if-false _ _ given
              ∙ ap (λ r. r >>= λ valid. validate_bind_into quote text services files)
                  (own.1 (all.0 (λ e. ground (arith, eq_iff svc.bind_into ""))))
              ∙ rest.1 all.1,
        )
      ]
