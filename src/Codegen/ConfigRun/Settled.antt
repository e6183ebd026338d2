-- ===== src/Codegen/ConfigRun/Settled.antt =====
-- What a layer of the loading leaves in each field.
use mathlib.Core.Path.{subst}
use procframe.Prelude.{
  if◌then◌else◌, if-true, if-false, Bool-cases, inl, inr, ◌≡◌, refl, sym, ap, ◌∙◌, String, false,
  Option, none, some, List, [], ◌∷◌, ◌==◌, arith, eq_iff, All, lookup,
}
use procframe.Prelude.Distinct.{Distinct, lookup-insert_self, lookup-insert_other}
use procframe.Errors.{Result, ok, bind-eq-ok, ok-injective}
use procframe.Codegen.ConfigModel.{ConfigFieldInfo}
use procframe.Codegen.ConfigRun.{Held}
use procframe.Codegen.ConfigRun.Layers.{step, layer}

-- The Go names of the fields.
abbrev pub names_of : List ConfigFieldInfo → List (String × Unit {0})
names_of [] = []
names_of (field ∷ fields) = (field.go_name, tt) ∷ names_of fields

module _ {V : Type 0} (go_name : String) (parse : ConfigFieldInfo → String → Result V) where
  -- A name has the same value and the same mark of presence.
  abbrev pub Same : String → Held V → Held V → Type 0
  Same name held final =
      (lookup name final.values ≡ lookup name held.values)
      × (lookup name final.presence ≡ lookup name held.presence)

  Same-trans : (name : String) (a b c : Held V) → Same name b c → Same name a b → Same name a c
  Same-trans name a b c later earlier = (later.0 ∙ earlier.0, later.1 ∙ earlier.1)

  -- What a layer leaves in a field: the value of its text, with the mark of presence where the field is
  -- required, or else what was there.
  abbrev pub Settled : ConfigFieldInfo → Option String → Held V → Held V → Type 0
  Settled f none held final = Same f.go_name held final
  Settled f (some raw) held final =
      (v : V) × (parse f raw ≡ ok v)
      × (lookup f.go_name final.values ≡ some v)
      × (lookup f.go_name final.presence
          ≡ (if f.required then some tt else lookup f.go_name held.presence))

  step-other :
      (f : ConfigFieldInfo) (o : Option String) (name : String) (held next : Held V)
      → (f.go_name == name) ≡ false
      → step go_name parse f o held ≡ ok next
      → Same name held next
  step-other f none name held next other h = subst (Same name held) (ok-injective h) (refl, refl)
  step-other f (some raw) name held next other h =
      let (v, parsed, set) = bind-eq-ok (parse f raw) _ h in
      subst (Same name held) (ok-injective set) (
        lookup-insert_other f.go_name name v held.values other,
        elim (Bool-cases f.required) [
          | inl needed ↦
              ap (lookup name) (if-true _ _ needed)
              ∙ lookup-insert_other f.go_name name tt held.presence other
          | inr free ↦ ap (lookup name) (if-false _ _ free)
        ],
      )

  step-Settled :
      (f : ConfigFieldInfo) (o : Option String) (held next : Held V)
      → step go_name parse f o held ≡ ok next
      → Settled f o held next
  step-Settled f none held next h = subst (Same f.go_name held) (ok-injective h) (refl, refl)
  step-Settled f (some raw) held next h =
      let (v, parsed, set) = bind-eq-ok (parse f raw) _ h in
      subst (Settled f (some raw) held) (ok-injective set) (
        v,
        parsed,
        lookup-insert_self f.go_name v held.values,
        elim (Bool-cases f.required) [
          | inl needed ↦
              ap (lookup f.go_name) (if-true _ _ needed)
              ∙ lookup-insert_self f.go_name tt held.presence
              ∙ sym (if-true _ _ needed)
          | inr free ↦ ap (lookup f.go_name) (if-false _ _ free) ∙ sym (if-false _ _ free)
        ],
      )

  Settled-later :
      (f : ConfigFieldInfo) (o : Option String) (held next final : Held V)
      → Same f.go_name next final
      → Settled f o held next
      → Settled f o held final
  Settled-later f none held next final same settled =
      Same-trans f.go_name held next final same settled
  Settled-later f (some raw) held next final same (v, parsed, value, mark) =
      (v, parsed, same.0 ∙ value, same.1 ∙ mark)

  -- A layer does not touch a name that none of its fields has.
  layer-other :
      (source : ConfigFieldInfo → Option String) (fields : List ConfigFieldInfo) (name : String)
      (held final : Held V)
      → lookup name (names_of fields) ≡ none
      → layer go_name parse source fields held ≡ ok final
      → Same name held final
  unfolding layer lookup
  layer-other source [] name held final absent h =
      subst (Same name held) (ok-injective h) (refl, refl)
  layer-other source (f ∷ fs) name held final absent h =
      let (next, stepped, rest) = bind-eq-ok (step go_name parse f (source f) held) _ h in
      Same-trans name held next final (layer-other source fs name next final (ground arith) rest)
        (step-other f (source f) name held next (ground arith) stepped)

  Settled-earlier :
      (g : ConfigFieldInfo) (o : Option String) (held next final : Held V)
      → Same g.go_name held next
      → Settled g o next final
      → Settled g o held final
  Settled-earlier g none held next final same settled =
      Same-trans g.go_name held next final settled same
  Settled-earlier g (some raw) held next final same (v, parsed, value, mark) =
      (v, parsed, value, mark ∙ ap (λ old. if g.required then some tt else old) same.1)

  -- The step of one field changes no field with another name.
  Settled-before :
      (source : ConfigFieldInfo → Option String) (f : ConfigFieldInfo) (o : Option String)
      (gs : List ConfigFieldInfo) (held next final : Held V)
      → lookup f.go_name (names_of gs) ≡ none
      → step go_name parse f o held ≡ ok next
      → All (λ g. Settled g (source g) next final) gs
      → All (λ g. Settled g (source g) held final) gs
  unfolding lookup
  Settled-before source f o [] held next final absent stepped all = tt
  Settled-before source f o (g ∷ gs) held next final absent stepped all = (
    Settled-earlier g (source g) held next final
        (step-other f o g.go_name held next
          (ground (arith, eq_iff f.go_name g.go_name, eq_iff g.go_name f.go_name)) stepped)
        all.0,
    Settled-before source f o gs held next final (ground arith) stepped all.1,
  )

  -- Where the Go names are distinct, a layer settles each of its fields.
  pub layer-Settled :
      (source : ConfigFieldInfo → Option String) (fields : List ConfigFieldInfo)
      (held final : Held V)
      → Distinct (names_of fields)
      → layer go_name parse source fields held ≡ ok final
      → All (λ f. Settled f (source f) held final) fields
  unfolding layer
  layer-Settled source [] held final d h = tt
  layer-Settled source (f ∷ fs) held final d h =
      let (next, stepped, rest) = bind-eq-ok (step go_name parse f (source f) held) _ h in
      (
        Settled-later f (source f) held next final
            (layer-other source fs f.go_name next final d.0 rest)
            (step-Settled f (source f) held next stepped),
        Settled-before source f (source f) fs held next final d.0 stepped
            (layer-Settled source fs next final d.1 rest),
      )
