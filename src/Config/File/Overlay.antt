-- ===== src/Config/File/Overlay.antt =====
-- Which configuration files are accepted, and what is read from them.
use mathlib.Core.Path.{subst}
use procframe.Prelude.{
  ◌≡◌, ◌↔◌, refl, sym, ap, ◌∙◌, String, true, false, Option, none, some, List, [], ◌∷◌, ◌++◌, ◌==◌,
  arith, append_assoc, append-nil, if◌then◌else◌, lookup, insert, Bool-cases, inl, inr,
}
use procframe.Prelude.Distinct.{Distinct, insert-new, Distinct-fresh, Distinct-add}
use procframe.Errors.{Error, Result, ok, ◌>>=◌, bind-eq-ok, ok-injective, err-not-ok}
use procframe.Config.Json.{Json, canonical_json_field_name}
use procframe.Config.File.{
  FieldMaps, no_overlay, unless_seen, duplicate_field, add_field, overlay_loop, parse_json_overlay,
}

module _ {Value : Type 0} (json : Json Value) (quote : String → String)
    (names : List (String × String)) where
  open json use {parse_object, trim_space}

  -- The fields of the file under the names that they have in JSON.
  abbrev pub canonical_fields : List (String × String) → List (String × String)
  canonical_fields [] = []
  canonical_fields ((field, value) ∷ raw) =
      (canonical_json_field_name field names, value) ∷ canonical_fields raw

  -- Those that are not null.
  abbrev pub present_fields : List (String × String) → List (String × Unit {0})
  present_fields [] = []
  present_fields ((field, value) ∷ raw) =
      let rest = present_fields raw in
      if trim_space value == "null"
      then rest
      else (canonical_json_field_name field names, tt) ∷ rest

  abbrev origins : List (String × String) → List (String × String)
  origins [] = []
  origins ((field, value) ∷ raw) = (canonical_json_field_name field names, field) ∷ origins raw

  abbrev maps_of : List (String × String) → FieldMaps
  maps_of raw = record {
    overlay = canonical_fields raw;
    present = present_fields raw;
    seen_fields = origins raw;
  }

  fields-append :
      (xs ys : List (String × String))
      → canonical_fields (xs ++ ys) ≡ canonical_fields xs ++ canonical_fields ys
  fields-append [] ys = refl
  fields-append ((f, v) ∷ xs) ys =
      ap (λ l. (canonical_json_field_name f names, v) ∷ l) (fields-append xs ys)

  origins-append : (xs ys : List (String × String)) → origins (xs ++ ys) ≡ origins xs ++ origins ys
  origins-append [] ys = refl
  origins-append ((f, v) ∷ xs) ys =
      ap (λ l. (canonical_json_field_name f names, f) ∷ l) (origins-append xs ys)

  present-append :
      (xs ys : List (String × String))
      → present_fields (xs ++ ys) ≡ present_fields xs ++ present_fields ys
  present-append [] ys = refl
  present-append ((f, v) ∷ xs) ys = elim (Bool-cases (trim_space v == "null")) [
    | inl null ↦ rw null (present-append xs ys)
    | inr given ↦
        rw given (ap (λ l. (canonical_json_field_name f names, tt) ∷ l) (present-append xs ys))
  ]

  lookup-origins :
      (k : String) (raw : List (String × String))
      → (lookup k (canonical_fields raw) ≡ none) ↔ (lookup k (origins raw) ≡ none)
  unfolding lookup
  lookup-origins k [] = (λ h. refl, λ h. refl)
  lookup-origins k ((f, v) ∷ raw) =
      (λ h. ground (arith, lookup-origins k raw), λ h. ground (arith, lookup-origins k raw))

  lookup-present :
      (k : String) (raw : List (String × String))
      → lookup k (canonical_fields raw) ≡ none
      → lookup k (present_fields raw) ≡ none
  unfolding lookup
  lookup-present k [] h = refl
  lookup-present k ((f, v) ∷ raw) h = ground (arith, lookup-present k raw)

  insert-present :
      (f v : String) (read : List (String × String))
      → lookup (canonical_json_field_name f names) (canonical_fields read) ≡ none
      → (if trim_space v == "null"
          then present_fields read
          else insert (canonical_json_field_name f names) tt (present_fields read))
        ≡ present_fields (read ++ (f, v) ∷ [])
  insert-present f v read fresh = elim (Bool-cases (trim_space v == "null")) [
    | inl null ↦ rw null (
        sym (append-nil (present_fields read))
        ∙ ap (λ l. present_fields read ++ l) (sym (alone null))
        ∙ sym (present-append read ((f, v) ∷ [])))
    | inr given ↦ rw given (
        insert-new _ tt (present_fields read) (lookup-present _ read fresh)
        ∙ ap (λ l. present_fields read ++ l) (sym (with_one given))
        ∙ sym (present-append read ((f, v) ∷ [])))
  ]
    where
      alone : (trim_space v == "null") ≡ true → present_fields ((f, v) ∷ []) ≡ []
      alone null = rw null refl

      with_one :
          (trim_space v == "null") ≡ false
          → present_fields ((f, v) ∷ []) ≡ (canonical_json_field_name f names, tt) ∷ []
      with_one given = rw given refl

  -- One more field, whose name is new, is added at the end of each map.
  add_field-maps :
      (f v : String) (read : List (String × String))
      → lookup (canonical_json_field_name f names) (canonical_fields read) ≡ none
      → add_field json quote (canonical_json_field_name f names) f v (maps_of read)
        ≡ maps_of (read ++ (f, v) ∷ [])
  unfolding add_field
  add_field-maps f v read fresh = cc (
    insert-new _ v (canonical_fields read) fresh ∙ sym (fields-append read ((f, v) ∷ [])),
    insert-present f v read fresh,
    insert-new _ f (origins read) ((lookup-origins _ read).0 fresh)
        ∙ sym (origins-append read ((f, v) ∷ [])),
  )

  unless_seen-ok :
      (prev : Option String) (clash : String → Error) (rest : Result FieldMaps) {end : FieldMaps}
      → unless_seen prev clash rest ≡ ok end
      → (prev ≡ none) × (rest ≡ ok end)
  unless_seen-ok none clash rest h = (refl, h)
  unless_seen-ok (some prev) clash rest h = absurd (err-not-ok (clash prev) h)

  -- The fields behind those that are read already.
  moved :
      (read : List (String × String)) (f v : String) (raw : List (String × String))
      → (read ++ (f, v) ∷ []) ++ raw ≡ read ++ (f, v) ∷ raw
  moved read f v raw = append_assoc read ((f, v) ∷ []) raw

  loop-ok :
      (read raw : List (String × String)) (o : FieldMaps)
      → overlay_loop json quote names raw (maps_of read) ≡ ok o
      → Distinct (canonical_fields read)
      → Distinct (canonical_fields (read ++ raw)) × (maps_of (read ++ raw) ≡ o)
  unfolding overlay_loop
  loop-ok read [] o h d = (
    subst (λ l. Distinct (canonical_fields l)) (sym (append-nil read)) d,
    ap maps_of (append-nil read) ∙ ok-injective h,
  )
  loop-ok read ((f, v) ∷ raw) o h d =
      let (unseen, looped) = unless_seen-ok _ _ _ h in
      let fresh = (lookup-origins (canonical_json_field_name f names) read).1 unseen in
      let next = read ++ (f, v) ∷ [] in
      let (distinct, whole) =
        loop-ok next raw o
          (ap (overlay_loop json quote names raw) (sym (add_field-maps f v read fresh)) ∙ looped)
          (subst Distinct (sym (fields-append read ((f, v) ∷ []))) (Distinct-add _ v _ d fresh)) in
      (
        subst (λ l. Distinct (canonical_fields l)) (moved read f v raw) distinct,
        ap maps_of (sym (moved read f v raw)) ∙ whole,
      )

  loop-Distinct :
      (read raw : List (String × String))
      → Distinct (canonical_fields (read ++ raw))
      → overlay_loop json quote names raw (maps_of read) ≡ ok (maps_of (read ++ raw))
  unfolding overlay_loop
  loop-Distinct read [] d = ap (λ l. ok (maps_of l)) (sym (append-nil read))
  loop-Distinct read ((f, v) ∷ raw) d =
      let canonical = canonical_json_field_name f names in
      let fresh : lookup canonical (canonical_fields read) ≡ none =
        Distinct-fresh canonical v (canonical_fields read) (canonical_fields raw)
          (subst Distinct (fields-append read ((f, v) ∷ raw)) d) in
      ap
        (λ o.
          unless_seen o (λ prev. duplicate_field quote canonical prev f)
            (overlay_loop json quote names raw (add_field json quote canonical f v (maps_of read))))
        ((lookup-origins canonical read).0 fresh)
      ∙ ap (overlay_loop json quote names raw) (add_field-maps f v read fresh)
      ∙ loop-Distinct (read ++ (f, v) ∷ []) raw
          (subst (λ l. Distinct (canonical_fields l)) (sym (moved read f v raw)) d)
      ∙ ap (λ l. ok (maps_of l)) (moved read f v raw)

  -- The fields of a JSON object are accepted exactly if no two of them are names of the same field of
  -- the message. Then they are all read, under their JSON names and in their order, and the ones that
  -- are present are those that are not null.
  pub parse_json_overlay-accepts :
      (source : String) (raw overlay : List (String × String)) (present : List (String × Unit {0}))
      → parse_object source ≡ ok raw
      → (parse_json_overlay json quote source names ≡ ok (overlay, present)) ↔ (
          Distinct (canonical_fields raw)
          × (canonical_fields raw ≡ overlay)
          × (present_fields raw ≡ present))
  unfolding parse_json_overlay
  parse_json_overlay-accepts source raw overlay present parses = (
    λ h.
        let looped = sym (reads parses) ∙ h in
        let (o, done, same) = bind-eq-ok (overlay_loop json quote names raw no_overlay) _ looped in
        let (d, maps) = loop-ok [] raw o done tt in
        let pair = ok-injective same in
        (
          d,
          ap (λ m. m.overlay) maps ∙ ap (λ q. q.0) pair,
          ap (λ m. m.present) maps ∙ ap (λ q. q.1) pair,
        ),
    λ a.
        reads parses
        ∙ ap (λ r. r >>= λ o. ok (o.overlay, o.present)) (loop-Distinct [] raw a.0)
        ∙ cc (a.1, a.2),
  )
    where
      reads :
          parse_object source ≡ ok raw
          → parse_json_overlay json quote source names
            ≡ (overlay_loop json quote names raw no_overlay >>= λ o. ok (o.overlay, o.present))
      reads parses =
          ap
            (λ r. r >>= λ l.
              overlay_loop json quote names l no_overlay >>= λ o. ok (o.overlay, o.present))
            parses

  -- What is accepted was parsed.
  pub overlay-parsed :
      (source : String) (o : List (String × String) × List (String × Unit {0}))
      → parse_json_overlay json quote source names ≡ ok o
      → (raw : List (String × String)) × (parse_object source ≡ ok raw)
        × Distinct (canonical_fields raw)
        × (canonical_fields raw ≡ o.0)
        × (present_fields raw ≡ o.1)
  unfolding parse_json_overlay
  overlay-parsed source o h =
      let (raw, parses, looked) = bind-eq-ok (parse_object source) _ h in
      let (unique, same, given) = (parse_json_overlay-accepts source raw o.0 o.1 parses).0 h in
      (raw, parses, unique, same, given)
