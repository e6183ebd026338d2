-- ===== src/Config/File/Laid.antt =====
-- The fields of a file, laid one after the other over the values of a message.
use mathlib.Core.Path.{subst}
use procframe.Prelude.{
  ◌≡◌, sym, ap, ◌∙◌, String, Option, none, some, List, [], ◌∷◌, ◌==◌, eq_iff, lookup, insert,
  Bool-cases, inl, inr,
}
use procframe.Prelude.Distinct.{Distinct, lookup-insert_self, lookup-insert_other}
use procframe.Errors.{Error, Result, ok, err, ◌>>=◌, bind-eq-ok, ok-injective, err-not-ok}
use procframe.Config.Json.{Json, Parsers}
use procframe.Config.File.{decode_json_overlay_value, hidden, field_error, merge_loop, wrapped}

hidden-ok :
    {A : Type 0} (hide : Error → Error) (r : Result A) {a : A} → hidden hide r ≡ ok a → r ≡ ok a
hidden-ok hide (ok a) h = h
hidden-ok hide (err e) h = absurd (err-not-ok (hide e) h)

wrapped-ok : {A : Type 0} (what : String) (r : Result A) {a : A} → wrapped what r ≡ ok a → r ≡ ok a
wrapped-ok what (ok a) h = h
wrapped-ok what (err e) h = absurd (err-not-ok _ h)

-- A call whose error is wrapped, in front of the rest.
pub bind_wrapped-ok :
    {A B : Type 0} (what : String) (r : Result A) (rest : A → Result B) {end : B}
    → (wrapped what r >>= rest) ≡ ok end
    → (value : A) × (r ≡ ok value) × (rest value ≡ ok end)
bind_wrapped-ok what r rest h =
    let (value, given, behind) = bind-eq-ok (wrapped what r) rest h in
    (value, wrapped-ok what r given, behind)

module _ {Value : Type 0} (json : Json Value) (quote : String → String) where
  -- The value of a field in the merged JSON: the file's, where it has the field, and else the message's.
  abbrev pub Laid :
      Parsers Value
      → String
      → Option String
      → List (String × Value)
      → List (String × Value)
      → Type 0
  Laid parsers k none base merged = lookup k merged ≡ lookup k base
  Laid parsers k (some raw) base merged =
      (value : Value) × (decode_json_overlay_value json quote k raw parsers ≡ ok value)
      × (lookup k merged ≡ some value)

  Laid-base :
      (parsers : Parsers Value) (k : String) (o : Option String)
      (base other merged : List (String × Value))
      → lookup k other ≡ lookup k base
      → Laid parsers k o other merged
      → Laid parsers k o base merged
  Laid-base parsers k none base other merged same laid = laid ∙ same
  Laid-base parsers k (some raw) base other merged same laid = laid

  pub loop-Laid :
      (source : String) (whole : List (String × String)) (parsers : Parsers Value)
      (secrets : List String) (k : String) (fields : List (String × String))
      (base merged : List (String × Value))
      → Distinct fields
      → merge_loop json quote source whole parsers secrets base fields ≡ ok merged
      → Laid parsers k (lookup k fields) base merged
  unfolding merge_loop lookup
  loop-Laid source whole parsers secrets k [] base merged d h = ap (lookup k) (sym (ok-injective h))
  loop-Laid source whole parsers secrets k ((f, raw) ∷ fields) base merged d h =
      let step : Value → Result (List (String × Value)) =
        λ v. merge_loop json quote source whole parsers secrets (insert f v base) fields in
      let hide = field_error json quote source whole secrets f in
      let decode = decode_json_overlay_value json quote f raw parsers in
      let (value, shown, looped) = bind-eq-ok (hidden hide decode) step h in
      let decoded = hidden-ok hide decode shown in
      let rest =
        loop-Laid source whole parsers secrets k fields (insert f value base) merged d.1 looped in
      elim (Bool-cases (f == k)) [
        | inl same ↦
            let eq = (eq_iff f k).0 same in
            let absent : lookup k fields ≡ none = ap (λ j. lookup j fields) (sym eq) ∙ d.0 in
            let last : lookup k merged ≡ lookup k (insert f value base) =
              subst (λ o. Laid parsers k o (insert f value base) merged) absent rest in
            rw same (
              value,
              ap (λ j. decode_json_overlay_value json quote j raw parsers) (sym eq) ∙ decoded,
              last
                  ∙ ap (λ j. lookup j (insert f value base)) (sym eq)
                  ∙ lookup-insert_self f value base,
            )
        | inr other ↦ rw other (
            Laid-base parsers k (lookup k fields) base (insert f value base) merged
              (lookup-insert_other f k value base other) rest)
      ]
