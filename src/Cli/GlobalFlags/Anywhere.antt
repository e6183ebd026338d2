-- ===== src/Cli/GlobalFlags/Anywhere.antt =====
-- A global flag counts wherever it stands, and in both of its forms.
use procframe.Prelude.{
  ℕ, ◌≡◌, ◌≢◌, refl, String, true, false, some, List, [], ◌∷◌, ◌++◌, arith, eq_iff, All, All-append,
  ◌⊎◌, inl, inr, append_assoc, append-nil, ◌∙◌, ap, sym,
}
use procframe.Prelude.Text.{cut_prefix}
use procframe.Errors.{ok, ◌>>=◌}
use procframe.Cli.GlobalFlags.{
  PreParse, Split, split_global_flag, set_flag, pre_parse_loop, pre_parse_start,
  pre_parse_global_flags, no_flags,
}
use procframe.Cli.GlobalFlags.Clean.{IsOrdinary, key_of_arg}

-- The arguments that give `--json` the value `v`, in either form.
pub data GivesJson (v : String) : List String → Type 0 where
  apart : v ≢ "" → GivesJson v ("--json" ∷ v ∷ [])
  inline :
      (arg : String)
      → cut_prefix "--json=" arg ≡ some v
      → arg ≢ "--json"
      → v ≢ ""
      → GivesJson v (arg ∷ [])

abbrev keep : PreParse → List String → PreParse
keep st args = record st { remaining = st.remaining ++ args }

ordinary_consumes_none :
    (arg : String) (rest : List String)
    → (split_global_flag arg rest).key ≡ ""
    → (split_global_flag arg rest).consumed ≡ 0
unfolding split_global_flag
ordinary_consumes_none arg [] h = ground arith
ordinary_consumes_none arg (v ∷ rest) h = ground (arith, eq_iff "--json" "", eq_iff "--output" "")

set_flag-ordinary :
    (arg : String) (s : Split) (st : PreParse)
    → s.key ≡ ""
    → set_flag arg s st ≡ ok (keep st (arg ∷ []))
unfolding set_flag
set_flag-ordinary arg s st h = rw ((eq_iff s.key "").1 h)

loop-end : (st : PreParse) → pre_parse_loop st 0 [] ≡ ok st
unfolding pre_parse_loop
loop-end st = refl

loop-ordinary :
    (st : PreParse) (xs rest : List String)
    → All IsOrdinary xs
    → pre_parse_loop st 0 (xs ++ rest) ≡ pre_parse_loop (keep st xs) 0 rest
unfolding pre_parse_loop
loop-ordinary st [] rest all = rw append-nil
loop-ordinary st (x ∷ xs) rest all =
    let key = key_of_arg x (xs ++ rest) ∙ all.0 in
    rw
      (
        set_flag-ordinary x (split_global_flag x (xs ++ rest)) st key,
        ordinary_consumes_none x (xs ++ rest) key,
      )
      (loop-ordinary (keep st (x ∷ [])) xs rest all.1
        ∙ ap (λ r. pre_parse_loop (record st { remaining = r }) 0 rest)
            (append_assoc st.remaining (x ∷ []) xs))

abbrev with_json : PreParse → String → PreParse
with_json st v = record st { flags = record (st.flags) { json_payload = v }; json_seen = true }

set_flag-json :
    (arg v : String) (consumed : ℕ) (st : PreParse)
    → v ≢ ""
    → st.json_seen ≡ false
    → set_flag arg (record { key = "--json"; val = v; consumed = consumed }) st
      ≡ ok (with_json st v)
unfolding set_flag
set_flag-json arg v consumed st h unseen = ground (arith, eq_iff v "")

split_inline :
    (arg v : String) (rest : List String)
    → cut_prefix "--json=" arg ≡ some v
    → arg ≢ "--json"
    → split_global_flag arg rest ≡ record { key = "--json"; val = v; consumed = 0 }
unfolding split_global_flag
split_inline arg v rest cut other = ground (arith, eq_iff arg "--json")

loop-json :
    (st : PreParse) (v : String) {given : List String} (rest : List String)
    → GivesJson v given
    → st.json_seen ≡ false
    → pre_parse_loop st 0 (given ++ rest) ≡ pre_parse_loop (with_json st v) 0 rest
unfolding pre_parse_loop split_global_flag
loop-json st v rest (apart h) unseen = rw (set_flag-json "--json" v 1 st h unseen)
loop-json st v rest (inline arg cut other h) unseen =
    rw (split_inline arg v rest cut other, set_flag-json arg v 0 st h unseen)

json_found :
    (v : String) (given xs ys : List String)
    → GivesJson v given
    → All IsOrdinary xs
    → All IsOrdinary ys
    → pre_parse_global_flags (xs ++ (given ++ ys))
      ≡ ok (xs ++ ys, record { json_payload = v; output_fmt = "" })
unfolding pre_parse_global_flags
json_found v given xs ys g hx hy =
    ap (λ m. m >>= λ st. ok (st.remaining, st.flags))
      (loop-ordinary pre_parse_start xs (given ++ ys) hx
        ∙ loop-json (keep pre_parse_start xs) v ys g refl
        ∙ ap (pre_parse_loop (with_json (keep pre_parse_start xs) v) 0) (sym (append-nil ys))
        ∙ loop-ordinary (with_json (keep pre_parse_start xs) v) ys [] hy
        ∙ loop-end _)

ordinary_unchanged :
    (xs : List String) → All IsOrdinary xs → pre_parse_global_flags xs ≡ ok (xs, no_flags)
unfolding pre_parse_global_flags
ordinary_unchanged xs hx =
    ap (λ m. m >>= λ st. ok (st.remaining, st.flags))
      (ap (pre_parse_loop pre_parse_start 0) (sym (append-nil xs))
        ∙ loop-ordinary pre_parse_start xs [] hx
        ∙ loop-end _)

-- A `--json` that is given at most once, in either form and with a value that is not empty, is found
-- wherever it stands among arguments that are no global flags, and those come through in their order;
-- where it is not given, its value is empty.
pub json_anywhere :
    (v : String) (given xs ys : List String)
    → (GivesJson v given) ⊎ ((v ≡ "") × (given ≡ []))
    → All IsOrdinary xs
    → All IsOrdinary ys
    → pre_parse_global_flags (xs ++ (given ++ ys))
      ≡ ok (xs ++ ys, record { json_payload = v; output_fmt = "" })
json_anywhere v given xs ys (inl g) hx hy = json_found v given xs ys g hx hy
json_anywhere v given xs ys (inr none) hx hy =
    ap (λ l. pre_parse_global_flags (xs ++ (l ++ ys))) none.1
    ∙ ordinary_unchanged (xs ++ ys) (All-append IsOrdinary xs ys hx hy)
    ∙ ap (λ u. ok (xs ++ ys, record { json_payload = u; output_fmt = "" })) (sym none.0)
