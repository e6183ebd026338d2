-- ===== src/Cli/GlobalFlags/Clean.antt =====
-- What is left of the arguments holds no global flag.
use procframe.Prelude.{
  ℕ, zero, suc, ◌≡◌, refl, String, List, [], ◌∷◌, ◌++◌, arith, eq_iff, All, All-append, inl, inr,
  ◌⊎◌, ◌∙◌, sym,
}
use mathlib.Core.Path.{subst}
use procframe.Errors.{ok, bind-eq-ok}
use procframe.Cli.GlobalFlags.{
  GlobalFlags, PreParse, Split, split_global_flag, set_flag, pre_parse_loop, pre_parse_start,
  pre_parse_global_flags,
}

-- The argument is neither `--json` nor `--output`, with or without a value behind `=`.
abbrev pub IsOrdinary : String → Type 0
IsOrdinary arg = (split_global_flag arg []).key ≡ ""

-- Whether an argument is a global flag does not depend on what stands behind it.
pub key_of_arg :
    (arg : String) (rest : List String)
    → (split_global_flag arg rest).key ≡ (split_global_flag arg []).key
unfolding split_global_flag
key_of_arg arg [] = refl
key_of_arg arg (v ∷ rest) = ground arith

-- One round adds an argument that is ordinary, or none.
set_flag_remaining :
    (arg : String) (s : Split) (st st' : PreParse)
    → set_flag arg s st ≡ ok st'
    → (st'.remaining ≡ st.remaining) ⊎ ((st'.remaining ≡ st.remaining ++ arg ∷ []) × (s.key ≡ ""))
unfolding set_flag
set_flag_remaining arg s st st' h = ground (arith, eq_iff s.key "")

set_flag-IsOrdinary :
    (arg : String) (rest : List String) (st st' : PreParse)
    → set_flag arg (split_global_flag arg rest) st ≡ ok st'
    → All IsOrdinary st.remaining
    → All IsOrdinary st'.remaining
set_flag-IsOrdinary arg rest st st' h all =
    elim (set_flag_remaining arg (split_global_flag arg rest) st st' h) [
      | inl same ↦ rw same all
      | inr (longer, ordinary) ↦ rw longer (
          All-append IsOrdinary st.remaining (arg ∷ []) all
            (sym (key_of_arg arg rest) ∙ ordinary, tt))
    ]

loop-IsOrdinary :
    (st : PreParse) (skip : ℕ) (args : List String) (st' : PreParse)
    → pre_parse_loop st skip args ≡ ok st'
    → All IsOrdinary st.remaining
    → All IsOrdinary st'.remaining
unfolding pre_parse_loop
loop-IsOrdinary st skip [] st' h all =
    let same : st ≡ st' = cc in subst (λ (x : PreParse). All IsOrdinary x.remaining) same all
loop-IsOrdinary st (suc skip) (arg ∷ rest) st' h all = loop-IsOrdinary st skip rest st' h all
loop-IsOrdinary st zero (arg ∷ rest) st' h all =
    let (st₁, set, goes_on) = bind-eq-ok (set_flag arg (split_global_flag arg rest) st) _ h in
    loop-IsOrdinary st₁ (split_global_flag arg rest).consumed rest st' goes_on
      (set_flag-IsOrdinary arg rest st st₁ set all)

-- No global flag, in either form, is left among the arguments that the command tree sees.
pre_parse_global_flags-IsOrdinary :
    (args remaining : List String) (flags : GlobalFlags)
    → pre_parse_global_flags args ≡ ok (remaining, flags)
    → All IsOrdinary remaining
unfolding pre_parse_global_flags
pre_parse_global_flags-IsOrdinary args remaining flags h =
    let (st, looped, same) = bind-eq-ok (pre_parse_loop pre_parse_start 0 args) _ h in
    let kept : st.remaining ≡ remaining = cc in
    subst (All IsOrdinary) kept (loop-IsOrdinary pre_parse_start 0 args st looped tt)
