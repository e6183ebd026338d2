-- ===== src/Cli/GlobalFlags.antt =====
-- transport/cli/runner.go: `preParseGlobalFlags` and what it calls. `%q` puts the text in quotes; its
-- escapes are not modelled.
pub mod Clean
pub mod Anywhere
use procframe.Prelude.{
  ℕ, zero, suc, String, Bool, true, false, ◌||◌, Option, none, some, List, [], ◌∷◌, ◌++◌, ◌==◌,
  if◌then◌else◌,
}
use procframe.Prelude.Text.{◌+++◌, cut_prefix}
use procframe.Errors.{Error, plain, Result, ok, err, ◌>>=◌}

-- `globalFlags`; the empty text is a flag that was not given.
pub record GlobalFlags : Type 0 where
  pub json_payload : String
  pub output_fmt : String

abbrev pub output_text : String
output_text = "text"

abbrev pub output_json : String
output_json = "json"

-- The variables of the loop.
pub record PreParse : Type 0 where
  pub remaining : List String
  pub flags : GlobalFlags
  pub json_seen : Bool
  pub output_seen : Bool

-- What `splitGlobalFlag` returns: the key, the value and how many more arguments it used up.
pub record Split : Type 0 where
  pub key : String
  pub val : String
  pub consumed : ℕ

abbrev pub no_flag : Split
no_flag = record { key = ""; val = ""; consumed = 0 }

-- `if i+1 < len(args) { return prefix, args[i+1], 1 }; return prefix, "", 0`.
with_next : String → List String → Split
with_next prefix [] = record { key = prefix; val = ""; consumed = 0 }
with_next prefix (v ∷ rest) = record { key = prefix; val = v; consumed = 1 }

-- One round of the loop over the prefixes; `otherwise` is the rest of the loop.
split_at : String → String → List String → Split → Split
split_at prefix arg rest otherwise =
    if arg == prefix then with_next prefix rest else elim (cut_prefix (prefix +++ "=") arg) [
      | some val ↦ record { key = prefix; val = val; consumed = 0 }
      | none ↦ otherwise
    ]

-- `splitGlobalFlag` at the argument `arg`, with the arguments behind it.
unfoldable pub split_global_flag : String → List String → Split
unfolding split_at with_next
split_global_flag arg rest = split_at "--json" arg rest (split_at "--output" arg rest no_flag)

-- `setOnce` for `--json`.
set_once : String → PreParse → Result PreParse
set_once val s =
    if s.json_seen
    then err (plain "--json specified multiple times")
    else ok (record s { flags = record (s.flags) { json_payload = val }; json_seen = true })

set_output_format : String → PreParse → Result PreParse
set_output_format val s =
    if s.output_seen
    then err (plain "--output specified multiple times")
    else if val == output_text || val == output_json
    then ok (record s { flags = record (s.flags) { output_fmt = val }; output_seen = true })
    else err (plain ("--output must be \"text\" or \"json\", got \"" +++ val +++ "\""))

-- The body of the loop behind `splitGlobalFlag`.
unfoldable pub set_flag : String → Split → PreParse → Result PreParse
unfolding set_once set_output_format
set_flag arg s st =
    if s.key == ""
    then ok (record st { remaining = st.remaining ++ arg ∷ [] })
    else if s.val == ""
    then err (plain (s.key +++ " requires a value"))
    else if s.key == "--json"
    then set_once s.val st
    else set_output_format s.val st

-- The loop, over the arguments that are left; `skip` is what `i += consumed` steps over.
unfoldable pub pre_parse_loop : PreParse → ℕ → List String → Result PreParse
pre_parse_loop st skip [] = ok st
pre_parse_loop st (suc skip) (arg ∷ rest) = pre_parse_loop st skip rest
pre_parse_loop st zero (arg ∷ rest) = set_flag arg (split_global_flag arg rest) st >>= λ st'.
    pre_parse_loop st' (split_global_flag arg rest).consumed rest

abbrev pub no_flags : GlobalFlags
no_flags = record { json_payload = ""; output_fmt = "" }

abbrev pub pre_parse_start : PreParse
pre_parse_start = record {
  remaining = [];
  flags = no_flags;
  json_seen = false;
  output_seen = false;
}

unfoldable pub pre_parse_global_flags : List String → Result (List String × GlobalFlags)
pre_parse_global_flags args =
    pre_parse_loop pre_parse_start 0 args >>= λ st. ok (st.remaining, st.flags)
