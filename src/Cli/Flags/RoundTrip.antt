-- ===== src/Cli/Flags/RoundTrip.antt =====
-- What the integer flags print is read back by them.
use procframe.Prelude.{
  ℕ, ◌+◌, ◌-◌, ◌^◌, ◌≤◌, ◌<◌, ◌≡◌, ◌⊎◌, inl, inr, sym, ap, ◌∙◌, String, Option, none, some, List,
  [], ◌∷◌, ◌++◌, map, append_assoc, append-nil, arith, All, ltb, Bool-cases,
}
use procframe.Errors.{Error, ok}
use procframe.Strconv.{Strconv}
use procframe.Cli.Flags.{
  low_bits, sign_extend, appended, int32_string, int64_string, uint32_string, uint64_string,
  int32_slice_set, int64_slice_set, uint32_slice_set, uint64_slice_set,
}

-- The 64 bits of a number that a signed integer of so many bits holds.
abbrev pub IsSigned : ℕ → ℕ → Type 0
IsSigned n bits = (n < 2 ^ (bits - 1)) ⊎ ((2 ^ 64 ≤ n + 2 ^ (bits - 1)) × (n < 2 ^ 64))

-- What strconv promises: an integer that is in the range of a size from 1 to 64 is read back.
pub record ReadsBack {Float32 Float64 : Type 0} (strconv : Strconv Float32 Float64) : Type 0 where
  pub signed :
      (n bits : ℕ)
      → 1 ≤ bits
      → bits ≤ 64
      → IsSigned n bits
      → strconv.parse_int (strconv.format_int n) bits ≡ ok n
  pub unsigned :
      (n bits : ℕ)
      → 1 ≤ bits
      → bits ≤ 64
      → n < 2 ^ bits
      → strconv.parse_uint (strconv.format_uint n) bits ≡ ok n

-- A flag that is given several times: one `Set` after the other, up to the first that fails.
abbrev pub set_each :
    {A : Type 0}
    → (String → A → Option Error × A)
    → List String
    → Option Error × A
    → Option Error × A
set_each set [] state = state
set_each set (s ∷ ss) (some e, now) = (some e, now)
set_each set (s ∷ ss) (none, now) = set_each set ss (set s now)

-- Where each text sets its element, all are appended in their order.
set_each-append :
    {A : Type 0} (P : A → Type 0) (set : String → List A → Option Error × List A)
    (text : A → String) (ns old : List A)
    → ((n : A) (now : List A) → P n → set (text n) now ≡ (none, now ++ n ∷ []))
    → All P ns
    → set_each set (map text ns) (none, old) ≡ (none, old ++ ns)
set_each-append P set text [] old reads all = ap (λ l. (none, l)) (sym (append-nil old))
set_each-append P set text (n ∷ ns) old reads all =
    ap (set_each set (map text ns)) (reads n old all.0)
    ∙ set_each-append P set text ns (old ++ n ∷ []) reads all.1
    ∙ ap (λ l. (none, l)) (append_assoc old (n ∷ []) ns)

-- An int32 as an int64, and back.
sign_extend-IsSigned : (n : ℕ) → n < 2 ^ 32 → IsSigned (sign_extend n) 32
sign_extend-IsSigned n h = elim (Bool-cases (ltb n (2 ^ 31))) [
  | inl positive ↦ rw positive (inl (ground arith))
  | inr negative ↦ rw negative (inr (ground arith, ground arith))
]

wide-IsSigned : (n : ℕ) → n < 2 ^ 64 → IsSigned n 64
wide-IsSigned n h = elim (Bool-cases (ltb n (2 ^ 63))) [
  | inl positive ↦ inl (ground arith)
  | inr negative ↦ inr (ground arith, h)
]

low_bits-extend : (n : ℕ) → n < 2 ^ 32 → low_bits (sign_extend n) ≡ n
low_bits-extend n h = elim (Bool-cases (ltb n (2 ^ 31))) [
  | inl positive ↦ rw positive (omega arith)
  | inr negative ↦ rw negative (omega arith)
]

module _ {Float32 Float64 : Type 0} (strconv : Strconv Float32 Float64)
    (back : ReadsBack strconv) where
  -- Any list of integers of 32 or of 64 bits, signed or not, that is given to a repeated flag one by
  -- one, as the flag of a single integer prints them, is appended to what the flag holds, without an
  -- error, where strconv reads back what it prints.
  pub integer_slices-restored :
      (narrow wide old : List ℕ)
      → All (λ n. n < 2 ^ 32) narrow
      → All (λ n. n < 2 ^ 64) wide
      → let text = λ (string : Option ℕ → String) (n : ℕ). string (some n) in
        (set_each (int32_slice_set strconv) (map (text (int32_string strconv)) narrow) (none, old)
          ≡ (none, old ++ narrow))
        × (set_each
              (uint32_slice_set strconv)
              (map (text (uint32_string strconv)) narrow)
              (none, old)
            ≡ (none, old ++ narrow))
        × (set_each (int64_slice_set strconv) (map (text (int64_string strconv)) wide) (none, old)
            ≡ (none, old ++ wide))
        × (set_each (uint64_slice_set strconv) (map (text (uint64_string strconv)) wide) (none, old)
            ≡ (none, old ++ wide))
  unfolding int32_slice_set uint32_slice_set int64_slice_set uint64_slice_set int32_string
      uint32_string int64_string uint64_string
  integer_slices-restored narrow wide old few many = (
    set_each-append _ _ _ narrow old
        (λ n now h.
          ap (λ r. appended low_bits r now)
            (back.signed _ 32 (omega arith) (omega arith) (sign_extend-IsSigned n h))
          ∙ ap (λ m. (none, now ++ m ∷ [])) (low_bits-extend n h))
        few,
    set_each-append _ _ _ narrow old
        (λ n now h.
          ap (λ r. appended low_bits r now) (back.unsigned n 32 (omega arith) (omega arith) h)
          ∙ ap (λ m. (none, now ++ m ∷ [])) (omega (arith, h)))
        few,
    set_each-append _ _ _ wide old
        (λ n now h.
          ap (λ r. appended (λ m. m) r now)
            (back.signed n 64 (omega arith) (omega arith) (wide-IsSigned n h)))
        many,
    set_each-append _ _ _ wide old
        (λ n now h.
          ap (λ r. appended (λ m. m) r now) (back.unsigned n 64 (omega arith) (omega arith) h))
        many,
  )
