-- ===== src/Prelude/Replace.antt =====
-- Go's strings.ReplaceAll on native texts, and what it leaves.
use Prim.Native.Char.{Char, code}
use procframe.Prelude.{
  ℕ, zero, suc, ◌-◌, String, Bool, true, false, ◌≡◌, refl, sym, ap, ◌∙◌, if◌then◌else◌, eqb,
  Bool-cases, inl, inr, arith, ◌||◌,
}

-- strings.HasPrefix.
abbrev pub starts : String → String → Bool
starts String.[] s = true
starts (String.◌∷◌ c t) String.[] = false
starts (String.◌∷◌ c t) (String.◌∷◌ d s) =
    let rest = starts t s in if eqb (code c) (code d) then rest else false

-- strings.Contains.
abbrev pub occurs : String → String → Bool
occurs t String.[] = starts t ""
occurs t (String.◌∷◌ c s) = starts t (String.◌∷◌ c s) || occurs t s

abbrev pub text_length : String → ℕ
text_length String.[] = 0
text_length (String.◌∷◌ c s) = suc (text_length s)

-- `p + s`, by recursion.
abbrev prepend : String → String → String
prepend String.[] s = s
prepend (String.◌∷◌ c p) s = String.◌∷◌ c (prepend p s)

module _ (old new : String) where
  -- What is written at the first character of `s`, of which `skipped` ones belong to a match.
  abbrev written : ℕ → Char → String → String
  written zero c s = if starts old (String.◌∷◌ c s) then new else String.◌∷◌ c ""
  written (suc k) c s = ""

  -- How many characters behind it belong to a match.
  abbrev skips : ℕ → Char → String → ℕ
  skips zero c s = if starts old (String.◌∷◌ c s) then text_length old - 1 else 0
  skips (suc k) c s = k

  unfoldable pub replace_from : ℕ → String → String
  replace_from skipped String.[] = ""
  replace_from skipped (String.◌∷◌ c s) =
      prepend (written skipped c s) (replace_from (skips skipped c s) s)

  -- strings.ReplaceAll, for an `old` that is not empty: from the left, without overlaps.
  unfoldable pub replace_all : String → String
  replace_all s = replace_from 0 s

-- No character of `t` stands in `p`.
abbrev pub lacks : Char → String → Bool
lacks c String.[] = true
lacks c (String.◌∷◌ d p) = let rest = lacks c p in if eqb (code c) (code d) then false else rest

abbrev pub Avoids : String → String → Type 0
Avoids String.[] p = Unit
Avoids (String.◌∷◌ c t) p = (lacks c p ≡ true) × Avoids t p

either-false : {a b : Bool} → a ≡ false → b ≡ false → (a || b) ≡ false
either-false x y = ground (arith, x, y)

-- An occurrence of `c ∷ t` does not begin in a text without `c`.
occurs-behind :
    (c : Char) (t p s : String)
    → lacks c p ≡ true
    → occurs (String.◌∷◌ c t) s ≡ false
    → occurs (String.◌∷◌ c t) (prepend p s) ≡ false
occurs-behind c t String.[] s apart h = h
occurs-behind c t (String.◌∷◌ d p) s apart h =
    ground (arith, occurs-behind c t p s (ground arith) h)

module _ (old : String) (n : Char) (p : String) where
  abbrev new : String
  new = String.◌∷◌ n p

  replace-match :
      (d : Char) (s : String)
      → starts old (String.◌∷◌ d s) ≡ true
      → replace_from old new 0 (String.◌∷◌ d s)
        ≡ prepend new (replace_from old new (text_length old - 1) s)
  unfolding replace_from
  replace-match d s m = rw m refl

  replace-kept :
      (d : Char) (s : String)
      → starts old (String.◌∷◌ d s) ≡ false
      → replace_from old new 0 (String.◌∷◌ d s) ≡ String.◌∷◌ d (replace_from old new 0 s)
  unfolding replace_from
  replace-kept d s m = rw m refl

  -- What begins in the replaced text, without a character of the new one, began there before.
  starts-replaced :
      (t s : String) → Avoids t new → starts t (replace_from old new 0 s) ≡ true → starts t s ≡ true
  unfolding replace_from
  starts-replaced String.[] s a h = refl
  starts-replaced (String.◌∷◌ c t) String.[] a h = h
  starts-replaced (String.◌∷◌ c t) (String.◌∷◌ d s) a h =
      elim (Bool-cases (starts old (String.◌∷◌ d s))) [
        | inl m ↦
            let h' = ap (starts (String.◌∷◌ c t)) (sym (replace-match d s m)) ∙ h in ground arith
        | inr m ↦
            let h' = ap (starts (String.◌∷◌ c t)) (sym (replace-kept d s m)) ∙ h in
            ground (arith, starts-replaced t s a.1)
      ]

  begins-replaced :
      (t s : String)
      → Avoids t new
      → starts t s ≡ false
      → starts t (replace_from old new 0 s) ≡ false
  begins-replaced t s a h = ground (arith, starts-replaced t s a)

  -- A character that is kept begins no occurrence.
  occurs-kept :
      (c : Char) (t : String) (d : Char) (s : String)
      → Avoids (String.◌∷◌ c t) new
      → starts old (String.◌∷◌ d s) ≡ false
      → starts (String.◌∷◌ c t) (String.◌∷◌ d s) ≡ false
      → occurs (String.◌∷◌ c t) (replace_from old new 0 s) ≡ false
      → occurs (String.◌∷◌ c t) (replace_from old new 0 (String.◌∷◌ d s)) ≡ false
  occurs-kept c t d s a m fresh later =
      let kept = replace-kept d s m in
      let begins = begins-replaced (String.◌∷◌ c t) (String.◌∷◌ d s) a fresh in
      ap (occurs (String.◌∷◌ c t)) kept
      ∙ either-false (ap (starts (String.◌∷◌ c t)) (sym kept) ∙ begins) later

  -- A replacement brings no text into being that lacks the characters of the new one.
  pub occurs-replaced :
      (c : Char) (t : String) (k : ℕ) (s : String)
      → Avoids (String.◌∷◌ c t) new
      → occurs (String.◌∷◌ c t) s ≡ false
      → occurs (String.◌∷◌ c t) (replace_from old new k s) ≡ false
  unfolding replace_from
  occurs-replaced c t k String.[] a h = h
  occurs-replaced c t (suc k) (String.◌∷◌ d s) a h = occurs-replaced c t k s a (ground arith)
  occurs-replaced c t zero (String.◌∷◌ d s) a h = elim (Bool-cases (starts old (String.◌∷◌ d s))) [
    | inl m ↦
        ap (occurs (String.◌∷◌ c t)) (replace-match d s m)
        ∙ occurs-behind c t new _ a.0 (occurs-replaced c t (text_length old - 1) s a (ground arith))
    | inr m ↦ occurs-kept c t d s a m (ground arith) (occurs-replaced c t 0 s a (ground arith))
  ]

  -- Nothing is left of the old text itself, if it lacks the characters of the new one.
  pub occurs-replace_same :
      (c : Char) (t : String) (k : ℕ) (s : String)
      → old ≡ String.◌∷◌ c t
      → Avoids (String.◌∷◌ c t) new
      → occurs (String.◌∷◌ c t) (replace_from old new k s) ≡ false
  unfolding replace_from
  occurs-replace_same c t k String.[] same a = refl
  occurs-replace_same c t (suc k) (String.◌∷◌ d s) same a = occurs-replace_same c t k s same a
  occurs-replace_same c t zero (String.◌∷◌ d s) same a =
      elim (Bool-cases (starts old (String.◌∷◌ d s))) [
        | inl m ↦
            ap (occurs (String.◌∷◌ c t)) (replace-match d s m)
            ∙ occurs-behind c t new _ a.0 (occurs-replace_same c t (text_length old - 1) s same a)
        | inr m ↦
            occurs-kept c t d s a m (ap (λ o. starts o (String.◌∷◌ d s)) (sym same) ∙ m)
              (occurs-replace_same c t 0 s same a)
      ]
