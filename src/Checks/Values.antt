-- ===== src/Checks/Values.antt =====
-- What `get_arg_value` finds in an argument that is printed as `<tag> value`.
use ahaggar.Base.{
  ℕ, suc, ◌+◌, ◌≡◌, ◌≢◌, ◌∙◌, ap, Bool, true, none, some, List, [], ◌∷◌, ◌++◌, ok, ◌==◌,
  if◌then◌else◌, get_elem?, drop, arith, length, get_elem?-drop,
}
use ahaggar.Checks.{value_from, get_arg_value}

-- A byte that only the default case of the switch takes, or a blank.
abbrev pub IsPlain : ℕ → Type 0
IsPlain c = (c ≢ 0) × (c ≢ b'(') × (c ≢ b')') × (c ≢ b'<') × (c ≢ b'>') × (c ≢ b',')

abbrev pub Plain : List ℕ → Type 0
Plain [] = Unit
Plain (c ∷ cs) = IsPlain c × Plain cs

-- A byte that ends an argument.
abbrev pub ends_arg : ℕ → Bool
ends_arg c = if c == b')' then true else if c == b',' then true else c == 0

value_from-tag :
    (name rest : List ℕ) (p : ℕ)
    → Plain name
    → value_from (name ++ rest) 0 1 p ≡ value_from rest 0 1 (p + length name)
unfolding value_from
value_from-tag [] rest p h = let e : p + 0 ≡ p = omega arith in rw e (ground arith)
value_from-tag (c ∷ name) rest p ((n0, n1, n2, n3, n4, n5), h) =
    let e : p + 1 + length name ≡ p + suc (length name) = omega arith in
    ground (arith, value_from-tag name rest (p + 1) h)

-- Behind the tag.
value_from-behind :
    (name rest : List ℕ) (p : ℕ)
    → Plain name
    → value_from (b'<' ∷ (name ++ b'>' ∷ rest)) 0 0 p ≡ value_from rest 0 0 (p + length name + 2)
unfolding value_from
value_from-behind name rest p h =
    let e : p + 1 + length name + 1 ≡ p + length name + 2 = omega arith in
    value_from-tag name (b'>' ∷ rest) (p + 1) h ∙ ap (value_from rest 0 0) e

first_value :
    (v : ℕ) (rest : List ℕ) (p : ℕ)
    → IsPlain v
    → v ≢ b' '
    → value_from (b' ' ∷ v ∷ rest) 0 0 p ≡ ok (some (p + 1))
unfolding value_from
first_value v rest p (n0, n1, n2, n3, n4, n5) h = ground arith

no_value :
    (c : ℕ) (rest : List ℕ) (p : ℕ) → ends_arg c ≡ true → value_from (c ∷ rest) 0 0 p ≡ ok none
unfolding value_from
no_value c rest p h = ground arith

module _ (call name rest : List ℕ) (p : ℕ) (plain : Plain name) where
  -- get_arg_value of an argument that is printed as a tag, a blank and a value points at the
  -- value.
  pub get_arg_value_found :
      (v : ℕ)
      → drop p call ≡ b'<' ∷ (name ++ b'>' ∷ b' ' ∷ v ∷ rest)
      → IsPlain v
      → v ≢ b' '
      → get_arg_value call (some p) ≡ ok (some (p + length name + 3))
  unfolding get_arg_value
  get_arg_value_found v h is visible =
      let e : p + length name + 2 + 1 ≡ p + length name + 3 = omega arith in
      rw (get_elem?-drop call p ∙ ap (λ l. get_elem? l 0) h, h)
        (value_from-behind name (b' ' ∷ v ∷ rest) p plain
          ∙ first_value v rest (p + length name + 2) is visible
          ∙ ap (λ n. ok (some n)) e)

  -- An argument that is a tag alone has no value.
  pub get_arg_value-none :
      (c : ℕ)
      → drop p call ≡ b'<' ∷ (name ++ b'>' ∷ c ∷ rest)
      → ends_arg c ≡ true
      → get_arg_value call (some p) ≡ ok none
  unfolding get_arg_value
  get_arg_value-none c h last =
      rw (get_elem?-drop call p ∙ ap (λ l. get_elem? l 0) h, h)
        (value_from-behind name (c ∷ rest) p plain ∙ no_value c rest (p + length name + 2) last)
