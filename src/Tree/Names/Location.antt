-- ===== src/Tree/Names/Location.antt =====
-- nodes-utils.c and gcc-utils.c: the location of a node is always found, but for an overload set
-- without functions.
use ahaggar.Base.{
  ℕ, ◌≡◌, refl, ap, Bool, true, false, if◌then◌else◌, ◌==◌, ◌&&◌, not, Run, ok, ◌>>=◌, [], Option,
  none, some, arith, Bool-cases, inl, inr,
}
use ahaggar.Tree
use ahaggar.Tree.Codes
use ahaggar.Tree.Codes.{◌is◌, code_tag}
use ahaggar.Tree.Names.{get_location, location_of, location_node, is_function_decl}

-- A run that returns.
pub record Returns {A : Type 0} (r : Run A) : Type 0 where
  pub value : A
  pub returns : r ≡ ok value

Returns-map : {A B : Type 0} {r : Run A} (f : A → B) → Returns r → Returns (r >>= λ a. ok (f a))
Returns-map f s = record { value = f s.value; returns = ap (λ r. r >>= λ a. ok (f a)) s.returns }

and_not : (a b : Bool) → (a && not b) ≡ true → b ≡ false
and_not a true e = ground arith
and_not a false e = refl

-- The node that has the location is not NULL.
abbrev Found : Option ℕ → Type 0
Found none = Unit
Found (some s) = (s == 0) ≡ false

module _ (g : Tree.Gcc) (t : ℕ) (t≢0 : (t == 0) ≡ false) where
  abbrev is_param : Bool
  is_param = g.code t is Codes.parm_decl && not (g.field Tree.decl_context t == 0)

  abbrev main_decl : ℕ
  main_decl = g.field Tree.type_main_decl t

  location_node_param :
      is_param ≡ true → location_node g t ≡ ok (some (g.field Tree.decl_context t))
  unfolding location_node
  location_node_param p = simp (t≢0, p, ◌>>=◌)

  location_node_type :
      is_param ≡ false
      → g.flag Tree.type_p t ≡ true
      → location_node g t ≡ ok (if main_decl == 0 then none else some main_decl)
  unfolding location_node
  location_node_type p q = simp (t≢0, p, q, ◌>>=◌)

  location_node_other :
      is_param ≡ false
      → g.flag Tree.type_p t ≡ false
      → (g.code t is Codes.overload) ≡ false
      → location_node g t ≡ ok (some t)
  unfolding location_node
  location_node_other p q o = simp (t≢0, p, q, o, ◌>>=◌)

  Found-type : Found (if main_decl == 0 then none else some main_decl)
  Found-type = elim (Bool-cases (main_decl == 0)) [ inl e ↦ rw e tt | inr e ↦ rw e e ]

  Found-param : is_param ≡ true → (g.field Tree.decl_context t == 0) ≡ false
  Found-param p = and_not _ _ p

  location_of-Found :
      (n : Option ℕ) → location_node g t ≡ ok n → Found n → Returns (location_of g t)
  unfolding location_of
  location_of-Found none e found = record { value = g.input_location; returns = simp (e, ◌>>=◌) }
  location_of-Found (some s) e found = record {
    value = g.number Tree.location s;
    returns = simp (e, found, ◌>>=◌);
  }

  location_of_lem : (g.code t is Codes.overload) ≡ false → Returns (location_of g t)
  location_of_lem o = elim (Bool-cases is_param) [
    | inl p ↦ location_of-Found _ (location_node_param p) (Found-param p)
    | inr p ↦ elim (Bool-cases (g.flag Tree.type_p t)) [
      | inl q ↦ location_of-Found _ (location_node_type p q) Found-type
      | inr q ↦ location_of-Found _ (location_node_other p q o) t≢0
    ]
  ]

module _ (g : Tree.Gcc) where
  pub get_location_lem : (t : ℕ) → (g.code t is Codes.overload) ≡ false → Returns (get_location g t)
  unfolding get_location
  get_location_lem t o = elim (Bool-cases (t == 0)) [
    | inl e ↦ record { value = []; returns = simp e }
    | inr e ↦ rw e (Returns-map _ (location_of_lem g t e o))
  ]

  pub is_function_decl_lem :
      (fn : ℕ) → (fn == 0) ≡ false → g.code fn ≡ Codes.function_decl → is_function_decl g fn ≡ true
  unfolding is_function_decl ◌is◌ code_tag
  is_function_decl_lem fn e code = rw e (ap (λ c. c is Codes.function_decl) code)
