-- ===== src/Match/Targets/Filled.antt =====
-- The headers of fncalls_checks/ in a table: the table is filled, and finds each of their functions.
use ahaggar.Base.{
  ℕ, zero, suc, ◌+◌, ◌<◌, ◌≡◌, refl, ap, ◌∙◌, Bool, true, false, Option, none, some, List, [], ◌∷◌,
  ◌++◌, ok, pos, ◌&&◌, ◌||◌, not, length, get_elem?, codes, arith, Bool-cases, inl, inr,
}
use ahaggar.Checks.Sizes.{Parsed}
use ahaggar.Match.{Libs, Event, Matcher, Target, HashFunctions, lookup_key}
use ahaggar.Match.Setup.{init_one}
use ahaggar.Match.Setup.Ready.{compiles, all_ready, target_ready}
use ahaggar.Match.Setup.Populated.{same_eq, same_self, name_is, first_named, init_one_lem}
use ahaggar.Match.Targets.{
  dangerous_functions, obsolete_functions, api_warnings, kmalloc_reports, kmemory_reports,
  const_reports, message_formats, name_formats, file_system_formats, kformat_warnings, mem_warnings,
  malloc_warnings, kmalloc_warnings, open_patterns, file_warnings,
}

-- The headers that are in the repository.
pub data Header : Type 0 where
  api file kmalloc kformat malloc memory reports_kmalloc reports_const reports_kmemory : Header

-- The expressions for a source that is a constant string, and for an argument that is NULL.
abbrev pub constant_source : List ℕ
constant_source = codes "^\\(.*, <addr_expr> <string_cst>\\s.*\\)$"

abbrev pub null_argument : List ℕ
null_argument = codes "^\\(<pointer_type>\\s<integer_cst>\\s0\\)$"

ready_cons : (a b c : Bool) → a && b ≡ true → (b ≡ true → c ≡ true) → a && c ≡ true
ready_cons a b c h k = ground arith

and_second : (a b : Bool) → a && b ≡ true → b ≡ true
and_second a b h = ground arith

module _ (libs : Libs) where
  all_ready-append :
      (xs ys : List (Target libs))
      → all_ready libs xs ≡ true
      → all_ready libs ys ≡ true
      → all_ready libs (xs ++ ys) ≡ true
  all_ready-append [] ys h k = k
  all_ready-append (f ∷ xs) ys h k =
      ready_cons (target_ready libs f) _ _ h (λ r. all_ready-append xs ys r k)

  -- Whether no target has the name of an earlier one.
  abbrev named_in : Option (List ℕ) → List (Target libs) → Bool
  named_in none more = false
  named_in (some name) [] = false
  named_in (some name) (f ∷ more) = name_is libs f.name name || named_in (some name) more

  abbrev pub are_distinct : List (Target libs) → Bool
  are_distinct [] = true
  are_distinct (f ∷ more) = not (named_in f.name more) && are_distinct more

  abbrev name_of : Option (Target libs) → Option (List ℕ)
  name_of none = none
  name_of (some f) = f.name

  named_at :
      (xs : List (Target libs)) (i : ℕ) (f : Target libs) (name : List ℕ)
      → get_elem? xs i ≡ some f
      → f.name ≡ some name
      → named_in (some name) xs ≡ true
  named_at [] i f name at e = absurd cc
  named_at (g ∷ xs) zero f name at e =
      let same_name : g.name ≡ some name = ap name_of at ∙ e in rw (same_name, same_self name) refl
  named_at (g ∷ xs) (suc i) f name at e =
      let rest : named_in (some name) xs ≡ true = named_at xs i f name at e in ground arith

  name_is-some : (o : Option (List ℕ)) (name : List ℕ) → name_is libs o name ≡ true → o ≡ some name
  name_is-some none name h = absurd cc
  name_is-some (some n) name h = ap some (same_eq n name h)

  -- A target behind another one has another name.
  other_name :
      (g f : Target libs) (xs : List (Target libs)) (i : ℕ) (name : List ℕ)
      → are_distinct (g ∷ xs) ≡ true
      → get_elem? xs i ≡ some f
      → f.name ≡ some name
      → name_is libs g.name name ≡ false
  other_name g f xs i name d at e = elim (Bool-cases (name_is libs g.name name)) [
    | inl h ↦
        let found : named_in g.name xs ≡ true =
          ap (λ o. named_in o xs) (name_is-some g.name name h) ∙ named_at xs i f name at e in
        absurd (ground arith)
    | inr h ↦ h
  ]

  tail_distinct :
      (g : Target libs) (xs : List (Target libs))
      → are_distinct (g ∷ xs) ≡ true
      → are_distinct xs ≡ true
  tail_distinct g xs d = and_second (not (named_in g.name xs)) (are_distinct xs) d

  -- A target is found at its index.
  first_named-get_elem :
      (xs : List (Target libs)) (i k : ℕ) (f : Target libs) (name : List ℕ)
      → are_distinct xs ≡ true
      → get_elem? xs i ≡ some f
      → f.name ≡ some name
      → first_named libs xs name k ≡ some (k + i)
  first_named-get_elem [] i k f name d at e = absurd cc
  first_named-get_elem (g ∷ xs) zero k f name d at e =
      let same_name : g.name ≡ some name = ap name_of at ∙ e in
      rw (same_name, same_self name) (ap some (omega arith))
  first_named-get_elem (g ∷ xs) (suc i) k f name d at e =
      let rest = first_named-get_elem xs i (k + 1) f name (tail_distinct g xs d) at e in
      rw (other_name g f xs i name d at e) (rest ∙ ap some (omega arith))

  module _ (const_str_chk_arg : Matcher) (strtoul strtol : List ℕ → Parsed)
      (octal : ℕ → List ℕ) where
    abbrev pub targets_of : Header → List (Target libs)
    targets_of api = api_warnings libs
    targets_of file = file_warnings libs strtoul strtol octal
    targets_of kmalloc = kmalloc_warnings libs strtoul
    targets_of kformat = kformat_warnings libs const_str_chk_arg
    targets_of malloc = malloc_warnings libs strtoul
    targets_of memory = mem_warnings libs strtoul
    targets_of reports_kmalloc = kmalloc_reports libs
    targets_of reports_const = const_reports libs
    targets_of reports_kmemory = kmemory_reports libs

    -- The headers that are included in a table, in order.
    abbrev pub included : List Header → List (Target libs)
    included [] = []
    included (k ∷ more) = targets_of k ++ included more

    module _ (source : compiles libs (some constant_source) ≡ true)
        (null : compiles libs (some null_argument) ≡ true) where
      targets_of_ready : (k : Header) → all_ready libs (targets_of k) ≡ true
      unfolding api_warnings dangerous_functions obsolete_functions file_warnings open_patterns
          kmalloc_warnings kformat_warnings message_formats name_formats file_system_formats
          malloc_warnings mem_warnings kmalloc_reports const_reports kmemory_reports
      targets_of_ready api = simp source
      targets_of_ready file = refl
      targets_of_ready kmalloc = simp null
      targets_of_ready kformat = refl
      targets_of_ready malloc = simp null
      targets_of_ready memory = refl
      targets_of_ready reports_kmalloc = simp null
      targets_of_ready reports_const = refl
      targets_of_ready reports_kmemory = refl

      pub included_ready : (ks : List Header) → all_ready libs (included ks) ≡ true
      included_ready [] = refl
      included_ready (k ∷ more) =
          all_ready-append (targets_of k) (included more) (targets_of_ready k) (included_ready more)

      -- A table that includes any of the headers in the repository, at least one target and fewer than
      -- 768, with no name twice: if the two expressions in them compile, init_one succeeds, and the
      -- hash table finds each target of the table under its name.
      pub init_one-included :
          (ks : List Header) (h : HashFunctions libs)
          → h.targets ≡ included ks
          → 0 < length (included ks)
          → length (included ks) < 768
          → are_distinct (included ks) ≡ true
          → (h' : HashFunctions libs) × (tab : libs.Table) × (events : List Event) × (init_one libs
                h
              ≡ ok (pos 0, h', events))
            × (h'.tab ≡ some tab)
            × ((i : ℕ) (f : Target libs) (name : List ℕ)
                → get_elem? (included ks) i ≡ some f
                → f.name ≡ some name
                → lookup_key libs tab name ≡ some i)
      init_one-included ks h e some_targets few distinct =
          let (h', tab, events, done, tabs, finds) =
            init_one_lem libs h (ap (all_ready libs) e ∙ included_ready ks)
              (omega (arith, ap length e)) (omega (arith, ap length e)) in
          (
            h',
            tab,
            events,
            done,
            tabs,
            λ i f name at n.
                finds name
                ∙ ap (λ fs. first_named libs fs name 0) e
                ∙ first_named-get_elem (included ks) i 0 f name distinct at n
                ∙ ap some (omega arith),
          )
