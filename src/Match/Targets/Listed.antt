-- ===== src/Match/Targets/Listed.antt =====
-- fncalls-match.c: the three tables are set up, and then asked for the names of functions.
use ahaggar.Base.{
  ℕ, ◌+◌, ◌<◌, ◌≡◌, ◌≢◌, refl, ap, ◌∙◌, Bool, true, false, Option, none, some, List, [], ◌∷◌, ◌++◌,
  ok, ◌>>=◌, pos, negsuc, ◌||◌, length, arith, Bool-cases, inl, inr, ◌==◌, if◌then◌else◌, ne→==,
}
use ahaggar.Checks.Sizes.{Parsed}
use ahaggar.Match.{
  Libs, HashId, errors_id, warns_id, reports_id, Event, Matcher, Target, HashFunctions, lookup_key,
}
use ahaggar.Match.Setup.{
  init_one, fncalls_match_init, names, match_function_name, targets_array_size,
}
use ahaggar.Match.Setup.Tables.{match_function_name_lem}
use ahaggar.Match.Setup.Ready.{compiles, all_ready}
use ahaggar.Match.Setup.Populated.{name_is, first_named, init_one-length}
use ahaggar.Match.Targets.{ghash, table_of}
use ahaggar.Match.Targets.Filled.{Header, included, constant_source, null_argument, included_ready}

or_false : (b : Bool) → b || false ≡ b
or_false true = refl
or_false false = refl

module _ (libs : Libs) where
  -- Whether a target of that name is in the array.
  abbrev pub is_listed : List ℕ → List (Target libs) → Bool
  is_listed name [] = false
  is_listed name (f ∷ more) = name_is libs f.name name || is_listed name more

  is_some : Option ℕ → Bool
  is_some none = false
  is_some (some i) = true

  first_named-is_listed :
      (targets : List (Target libs)) (name : List ℕ) (i : ℕ)
      → is_some (first_named libs targets name i) ≡ is_listed name targets
  unfolding is_some
  first_named-is_listed [] name i = refl
  first_named-is_listed (f ∷ more) name i = elim (Bool-cases (name_is libs f.name name)) [
    | inl h ↦ simp h
    | inr h ↦ simp (h, first_named-is_listed more name (i + 1))
  ]

  -- A table that was set up: it names exactly the functions of its array.
  record IsFilled (targets : List (Target libs)) (h : HashFunctions libs) : Type 0 where
    as_many : length h.targets ≡ length targets
    naming : (name : List ℕ) → names libs h name ≡ is_listed name targets

  names_in :
      (h : HashFunctions libs) (tab : libs.Table) (targets : List (Target libs)) (name : List ℕ)
      → (length h.targets == 0) ≡ false
      → h.tab ≡ some tab
      → lookup_key libs tab name ≡ first_named libs targets name 0
      → names libs h name ≡ is_listed name targets
  unfolding names is_some
  names_in h tab targets name full tabs found =
      let named : names libs h name ≡ is_some (first_named libs targets name 0) =
        simp (names, full, tabs, found) in
      named ∙ first_named-is_listed targets name 0

  init_one-IsFilled :
      (id : HashId) (targets : List (Target libs))
      → all_ready libs targets ≡ true
      → length targets < 768
      → (h : HashFunctions libs) × (events : List Event) × (init_one libs (table_of libs id targets)
          ≡ ok (pos 0, h, events))
        × IsFilled targets h
  unfolding init_one
  init_one-IsFilled id [] ready few = (
    table_of libs id [],
    [],
    refl,
    record { as_many = refl; naming = λ name. unfold names in refl },
  )
  init_one-IsFilled id (f ∷ more) ready few =
      let (h, tab, events, done, tabs, finds, as_many) =
        init_one-length libs (table_of libs id (f ∷ more)) ready (omega arith) few in
      (
        h,
        events,
        done,
        record {
          as_many = as_many;
          naming = λ name.
              names_in h tab (f ∷ more) name (ne→== (length h.targets) 0 (omega (arith, as_many)))
                tabs (finds name);
        },
      )

  init_three :
      (a b c a' b' c' : HashFunctions libs) (d e f : List Event)
      → init_one libs a ≡ ok (pos 0, a', d)
      → init_one libs b ≡ ok (pos 0, b', e)
      → init_one libs c ≡ ok (pos 0, c', f)
      → (events : List Event) × (fncalls_match_init libs (a ∷ b ∷ c ∷ [])
          ≡ ok (pos 0, a' ∷ b' ∷ c' ∷ [], events))
  unfolding fncalls_match_init
  init_three a b c a' b' c' d e f one two three =
      (d ++ (e ++ (f ++ [])), simp (fncalls_match_init, one, two, three, ◌>>=◌))

  module _ (const_str_chk_arg : Matcher) (strtoul strtol : List ℕ → Parsed) (octal : ℕ → List ℕ)
      (source : compiles libs (some constant_source) ≡ true)
      (null : compiles libs (some null_argument) ≡ true) where
    abbrev pub array : List Header → List (Target libs)
    array ks = included libs const_str_chk_arg strtoul strtol octal ks

    ready : (ks : List Header) → all_ready libs (array ks) ≡ true
    ready ks = included_ready libs const_str_chk_arg strtoul strtol octal source null ks

    -- Whichever headers of the repository the three arrays include, each fewer than 768 targets and at
    -- least one in all: if the two expressions in the headers compile, fncalls_match_init succeeds, and
    -- from then on match_function_name returns 0 for exactly the functions that the headers list, and
    -- -1 for any other.
    pub fncalls_match_init-match_function_name :
        (errors warnings reports : List Header)
        → length (array errors) < 768
        → length (array warnings) < 768
        → length (array reports) < 768
        → 0 < length (array errors) + (length (array warnings) + length (array reports))
        → (hashes : List (HashFunctions libs)) × (events : List Event) × (fncalls_match_init libs
              (ghash libs (array errors) (array warnings) (array reports))
            ≡ ok (pos 0, hashes, events))
          × ((fnname : List ℕ)
              → (match_function_name libs fnname hashes).0 ≡ (
                  if is_listed fnname (array errors)
                    || (is_listed fnname (array warnings) || is_listed fnname (array reports))
                  then pos 0
                  else negsuc 0))
    unfolding ghash targets_array_size
    fncalls_match_init-match_function_name errors warnings reports few_e few_w few_r some_target =
        let (a, d, one, set_a) = init_one-IsFilled errors_id (array errors) (ready errors) few_e in
        let (b, e, two, set_b) =
          init_one-IsFilled warns_id (array warnings) (ready warnings) few_w in
        let (c, f, three, set_c) =
          init_one-IsFilled reports_id (array reports) (ready reports) few_r in
        let (events, done) = init_three _ _ _ a b c d e f one two three in
        let some_left : targets_array_size libs (a ∷ b ∷ c ∷ []) ≢ 0 =
          λ z. absurd (omega (arith, set_a.as_many, set_b.as_many, set_c.as_many, z)) in
        (
          a ∷ b ∷ c ∷ [],
          events,
          done,
          λ fnname.
              ap (λ r. r.0) (match_function_name_lem libs fnname (a ∷ b ∷ c ∷ []) some_left)
              ∙ simp (set_a.naming fnname, set_b.naming fnname, set_c.naming fnname, or_false),
        )
