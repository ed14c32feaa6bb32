-- ===== src/Match/Setup/Populated.antt =====
-- What a table holds once populate_hash has filled it.
use ahaggar.Base.{
  ℕ, suc, ◌+◌, ◌<◌, ◌≡◌, refl, ◌≢◌, sym, ap, ◌∙◌, Bool, true, false, Option, none, some, List, [],
  ◌∷◌, ◌++◌, ok, ◌>>=◌, ◌==◌, if◌then◌else◌, ◌&&◌, length, pos, arith, Bool-cases, Option-cases,
  inl, inr, ne→==,
}
use ahaggar.Match.{
  Libs, Event, out_warning, duplicate_text, Target, HashFunctions, is_hash_safe, init_hash_table,
  init_hash, lookup_key, lookup_target, insert_key, insert_target, populate_hash_target,
  compile_regexp_match, compile_array, max_hash_entries,
}
use ahaggar.Match.Setup.{populate_from, populate_hash, init_one}
use ahaggar.Match.Setup.Tables.{is_hash_safe_iff}
use ahaggar.Match.Setup.Ready.{
  name_ready, array_ready, target_ready, all_ready, compile_array_ready,
}

-- Whether two strings are the same.
abbrev pub same : List ℕ → List ℕ → Bool
same [] [] = true
same [] (d ∷ ds) = false
same (c ∷ cs) [] = false
same (c ∷ cs) (d ∷ ds) = c == d && same cs ds

pub same_eq : (a b : List ℕ) → same a b ≡ true → a ≡ b
same_eq [] [] h = refl
same_eq [] (d ∷ ds) h = cc
same_eq (c ∷ cs) [] h = cc
same_eq (c ∷ cs) (d ∷ ds) h = grind (arith, same_eq cs ds)

pub same_self : (a : List ℕ) → same a a ≡ true
same_self [] = refl
same_self (c ∷ cs) = ground (arith, same_self cs)

module _ (libs : Libs) where
  -- The index of the first target of that name, counted from `i`.
  abbrev pub name_is : Option (List ℕ) → List ℕ → Bool
  name_is none key = false
  name_is (some name) key = same name key

  abbrev pub first_named : List (Target libs) → List ℕ → ℕ → Option ℕ
  first_named [] key i = none
  first_named (f ∷ more) key i =
      let rest = first_named more key (i + 1) in if name_is f.name key then some i else rest

  abbrev pub or_else : Option ℕ → Option ℕ → Option ℕ
  or_else none b = b
  or_else (some i) b = some i

  or_else-none : (o : Option ℕ) → or_else o none ≡ o
  or_else-none none = refl
  or_else-none (some i) = refl

  -- `tab'` finds what `tab` finds, and else target `i` under `name`.
  abbrev Adds : libs.Table → libs.Table → List ℕ → ℕ → Type 0
  Adds tab tab' name i =
      (key : List ℕ)
      → lookup_key libs tab' key
        ≡ or_else (lookup_key libs tab key) (if same name key then some i else none)

  insert-Adds :
      (tab : libs.Table) (c : ℕ) (cs : List ℕ) (i : ℕ)
      → libs.htab_find tab (c ∷ cs) ≡ none
      → Adds tab (libs.htab_insert tab (c ∷ cs) i) (c ∷ cs) i
  unfolding lookup_key
  insert-Adds tab c cs i free [] = refl
  insert-Adds tab c cs i free (d ∷ ds) = elim (Bool-cases (same (c ∷ cs) (d ∷ ds))) [
    | inl is ↦
        let eq : c ∷ cs ≡ d ∷ ds = same_eq (c ∷ cs) (d ∷ ds) is in
        let there = libs.find-insert tab (c ∷ cs) i in cc
    | inr differs ↦
        let ne : (d ∷ ds) ≢ (c ∷ cs) = λ e. (let s = same_self (c ∷ cs) in cc) in
        rw differs (
          libs.find-insert_other tab (c ∷ cs) (d ∷ ds) i ne
          ∙ sym (or_else-none (libs.htab_find tab (d ∷ ds))))
  ]

  keep-Adds :
      (tab : libs.Table) (c : ℕ) (cs : List ℕ) (i j : ℕ)
      → libs.htab_find tab (c ∷ cs) ≡ some j
      → Adds tab tab (c ∷ cs) i
  unfolding lookup_key
  keep-Adds tab c cs i j taken [] = refl
  keep-Adds tab c cs i j taken (d ∷ ds) = elim (Bool-cases (same (c ∷ cs) (d ∷ ds))) [
    | inl is ↦
        let eq : c ∷ cs ≡ d ∷ ds = same_eq (c ∷ cs) (d ∷ ds) is in
        let there : libs.htab_find tab (d ∷ ds) ≡ some j = cc in rw there refl
    | inr differs ↦ rw differs (sym (or_else-none (libs.htab_find tab (d ∷ ds))))
  ]

  name_cons :
      (o : Option (List ℕ))
      → name_ready libs o ≡ true
      → (c : ℕ) × (cs : List ℕ) × (o ≡ some (c ∷ cs))
  name_cons none h = cc
  name_cons (some []) h = cc
  name_cons (some (c ∷ cs)) h = (c, cs, refl)

  -- One round of populate_hash: the first target of a name is the one that is found.
  populate_hash_target_ready :
      (tab : libs.Table) (i : ℕ) (f : Target libs) (c : ℕ) (cs : List ℕ)
      → f.name ≡ some (c ∷ cs)
      → (tab' : libs.Table) × (events : List Event) × (populate_hash_target libs tab i f
          ≡ (pos 0, tab', events))
        × Adds tab tab' (c ∷ cs) i
  unfolding populate_hash_target lookup_target insert_target lookup_key insert_key
  populate_hash_target_ready tab i f c cs h = elim (Option-cases (libs.htab_find tab (c ∷ cs))) [
    | inl free ↦ (
      libs.htab_insert tab (c ∷ cs) i,
      [],
      simp (populate_hash_target, lookup_target, insert_target, h, lookup_key, free),
      insert-Adds tab c cs i free,
    )
    | inr (j, taken) ↦ (
      tab,
      out_warning (duplicate_text libs f.name) ∷ [],
      simp (populate_hash_target, lookup_target, h, lookup_key, taken),
      keep-Adds tab c cs i j taken,
    )
  ]

  and_true : (a b : Bool) → (a && b) ≡ true → (a ≡ true) × (b ≡ true)
  and_true true b h = (refl, h)
  and_true false b h = cc

  or_else-if :
      (o : Option ℕ) (b : Bool) (i : ℕ) (r : Option ℕ)
      → or_else (or_else o (if b then some i else none)) r ≡ or_else o (if b then some i else r)
  or_else-if none true i r = refl
  or_else-if none false i r = refl
  or_else-if (some j) b i r = refl

  populate_on :
      (i : ℕ) (f f' : Target libs) (more more' : List (Target libs)) (tab tab' tab'' : libs.Table)
      (events events' events'' : List Event)
      → populate_hash_target libs tab i f ≡ (pos 0, tab', events)
      → compile_array libs f f.patterns ≡ ok (pos 0, f', events')
      → populate_from libs (i + 1) more tab' ≡ ok (pos 0, more', tab'', events'')
      → populate_from libs i (f ∷ more) tab
        ≡ ok (pos 0, f' ∷ more', tab'', events ++ events' ++ events'')
  unfolding populate_from compile_regexp_match
  populate_on i f f' more more' tab tab' tab'' events events' events'' added compiled rest =
      simp (populate_from, compile_regexp_match, added, compiled, rest, ◌>>=◌)

  -- What is found in the table behind the targets from `i` on.
  populate_from_ready :
      (targets : List (Target libs)) (i : ℕ) (tab : libs.Table)
      → all_ready libs targets ≡ true
      → (targets' : List (Target libs)) × (tab' : libs.Table) × (events : List Event)
        × (populate_from libs i targets tab ≡ ok (pos 0, targets', tab', events))
        × ((key : List ℕ)
            → lookup_key libs tab' key
              ≡ or_else (lookup_key libs tab key) (first_named targets key i))
        × (length targets' ≡ length targets)
  unfolding populate_from
  populate_from_ready [] i tab h =
      ([], tab, [], refl, λ key. sym (or_else-none (lookup_key libs tab key)), refl)
  populate_from_ready (f ∷ more) i tab h =
      let (ready, later) = and_true (target_ready libs f) (all_ready libs more) h in
      let (named, compiling) =
        and_true (name_ready libs f.name) (array_ready libs f.patterns) ready in
      let (c, cs, is) = name_cons f.name named in
      let (tab', events, added, adds) = populate_hash_target_ready tab i f c cs is in
      let (f', events', compiled) = compile_array_ready libs f f.patterns compiling in
      let (more', tab'', events'', rest, finds, as_many) =
        populate_from_ready more (i + 1) tab' later in
      (
        f' ∷ more',
        tab'',
        events ++ events' ++ events'',
        populate_on i f f' more more' tab tab' tab'' events events' events'' added compiled rest,
        λ key.
            finds key
            ∙ ap (λ o. or_else o (first_named more key (i + 1))) (adds key)
            ∙ or_else-if (lookup_key libs tab key) (same (c ∷ cs) key) i
                (first_named more key (i + 1))
            ∙ ap
                (λ o.
                  or_else (lookup_key libs tab key)
                    (if name_is o key then some i else first_named more key (i + 1)))
                (sym is),
        ap suc as_many,
      )

  lookup_key-create :
      (key : List ℕ) → lookup_key libs (libs.htab_create max_hash_entries) key ≡ none
  unfolding lookup_key
  lookup_key-create [] = refl
  lookup_key-create (c ∷ cs) = libs.find-create max_hash_entries (c ∷ cs)

  init_one_on :
      (h : HashFunctions libs) (targets : List (Target libs)) (tab : libs.Table)
      (events : List Event)
      → (length h.targets == 0) ≡ false
      → is_hash_safe libs (some h.targets) (length h.targets) ≡ true
      → populate_from libs 0 h.targets (libs.htab_create max_hash_entries)
        ≡ ok (pos 0, targets, tab, events)
      → init_one libs h ≡ ok (pos 0, record h { targets = targets; tab = some tab }, events)
  unfolding init_one populate_hash init_hash init_hash_table
  init_one_on h targets tab events full safe filled =
      simp (init_one, populate_hash, init_hash, init_hash_table, full, safe, filled, ◌>>=◌)

  pub init_one-length :
      (h : HashFunctions libs)
      → all_ready libs h.targets ≡ true
      → 0 < length h.targets
      → length h.targets < 768
      → (h' : HashFunctions libs) × (tab : libs.Table) × (events : List Event) × (init_one libs h
          ≡ ok (pos 0, h', events))
        × (h'.tab ≡ some tab)
        × ((key : List ℕ) → lookup_key libs tab key ≡ first_named h.targets key 0)
        × (length h'.targets ≡ length h.targets)
  unfolding init_one populate_hash init_hash init_hash_table
  init_one-length h ready some_targets few =
      let fresh = libs.htab_create max_hash_entries in
      let (targets, tab, events, filled, finds, as_many) =
        populate_from_ready h.targets 0 fresh ready in
      let (_, safe) = is_hash_safe_iff libs h.targets (length h.targets) in
      (
        record h { targets = targets; tab = some tab },
        tab,
        events,
        init_one_on h targets tab events (ne→== (length h.targets) 0 (omega arith))
            (safe (some_targets, few)) filled,
        refl,
        λ key.
            finds key ∙ ap (λ o. or_else o (first_named h.targets key 0)) (lookup_key-create key),
        as_many,
      )

  -- Where a table of hash_functions has 1 to 767 targets, with names that are not empty, arrays of
  -- patterns that end with an inactive one, and expressions that compile, fncalls_match_init makes its
  -- hash table, and the table gives for any name the first target of that name, and none if there is
  -- none.
  pub init_one_lem :
      (h : HashFunctions libs)
      → all_ready libs h.targets ≡ true
      → 0 < length h.targets
      → length h.targets < 768
      → (h' : HashFunctions libs) × (tab : libs.Table) × (events : List Event) × (init_one libs h
          ≡ ok (pos 0, h', events))
        × (h'.tab ≡ some tab)
        × ((key : List ℕ) → lookup_key libs tab key ≡ first_named h.targets key 0)
  init_one_lem h ready some_targets few =
      let (h', tab, events, done, tabs, finds, as_many) =
        init_one-length h ready some_targets few in
      (h', tab, events, done, tabs, finds)
