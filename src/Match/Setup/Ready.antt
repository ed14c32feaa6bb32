-- ===== src/Match/Setup/Ready.antt =====
-- Tables whose patterns compile: what compile_regexp_match does to them.
use ahaggar.Base.{
  ℕ, ◌≡◌, refl, ap, ◌∙◌, Bool, true, false, Option, none, some, List, [], ◌∷◌, ◌++◌, ok, ◌>>=◌,
  ◌&&◌, pos, arith, Bool-cases, Option-cases, inl, inr, not, ◌||◌, subst,
}
use ahaggar.Match.{
  Libs, Event, PatternMatch, Target, init_regexp, set_args, compile_args, compile_all, compile_rest,
  compile_pattern, compile_patterns, compile_array,
}

module _ (libs : Libs) where
  -- An expression that compiles, or none; and a pointer that is still NULL.
  abbrev pub compiles : Option (List ℕ) → Bool
  compiles none = true
  compiles (some pattern) = elim (libs.regcomp pattern) [ none ↦ false | some r ↦ true ]

  abbrev pub is_null : Option libs.Regex → Bool
  is_null none = true
  is_null (some r) = false

  -- An array of patterns as a table has it at the start: it ends with an inactive one, and the active
  -- ones before it compile.
  abbrev pub patterns_ready : List (PatternMatch libs) → Bool
  patterns_ready [] = false
  patterns_ready (pm ∷ more) =
      not pm.active || (compiles pm.args && is_null pm.c_all && patterns_ready more)

  -- A target with a name that is not empty, and such patterns or none.
  abbrev pub name_ready : Option (List ℕ) → Bool
  name_ready none = false
  name_ready (some []) = false
  name_ready (some (c ∷ cs)) = true

  abbrev pub array_ready : Option (List (PatternMatch libs)) → Bool
  array_ready none = true
  array_ready (some ps) = patterns_ready ps

  abbrev pub target_ready : Target libs → Bool
  target_ready f = name_ready f.name && array_ready f.patterns

  abbrev pub all_ready : List (Target libs) → Bool
  all_ready [] = true
  all_ready (f ∷ more) = target_ready f && all_ready more

  compile_args_ready :
      (pm : PatternMatch libs) (args : Option (List ℕ))
      → compiles args ≡ true
      → (pm' : PatternMatch libs) × (events : List Event) × (compile_args libs pm args
          ≡ (true, pm', events))
        × (pm'.c_all ≡ pm.c_all)
  unfolding compile_args init_regexp set_args
  compile_args_ready pm none h = (pm, [], refl, refl)
  compile_args_ready pm (some pattern) h = elim (Option-cases (libs.regcomp pattern)) [
    | inl fails ↦
        (let bad : false ≡ true =
            subst (λ o. (elim o [ none ↦ false | some r ↦ true ]) ≡ true) fails h in
          cc)
    | inr (r, compiled) ↦
        (record pm { c_args = some r }, [], rw (compile_args, init_regexp, compiled) refl, refl)
  ]

  compile_all_null :
      (pm : PatternMatch libs) (old : Option libs.Regex) (all : Option (List ℕ))
      → is_null old ≡ true
      → compile_all libs pm old all ≡ ok (true, pm, [])
  unfolding compile_all
  compile_all_null pm none all h = refl
  compile_all_null pm (some r) all h = cc

  after_args :
      (pm : PatternMatch libs) (events : List Event)
      → is_null pm.c_all ≡ true
      → compile_rest libs (true, pm, events) ≡ ok (true, pm, events ++ [])
  unfolding compile_rest
  after_args pm events null = rw (compile_rest, compile_all_null pm pm.c_all pm.all null) refl

  compile_pattern_ready :
      (pm : PatternMatch libs)
      → compiles pm.args ≡ true
      → is_null pm.c_all ≡ true
      → (pm' : PatternMatch libs) × (events : List Event) × (compile_pattern libs pm
          ≡ ok (true, pm', events))
  unfolding compile_pattern
  compile_pattern_ready pm h k =
      let (pm', events, compiled, same_all) = compile_args_ready pm pm.args h in
      let null : is_null pm'.c_all ≡ true = ap is_null same_all ∙ k in
      (pm', events ++ [], ap (compile_rest libs) compiled ∙ after_args pm' events null)

  compile_patterns_on :
      (pm pm' : PatternMatch libs) (more more' : List (PatternMatch libs))
      (events events' : List Event)
      → pm.active ≡ true
      → compile_pattern libs pm ≡ ok (true, pm', events)
      → compile_patterns libs more ≡ ok (pos 0, more', events')
      → compile_patterns libs (pm ∷ more) ≡ ok (pos 0, pm' ∷ more', events ++ events')
  unfolding compile_patterns
  compile_patterns_on pm pm' more more' events events' act one rest =
      simp (compile_patterns, act, one, rest, ◌>>=◌)

  compile_patterns_ready :
      (ps : List (PatternMatch libs))
      → patterns_ready ps ≡ true
      → (ps' : List (PatternMatch libs)) × (events : List Event) × (compile_patterns libs ps
          ≡ ok (pos 0, ps', events))
  unfolding compile_patterns
  compile_patterns_ready [] h = cc
  compile_patterns_ready (pm ∷ more) h = elim (Bool-cases pm.active) [
    | inl act ↦
        let a : compiles pm.args ≡ true = ground arith in
        let b : is_null pm.c_all ≡ true = ground arith in
        let c : patterns_ready more ≡ true = ground arith in
        let (pm', events, one) = compile_pattern_ready pm a b in
        let (more', events', rest) = compile_patterns_ready more c in
        (
          pm' ∷ more',
          events ++ events',
          compile_patterns_on pm pm' more more' events events' act one rest,
        )
    | inr off ↦ (pm ∷ more, [], simp (compile_patterns, off))
  ]

  pub compile_array_ready :
      (f : Target libs) (ps : Option (List (PatternMatch libs)))
      → array_ready ps ≡ true
      → (f' : Target libs) × (events : List Event) × (compile_array libs f ps
          ≡ ok (pos 0, f', events))
  unfolding compile_array
  compile_array_ready f none h = (f, [], refl)
  compile_array_ready f (some ps) h =
      let (ps', events, done) = compile_patterns_ready ps h in
      (record f { patterns = some ps' }, events, rw (compile_array, done) refl)
