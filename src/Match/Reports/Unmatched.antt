-- ===== src/Match/Reports/Unmatched.antt =====
-- The expressions for a whole call, which compile_regexp_match passes over.
use ahaggar.Base.{
  ℕ, ℤ, pos, negsuc, ◌≡◌, refl, ap, ◌∙◌, Bool, true, false, Option, none, some, List, [], ◌∷◌, ◌++◌,
  Run, ok, ◌>>=◌, ◌⊎◌, inl, inr, Bool-cases,
}
use ahaggar.Str.{Substring}
use ahaggar.Checks.Sizes.{no_match}
use ahaggar.Match.{
  Libs, Event, PatternMatch, Target, init_regexp, set_args, compile_args, compile_all, compile_rest,
  compile_pattern, compile_patterns, compile_array, compile_regexp_match,
}
use ahaggar.Match.Reports.{Plug, Scratch, lacks, regexp_match_call}

module _ (libs : Libs) where
  -- A pattern without a compiled expression for the whole call, as in every table, and without a
  -- callback for it.
  abbrev pub IsMute : PatternMatch libs → Type 0
  IsMute pm = (pm.c_all ≡ none) × (pm.match_all_func ≡ none)

  abbrev pub AreMute : List (PatternMatch libs) → Type 0
  AreMute [] = Unit
  AreMute (pm ∷ more) = IsMute pm × AreMute more

  -- An inactive pattern ends the list.
  abbrev pub HasEnd : List (PatternMatch libs) → Type 0
  HasEnd [] = false ≡ true
  HasEnd (pm ∷ more) = (pm.active ≡ false) ⊎ HasEnd more

  -- The match of the whole call fails on every text, and changes nothing.
  abbrev pub IsQuiet : PatternMatch libs → Type 0
  IsQuiet pm =
      (plug : Plug) (sub : Substring) (s : Scratch)
      → regexp_match_call libs plug pm sub s ≡ ok (no_match, pm, s)

  abbrev pub AreQuiet : List (PatternMatch libs) → Type 0
  AreQuiet [] = Unit
  AreQuiet (pm ∷ more) = (pm.c_all ≡ none) × IsQuiet pm × AreQuiet more

  IsMute-IsQuiet : (pm : PatternMatch libs) → IsMute pm → IsQuiet pm
  unfolding regexp_match_call lacks
  IsMute-IsQuiet pm (e, f) plug sub s =
      let nothing : lacks libs pm.match_all_func pm.c_all ≡ true =
        ap (λ m. lacks libs m pm.c_all) f ∙ ap (lacks libs none) e in
      simp (regexp_match_call, nothing)

  AreMute-AreQuiet : (ps : List (PatternMatch libs)) → AreMute ps → AreQuiet ps
  AreMute-AreQuiet [] are = tt
  AreMute-AreQuiet (pm ∷ more) (one, are) =
      (one.0, IsMute-IsQuiet pm one, AreMute-AreQuiet more are)

  set_args-IsMute :
      (pm : PatternMatch libs) (expr : Option libs.Regex)
      → IsMute pm
      → IsMute (set_args libs pm expr).1
  unfolding set_args
  set_args-IsMute pm none mute = mute
  set_args-IsMute pm (some r) mute = mute

  compile_args-IsMute :
      (pm : PatternMatch libs) (pattern : Option (List ℕ))
      → IsMute pm
      → IsMute (compile_args libs pm pattern).1
  unfolding compile_args
  compile_args-IsMute pm none mute = mute
  compile_args-IsMute pm (some pattern) mute = set_args-IsMute pm (init_regexp libs pattern).0 mute

  compile_rest-IsMute :
      (on : Bool) (pm : PatternMatch libs) (events : List Event)
      → IsMute pm
      → (on' : Bool) × (events' : List Event) × (compile_rest libs (on, pm, events)
          ≡ ok (on', pm, events'))
  unfolding compile_rest compile_all
  compile_rest-IsMute false pm events mute = (false, events, refl)
  compile_rest-IsMute true pm events (e, f) = (true, events ++ [], simp e)

  compile_pattern-IsMute :
      (pm : PatternMatch libs)
      → IsMute pm
      → (on : Bool) × (pm' : PatternMatch libs) × (events : List Event) × (compile_pattern libs pm
          ≡ ok (on, pm', events))
        × IsMute pm'
  unfolding compile_pattern
  compile_pattern-IsMute pm mute =
      let (on, pm', events) = compile_args libs pm pm.args in
      let still = compile_args-IsMute pm pm.args mute in
      let (on', events', e) = compile_rest-IsMute on pm' events still in
      (on', pm', events', e, still)

  -- A run of the loop that returns, and leaves mute patterns.
  abbrev Compiles : Run (ℤ × List (PatternMatch libs) × List Event) → Type 0
  Compiles r =
      (ret : ℤ) × (ps : List (PatternMatch libs)) × (events : List Event) × (r
        ≡ ok (ret, ps, events))
      × AreMute ps

  compile_patterns-AreMute :
      (ps : List (PatternMatch libs)) → AreMute ps → HasEnd ps → Compiles (compile_patterns libs ps)
  unfolding compile_patterns
  compile_patterns-AreMute [] are ends = absurd cc
  compile_patterns-AreMute (pm ∷ more) (one, are) (inl off) =
      (pos 0, pm ∷ more, [], simp (compile_patterns, off), (one, are))
  compile_patterns-AreMute (pm ∷ more) (one, are) (inr ends) = elim (Bool-cases pm.active) [
    | inr off ↦ (pos 0, pm ∷ more, [], simp (compile_patterns, off), (one, are))
    | inl active ↦
        let (on, pm', events, e, still) = compile_pattern-IsMute pm one in
        let (ret, more', events', e', others) = compile_patterns-AreMute more are ends in
        elim (Bool-cases on) [
          | inr stopped ↦ (
            negsuc 0,
            pm' ∷ more,
            events,
            simp (compile_patterns, active, e, stopped, ◌>>=◌),
            (still, are),
          )
          | inl goes ↦ (
            ret,
            pm' ∷ more',
            events ++ events',
            simp (compile_patterns, active, e, goes, e', ◌>>=◌),
            (still, others),
          )
        ]
  ]

  -- Whatever regcomp does: on a target whose patterns end with an inactive one, and have no compiled
  -- expression for the whole call and no callback for it before, compile_regexp_match returns, changes
  -- nothing of the target but the patterns, and leaves each without such an expression, also one that
  -- has the text of it; regexp_match_call then matches none of them on any text.
  pub compile_regexp_match-AreQuiet :
      (f : Target libs) (ps : List (PatternMatch libs))
      → f.patterns ≡ some ps
      → AreMute ps
      → HasEnd ps
      → (ret : ℤ) × (ps' : List (PatternMatch libs)) × (events : List Event) × (compile_regexp_match
            libs f
          ≡ ok (ret, record f { patterns = some ps' }, events))
        × AreQuiet ps'
  unfolding compile_regexp_match compile_array
  compile_regexp_match-AreQuiet f ps e are ends =
      let (ret, ps', events, run, left) = compile_patterns-AreMute ps are ends in
      (ret, ps', events, ap (compile_array libs f) e ∙ simp (run, ◌>>=◌), AreMute-AreQuiet ps' left)
