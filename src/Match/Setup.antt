-- ===== src/Match/Setup.antt =====
-- fncalls-match.c: the tables are filled, released, and asked for the name of a function that is
-- called.
pub mod Tables
pub mod Ready
pub mod Populated
use ahaggar.Base.{
  ℕ, suc, ◌+◌, ◌%◌, Bool, true, false, Option, none, some, List, [], ◌∷◌, ◌++◌, Run, ok, ◌>>=◌,
  ◌==◌, if◌then◌else◌, length, ℤ, pos, negsuc, codes, u32_mod, fault,
}
use ahaggar.Match.{
  Libs, Event, out_error, PatternMatch, Target, HashFunctions, init_hash, lookup_key,
  populate_hash_target, compile_regexp_match,
}

module _ (libs : Libs) where
  -- The loop of `populate_hash` from target `i` on.
  pub populate_from :
      ℕ → List (Target libs) → libs.Table → Run (ℤ × List (Target libs) × libs.Table × List Event)
  populate_from i [] tab = ok (pos 0, [], tab, [])
  populate_from i (f ∷ more) tab =
      let (ret, tab', events) = populate_hash_target libs tab i f in
      elim ret [
        | negsuc n ↦ ok (negsuc 0, f ∷ more, tab', events)
        | pos n ↦ (do
          (compiled, f', events') ← compile_regexp_match libs f
          elim compiled [
            | negsuc n ↦ ok (negsuc 0, f' ∷ more, tab', events ++ events')
            | pos n ↦ (do
              (ret', more', tab'', events'') ← populate_from (i + 1) more tab'
              ok (ret', f' ∷ more', tab'', events ++ events' ++ events''))
          ])
      ]

  -- The table of the result is the one that the pointer `tab` stands for, which is filled in place.
  pub populate_hash : HashFunctions libs → Run (ℤ × HashFunctions libs × List Event)
  populate_hash h = elim h.tab [
    | none ↦ ok (negsuc 0, h, [])
    | some tab ↦ (do
      (ret, targets, tab', events) ← populate_from 0 h.targets tab
      ok (ret, record h { targets = targets; tab = some tab' }, events))
  ]

  pub init_failed : Event
  init_failed = out_error (codes "GCC plugin: failed to create hashtable")

  -- The body of the loop of `fncalls_match_init`.
  unfoldable pub init_one : HashFunctions libs → Run (ℤ × HashFunctions libs × List Event)
  init_one h = elim (length h.targets == 0) [
    | true ↦ ok (pos 0, h, [])
    | false ↦ elim (init_hash libs h) [
      | none ↦ ok (negsuc 0, record h { tab = none }, init_failed ∷ [])
      | some tab ↦ (do
        (ret, h', events) ← populate_hash (record h { tab = some tab })
        elim ret [
          | pos n ↦ ok (pos 0, h', events)
          | negsuc n ↦ ok (negsuc 0, h', events ++ init_failed ∷ [])
        ])
    ]
  ]

  unfoldable pub fncalls_match_init :
      List (HashFunctions libs) → Run (ℤ × List (HashFunctions libs) × List Event)
  fncalls_match_init [] = ok (pos 0, [], [])
  fncalls_match_init (h ∷ more) = do
    (ret, h', events) ← init_one h
    elim ret [
      | negsuc n ↦ ok (negsuc 0, h' ∷ more, events)
      | pos n ↦ (do
        (ret', more', events') ← fncalls_match_init more
        ok (ret', h' ∷ more', events ++ events'))
    ]

  -- `TARGETS_ARRAY_SIZE` of the three arrays.
  unfoldable pub targets_array_size : List (HashFunctions libs) → ℕ
  targets_array_size [] = 0
  targets_array_size (h ∷ more) = length h.targets + targets_array_size more

  -- The test in the loop of `match_function_name`.
  unfoldable pub names : HashFunctions libs → List ℕ → Bool
  names h fnname = if length h.targets == 0 then false else elim h.tab [
    | none ↦ false
    | some tab ↦ elim (lookup_key libs tab fnname) [ none ↦ false | some i ↦ true ]
  ]

  pub match_each : List ℕ → List (HashFunctions libs) → ℤ → ℤ × List (HashFunctions libs)
  match_each fnname [] ret = (ret, [])
  match_each fnname (h ∷ more) ret = elim (names h fnname) [
    | true ↦
        let (ret', more') = match_each fnname more (pos 0) in
        (ret', record h { mcounter = (h.mcounter + 1) % u32_mod } ∷ more')
    | false ↦ let (ret', more') = match_each fnname more ret in (ret', h ∷ more')
  ]

  pub match_function_name : List ℕ → List (HashFunctions libs) → ℤ × List (HashFunctions libs)
  match_function_name fnname hashes = elim (targets_array_size hashes == 0) [
    | true ↦ (pos 0, hashes)
    | false ↦ match_each fnname hashes (negsuc 0)
  ]

  -- The compiled expressions that `free_regexp_match` releases, in order: `none` is NULL.
  pub free_patterns : List (PatternMatch libs) → Run (List (Option libs.Regex))
  free_patterns [] = fault
  free_patterns (pm ∷ more) = elim pm.active [
    | false ↦ ok []
    | true ↦ (do freed ← free_patterns more; ok (pm.c_args ∷ pm.c_all ∷ freed))
  ]

  pub free_regexp_match : Target libs → Run (List (Option libs.Regex))
  free_regexp_match f = elim f.patterns [ none ↦ ok [] | some ps ↦ free_patterns ps ]

  pub free_targets : List (Target libs) → Run (List (Option libs.Regex))
  free_targets [] = ok []
  free_targets (f ∷ more) = do
    freed ← free_regexp_match f
    freed' ← free_targets more
    ok (freed ++ freed')

  -- `fncalls_match_finish`: the tables that are deleted, and the expressions that are released.
  pub fncalls_match_finish :
      List (HashFunctions libs) → Run (List libs.Table × List (Option libs.Regex))
  fncalls_match_finish [] = ok ([], [])
  fncalls_match_finish (h ∷ more) = do
    freed ← free_targets h.targets
    (tabs, freed') ← fncalls_match_finish more
    ok (elim h.tab [ none ↦ tabs | some tab ↦ tab ∷ tabs ], freed ++ freed')
