-- ===== src/Match/Output/Quiet.antt =====
-- The two handlers of fncalls-match.c together, on a statement without a call of a listed function.
use ahaggar.Base.{
  ℕ, ◌≡◌, refl, ◌≢◌, ap, ◌∙◌, Bool, true, false, List, [], ◌∷◌, ok, ◌>>=◌, ◌&&◌, pos, map, arith,
  ne→==, if◌then◌else◌,
}
use ahaggar.Match.{Libs, HashFunctions}
use ahaggar.Match.Setup.{names, match_function_name, targets_array_size}
use ahaggar.Match.Setup.Tables.{named_in, counted, match_function_name_lem}
use ahaggar.Match.Reports.{Plug, Scratch}
use ahaggar.Match.Output.{idle, output_each, match_output}

module _ (libs : Libs) where
  -- The tables after the calls of a statement were met, in their order.
  abbrev pub after_calls : List (List ℕ) → List (HashFunctions libs) → List (HashFunctions libs)
  after_calls [] hashes = hashes
  after_calls (fnname ∷ more) hashes =
      let (ret, hashes') = match_function_name libs fnname hashes in after_calls more hashes'

  abbrev pub all_idle : List (HashFunctions libs) → Bool
  all_idle [] = true
  all_idle (h ∷ more) = idle libs h && all_idle more

  abbrev pub none_named : List (List ℕ) → List (HashFunctions libs) → Bool
  none_named [] hashes = true
  none_named (fnname ∷ more) hashes =
      let rest = none_named more hashes in if named_in libs fnname hashes then false else rest

  counted_none :
      (fnname : List ℕ) (hashes : List (HashFunctions libs))
      → named_in libs fnname hashes ≡ false
      → map (counted libs fnname) hashes ≡ hashes
  counted_none fnname [] h = refl
  counted_none fnname (t ∷ more) h =
      let here : names libs t fnname ≡ false = ground arith in
      let later : named_in libs fnname more ≡ false = ground arith in
      let rest = counted_none fnname more later in simp (here, rest)

  after_calls_none :
      (fnnames : List (List ℕ)) (hashes : List (HashFunctions libs))
      → targets_array_size libs hashes ≢ 0
      → none_named fnnames hashes ≡ true
      → after_calls fnnames hashes ≡ hashes
  after_calls_none [] hashes some_targets h = refl
  after_calls_none (fnname ∷ more) hashes some_targets h =
      let here : named_in libs fnname hashes ≡ false = ground arith in
      let later : none_named more hashes ≡ true = ground arith in
      let matched = match_function_name_lem libs fnname hashes some_targets in
      let same = counted_none fnname hashes here in
      ap (λ r. (let (ret, hs) = r in after_calls more hs)) matched
      ∙ ap (after_calls more) same
      ∙ after_calls_none more hashes some_targets later

  output_each_idle :
      (plug : Plug) (hashes : List (HashFunctions libs)) (s : Scratch)
      → all_idle hashes ≡ true
      → output_each libs plug hashes s ≡ ok (pos 0, hashes, s, [])
  unfolding output_each
  output_each_idle plug [] s h = refl
  output_each_idle plug (t ∷ more) s h =
      let here : idle libs t ≡ true = ground arith in
      let later : all_idle more ≡ true = ground arith in
      simp (output_each, here, output_each_idle plug more s later, ◌>>=◌)

  -- Where the tables have targets and no call is counted in them yet, and a statement calls only
  -- functions that no table holds, match_output reports and writes nothing for it and leaves the
  -- tables as they were before match_function_name met its calls.
  pub match_output-quiet :
      (fnnames : List (List ℕ)) (plug : Plug) (hashes : List (HashFunctions libs)) (s : Scratch)
      → targets_array_size libs hashes ≢ 0
      → all_idle hashes ≡ true
      → none_named fnnames hashes ≡ true
      → match_output libs plug (after_calls fnnames hashes) s ≡ ok (pos 0, hashes, s, [])
  unfolding match_output
  match_output-quiet fnnames plug hashes s some_targets idles h =
      ap (λ hs. match_output libs plug hs s) (after_calls_none fnnames hashes some_targets h)
      ∙ simp (
        match_output,
        ne→== (targets_array_size libs hashes) 0 some_targets,
        output_each_idle plug hashes s idles,
      )
