-- ===== src/Match/Output.antt =====
-- fncalls-match.c: the handler that is called with the text of a whole statement.
pub mod Quiet
use ahaggar.Base.{
  ℕ, zero, suc, Bool, true, false, none, some, List, [], ◌∷◌, ◌++◌, Run, ok, ◌>>=◌, ◌==◌, ◌||◌,
  length, ℤ, pos, negsuc, codes, get_elem?, from_option,
}
use ahaggar.Str.{Substring, substring_init}
use ahaggar.Match.{Libs, Event, out_warning, HashId, Target, HashFunctions}
use ahaggar.Match.Setup.{targets_array_size}
use ahaggar.Match.Calls.{match_fncall}
use ahaggar.Match.Reports.{
  Plug, Scratch, is_reports, output_buffer_write, output_raw, process_fncall,
}

pub set_at {ℓ} : {A : Type ℓ} → List A → ℕ → A → List A
set_at [] i a = []
set_at (x ∷ xs) zero a = a ∷ xs
set_at (x ∷ xs) (suc i) a = x ∷ set_at xs i a

module _ (libs : Libs) where
  -- What the loop of `process_output` carries from call to call.
  pub record Pass : Type 0 where
    pub targets : List (Target libs)
    pub sub : Substring
    pub print_decl : Bool
    pub scratch : Scratch
    pub events : List Event

  -- The body of the loop for a target that was found: whether to go on.
  pub process_found : Plug → HashId → Target libs → ℕ → Pass → Run (Bool × Pass)
  process_found plug id tag i p = elim tag.patterns [
    | some ps ↦ (do
      (ret, tag', s, events) ← process_fncall libs plug id tag p.sub p.scratch
      let p' = record p {
        targets = set_at p.targets i tag';
        scratch = s;
        events = p.events ++ events;
      }
      ok (elim ret [ pos n ↦ true | negsuc n ↦ false ], p'))
    | none ↦ elim (is_reports libs id) [
      | false ↦ ok (true, p)
      | true ↦ (do
        events ← output_raw libs plug p.print_decl p.sub
        ok (true, record p { print_decl = false; events = p.events ++ events }))
    ]
  ]

  pub process_next : Plug → HashId → libs.Table → Pass → Run (Bool × Pass)
  process_next plug id tab p = do
    (found, sub) ← match_fncall libs tab plug.text p.sub
    elim found [
      | none ↦ ok (true, record p { sub = sub })
      | some i ↦ (do
        tag ← from_option (get_elem? p.targets i)
        process_found plug id tag i (record p { sub = sub }))
    ]

  -- The loop over `mcounter`: the result, what is left of the counter, and the pass.
  pub process_calls : Plug → HashId → libs.Table → ℕ → Pass → Run (ℤ × ℕ × Pass)
  process_calls plug id tab zero p = ok (pos 0, zero, p)
  process_calls plug id tab (suc n) p = do
    (on, p') ← process_next plug id tab p
    elim on [ false ↦ ok (negsuc 0, suc n, p') | true ↦ process_calls plug id tab n p' ]

  pub started : HashFunctions libs → Scratch → Pass
  started h s = record {
    targets = h.targets;
    sub = substring_init;
    print_decl = is_reports libs h.id;
    scratch = s;
    events = [];
  }

  pub process_output :
      Plug → HashFunctions libs → Scratch → Run (ℤ × HashFunctions libs × Scratch × List Event)
  process_output plug h s = elim h.tab [
    | none ↦ ok (negsuc 0, h, s, [])
    | some tab ↦ (do
      (ret, left, p) ← process_calls plug h.id tab h.mcounter (started h s)
      ok (ret, record h { targets = p.targets; mcounter = left }, p.scratch, p.events))
  ]

  -- `!targets_size || !tab || !mcounter`
  unfoldable pub idle : HashFunctions libs → Bool
  idle h = length h.targets == 0 || elim h.tab [ none ↦ true | some tab ↦ false ] || h.mcounter == 0

  -- The loop of `match_output`.
  pub output_each :
      Plug
      → List (HashFunctions libs)
      → Scratch
      → Run (ℤ × List (HashFunctions libs) × Scratch × List Event)
  output_each plug [] s = ok (pos 0, [], s, [])
  output_each plug (h ∷ more) s = elim (idle h) [
    | true ↦ (do
      (ret, more', s', events) ← output_each plug more s
      ok (ret, h ∷ more', s', events))
    | false ↦ (do
      (ret, h', s', events) ← process_output plug h s
      elim ret [
        | negsuc n ↦
            let failed = out_warning (codes "GCC plugin: failed to handle output") in
            ok (negsuc 0, h' ∷ more, s', events ++ failed ∷ [])
        | pos n ↦ (do
          (ret', more', s'', events') ← output_each plug more s'
          ok (ret', h' ∷ more', s'', events ++ events'))
      ])
  ]

  pub match_output :
      Plug
      → List (HashFunctions libs)
      → Scratch
      → Run (ℤ × List (HashFunctions libs) × Scratch × List Event)
  match_output plug hashes s = elim (targets_array_size libs hashes == 0) [
    | true ↦ (do events ← output_buffer_write plug; ok (pos 0, hashes, s, events))
    | false ↦ output_each plug hashes s
  ]
