-- ===== src/Match/Reports.antt =====
-- fncalls-match.c: the patterns of a target are tried on a call, and what matches is reported.
pub mod Unmatched
use ahaggar.Base.{
  ℕ, zero, suc, Bool, true, false, Option, none, some, List, [], ◌∷◌, ◌++◌, Run, ok, fault, ◌>>=◌,
  ◌==◌, if◌then◌else◌, ◌||◌, ◌&&◌, not, length, ℤ, pos, negsuc, codes, get_elem?, from_option,
  replicate, sub64, add64,
}
use ahaggar.Str.{Mem, strchr, Substring, substring_init}
use ahaggar.Checks.Sizes.{Verdict, matched, no_match}
use ahaggar.Match.{
  Libs, Event, reported, out_warning, HashId, errors_id, warns_id, reports_id, Matcher,
  PatternMatch, Target, HashFunctions, tmpbuf_size, tmpmsg_size,
}
use ahaggar.Match.Setup.{targets_array_size}
use ahaggar.Match.Calls.{
  c_string, write_out, substring_write, dump_decl_output, copy_clipped, extract_location,
  match_fncall,
}

-- What the handlers read besides the tables: the text of the output buffer and its `used`, and
-- `input_location` with the file that GCC gives for it.
pub record Plug : Type 0 where
  pub text : Mem
  pub used : ℕ
  pub loc : ℕ
  pub location_file : ℕ → List ℕ

-- The text of the buffer is written; no caller reads the result of `output_buffer_write`.
abbrev pub output_buffer_write : Plug → Run (List Event)
output_buffer_write plug = write_out plug.text plug.text.base plug.used

-- `tmp_buffer`, and the text of `tmp_message`.
pub record Scratch : Type 0 where
  pub tmp_buffer : List ℕ
  pub tmp_message : List ℕ

module _ (libs : Libs) where
  -- A matcher's result, the pattern, and the scratch memory.
  abbrev pub Tried : Type 0
  Tried = Verdict × PatternMatch libs × Scratch

  -- The callback, on `tmp_buffer`.
  pub call_matcher : Option Matcher → PatternMatch libs → Scratch → Run Tried
  call_matcher none pm s = ok (no_match, pm, s)
  call_matcher (some f) pm s = do
    (v, message) ← f s.tmp_buffer pm.flags s.tmp_message tmpmsg_size
    ok (v, record pm { msg_extra = true }, record s { tmp_message = message })

  -- `if (regex && ret) ret = regexec(...)`
  pub exec_unless : Option libs.Regex → Verdict → Scratch → Verdict
  exec_unless expr matched s = matched
  exec_unless none no_match s = no_match
  exec_unless (some r) no_match s =
      if libs.regexec r (c_string s.tmp_buffer) then matched else no_match

  -- `tmp_buffer` is filled with `len` bytes from `start`; then the callback and the expression.
  pub try_on :
      Plug → Option Matcher → Option libs.Regex → ℕ → ℕ → PatternMatch libs → Scratch → Run Tried
  try_on plug f expr start len pm s = do
    b ← copy_clipped plug.text start len tmpbuf_size s.tmp_buffer
    (v, pm', s') ← call_matcher f pm (record s { tmp_buffer = b })
    ok (exec_unless expr v s', pm', s')

  -- `!func && !regex`
  pub lacks : Option Matcher → Option libs.Regex → Bool
  lacks none none = true
  lacks none (some r) = false
  lacks (some f) expr = false

  pub regexp_match_call : Plug → PatternMatch libs → Substring → Scratch → Run Tried
  regexp_match_call plug pm sub s = elim (lacks pm.match_all_func pm.c_all) [
    | true ↦ ok (no_match, pm, s)
    | false ↦ (do
      close ← strchr plug.text sub.start b']'
      elim close [
        | none ↦ ok (no_match, pm, s)
        | some e ↦
            try_on plug pm.match_all_func pm.c_all sub.start (sub64 (add64 e 1) sub.start) pm s
      ])
  ]

  pub regexp_match_cargs : Plug → PatternMatch libs → Substring → Scratch → Run Tried
  regexp_match_cargs plug pm sub s = elim (lacks pm.match_args_func pm.c_args) [
    | true ↦ ok (no_match, pm, s)
    | false ↦ (do
      paren ← strchr plug.text sub.start b'('
      elim paren [
        | none ↦ ok (no_match, pm, s)
        | some start ↦ (do
          bracket ← strchr plug.text start b'['
          elim bracket [
            | none ↦ ok (no_match, pm, s)
            | some e ↦ try_on plug pm.match_args_func pm.c_args start (sub64 e start) pm s
          ])
      ])
  ]

  -- The expression that is assigned to `match` in `process_fncall`.
  pub try_pattern : Plug → PatternMatch libs → Substring → Scratch → Run Tried
  try_pattern plug pm sub s = elim pm.force_match [
    | true ↦ ok (matched, pm, s)
    | false ↦ (do
      (v, pm', s') ← regexp_match_cargs plug pm sub s
      elim v [ matched ↦ ok (matched, pm', s') | no_match ↦ regexp_match_call plug pm' sub s' ])
  ]

  pub chosen_msg : PatternMatch libs → Scratch → Verdict → Option (List ℕ)
  chosen_msg pm s no_match = pm.msg_nomatch
  chosen_msg pm s matched =
      if pm.msg_extra && not (length s.tmp_message == 0) then some s.tmp_message else pm.msg

  pub output_msg : Plug → HashId → List ℕ → Substring → Scratch → Run (Scratch × List Event)
  output_msg plug id [] sub s = ok (s, [])
  output_msg plug id (c ∷ msg) sub s = do
    b ← extract_location plug.text sub plug.loc plug.location_file s.tmp_buffer tmpbuf_size
    ok (record s { tmp_buffer = b }, reported id (c_string b) (c ∷ msg) ∷ [])

  -- The result is used by no caller.
  pub output_fncall_results :
      Plug → HashId → PatternMatch libs → Substring → Scratch → Verdict → Run (Scratch × List Event)
  output_fncall_results plug id pm sub s match = elim (chosen_msg pm s match) [
    | none ↦ ok (s, [])
    | some msg ↦ output_msg plug id msg sub s
  ]

  -- `!msg && !msg_nomatch && (!match_args_func && !match_all_func)`
  pub is_raw : PatternMatch libs → Bool
  is_raw pm = elim pm.msg [
    | some m ↦ false
    | none ↦ elim pm.msg_nomatch [
      | some m ↦ false
      | none ↦ elim pm.match_args_func [
        | some f ↦ false
        | none ↦ elim pm.match_all_func [ some f ↦ false | none ↦ true ]
      ]
    ]
  ]

  pub is_reports : HashId → Bool
  is_reports errors_id = false
  is_reports warns_id = false
  is_reports reports_id = true

  -- The bytes of the call, behind those of the declaration where they are still to be printed.
  pub output_raw : Plug → Bool → Substring → Run (List Event)
  output_raw plug print_decl sub = do
    decl ← (if print_decl then dump_decl_output plug.text else ok [])
    call ← substring_write plug.text sub
    ok (decl ++ call)

  pub zeroed : Scratch
  zeroed = record { tmp_buffer = replicate tmpbuf_size 0; tmp_message = [] }

  -- One pattern: it, the scratch memory, `print_decl` and the output.
  abbrev pub Round : Type 0
  Round = PatternMatch libs × Scratch × Bool × List Event

  pub process_raw : Plug → Bool → Substring → Tried → Run Round
  process_raw plug print_decl sub (no_match, pm, s) = ok (pm, s, print_decl, [])
  process_raw plug print_decl sub (matched, pm, s) = do
    events ← output_raw plug print_decl sub
    ok (pm, s, false, events)

  pub process_pattern : Plug → HashId → Bool → Substring → PatternMatch libs → Scratch → Run Round
  process_pattern plug id print_decl sub pm s = elim (is_raw pm && not (is_reports id)) [
    | true ↦ ok (pm, s, print_decl, [])
    | false ↦ (do
      (v, pm', s') ← try_pattern plug pm sub zeroed
      elim (is_raw pm) [
        | true ↦ process_raw plug print_decl sub (v, pm', s')
        | false ↦ (do
          (s'', events) ← output_fncall_results plug id pm' sub s' v
          ok (pm', s'', print_decl, events))
      ])
  ]

  -- The loop over the patterns.
  pub process_patterns :
      Plug
      → HashId
      → Bool
      → Substring
      → List (PatternMatch libs)
      → Scratch
      → Run (List (PatternMatch libs) × Scratch × List Event)
  process_patterns plug id print_decl sub [] s = fault
  process_patterns plug id print_decl sub (pm ∷ more) s = elim pm.active [
    | false ↦ ok (pm ∷ more, s, [])
    | true ↦ (do
      (pm', s', print_decl', events) ← process_pattern plug id print_decl sub pm s
      (more', s'', events') ← process_patterns plug id print_decl' sub more s'
      ok (pm' ∷ more', s'', events ++ events'))
  ]

  -- The callers pass neither a NULL table nor a NULL target.
  pub process_fncall :
      Plug
      → HashId
      → Target libs
      → Substring
      → Scratch
      → Run (ℤ × Target libs × Scratch × List Event)
  process_fncall plug id f sub s = elim f.patterns [
    | none ↦ ok (negsuc 0, f, s, [])
    | some ps ↦ (do
      (ps', s', events) ← process_patterns plug id (is_reports id) sub ps s
      ok (pos 0, record f { patterns = some ps' }, s', events))
  ]
