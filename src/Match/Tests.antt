-- ===== src/Match/Tests.antt =====
-- Small tables over an association list, a printed text, and the theorems at them.
use ahaggar.Base.{
  ℕ, ◌≡◌, refl, sym, ◌≢◌, Bool, true, false, Option, none, some, List, [], ◌∷◌, ◌++◌, ok,
  if◌then◌else◌, ℤ, pos, negsuc, ◌+◌, ◌||◌, codes, arith, replicate, Bool-cases, inl, inr, Run, ◌<◌,
  length,
}
use ahaggar.Str.{Mem, bytes_from, Substring, substring_addchr_end}
use ahaggar.Str.Spans.{span}
use ahaggar.Checks.Sizes.{no_match, Verdict, Parsed}
use ahaggar.Match.{
  Libs, Event, warns_id, PatternMatch, Target, HashFunctions, lookup_key, compile_regexp_match,
}
use ahaggar.Match.Setup.{
  init_one, fncalls_match_init, match_function_name, names, targets_array_size,
}
use ahaggar.Match.Setup.Tables.{match_function_name_lem}
use ahaggar.Match.Setup.Populated.{same, same_eq, same_self, first_named, init_one_lem}
use ahaggar.Match.Targets.{
  ghash, file_warnings, kmalloc_warnings, kformat_warnings, message_formats, name_formats,
  file_system_formats, malloc_warnings, mem_warnings,
}
use ahaggar.Match.Targets.Filled.{Header, kmalloc, kformat, malloc, memory, file, included}
use ahaggar.Match.Targets.Listed.{is_listed, fncalls_match_init-match_function_name}
use ahaggar.Match.Calls.{c_string, match_fncall, extract_location}
use ahaggar.Match.Calls.Extents.{match_fncall_lem}
use ahaggar.Match.Calls.Locations.{extract_location_lem}
use ahaggar.Match.Output.{idle, match_output}
use ahaggar.Match.Output.Quiet.{after_calls, match_output-quiet}
use ahaggar.Match.Reports.{Plug, Scratch}
use ahaggar.Match.Reports.Unmatched.{AreQuiet, compile_regexp_match-AreQuiet}

abbrev Keys : Type 0
Keys = List (List ℕ × ℕ)

abbrev find_key : Keys → List ℕ → Option ℕ
find_key [] key = none
find_key ((k, i) ∷ t) key = let rest = find_key t key in if same k key then some i else rest

find_key-insert : (t : Keys) (key : List ℕ) (i : ℕ) → find_key ((key, i) ∷ t) key ≡ some i
find_key-insert t key i = rw (same_self key) refl

find_key-insert_other :
    (t : Keys) (key other : List ℕ) (i : ℕ)
    → other ≢ key
    → find_key ((key, i) ∷ t) other ≡ find_key t other
find_key-insert_other t key other i ne = elim (Bool-cases (same key other)) [
  | inl is ↦ absurd (ne (sym (same_eq key other is)))
  | inr differs ↦ rw differs refl
]

-- An expression matches the text that it is; the empty one does not compile.
abbrev compiled : List ℕ → Option (List ℕ)
compiled [] = none
compiled (c ∷ cs) = some (c ∷ cs)

abbrev keys : Libs
keys = record {
  Table = Keys;
  htab_create = λ n. [];
  htab_find = find_key;
  htab_insert = λ t key i. (key, i) ∷ t;
  find-create = λ n key. refl;
  find-insert = find_key-insert;
  find-insert_other = find_key-insert_other;
  Regex = List ℕ;
  regcomp = compiled;
  regerror = λ p. codes "empty";
  regexec = λ r text. same r text;
}

abbrev pattern_of : Bool → PatternMatch keys
pattern_of active = record {
  args = some (codes "(1) ");
  all = none;
  c_args = none;
  c_all = none;
  force_match = true;
  flags = 0;
  match_args_func = none;
  match_all_func = none;
  msg = some (codes "seen");
  msg_nomatch = none;
  msg_extra = false;
  active = active;
}

abbrev target : List ℕ → Target keys
target name = record { name = some name; patterns = some (pattern_of true ∷ pattern_of false ∷ []) }

-- Two targets named "f" and one named "g".
abbrev warnings : HashFunctions keys
warnings = record {
  id = warns_id;
  tab = none;
  targets = target (codes "f") ∷ target (codes "g") ∷ target (codes "f") ∷ [];
  mcounter = 0;
}

abbrev ready : HashFunctions keys
ready = record warnings { tab = some ((codes "g", 1) ∷ (codes "f", 0) ∷ []) }

init_one_lem_example :
    (h : HashFunctions keys) × (tab : Keys) × (events : List Event) × (init_one keys warnings
      ≡ ok (pos 0, h, events))
    × (h.tab ≡ some tab)
    × ((key : List ℕ) → lookup_key keys tab key ≡ first_named keys warnings.targets key 0)
init_one_lem_example = init_one_lem keys warnings refl (omega arith) (omega arith)

match_function_name_lem_example :
    match_function_name keys (codes "g") (ready ∷ []) ≡ (pos 0, record ready { mcounter = 1 } ∷ [])
unfolding targets_array_size names lookup_key
match_function_name_lem_example =
    match_function_name_lem keys (codes "g") (ready ∷ []) (omega arith)

-- A text of two calls at address 100.
abbrev first_call : List ℕ
first_call = codes "= f(1) [a]" ++ 10 ∷ 10 ∷ []

abbrev mem : Mem
mem = record { base = 100; bytes = first_call ++ codes "= g(2) [b]" ++ 10 ∷ 0 ∷ 0 ∷ [] }

all_bytes : bytes_from mem 100 ≡ ok mem.bytes
unfolding bytes_from
all_bytes = refl

-- A substring that ends where the text begins.
abbrev before : Substring
before = span 90 100 10

match_fncall_lem_example :
    match_fncall keys ((codes "f", 0) ∷ []) mem before
    ≡ ok (some 0, substring_addchr_end (span 100 111 11))
unfolding lookup_key
match_fncall_lem_example =
    match_fncall_lem keys ((codes "f", 0) ∷ []) mem before (codes "=") (codes "f") (codes "1) [a")
      10 10 (codes "= g(2) [b]" ++ 10 ∷ 0 ∷ 0 ∷ []) (omega arith) (omega arith) all_bytes
      (omega arith) (omega arith) (omega arith) (omega arith)

extract_location_lem_example :
    (buf : List ℕ) × (extract_location mem (span 100 112 12) 0 (λ l. []) (replicate 16 0) 16
      ≡ ok buf)
    × (c_string buf ≡ codes "b")
extract_location_lem_example =
    extract_location_lem mem (span 100 112 12) 0 (λ l. []) (replicate 16 0) 16
      (first_call ++ codes "= g(2) ") (codes "b") (10 ∷ []) (0 ∷ []) all_bytes (omega arith)
      (omega arith) (omega arith) (omega arith) (omega arith) (omega arith)

abbrev plug : Plug
plug = record { text = mem; used = 23; loc = 0; location_file = λ l. [] }

abbrev scratch : Scratch
scratch = record { tmp_buffer = []; tmp_message = [] }

-- A pattern with expressions for the arguments and for the whole call.
abbrev whole_call : PatternMatch keys
whole_call = record (pattern_of true) { all = some (codes "f(1)") }

compile_regexp_match-AreQuiet_example :
    (ret : ℤ) × (ps : List (PatternMatch keys)) × (events : List Event) × (compile_regexp_match keys
        (record { name = none; patterns = some (whole_call ∷ pattern_of false ∷ []) })
      ≡ ok (ret, record { name = none; patterns = some ps }, events))
    × AreQuiet keys ps
compile_regexp_match-AreQuiet_example =
    compile_regexp_match-AreQuiet keys
      (record { name = none; patterns = some (whole_call ∷ pattern_of false ∷ []) })
      (whole_call ∷ pattern_of false ∷ []) refl ((refl, refl), ((refl, refl), tt)) (inr (inl refl))

match_output-quiet_example :
    match_output keys plug (after_calls keys (codes "h" ∷ codes "k" ∷ []) (ready ∷ [])) scratch
    ≡ ok (pos 0, ready ∷ [], scratch, [])
unfolding targets_array_size names lookup_key idle
match_output-quiet_example =
    match_output-quiet keys (codes "h" ∷ codes "k" ∷ []) plug (ready ∷ []) scratch (omega arith)
      refl refl

-- A table of the headers of the checks on sizes and formats.
abbrev checks : List Header
checks = kmalloc ∷ kformat ∷ malloc ∷ memory ∷ file ∷ []

abbrev never : List ℕ → ℕ → List ℕ → ℕ → Run (Verdict × List ℕ)
never call flags buf buflen = ok (no_match, buf)

abbrev unreadable : List ℕ → Parsed
unreadable text = record { value = 0; used = 0; failed = true }

abbrev checks_included : List (Target keys)
checks_included = included keys never unreadable unreadable (λ n. []) checks

checks_few : (length checks_included < 768) × (0 < 0 + (length checks_included + 0))
unfolding file_warnings kmalloc_warnings kformat_warnings message_formats name_formats
    file_system_formats malloc_warnings mem_warnings
checks_few = (omega arith, omega arith)

fncalls_match_init-match_function_name_example :
    (hashes : List (HashFunctions keys)) × (events : List Event) × (fncalls_match_init keys
        (ghash keys [] checks_included [])
      ≡ ok (pos 0, hashes, events))
    × ((fnname : List ℕ)
        → (match_function_name keys fnname hashes).0 ≡ (
            if is_listed keys fnname []
              || (is_listed keys fnname checks_included || is_listed keys fnname [])
            then pos 0
            else negsuc 0))
fncalls_match_init-match_function_name_example =
    fncalls_match_init-match_function_name keys never unreadable unreadable (λ n. []) refl refl []
      checks [] (omega arith) checks_few.0 (omega arith) checks_few.1

kmalloc_listed : is_listed keys (codes "kmalloc") checks_included ≡ true
unfolding kmalloc_warnings
kmalloc_listed = refl
