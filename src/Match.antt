-- ===== src/Match.antt =====
-- fncalls-match.c and fncalls-match.h: the tables of functions to look out for, and the reports on
-- their calls in a printed statement. This file has the data and the hash tables. GCC's hash table and
-- the regular expressions of the C library are parameters; a table holds the index of a target in its
-- array, where the source holds its address.

pub mod Setup
pub mod Output
pub mod Reports
pub mod Calls
pub mod Targets
pub mod Regexp
mod Tests
use ahaggar.Base.{
  ℕ, ◌+◌, ◌*◌, ◌≡◌, ◌≢◌, Bool, true, false, Option, none, some, List, [], ◌∷◌, ◌++◌, Run, ok, fault,
  ◌>>=◌, ltb, ◌==◌, if◌then◌else◌, ◌&&◌, not, length, ℤ, pos, negsuc, codes,
}
use ahaggar.Checks.Sizes.{Verdict}

-- What the code relies on of `htab_*`, `regcomp` and `regexec`: an entry is found under the string
-- that it was inserted under. `regcomp` gives `none` where it fails, and `regerror` is its message.
pub record Libs : Type 1 where
  pub Table : Type 0
  pub htab_create : ℕ → Table
  pub htab_find : Table → List ℕ → Option ℕ
  pub htab_insert : Table → List ℕ → ℕ → Table
  pub find-create : (n : ℕ) (key : List ℕ) → htab_find (htab_create n) key ≡ none
  pub find-insert :
      (t : Table) (key : List ℕ) (i : ℕ) → htab_find (htab_insert t key i) key ≡ some i
  pub find-insert_other :
      (t : Table) (key other : List ℕ) (i : ℕ)
      → other ≢ key
      → htab_find (htab_insert t key i) other ≡ htab_find t other
  pub Regex : Type 0
  pub regcomp : List ℕ → Option Regex
  pub regerror : List ℕ → List ℕ
  pub regexec : Regex → List ℕ → Bool

pub data HashId : Type 0 where
  errors_id warns_id reports_id : HashId

-- `match_func_t`: the call, the flags, the text of the buffer and its size.
abbrev pub Matcher : Type 0
Matcher = List ℕ → ℕ → List ℕ → ℕ → Run (Verdict × List ℕ)

-- What the plugin puts out: a report of one of the three kinds with its location, bytes that are
-- written to the descriptor, and GCC's own diagnostics.
pub data Event : Type 0 where
  reported : HashId → List ℕ → List ℕ → Event
  written : List ℕ → Event
  out_error out_warning : List ℕ → Event

-- `SAFE_LOAD_FACTOR`, `MAX_HASH_ENTRIES`, `TMPBUF_SIZE`, `TMPMSG_SIZE`
abbrev pub safe_load_factor : ℕ
safe_load_factor = 25

abbrev pub max_hash_entries : ℕ
max_hash_entries = 1024

abbrev pub tmpbuf_size : ℕ
tmpbuf_size = 2048

abbrev pub tmpmsg_size : ℕ
tmpmsg_size = 512

module _ (libs : Libs) where
  -- `struct pattern_match`; `msg_extra` is whether that field points to `tmp_message`.
  pub record PatternMatch : Type 0 where
    pub args : Option (List ℕ)
    pub all : Option (List ℕ)
    pub c_args : Option libs.Regex
    pub c_all : Option libs.Regex
    pub force_match : Bool
    pub flags : ℕ
    pub match_args_func : Option Matcher
    pub match_all_func : Option Matcher
    pub msg : Option (List ℕ)
    pub msg_nomatch : Option (List ℕ)
    pub msg_extra : Bool
    pub active : Bool

  -- `struct target_functions`
  pub record Target : Type 0 where
    pub name : Option (List ℕ)
    pub patterns : Option (List PatternMatch)

  -- `struct hash_functions`; `targets_size` is the length of `targets`.
  pub record HashFunctions : Type 0 where
    pub id : HashId
    pub tab : Option libs.Table
    pub targets : List Target
    pub mcounter : ℕ

  -- The quotient in `double` is exact: a product below 2^53 over a power of two.
  pub is_hash_safe : Option (List Target) → ℕ → Bool
  is_hash_safe none elements = false
  is_hash_safe (some arr) elements =
      not (elements == 0)
      && ltb (elements * 100 + safe_load_factor * max_hash_entries) (100 * max_hash_entries)

  pub init_hash_table : Option (List Target) → ℕ → Option libs.Table
  init_hash_table arr elements =
      if is_hash_safe arr elements then some (libs.htab_create max_hash_entries) else none

  pub init_hash : HashFunctions → Option libs.Table
  init_hash h = init_hash_table (some h.targets) (length h.targets)

  unfoldable pub lookup_key : libs.Table → List ℕ → Option ℕ
  lookup_key tab [] = none
  lookup_key tab (c ∷ cs) = libs.htab_find tab (c ∷ cs)

  pub lookup_target : libs.Table → Target → Option ℕ
  lookup_target tab f = elim f.name [ none ↦ none | some name ↦ lookup_key tab name ]

  -- The table with the key, or `none` where the source gets no slot.
  pub insert_key : libs.Table → List ℕ → ℕ → Option libs.Table
  insert_key tab [] i = none
  insert_key tab (c ∷ cs) i = some (libs.htab_insert tab (c ∷ cs) i)

  -- Target `i` of its array; `none` is NULL. An empty name is turned away before the slot is read.
  pub insert_target : libs.Table → ℕ → Target → Option libs.Table
  insert_target tab i f = elim f.name [ none ↦ none | some name ↦ insert_key tab name i ]

  -- The message, without the file and the line at its end.
  pub duplicate_text : Option (List ℕ) → List ℕ
  duplicate_text none = []
  duplicate_text (some name) = codes "hashtable duplicate '" ++ name ++ codes "' entry"

  -- The result, the table, and the diagnostics.
  pub populate_hash_target : libs.Table → ℕ → Target → ℤ × libs.Table × List Event
  populate_hash_target tab i f = elim (lookup_target tab f) [
    | none ↦ elim (insert_target tab i f) [
      | none ↦ (negsuc 0, tab, [])
      | some tab' ↦ (pos 0, tab', [])
    ]
    | some j ↦ (pos 0, tab, out_warning (duplicate_text f.name) ∷ [])
  ]

  pub init_regexp : List ℕ → Option libs.Regex × List Event
  init_regexp pattern = elim (libs.regcomp pattern) [
    | none ↦ (
      none,
      out_error (codes "GCC plugin: failed to compile regexp: " ++ libs.regerror pattern) ∷ [],
    )
    | some expr ↦ (some expr, [])
  ]

  -- What becomes of `c_args` or `c_all` after `init_regexp`: go on or return, and the pattern.
  pub set_args : PatternMatch → Option libs.Regex → Bool × PatternMatch
  set_args pm none = (false, record pm { c_args = none })
  set_args pm (some r) = (true, record pm { c_args = some r })

  pub set_all : PatternMatch → Option libs.Regex → Bool × PatternMatch
  set_all pm none = (false, record pm { c_all = none })
  set_all pm (some r) = (true, record pm { c_all = some r })

  pub compile_args : PatternMatch → Option (List ℕ) → Bool × PatternMatch × List Event
  compile_args pm none = (true, pm, [])
  compile_args pm (some pattern) =
      let (expr, events) = init_regexp pattern in
      let (on, pm') = set_args pm expr in (on, pm', events)

  -- The source tests `c_all` here; without an `all` it then passes NULL on.
  pub compile_all :
      PatternMatch → Option libs.Regex → Option (List ℕ) → Run (Bool × PatternMatch × List Event)
  compile_all pm none all = ok (true, pm, [])
  compile_all pm (some old) none = fault
  compile_all pm (some old) (some pattern) =
      let (expr, events) = init_regexp pattern in
      let (on, pm') = set_all pm expr in ok (on, pm', events)

  -- One round of the loop.
  pub compile_rest : Bool × PatternMatch × List Event → Run (Bool × PatternMatch × List Event)
  compile_rest (false, pm, events) = ok (false, pm, events)
  compile_rest (true, pm, events) = do
    (on, pm', more) ← compile_all pm pm.c_all pm.all
    ok (on, pm', events ++ more)

  pub compile_pattern : PatternMatch → Run (Bool × PatternMatch × List Event)
  compile_pattern pm = compile_rest (compile_args pm pm.args)

  -- The loop: a list that ends without an inactive pattern is read past its end.
  pub compile_patterns : List PatternMatch → Run (ℤ × List PatternMatch × List Event)
  compile_patterns [] = fault
  compile_patterns (pm ∷ more) = elim pm.active [
    | false ↦ ok (pos 0, pm ∷ more, [])
    | true ↦ (do
      (on, pm', events) ← compile_pattern pm
      elim on [
        | false ↦ ok (negsuc 0, pm' ∷ more, events)
        | true ↦ (do
          (ret, more', events') ← compile_patterns more
          ok (ret, pm' ∷ more', events ++ events'))
      ])
  ]

  pub compile_array : Target → Option (List PatternMatch) → Run (ℤ × Target × List Event)
  compile_array f none = ok (pos 0, f, [])
  compile_array f (some ps) = do
    (ret, ps', events) ← compile_patterns ps
    ok (ret, record f { patterns = some ps' }, events)

  pub compile_regexp_match : Target → Run (ℤ × Target × List Event)
  compile_regexp_match f = compile_array f f.patterns
