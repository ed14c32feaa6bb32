-- ===== src/Instrument.antt =====
-- ahaggar-xinstrument.c and xinstrument_calls/xinstrument-utils.c: calls that are inserted at the calls
-- of the functions of a table. A basic block is the list of its statements. Of a statement the code
-- reads its kind, what it calls, its location and its block; the rest of it is carried along.
pub mod Table
pub mod Walk
pub mod Pass
pub mod Calls
pub mod Unit
mod Tests
use ahaggar.Base.{
  ℕ, zero, suc, Bool, true, false, Option, none, some, List, [], ◌∷◌, ◌++◌, Run, ok, fault, ◌>>=◌,
  ◌==◌, ◌&&◌, ◌||◌, not, if◌then◌else◌,
}
use ahaggar.Cache.{TableOps, sptree_nodes_init, sptree_nodes_set_root, sptree_nodes_finish}

-- What the tests read of a declaration that is called.
pub record Decl : Type 0 where
  pub name : List ℕ
  pub is_function_decl : Bool
  pub artificial : Bool

pub record Gimple : Type 0 where
  pub code : ℕ
  pub is_call : Bool
  pub fndecl : Option Decl
  pub number : ℕ
  pub location : ℕ
  pub block : ℕ

-- `gsi_insert_before` and `gsi_insert_after` on an iterator at the statement.
pub data Place : Type 0 where
  insert_before insert_after : Place

-- `struct insert_builtin`; what `gxbuild` gives may be NULL.
pub record InsertBuiltin : Type 0 where
  pub name : List ℕ
  pub gxbuild : Gimple → Option Gimple
  pub active : Bool

-- `struct target_call`; the field `mode` only moves an iterator that is not read again.
pub record TargetCall : Type 0 where
  pub name : List ℕ
  pub code : ℕ
  pub gxinsert : Place
  pub builtins : Option (List InsertBuiltin)

-- `!strcmp` on strings without their terminators.
unfoldable pub same_text : List ℕ → List ℕ → Bool
same_text [] [] = true
same_text [] (d ∷ ds) = false
same_text (c ∷ cs) [] = false
same_text (c ∷ cs) (d ∷ ds) = c == d && same_text cs ds

-- The loop of `__is_builtin`; an array without an inactive entry is read past its end.
pub names_builtin : List ℕ → List InsertBuiltin → Run Bool
names_builtin fnname [] = fault
names_builtin fnname (ib ∷ more) = elim ib.active [
  | false ↦ ok false
  | true ↦ elim (same_text fnname ib.name) [ true ↦ ok true | false ↦ names_builtin fnname more ]
]

pub is_builtin_of : List ℕ → Option (List InsertBuiltin) → Run Bool
is_builtin_of fnname none = ok false
is_builtin_of fnname (some ibs) = names_builtin fnname ibs

pub is_builtin : List ℕ → List TargetCall → Run Bool
is_builtin fnname [] = ok false
is_builtin fnname (tc ∷ more) = do
  found ← is_builtin_of fnname tc.builtins
  elim found [ true ↦ ok true | false ↦ is_builtin fnname more ]

pub is_target : List ℕ → List TargetCall → Option TargetCall
is_target fnname [] = none
is_target fnname (tc ∷ more) =
    let rest = is_target fnname more in if same_text fnname tc.name then some tc else rest

-- The statements that stand directly before and behind the one that is instrumented.
pub record Around : Type 0 where
  pub before : List Gimple
  pub behind : List Gimple

-- `gimple_set_location` and `gimple_set_block` with those of the statement.
abbrev pub placed : Gimple → Gimple → Gimple
placed stmt call = record call { location = stmt.location; block = stmt.block }

pub gxinsert_call : Place → Gimple → Around → Gimple → Around
gxinsert_call insert_before stmt a call = record a { before = a.before ++ placed stmt call ∷ [] }
gxinsert_call insert_after stmt a call = record a { behind = placed stmt call ∷ a.behind }

pub insert_built : Place → Gimple → Option Gimple → Around → Around
insert_built place stmt none a = a
insert_built place stmt (some call) a = gxinsert_call place stmt a call

-- The result is used by no caller.
pub gxinstrument_target : TargetCall → InsertBuiltin → Gimple → Around → Around
gxinstrument_target tc ib gs a = insert_built tc.gxinsert gs (ib.gxbuild gs) a

-- The loop of `ahg_instrument_gimple_call`.
pub instrument_each : TargetCall → List InsertBuiltin → Gimple → Around → Run Around
instrument_each tc [] gs a = fault
instrument_each tc (ib ∷ more) gs a = elim ib.active [
  | false ↦ ok a
  | true ↦ instrument_each tc more gs (gxinstrument_target tc ib gs a)
]

pub instrument_with : TargetCall → Option (List InsertBuiltin) → Gimple → Run Around
instrument_with tc none gs = ok (record { before = []; behind = [] })
instrument_with tc (some ibs) gs = instrument_each tc ibs gs (record { before = []; behind = [] })

pub ahg_instrument_gimple_call : TargetCall → Gimple → Run Around
ahg_instrument_gimple_call tc gs = instrument_with tc tc.builtins gs

-- `ahg_xinstrument_checker` on the function that is compiled.
pub ahg_xinstrument_checker : List ℕ → List TargetCall → Run Bool
ahg_xinstrument_checker current tcalls = do found ← is_builtin current tcalls; ok (not found)

-- The function that a statement calls, if the tests let it pass.
pub called : Gimple → Option Decl
called gs = elim gs.fndecl [
  | none ↦ none
  | some d ↦ if gs.is_call && d.is_function_decl && not d.artificial then some d else none
]

-- A target for a call of that kind.
pub with_code : Option TargetCall → ℕ → Option TargetCall
with_code none code = none
with_code (some tc) code = if tc.code == code then some tc else none

-- The target that is to be used, or `none` where the source returns -1.
pub ahg_check_gimple_stmt : List ℕ → List TargetCall → Gimple → Run (Option TargetCall)
ahg_check_gimple_stmt current tcalls gs = elim (called gs) [
  | none ↦ ok none
  | some d ↦ (do
    may ← ahg_xinstrument_checker current tcalls
    ok (if may then with_code (is_target d.name tcalls) gs.code else none))
]

pub around : List ℕ → List TargetCall → Gimple → Run Around
around current tcalls gs = do
  tc ← ahg_check_gimple_stmt current tcalls gs
  elim tc [
    | none ↦ ok (record { before = []; behind = [] })
    | some t ↦ ahg_instrument_gimple_call t gs
  ]

-- `ahg_bb_gimple_stmt`: the block behind the iterator, with fuel. A call that is inserted behind a
-- statement is itself visited next.
pub ahg_bb_gimple_stmt : ℕ → List ℕ → List TargetCall → List Gimple → Run (List Gimple)
ahg_bb_gimple_stmt zero current tcalls block = fault
ahg_bb_gimple_stmt (suc k) current tcalls [] = ok []
ahg_bb_gimple_stmt (suc k) current tcalls (gs ∷ rest) = do
  a ← around current tcalls gs
  rest' ← ahg_bb_gimple_stmt k current tcalls (a.behind ++ rest)
  ok (a.before ++ gs ∷ rest')

-- The loop over the blocks of the function.
pub each_block : ℕ → List ℕ → List TargetCall → List (List Gimple) → Run (List (List Gimple))
each_block k current tcalls [] = ok []
each_block k current tcalls (block ∷ more) = do
  block' ← ahg_bb_gimple_stmt k current tcalls block
  more' ← each_block k current tcalls more
  ok (block' ∷ more')

-- The pass over the function `fn`, whose name is `current`; `k` bounds the statements of a block and
-- the entries of the queue.
pub ahaggar_xinstrument_main :
    TableOps → ℕ → List ℕ → ℕ → List TargetCall → List (List Gimple) → Run (List (List Gimple))
ahaggar_xinstrument_main ops k current fn tcalls blocks = do
  let sp_nodes = sptree_nodes_set_root ops (sptree_nodes_init ops) fn
  blocks' ← each_block k current tcalls blocks
  left ← sptree_nodes_finish ops k sp_nodes
  ok blocks'
