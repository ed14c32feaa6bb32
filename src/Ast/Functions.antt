-- ===== src/Ast/Functions.antt =====
-- ahaggar-ast.c: one function of the unit is dumped.
pub mod Level
pub mod Written
pub mod Refused
use ahaggar.Base.{
  ℕ, Bool, true, Option, none, some, List, Run, ok, if◌then◌else◌, ◌==◌, ◌||◌, not, codes, ℤ,
  is_zero,
}
use ahaggar.Buffer.Script.{char, print, flush}
use ahaggar.Cache.{TableOps, sptree_nodes_init, sptree_nodes_set_root, sptree_nodes_finish}
use ahaggar.Tree
use ahaggar.Tree.{
  Act, Pdata, ◌>>=◌, ◌>>◌, pure, skip, of_run, output, fail, done, unless_null, get_flags,
  set_flags, no_flags, Walker,
}
use ahaggar.Tree.Codes
use ahaggar.Tree.Codes.{◌is◌}
use ahaggar.Tree.Names.{is_function_decl, is_node_in_main_input, local_text}
use ahaggar.Tree.Output.{output_node_addr, output_expr_code, output_decl_name, output_location}
use ahaggar.Walk.Lists.{get, walk_function_decl_args}
use ahaggar.Ast.{AstState, AstAct, walker, insert_node}

module _ (ops : TableOps) (g : Tree.Gcc) (visit : ℕ → AstAct ops (Unit {0})) (links : ℕ) where
  abbrev w : Walker
  w = walker ops g visit links

  unfoldable pub is_function_body_ok : ℕ → Bool
  is_function_body_ok body = not (body == 0 || not (g.code body is Codes.bind_expr))

  unfoldable pub print_name : ℕ → AstAct ops (Unit {0})
  print_name node = do
    flags ← get_flags
    output_expr_code (AstState ops) g node flags
    output_decl_name (AstState ops) g node flags

  -- In front of the name of a function.
  unfoldable pub print_address : ℕ → AstAct ops (Unit {0})
  print_address node = do
    output (char b'\n')
    flags ← get_flags
    output_node_addr (AstState ops) g node flags

  unfoldable pub ahg_ast_decl_node : ℕ → AstAct ops ℤ
  ahg_ast_decl_node node = unless_null node (
      if is_function_decl g node
      then (do
        index ← insert_node node
        if index == 0 then fail else (do print_address node; print_name node; done))
      else (do print_name node; done))

  unfoldable pub ahg_ast_walk_body : ℕ → AstAct ops (Unit {0})
  ahg_ast_walk_body body = do chain ← get w Tree.bind_expr_body body; visit chain

  unfoldable pub ahg_ast_analyze_body : ℕ → AstAct ops ℤ
  ahg_ast_analyze_body fndecl = unless_null fndecl (do
    body ← get w Tree.decl_saved_tree fndecl
    if is_function_body_ok body
        then (do
          let sp_nodes = sptree_nodes_set_root ops (sptree_nodes_init ops) fndecl
          ahg_ast_walk_body body
          left ← of_run (sptree_nodes_finish ops links sp_nodes)
          done)
        else fail)

  -- Whether the function is in the main input, where only those are asked for.
  unfoldable pub is_wanted : Bool → Bool → ℕ → Run Bool
  is_wanted only_main main_input fndecl =
      if only_main then is_node_in_main_input g main_input fndecl else ok true

  unfoldable pub print_args : ℕ → AstAct ops (Unit {0})
  print_args fndecl = do
    output (char b'(')
    r ← walk_function_decl_args w fndecl
    output (print (codes ") "))
    output_location (AstState ops) g fndecl

  unfoldable pub print_function : ℕ → AstAct ops ℤ
  print_function fndecl = do
    ret ← ahg_ast_decl_node fndecl
    if is_zero ret
        then (do
          saved_flags ← get_flags
          set_flags no_flags
          print_args fndecl
          set_flags saved_flags
          done)
        else fail

  -- `errors` is `errorcount != 0`, and `main_input` whether the location is in the main input.
  unfoldable pub ahg_ast_function : Bool → Bool → Bool → ℕ → AstAct ops ℤ
  ahg_ast_function errors only_main main_input fndecl =
      if errors || not (is_function_decl g fndecl) then fail else (do
        wanted ← of_run (is_wanted only_main main_input fndecl)
        if wanted
            then (do index ← insert_node fndecl; if index == 0 then fail else print_function fndecl)
            else fail)

  -- The text that `write` is given.
  unfoldable pub ahg_ast_output_dump : AstAct ops (List ℕ)
  ahg_ast_output_dump p = ok (local_text p.calls, p)

  -- What is written, if the function is dumped.
  unfoldable pub ahaggar_ast_main : Bool → Bool → Bool → ℕ → AstAct ops (Option (List ℕ))
  ahaggar_ast_main errors only_main main_input fndecl = do
    output flush
    ret ← ahg_ast_function errors only_main main_input fndecl
    if is_zero ret
        then (do
          r ← ahg_ast_analyze_body fndecl
          output (char b'\n')
          text ← ahg_ast_output_dump
          pure (some text))
        else pure none
