-- ===== src/Ast/Calls.antt =====
-- ahaggar-ast.c: calls of functions.
pub mod Printed
use ahaggar.Base.{
  ℕ, zero, suc, Bool, true, false, List, if◌then◌else◌, ◌==◌, ◌&&◌, not, codes, ℤ, length,
}
use ahaggar.Buffer.Script.{char, print}
use ahaggar.Cache.{TableOps}
use ahaggar.Tree
use ahaggar.Tree.{Act, Pdata, ◌>>=◌, ◌>>◌, pure, skip, on, output, fail, done, get_flags, Walker}
use ahaggar.Tree.Codes
use ahaggar.Tree.Codes.{Code, ◌is◌}
use ahaggar.Tree.Names.{is_function_decl}
use ahaggar.Tree.Output.{output_node_addr, output_expr_code, output_function_name}
use ahaggar.Walk.Lists.{get, code_of, comma, endless, walk_elements}
use ahaggar.Walk.Stmts.{cond_expression}
use ahaggar.Ast.{AstState, AstAct, walker, insert_node}

-- The cases of the switch on the function that is called.
pub data Callee : Type 0 where
  declared wrapped_callee chosen indexed dereferenced computed unknown : Callee

pub callee_of : Code → Callee
callee_of Codes.var_decl = declared
callee_of Codes.parm_decl = declared
callee_of Codes.function_decl = declared
callee_of Codes.addr_expr = wrapped_callee
callee_of Codes.indirect_ref = wrapped_callee
callee_of Codes.nop_expr = wrapped_callee
callee_of Codes.cond_expr = chosen
callee_of Codes.array_ref = indexed
callee_of Codes.mem_ref = dereferenced
callee_of Codes.component_ref = computed
callee_of Codes.ssa_name = computed
callee_of Codes.obj_type_ref = computed
callee_of _ = unknown

module _ (ops : TableOps) (g : Tree.Gcc) (visit : ℕ → AstAct ops (Unit {0})) (links : ℕ) where
  abbrev w : Walker
  w = walker ops g visit links

  -- `return -1` is `false`.
  pub declared_callee : ℕ → ℕ → AstAct ops Bool
  declared_callee node op0 =
      if is_function_decl g op0
      then (do
        index ← insert_node op0
        flags ← get_flags
        if index == 0 then pure false else (do
          output_node_addr (AstState ops) g op0 flags
          output_expr_code (AstState ops) g node flags
          output_function_name (AstState ops) g op0 flags
          pure true))
      else pure false

  pub indexed_callee : ℕ → AstAct ops (Unit {0})
  indexed_callee op0 = do
    base ← get w (Tree.tree_operand 0) op0
    code ← code_of w base
    flags ← get_flags
    if code is Codes.var_decl then output_function_name (AstState ops) g base flags else visit op0

  -- From the label `again`; the function is looked for below `fuel` operators.
  pub callee : ℕ → ℕ → ℕ → AstAct ops Bool
  callee zero node op0 = endless
  callee (suc k) node op0 = do
    code ← code_of w op0
    elim (callee_of code) [
      | declared ↦ declared_callee node op0
      | wrapped_callee ↦ (do next ← get w (Tree.tree_operand 0) op0; callee k node next)
      | chosen ↦ (do cond_expression w op0; pure true)
      | indexed ↦ (do indexed_callee op0; pure true)
      | dereferenced ↦ (do
        offset ← get w (Tree.tree_operand 1) op0
        no_offset ← on (g.flag Tree.integer_zerop) offset
        elim no_offset [
          | true ↦ (do next ← get w (Tree.tree_operand 0) op0; callee k node next)
          | false ↦ (do visit op0; pure true)
        ])
      | computed ↦ (do visit op0; pure true)
      | unknown ↦ pure true
    ]

  pub ahg_ast_walk_call_args : ℕ → AstAct ops (Unit {0})
  ahg_ast_walk_call_args node = if node == 0 then skip else (do
    walk_elements w (g.call_args node)
    if g.flag Tree.call_expr_va_arg_pack node
        then (do
          if length (g.call_args node) == 0 then skip else comma
          output (print (codes "__builtin_va_arg_pack()")))
        else skip)

  pub static_chain : ℕ → AstAct ops (Unit {0})
  static_chain node = do
    op0 ← get w Tree.call_expr_static_chain node
    if op0 == 0
        then skip
        else (do output (print (codes "[static-chain: ")); visit op0; output (print (codes "] ")))

  abbrev note_if : Bool → List ℕ → AstAct ops (Unit {0})
  note_if b text = if b then output (print text) else skip

  -- Behind the function.
  pub call_rest : ℕ → AstAct ops ℤ
  call_rest node = do
    output (char b'(')
    ahg_ast_walk_call_args node
    output (print (codes ")"))
    static_chain node
    note_if (g.flag Tree.call_expr_return_slot_opt node) (codes "[return slot optimization] ")
    note_if (g.flag Tree.call_expr_tailcall node) (codes "[tail call] ")
    done

  -- The node of the function that is called, below a `NON_LVALUE_EXPR`.
  pub called_node : ℕ → AstAct ops ℕ
  called_node node = do
    fn ←
        get w (if g.code node is Codes.call_expr then Tree.call_expr_fn else Tree.aggr_init_expr_fn)
          node
    code ← code_of w fn
    if code is Codes.non_lvalue_expr then get w (Tree.tree_operand 0) fn else pure fn

  pub ahg_ast_call_aggr_init : ℕ → AstAct ops ℤ
  ahg_ast_call_aggr_init node =
      if node == 0
      then fail
      else if not (g.code node is Codes.call_expr) && not (g.code node is Codes.aggr_init_expr)
      then fail
      else (do
        op0 ← called_node node
        go_on ← callee links node op0
        if go_on then call_rest node else fail)
