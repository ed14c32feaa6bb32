-- ===== src/Ast/Cases.antt =====
-- ahaggar-ast.c: the tree walker, which prints one node and says whether GCC is to walk its parts.
pub mod Level
use ahaggar.Base.{
  ℕ, ◌+◌, ◌-◌, ◌%◌, Bool, true, false, [], if◌then◌else◌, ◌==◌, ◌||◌, codes, ℤ, u32_mod,
}
use ahaggar.Buffer.Script.{char, print}
use ahaggar.Cache.{TableOps}
use ahaggar.Tree
use ahaggar.Tree.{
  Act, Pdata, ◌>>=◌, ◌>>◌, pure, skip, on, output, output_unsigned_indent_to_newline, fail,
  get_flags, get_indent, set_indent, Walker,
}
use ahaggar.Tree.Codes
use ahaggar.Tree.Codes.{Code, ◌is◌}
use ahaggar.Tree.Output.{
  output_node_addr, output_expr_code, output_decl_name, output_function_name, output_int_cst,
  output_string_cst, output_location,
}
use ahaggar.Walk.Lists.{
  get, code_of, blank, walk_statement_iterator, walk_tree_list_node, walk_tree_vector_node,
}
use ahaggar.Walk.Types.{
  walk_number_types_node, walk_pointer_reference_node, walk_array_node, walk_record_union_node,
  walk_function_type_node,
}
use ahaggar.Walk.Decls.{
  walk_declaration_node, walk_type_declaration_node, walk_label_declaration_node,
}
use ahaggar.Walk.Stmts.{
  column, walk_modify_init_expr_node, walk_target_expr_node, walk_cond_expr_node, visit_field,
}
use ahaggar.Walk.Jumps.{
  walk_switch_expr_node, walk_case_label_expr_node, walk_label_expr_node, walk_loop_expr_node,
  walk_goto_expr_node, walk_return_expr_node,
}
use ahaggar.Walk.Exprs.{
  op_symbol, walk_unary_logic_expr_node, walk_post_inc_dec_expr_node, walk_binary_arith_logic_node,
  walk_component_ref_node, walk_array_ref_node,
}
use ahaggar.Ast
use ahaggar.Ast.{
  AstState, AstAct, Case, case_of_code, walker, get_is_expr, set_is_expr, get_print_location,
  set_print_location, get_symbol_prefix, set_symbol_prefix,
}
use ahaggar.Ast.Calls.{ahg_ast_call_aggr_init}

module _ (ops : TableOps) (g : Tree.Gcc) (visit : ℕ → AstAct ops (Unit {0})) (links : ℕ) where
  abbrev w : Walker
  w = walker ops g visit links

  abbrev Step : Type 0
  Step = AstAct ops (Unit {0})

  -- A walker whose result is dropped.
  abbrev run : AstAct ops ℤ → Step
  run m = m >>= λ r. skip

  abbrev expr_code : ℕ → Step
  expr_code node = do flags ← get_flags; output_expr_code (AstState ops) g node flags

  abbrev node_addr : ℕ → Step
  node_addr node = do flags ← get_flags; output_node_addr (AstState ops) g node flags

  abbrev decl_name : ℕ → Step
  decl_name node = do flags ← get_flags; output_decl_name (AstState ops) g node flags

  -- A new line at the depth of the walk.
  abbrev newline : Step
  newline = do depth ← get_indent; output_unsigned_indent_to_newline (column depth)

  abbrev in_parens : Step → Step
  in_parens m = do output (char b'('); m; output (char b')')

  pub ahg_ast_node_walker : ℕ → (ℕ → AstAct ops ℤ) → AstAct ops ℤ
  ahg_ast_node_walker node walk_node = if node == 0 then fail else (do
    newline
    expr_code node
    output (char b'(')
    ret ← walk_node node
    newline
    output (char b')')
    pure ret)

  -- `is_expr` is set around a part, and cleared behind it.
  abbrev as_expr : Step → Step
  as_expr m = do set_is_expr true; m; set_is_expr false

  abbrev located : Step → Step
  located m = do m; set_print_location true

  pub integer_case : ℕ → Step
  integer_case node = do
    node_addr node
    type ← get w Tree.tree_type node
    code ← code_of w type
    if code is Codes.pointer_type then expr_code type else skip
    expr_code node
    output_int_cst (AstState ops) g node

  pub string_case : ℕ → Step
  string_case node = do node_addr node; expr_code node; output_string_cst (AstState ops) g node

  pub function_case : ℕ → Step
  function_case node = do
    expr_code node
    flags ← get_flags
    output_function_name (AstState ops) g node flags

  pub label_case : ℕ → Step
  label_case node = do
    is_expr ← get_is_expr
    if is_expr then (do expr_code node; run (walk_label_declaration_node w node)) else (do
      newline
      expr_code node
      run (walk_label_declaration_node w node)
      set_print_location true)

  pub variable_case : ℕ → Step
  variable_case node = do
    node_addr node
    expr_code node
    prefix ← get_symbol_prefix
    output (print prefix)
    decl_name node

  pub call_case : ℕ → Step
  call_case node = do
    newline
    is_expr ← get_is_expr
    if is_expr
        then run (ahg_ast_call_aggr_init ops g visit links node)
        else located (as_expr (run (ahg_ast_call_aggr_init ops g visit links node)))

  -- The address of a string or of a function has no prefix.
  pub address_case : ℕ → Step
  address_case node = do
    op0 ← get w (Tree.tree_operand 0) node
    code ← code_of w op0
    if code is Codes.string_cst || code is Codes.function_decl
        then skip
        else (do symbol ← op_symbol w node; set_symbol_prefix symbol)
    expr_code node
    run (walk_unary_logic_expr_node w node)

  pub unary_case : ℕ → Step
  unary_case node = do
    set_is_expr true
    symbol ← op_symbol w node
    set_symbol_prefix symbol
    newline
    expr_code node
    in_parens (run (walk_unary_logic_expr_node w node))
    set_is_expr false

  -- `STATEMENT_LIST` is walked one level up.
  pub statements_case : ℕ → Step
  statements_case node = do
    depth ← get_indent
    set_indent ((depth + u32_mod - 1) % u32_mod)
    run (walk_statement_iterator w node)
    depth' ← get_indent
    set_indent ((depth' + 1) % u32_mod)

  -- A node on a line of its own, its parts in parentheses.
  abbrev on_line : ℕ → Step → Step
  on_line node m = do newline; expr_code node; m

  -- Labels, loops and jumps.
  unfoldable pub jump_case : Case → ℕ → Step
  jump_case Ast.label_statement node =
      located (as_expr (on_line node (run (walk_label_expr_node w node))))
  jump_case Ast.loop node =
      located (as_expr (run (ahg_ast_node_walker node (walk_loop_expr_node w))))
  jump_case Ast.exit node =
      located (as_expr (on_line node (in_parens (visit_field w (Tree.tree_operand 0) node))))
  jump_case Ast.switch node =
      located (as_expr (run (ahg_ast_node_walker node (walk_switch_expr_node w))))
  jump_case Ast.case_of node = do newline; run (walk_case_label_expr_node w node)
  jump_case Ast.goto node = located (as_expr (on_line node (run (walk_goto_expr_node w node))))
  jump_case Ast.returning node =
      located (as_expr (on_line node (in_parens (run (walk_return_expr_node w node)))))
  jump_case _ node = skip

  pub binary_case : ℕ → Step
  binary_case node = as_expr (on_line node (in_parens (run (walk_binary_arith_logic_node w node))))

  -- Declarations in a block and expressions.
  unfoldable pub statement_case : Case → ℕ → Step
  statement_case Ast.declaration node = located (
      as_expr (
        on_line node
          (do decl ← get w Tree.decl_expr_decl node; run (walk_declaration_node w decl))))
  statement_case Ast.target node =
      located (as_expr (run (ahg_ast_node_walker node (walk_target_expr_node w))))
  statement_case Ast.conditional node =
      located (as_expr (run (ahg_ast_node_walker node (walk_cond_expr_node w))))
  statement_case Ast.assignment node =
      located (as_expr (on_line node (in_parens (run (walk_modify_init_expr_node w node)))))
  statement_case Ast.call node = call_case node
  statement_case Ast.address node = address_case node
  statement_case Ast.unary node = unary_case node
  statement_case Ast.postfix node =
      located (as_expr (on_line node (in_parens (run (walk_post_inc_dec_expr_node w node)))))
  statement_case Ast.binary node = binary_case node
  statement_case c node = jump_case c node

  -- Function types, declarations and references.
  unfoldable pub declared_case : Case → ℕ → Step
  declared_case Ast.function_type node = run (walk_function_type_node w node)
  declared_case Ast.function node = function_case node
  declared_case Ast.label node = label_case node
  declared_case Ast.result node = output (print (codes "<retval>"))
  declared_case Ast.type_declaration node = run (walk_type_declaration_node w node)
  declared_case Ast.variable node = variable_case node
  declared_case Ast.a_field node = decl_name node
  declared_case Ast.component node = do expr_code node; run (walk_component_ref_node w node)
  declared_case Ast.element node = do expr_code node; run (walk_array_ref_node w node)
  declared_case c node = statement_case c node

  unfoldable pub one_case : Case → ℕ → Step
  one_case Ast.identifier node = decl_name node
  one_case Ast.a_list node = run (walk_tree_list_node w node)
  one_case Ast.a_binfo node = visit_field w Tree.binfo_type node
  one_case Ast.a_vector node = run (walk_tree_vector_node w node)
  one_case Ast.number_type node = run (walk_number_types_node w node)
  one_case Ast.pointer node = run (walk_pointer_reference_node w node)
  one_case Ast.array node = run (walk_array_node w node)
  one_case Ast.a_record node = run (walk_record_union_node w node)
  one_case Ast.ignored node = skip
  one_case Ast.statements node = statements_case node
  one_case Ast.integer node = integer_case node
  one_case Ast.fixed node = output (print (g.text Tree.fixed_decimal node))
  one_case Ast.a_string node = string_case node
  one_case c node = declared_case c node

  -- Behind the switch.
  pub location_behind : ℕ → Step
  location_behind node = do
    print_location ← get_print_location
    if print_location
        then (do blank; output_location (AstState ops) g node; set_print_location false)
        else skip

  -- Whether the parts of the node are left for GCC to walk: `walk_subtrees` is not cleared.
  pub walks_parts : Case → Bool
  walks_parts Ast.other_case = true
  walks_parts _ = false

  pub ahg_ast_tree_walker : ℕ → AstAct ops Bool
  ahg_ast_tree_walker node =
      if node == 0 then pure true else if g.code node is Codes.error_mark then pure true else (do
        depth ← get_indent
        set_indent ((depth + 1) % u32_mod)
        one_case (case_of_code (g.code node)) node
        depth' ← get_indent
        set_indent ((depth' + u32_mod - 1) % u32_mod)
        set_symbol_prefix []
        location_behind node
        pure (walks_parts (case_of_code (g.code node))))
