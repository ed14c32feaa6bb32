-- ===== src/Ast.antt =====
-- ahaggar-ast.c: the plugin that dumps the functions of a unit. This file has its state and the cases
-- of the tree walker.
pub mod Calls
pub mod Cases
pub mod Functions
pub mod Options
pub mod Unit
pub mod Tests
use ahaggar.Base.{ℕ, Bool, true, false, List, Run, ok, fault}
use ahaggar.Cache.{TableOps, PmapNodes, pmap_nodes_insert}
use ahaggar.Tree
use ahaggar.Tree.{Act, Pdata, Walker, after, on, output, skip}
use ahaggar.Tree.Codes
use ahaggar.Tree.Codes.{Code}

-- The statics of the walker, and `pm_nodes`. `walker_depth` is what `indent_level` points to.
pub record AstState (ops : TableOps) : Type 0 where
  pub is_expr : Bool
  pub print_location : Bool
  pub symbol_prefix : List ℕ
  pub pm_nodes : PmapNodes ops

abbrev pub AstAct : TableOps → Type 0 → Type 0
AstAct ops A = Act (AstState ops) A

-- The walker of the plugin, with GCC's walk and the bound on chains.
abbrev pub walker : (ops : TableOps) → Tree.Gcc → (ℕ → AstAct ops (Unit {0})) → ℕ → Walker
walker ops g visit links = record { Extra = AstState ops; gcc = g; visit = visit; links = links }

module _ {ops : TableOps} where
  abbrev pub get_is_expr : AstAct ops Bool
  get_is_expr p = ok (p.extra.is_expr, p)

  abbrev pub set_is_expr : Bool → AstAct ops (Unit {0})
  set_is_expr b p = ok (tt, record p { extra = record p.extra { is_expr = b } })

  abbrev pub get_print_location : AstAct ops Bool
  get_print_location p = ok (p.extra.print_location, p)

  abbrev pub set_print_location : Bool → AstAct ops (Unit {0})
  set_print_location b p = ok (tt, record p { extra = record p.extra { print_location = b } })

  abbrev pub get_symbol_prefix : AstAct ops (List ℕ)
  get_symbol_prefix p = ok (p.extra.symbol_prefix, p)

  abbrev pub set_symbol_prefix : List ℕ → AstAct ops (Unit {0})
  set_symbol_prefix text p = ok (tt, record p { extra = record p.extra { symbol_prefix = text } })

  abbrev pub numbered : Run (ℕ × PmapNodes ops) → AstAct ops ℕ
  numbered fault p = fault
  numbered (ok (index, nodes)) p =
      ok (index, record p { extra = record p.extra { pm_nodes = nodes } })

  -- `pmap_nodes_insert(ast->pm_nodes, node)`
  abbrev pub insert_node : ℕ → AstAct ops ℕ
  insert_node node p = numbered (pmap_nodes_insert ops p.extra.pm_nodes node) p

-- The groups of cases of the switch.
pub data Case : Type 0 where
  identifier a_list a_binfo a_vector number_type pointer array a_record ignored statements : Case
  integer fixed a_string function_type function label result type_declaration variable : Case
  a_field component element declaration target conditional assignment call : Case
  address unary postfix binary label_statement loop exit switch case_of goto returning : Case
  other_case : Case

-- Labels, loops and jumps.
unfoldable pub jump_of_code : Code → Case
jump_of_code Codes.label_expr = label_statement
jump_of_code Codes.loop_expr = loop
jump_of_code Codes.exit_expr = exit
jump_of_code Codes.switch_expr = switch
jump_of_code Codes.case_label_expr = case_of
jump_of_code Codes.goto_expr = goto
jump_of_code Codes.return_expr = returning
jump_of_code _ = other_case

-- Binary operators.
unfoldable pub operator_of_code : Code → Case
operator_of_code Codes.widen_sum_expr = binary
operator_of_code Codes.widen_mult_expr = binary
operator_of_code Codes.mult_expr = binary
operator_of_code Codes.plus_expr = binary
operator_of_code Codes.pointer_plus_expr = binary
operator_of_code Codes.minus_expr = binary
operator_of_code Codes.trunc_div_expr = binary
operator_of_code Codes.ceil_div_expr = binary
operator_of_code Codes.floor_div_expr = binary
operator_of_code Codes.round_div_expr = binary
operator_of_code Codes.trunc_mod_expr = binary
operator_of_code Codes.ceil_mod_expr = binary
operator_of_code Codes.floor_mod_expr = binary
operator_of_code Codes.round_mod_expr = binary
operator_of_code Codes.rdiv_expr = binary
operator_of_code Codes.exact_div_expr = binary
operator_of_code Codes.lshift_expr = binary
operator_of_code Codes.rshift_expr = binary
operator_of_code Codes.lrotate_expr = binary
operator_of_code Codes.rrotate_expr = binary
operator_of_code Codes.vec_lshift_expr = binary
operator_of_code Codes.vec_rshift_expr = binary
operator_of_code Codes.widen_lshift_expr = binary
operator_of_code Codes.bit_ior_expr = binary
operator_of_code Codes.bit_xor_expr = binary
operator_of_code Codes.bit_and_expr = binary
operator_of_code Codes.truth_andif_expr = binary
operator_of_code Codes.truth_orif_expr = binary
operator_of_code Codes.truth_and_expr = binary
operator_of_code Codes.truth_or_expr = binary
operator_of_code Codes.truth_xor_expr = binary
operator_of_code Codes.lt_expr = binary
operator_of_code Codes.le_expr = binary
operator_of_code Codes.gt_expr = binary
operator_of_code Codes.ge_expr = binary
operator_of_code Codes.eq_expr = binary
operator_of_code Codes.ne_expr = binary
operator_of_code Codes.unlt_expr = binary
operator_of_code Codes.unle_expr = binary
operator_of_code Codes.ungt_expr = binary
operator_of_code Codes.unge_expr = binary
operator_of_code Codes.uneq_expr = binary
operator_of_code Codes.ltgt_expr = binary
operator_of_code Codes.ordered_expr = binary
operator_of_code code = jump_of_code code

-- Declarations in a block, conditionals, assignments, calls and unary operators.
unfoldable pub expression_of_code : Code → Case
expression_of_code Codes.decl_expr = declaration
expression_of_code Codes.target_expr = target
expression_of_code Codes.cond_expr = conditional
expression_of_code Codes.modify_expr = assignment
expression_of_code Codes.init_expr = assignment
expression_of_code Codes.aggr_init_expr = call
expression_of_code Codes.call_expr = call
expression_of_code Codes.with_cleanup_expr = ignored
expression_of_code Codes.addr_expr = address
expression_of_code Codes.negate_expr = unary
expression_of_code Codes.bit_not_expr = unary
expression_of_code Codes.truth_not_expr = unary
expression_of_code Codes.predecrement_expr = unary
expression_of_code Codes.preincrement_expr = unary
expression_of_code Codes.indirect_ref = unary
expression_of_code Codes.postdecrement_expr = postfix
expression_of_code Codes.postincrement_expr = postfix
expression_of_code Codes.range_expr = ignored
expression_of_code code = operator_of_code code

-- Function types, declarations and references.
unfoldable pub declared_of_code : Code → Case
declared_of_code Codes.function_type = function_type
declared_of_code Codes.method_type = function_type
declared_of_code Codes.function_decl = function
declared_of_code Codes.const_decl = function
declared_of_code Codes.label_decl = label
declared_of_code Codes.result_decl = result
declared_of_code Codes.type_decl = type_declaration
declared_of_code Codes.var_decl = variable
declared_of_code Codes.parm_decl = variable
declared_of_code Codes.debug_expr_decl = variable
declared_of_code Codes.namespace_decl = variable
declared_of_code Codes.field_decl = a_field
declared_of_code Codes.component_ref = component
declared_of_code Codes.array_ref = element
declared_of_code Codes.array_range_ref = element
declared_of_code code = expression_of_code code

-- Names, lists, types, statement lists and constants; `code` is that of the node.
unfoldable pub case_of_code : Code → Case
case_of_code Codes.identifier_node = identifier
case_of_code Codes.tree_list = a_list
case_of_code Codes.tree_binfo = a_binfo
case_of_code Codes.tree_vec = a_vector
case_of_code Codes.void_type = number_type
case_of_code Codes.integer_type = number_type
case_of_code Codes.real_type = number_type
case_of_code Codes.fixed_point_type = number_type
case_of_code Codes.complex_type = number_type
case_of_code Codes.vector_type = number_type
case_of_code Codes.enumeral_type = number_type
case_of_code Codes.boolean_type = number_type
case_of_code Codes.pointer_type = pointer
case_of_code Codes.reference_type = pointer
case_of_code Codes.offset_type = ignored
case_of_code Codes.array_type = array
case_of_code Codes.record_type = a_record
case_of_code Codes.union_type = a_record
case_of_code Codes.qual_union_type = a_record
case_of_code Codes.lang_type = ignored
case_of_code Codes.statement_list = statements
case_of_code Codes.integer_cst = integer
case_of_code Codes.fixed_cst = fixed
case_of_code Codes.string_cst = a_string
case_of_code code = declared_of_code code
