-- ===== src/Walk/Stmts.antt =====
-- walk-nodes.c: statements. The level of the indentation is a counter of the plugin, which is raised
-- around the parts.
pub mod Level
use ahaggar.Base.{
  ℕ, zero, suc, ◌+◌, ◌-◌, ◌*◌, ◌%◌, ◌^◌, Run, ok, fault, ltb, leb, Bool, true, false, if◌then◌else◌,
  ◌==◌, ◌||◌, ◌&&◌, not, codes, ℤ, u32_mod,
}
use ahaggar.Buffer.Script.{char, print}
use ahaggar.Tree.Codes
use ahaggar.Tree.Codes.{◌is◌}
use ahaggar.Tree
use ahaggar.Tree.{
  Act, Pdata, ◌>>=◌, ◌>>◌, pure, skip, on, of_run, output, output_indent_to_newline, fail, done,
  unless_null, get_flags, get_indent, set_indent, deeper, indent_step, Walker,
}
use ahaggar.Walk.Lists.{Walk, get, endless}
use ahaggar.Walk.Decls.{walk_declaration_node}

-- A level as a column, in an `unsigned int`.
abbrev pub column : ℕ → ℕ
column level = (level * indent_step) % u32_mod

-- The same in an `int`, of which `level` has the bits: to leave the range of an `int` is a fault.
pub int_column : ℕ → Run ℕ
int_column level =
    if ltb level (2 ^ 30) || leb (u32_mod - 2 ^ 30) level then ok (column level) else fault

-- The column of the level above: a level of 2^31 is out of range as a column too.
abbrev pub next_column : ℕ → Run ℕ
next_column level = int_column ((level + 1) % u32_mod)

-- `indent + INDENT`, both an `int`.
pub further : ℕ → Run ℕ
further indent =
    if indent == 2 ^ 31 - 2 || indent == 2 ^ 31 - 1
    then fault
    else ok ((indent + indent_step) % u32_mod)

module _ (w : Walker) where
  -- A part of the node, visited.
  abbrev pub visit_field : Tree.Field → ℕ → Walk w
  visit_field f node = do t ← get w f node; w.visit t

  pub walk_modify_init_expr_node : ℕ → Act w.Extra ℤ
  walk_modify_init_expr_node node = unless_null node (do
    visit_field (Tree.tree_operand 0) node
    output (print (codes " = "))
    visit_field (Tree.tree_operand 1) node
    done)

  -- The loop over the variables of a block.
  pub walk_vars : ℕ → ℕ → ℕ → Walk w
  walk_vars zero indent op0 = endless
  walk_vars (suc k) indent op0 = elim (op0 == 0) [
    | true ↦ skip
    | false ↦ (do
      deeper (walk_declaration_node w op0 >>= λ r. skip)
      output_indent_to_newline indent
      next ← get w Tree.decl_chain op0
      walk_vars k indent next)
  ]

  pub bind_contents : ℕ → ℕ → Walk w
  bind_contents indent node = do
    vars ← get w Tree.bind_expr_vars node
    if vars == 0 then skip else (do output_indent_to_newline indent; walk_vars w.links indent vars)
    inner ← of_run (further indent)
    output_indent_to_newline inner
    deeper (visit_field Tree.bind_expr_body node)

  pub walk_bind_expr_node : ℕ → Act w.Extra ℤ
  walk_bind_expr_node node = unless_null node (do
    indent_level ← get_indent
    flags ← get_flags
    indent ← of_run (next_column indent_level)
    here ← of_run (int_column indent_level)
    output_indent_to_newline here
    output (char b'{')
    if flags.slim then skip else bind_contents indent node
    output_indent_to_newline here
    output (char b'}')
    set_indent indent_level
    done)

  pub walk_target_expr_node : ℕ → Act w.Extra ℤ
  walk_target_expr_node node = unless_null node (do
    visit_field Tree.target_expr_slot node
    output (print (codes ", "))
    visit_field Tree.target_expr_initial node
    done)

  -- A branch that is empty or a jump.
  pub is_short : ℕ → Bool
  is_short t = not (t == 0) && (w.gcc.flag Tree.is_empty_stmt t || w.gcc.code t is Codes.goto_expr)

  pub short_branches : ℕ → ℕ → ℕ → Walk w
  short_branches indent t e = do
    deeper (w.visit t)
    if w.gcc.flag Tree.is_empty_stmt e then skip else (do
      output_indent_to_newline indent
      output (print (codes "else "))
      deeper (w.visit e))

  -- A branch in braces, behind what opens it.
  pub braced : ℕ → Walk w → ℕ → Walk w
  braced indent opening t = do
    output_indent_to_newline indent
    opening
    deeper (w.visit t)
    output_indent_to_newline indent
    output (char b'}')

  pub long_branches : ℕ → ℕ → ℕ → Walk w
  long_branches indent t e = do
    if t == 0 then skip else braced indent (output (char b'{')) t
    if e == 0 || w.gcc.flag Tree.is_empty_stmt e
        then skip
        else braced indent (output (print (codes "else {"))) e

  pub cond_statement : ℕ → ℕ → Walk w
  cond_statement indent node = do
    output_indent_to_newline indent
    output (print (codes "if ("))
    visit_field Tree.cond_expr_cond node
    output (char b')')
    t ← get w Tree.cond_expr_then node
    e ← get w Tree.cond_expr_else node
    flags ← get_flags
    if is_short t && is_short e
        then short_branches indent t e
        else if flags.slim
        then skip
        else long_branches indent t e

  -- `(c) ? a : b`
  pub cond_expression : ℕ → Walk w
  cond_expression node = do
    output (char b'(')
    visit_field (Tree.tree_operand 0) node
    output (print (codes ") ? "))
    visit_field (Tree.tree_operand 1) node
    output (print (codes " : "))
    visit_field (Tree.tree_operand 2) node

  pub walk_cond_expr_node : ℕ → Act w.Extra ℤ
  walk_cond_expr_node node = unless_null node (do
    indent_level ← get_indent
    indent ← of_run (next_column indent_level)
    type ← get w Tree.tree_type node
    if type == 0 || type == w.gcc.void_type_node
        then cond_statement indent node
        else cond_expression node
    set_indent indent_level
    done)
