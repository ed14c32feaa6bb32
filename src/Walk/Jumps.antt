-- ===== src/Walk/Jumps.antt =====
-- walk-nodes.c: switches, labels, loops and jumps.
pub mod Level
use ahaggar.Base.{ℕ, ◌+◌, Bool, List, [], ◌∷◌, if◌then◌else◌, ◌==◌, ◌||◌, ◌&&◌, not, codes, ℤ}
use ahaggar.Buffer.Script.{char, print}
use ahaggar.Tree.Codes
use ahaggar.Tree.Codes.{◌is◌}
use ahaggar.Instrument.{same_text}
use ahaggar.Tree
use ahaggar.Tree.{
  Act, Pdata, ◌>>=◌, ◌>>◌, pure, skip, on, of_run, output, output_indent_to_newline, fail, done,
  unless_null, get_flags, get_indent, set_indent, deeper, indent_step, Walker,
}
use ahaggar.Tree.Names.{get_decl_name}
use ahaggar.Walk.Stmts.{column, next_column, visit_field, braced}
use ahaggar.Walk.Lists.{Walk, get, code_of}

module _ (w : Walker) where
  -- The loop over the labels of a switch without a body.
  pub walk_labels : ℕ → List ℕ → Walk w
  walk_labels node [] = skip
  walk_labels node (elt ∷ more) = do
    if elt == 0 then output (print (codes "case ???: goto ???;")) else (do
      visit_field w Tree.switch_body node
      output (print (codes " goto "))
      visit_field w Tree.case_label elt)
    walk_labels node more

  pub switch_contents : ℕ → Walk w
  switch_contents node = do
    body ← get w Tree.switch_body node
    if body == 0
        then (do
          vec ← get w Tree.switch_labels node
          labels ← on w.gcc.vec vec
          walk_labels node labels)
        else w.visit body

  pub walk_switch_expr_node : ℕ → Act w.Extra ℤ
  walk_switch_expr_node node = unless_null node (do
    level ← get_indent
    flags ← get_flags
    output_indent_to_newline (column (level + 1))
    output (print (codes "switch ("))
    visit_field w Tree.switch_cond node
    output (char b')')
    if flags.slim then done else (do
      output (print (codes " {"))
      switch_contents node
      output_indent_to_newline (column (level + 1))
      output (char b'}')
      done))

  -- The source visits the low bound twice.
  pub walk_case_label_expr_node : ℕ → Act w.Extra ℤ
  walk_case_label_expr_node node = unless_null node (do
    low ← get w Tree.case_low node
    high ← get w Tree.case_high node
    if not (low == 0) && not (high == 0)
        then (do
          output (print (codes "case "))
          w.visit low
          output (print (codes " ... "))
          w.visit low)
        else if not (low == 0)
        then (do output (print (codes "case ")); w.visit low)
        else output (print (codes "default"))
    output (char b':')
    done)

  -- `strcmp` with "break" and "continue".
  pub leaves_loop : List ℕ → Bool
  leaves_loop name = same_text name (codes "break") || same_text name (codes "continue")

  pub walk_label_expr_node : ℕ → Act w.Extra ℤ
  walk_label_expr_node node = unless_null node (do
    op0 ← get w (Tree.tree_operand 0) node
    name ← get w Tree.decl_name op0
    flags ← get_flags
    let text = get_decl_name w.gcc op0 flags
    if not (name == 0) && leaves_loop text then output (print text) else w.visit op0
    done)

  pub walk_loop_expr_node : ℕ → Act w.Extra ℤ
  walk_loop_expr_node node = unless_null node (do
    indent_level ← get_indent
    flags ← get_flags
    indent ← of_run (next_column indent_level)
    if flags.slim then skip else (do
      output_indent_to_newline indent
      output (print (codes "while (1)"))
      braced w indent (output (char b'{')) (w.gcc.field Tree.loop_expr_body node))
    set_indent indent_level
    done)

  pub walk_goto_expr_node : ℕ → Act w.Extra ℤ
  walk_goto_expr_node node = unless_null node (do
    op0 ← get w Tree.goto_destination node
    code ← code_of w op0
    flags ← get_flags
    let text = get_decl_name w.gcc op0 flags
    if not (code is Codes.ssa_name) && leaves_loop text
        then output (print text)
        else (do output (print (codes "goto ")); w.visit op0)
    done)

  pub returned : ℕ → Walk w
  returned expr =
      if w.gcc.code expr is Codes.modify_expr || w.gcc.code expr is Codes.init_expr
      then visit_field w (Tree.tree_operand 1) expr
      else w.visit expr

  pub walk_return_expr_node : ℕ → Act w.Extra ℤ
  walk_return_expr_node node = unless_null node (do
    expr ← get w (Tree.tree_operand 0) node
    if expr == 0 then output (print (codes "<void>")) else returned expr
    done)
