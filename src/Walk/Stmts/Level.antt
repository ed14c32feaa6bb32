-- ===== src/Walk/Stmts/Level.antt =====
-- walk-nodes.c: the level of the indentation around the walkers of statements.
use ahaggar.Base.{ℕ, ◌≡◌, false, ◌==◌, ◌+◌, ◌<◌, ◌^◌, ◌%◌, Run, ok, fault, u32_mod, arith}
use ahaggar.Tree.{output_indent_to_newline, output_unsigned_indent_to_newline, of_run, Walker}
use ahaggar.Tree.Steady.{Steady, Steady-pure, steady_rules}
use ahaggar.Walk.Lists.{Walk}
use ahaggar.Walk.Stmts.{
  column, int_column, next_column, short_branches, braced, long_branches, cond_statement,
  cond_expression, walk_modify_init_expr_node, walk_target_expr_node, walk_cond_expr_node,
}

pub Steady-newline : {X : Type 0} (n k : ℕ) → Steady {X = X} n (output_indent_to_newline k)
Steady-newline n k = search steady_rules depth 12

pub Steady-unsigned_newline :
    {X : Type 0} (n k : ℕ) → Steady {X = X} n (output_unsigned_indent_to_newline k)
Steady-unsigned_newline n k = search steady_rules depth 12

Steady-of_run : {X A : Type 0} (n : ℕ) (r : Run A) (a : A) → r ≡ ok a → Steady {X = X} n (of_run r)
Steady-of_run n (ok b) a e = Steady-pure b
Steady-of_run n fault a e = absurd cc

-- At a level that is low enough for an `int` the column of the next level is computed.
pub Steady-next_column :
    {X : Type 0} (n : ℕ) → n + 1 < 2 ^ 30 → Steady {X = X} n (of_run (next_column n))
unfolding int_column
Steady-next_column n low =
    Steady-of_run n (next_column n) (column ((n + 1) % u32_mod)) (ground arith)

module _ (w : Walker) (visits : (n t : ℕ) → Steady n (w.visit t)) where
  pub walk_modify_init_expr_node_lem : (n node : ℕ) → Steady n (walk_modify_init_expr_node w node)
  unfolding walk_modify_init_expr_node
  walk_modify_init_expr_node_lem n node = search (steady_rules, visits) depth 30 fits 3000

  pub walk_target_expr_node_lem : (n node : ℕ) → Steady n (walk_target_expr_node w node)
  unfolding walk_target_expr_node
  walk_target_expr_node_lem n node = search (steady_rules, visits) depth 30 fits 3000

  short_branches_lem : (n indent t e : ℕ) → Steady n (short_branches w indent t e)
  unfolding short_branches
  short_branches_lem n indent t e = search (steady_rules, visits, Steady-newline) depth 30 fits 3000

  pub braced_lem : (n indent : ℕ) (m : Walk w) (t : ℕ) → Steady n m → Steady n (braced w indent m t)
  unfolding braced
  braced_lem n indent m t sm = search (steady_rules, visits, Steady-newline) depth 30 fits 3000

  long_branches_lem : (n indent t e : ℕ) → Steady n (long_branches w indent t e)
  unfolding long_branches
  long_branches_lem n indent t e = search (steady_rules, braced_lem) depth 30 fits 3000

  cond_statement_lem :
      (n indent node : ℕ) → (node == 0) ≡ false → Steady n (cond_statement w indent node)
  unfolding cond_statement
  cond_statement_lem n indent node e =
      search (steady_rules, visits, Steady-newline, short_branches_lem, long_branches_lem) depth 30
        fits 3000

  cond_expression_lem : (n node : ℕ) → (node == 0) ≡ false → Steady n (cond_expression w node)
  unfolding cond_expression
  cond_expression_lem n node e = search (steady_rules, visits) depth 30 fits 3000

  pub walk_cond_expr_node_lem :
      (n node : ℕ) → n + 1 < 2 ^ 30 → Steady n (walk_cond_expr_node w node)
  unfolding walk_cond_expr_node
  walk_cond_expr_node_lem n node low =
      search (steady_rules, Steady-next_column, cond_statement_lem, cond_expression_lem) depth 30
        fits 3000
