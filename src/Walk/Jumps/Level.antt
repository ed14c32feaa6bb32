-- ===== src/Walk/Jumps/Level.antt =====
-- walk-nodes.c: the level of the indentation around the walkers of loops, case labels and returns.
use ahaggar.Base.{ℕ, ◌≡◌, false, ◌==◌, ◌+◌, ◌<◌, ◌^◌}
use ahaggar.Tree.{Walker}
use ahaggar.Tree.Steady.{Steady, steady_rules}
use ahaggar.Walk.Jumps.{
  returned, walk_loop_expr_node, walk_case_label_expr_node, walk_return_expr_node,
}
use ahaggar.Walk.Stmts.Level.{Steady-newline, Steady-next_column, braced_lem}

module _ (w : Walker) (visits : (n t : ℕ) → Steady n (w.visit t)) where
  pub walk_loop_expr_node_lem :
      (n node : ℕ) → n + 1 < 2 ^ 30 → Steady n (walk_loop_expr_node w node)
  unfolding walk_loop_expr_node
  walk_loop_expr_node_lem n node low =
      search (steady_rules, Steady-newline, Steady-next_column, braced_lem w visits) depth 30 fits
        3000

  pub walk_case_label_expr_node_lem : (n node : ℕ) → Steady n (walk_case_label_expr_node w node)
  unfolding walk_case_label_expr_node
  walk_case_label_expr_node_lem n node = search (steady_rules, visits) depth 30 fits 3000

  returned_lem : (n expr : ℕ) → (expr == 0) ≡ false → Steady n (returned w expr)
  unfolding returned
  returned_lem n expr e = search (steady_rules, visits) depth 30 fits 3000

  pub walk_return_expr_node_lem : (n node : ℕ) → Steady n (walk_return_expr_node w node)
  unfolding walk_return_expr_node
  walk_return_expr_node_lem n node = search (steady_rules, returned_lem) depth 30 fits 3000
