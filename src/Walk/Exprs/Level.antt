-- ===== src/Walk/Exprs/Level.antt =====
-- walk-nodes.c: the level of the indentation around the walkers of operators.
use ahaggar.Base.{ℕ, Bool}
use ahaggar.Tree.{Walker}
use ahaggar.Tree.Steady.{Steady, steady_rules}
use ahaggar.Walk.Exprs.{
  wrapped, walk_unary_logic_expr_node, walk_post_inc_dec_expr_node, walk_binary_arith_logic_node,
}

module _ (w : Walker) (visits : (n t : ℕ) → Steady n (w.visit t)) where
  wrapped_lem : (n : ℕ) (b : Bool) (op : ℕ) → Steady n (wrapped w b op)
  unfolding wrapped
  wrapped_lem n b op = search (steady_rules, visits) depth 30 fits 3000

  pub walk_unary_logic_expr_node_lem : (n node : ℕ) → Steady n (walk_unary_logic_expr_node w node)
  unfolding walk_unary_logic_expr_node
  walk_unary_logic_expr_node_lem n node =
      search (steady_rules, visits, wrapped_lem) depth 30 fits 3000

  pub walk_post_inc_dec_expr_node_lem : (n node : ℕ) → Steady n (walk_post_inc_dec_expr_node w node)
  unfolding walk_post_inc_dec_expr_node
  walk_post_inc_dec_expr_node_lem n node = search (steady_rules, wrapped_lem) depth 30 fits 3000

  pub walk_binary_arith_logic_node_lem :
      (n node : ℕ) → Steady n (walk_binary_arith_logic_node w node)
  unfolding walk_binary_arith_logic_node
  walk_binary_arith_logic_node_lem n node = search (steady_rules, wrapped_lem) depth 30 fits 3000
