-- ===== src/Walk/Lists/Level.antt =====
-- walk-nodes.c: the level of the indentation around the walkers of vectors and statements.
use ahaggar.Base.{ℕ, List, [], ◌∷◌}
use ahaggar.Tree.{Walker}
use ahaggar.Tree.Steady.{Steady, steady_rules, Steady-pure, Steady-bind, Steady-output}
use ahaggar.Walk.Lists.{
  comma, visit_each, walk_statement_iterator, walk_elements, walk_tree_vector_node,
}

module _ (w : Walker) (visits : (n t : ℕ) → Steady n (w.visit t)) where
  visit_each_lem : (n : ℕ) (ts : List ℕ) → Steady n (visit_each w ts)
  unfolding visit_each
  visit_each_lem n [] = Steady-pure tt
  visit_each_lem n (t ∷ ts) = Steady-bind (w.visit t) _ (visits n t) (λ a. visit_each_lem n ts)

  pub walk_statement_iterator_lem : (n node : ℕ) → Steady n (walk_statement_iterator w node)
  unfolding walk_statement_iterator
  walk_statement_iterator_lem n node = search (steady_rules, visit_each_lem) depth 30 fits 3000

  walk_elements-Steady : (n : ℕ) (ts : List ℕ) → Steady n (walk_elements w ts)
  unfolding walk_elements
  walk_elements-Steady n [] = Steady-pure tt
  walk_elements-Steady n (t ∷ []) = visits n t
  walk_elements-Steady n (t ∷ u ∷ ts) =
      Steady-bind (w.visit t) _ (visits n t)
        (λ a. Steady-bind comma _ (Steady-output _) (λ b. walk_elements-Steady n (u ∷ ts)))

  pub walk_tree_vector_node_lem : (n node : ℕ) → Steady n (walk_tree_vector_node w node)
  unfolding walk_tree_vector_node
  walk_tree_vector_node_lem n node = search (steady_rules, walk_elements-Steady) depth 30 fits 3000
