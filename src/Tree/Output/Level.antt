-- ===== src/Tree/Output/Level.antt =====
-- print-nodes.c: what is printed of a node leaves the level of the indentation as it is.
use ahaggar.Base.{ℕ, ◌≡◌, false, ◌++◌, ◌∷◌, [], Run, ok, List}
use ahaggar.Buffer.Script.{print}
use ahaggar.Tree
use ahaggar.Tree.{Act, of_run, output}
use ahaggar.Tree.Codes
use ahaggar.Tree.Codes.{◌is◌}
use ahaggar.Tree.Steady.{Steady, steady_rules, Steady-bind, Steady-output, Steady-read}
use ahaggar.Tree.Names.{get_location}
use ahaggar.Tree.Names.Location.{Returns, get_location_lem}
use ahaggar.Tree.Output.{
  output_expr_code, output_location, output_code_name, output_decl_name, output_node_addr,
}

module _ {X : Type 0} (g : Tree.Gcc) (n : ℕ) where
  pub Steady-of_run : {A : Type 0} (r : Run A) → Returns r → Steady {X = X} n (of_run r)
  Steady-of_run r s = rw s.returns (Steady-read (λ p. s.value))

  pub output_expr_code_lem :
      (node : ℕ) (flags : Tree.Dump) → Steady n (output_expr_code X g node flags)
  unfolding output_expr_code output_code_name
  output_expr_code_lem node flags = search steady_rules depth 30 fits 3000

  -- The location of an expression.
  pub output_location_lem :
      (t : ℕ) → (g.code t is Codes.overload) ≡ false → Steady n (output_location X g t)
  unfolding output_location
  output_location_lem t o =
      Steady-bind _ _ (Steady-of_run _ (get_location_lem g t o)) (λ text. Steady-output _)

  pub output_decl_name_lem :
      (decl : ℕ) (flags : Tree.Dump) → Steady n (output_decl_name X g decl flags)
  unfolding output_decl_name
  output_decl_name_lem decl flags = Steady-output _

  pub output_node_addr_lem :
      (node : ℕ) (flags : Tree.Dump) → Steady n (output_node_addr X g node flags)
  unfolding output_node_addr
  output_node_addr_lem node flags = search steady_rules depth 12

module _ {X : Type 0} (g : Tree.Gcc) where
  pub output_location-text :
      (t : ℕ) (text : List ℕ) (p : Tree.Pdata X)
      → get_location g t ≡ ok text
      → output_location X g t p ≡ ok (tt, record p { calls = p.calls ++ print text ∷ [] })
  unfolding output_location
  output_location-text t text p e = simp e
