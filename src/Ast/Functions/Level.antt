-- ===== src/Ast/Functions/Level.antt =====
-- ahaggar-ast.c: the depth of the walk around the parts of the dump of a function.
use ahaggar.Base.{ℕ, ◌<◌, ◌≡◌, true, false, ◌==◌, pos, negsuc, arith, codes}
use ahaggar.Buffer.Script.{char, print}
use ahaggar.Cache.{TableOps, sptree_nodes_init, sptree_nodes_set_root, sptree_nodes_finish}
use ahaggar.Cache.Sptree.{sptree_nodes_finish-sptree_nodes_init}
use ahaggar.Tree
use ahaggar.Tree.{Act, Pdata, ◌>>=◌, ◌>>◌, after, output, no_flags, of_run, done, Walker}
use ahaggar.Tree.Codes
use ahaggar.Tree.Codes.{◌is◌, code_tag}
use ahaggar.Tree.Names.Location.{Returns}
use ahaggar.Tree.Steady.{
  Steady, steady_rules, Steady-if, Steady-pure, Steady-bind, Steady-on, Steady-output,
}
use ahaggar.Tree.Output.Level.{
  output_expr_code_lem, output_decl_name_lem, output_node_addr_lem, output_location_lem,
  Steady-of_run,
}
use ahaggar.Walk.Lists.{walk_function_decl_args, get}
use ahaggar.Walk.Lists.Params.{Ends, walk_function_decl_args_lem}
use ahaggar.Ast.{AstAct, walker}
use ahaggar.Ast.Functions.{
  is_function_body_ok, print_name, print_address, ahg_ast_walk_body, ahg_ast_analyze_body,
  print_args,
}

module _ (ops : TableOps) (g : Tree.Gcc) (visit : ℕ → AstAct ops (Unit {0})) (links : ℕ)
    (visits : (n t : ℕ) → Steady n (visit t)) where
  abbrev w : Walker
  w = walker ops g visit links

  pub print_name_lem : (n node : ℕ) → Steady n (print_name ops g visit links node)
  unfolding print_name
  print_name_lem n node =
      search (steady_rules, output_expr_code_lem, output_decl_name_lem) depth 30 fits 3000

  pub print_address_lem : (n node : ℕ) → Steady n (print_address ops g visit links node)
  unfolding print_address
  print_address_lem n node = search (steady_rules, output_node_addr_lem) depth 30 fits 3000

  pub print_args_lem :
      (n fn : ℕ)
      → (g.code fn is Codes.overload) ≡ false
      → Ends g links (g.field Tree.decl_arguments fn)
      → Steady n (print_args ops g visit links fn)
  unfolding print_args
  print_args_lem n fn o ends = Steady-bind (output (char b'(')) _ (Steady-output _) (λ a.
      Steady-bind (walk_function_decl_args w fn) _ (walk_function_decl_args_lem w visits n fn ends)
        (λ r.
          Steady-bind (output (print (codes ") "))) _ (Steady-output _)
            (λ b. output_location_lem g n fn o)))

  -- The tree of the nodes of a function is made and freed again without a node in it.
  finish_lem :
      (fn : ℕ)
      → 0 < links
      → Returns
          (sptree_nodes_finish ops links (sptree_nodes_set_root ops (sptree_nodes_init ops) fn))
  finish_lem fn some_links =
      let (left, returns) = sptree_nodes_finish-sptree_nodes_init ops fn links some_links in
      record { value = left; returns = returns }

  ahg_ast_walk_body_lem :
      (n body : ℕ) → (body == 0) ≡ false → Steady n (ahg_ast_walk_body ops g visit links body)
  unfolding ahg_ast_walk_body
  ahg_ast_walk_body_lem n body e = search (steady_rules, visits) depth 30 fits 3000

  body_is : (body : ℕ) → is_function_body_ok ops g visit links body ≡ true → (body == 0) ≡ false
  unfolding is_function_body_ok
  body_is body e = ground arith

  pub ahg_ast_analyze_body_lem :
      (n fn : ℕ) → 0 < links → Steady n (ahg_ast_analyze_body ops g visit links fn)
  unfolding ahg_ast_analyze_body
  ahg_ast_analyze_body_lem n fn some_links =
      Steady-if (fn == 0) (λ null. Steady-pure (negsuc 0))
        (λ e.
          Steady-bind (get w Tree.decl_saved_tree fn) _
            (Steady-on (g.field Tree.decl_saved_tree) fn e)
            (λ body.
              Steady-if (is_function_body_ok ops g visit links body)
                (λ fits.
                  Steady-bind (ahg_ast_walk_body ops g visit links body) _
                    (ahg_ast_walk_body_lem n body (body_is body fits))
                    (λ a.
                      Steady-bind (of_run _) _ (Steady-of_run g n _ (finish_lem fn some_links))
                        (λ left. Steady-pure (pos 0))))
                (λ not_ok. Steady-pure (negsuc 0))))
