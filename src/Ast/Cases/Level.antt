-- ===== src/Ast/Cases/Level.antt =====
-- ahaggar-ast.c: the depth of the walk around the tree walker.
use ahaggar.Base.{
  ℕ, ◌+◌, ◌-◌, ◌%◌, ◌<◌, ◌^◌, ◌≡◌, refl, sym, append-nil, ok, Bool, true, false, ◌==◌, List, [],
  u32_mod, arith, ℤ,
}
use ahaggar.Cache.{TableOps}
use ahaggar.Tree
use ahaggar.Tree.{Act, Pdata, pure, ◌>>=◌, ◌>>◌, skip, output, set_indent, get_indent, Walker}
use ahaggar.Tree.Codes
use ahaggar.Tree.Codes.{◌is◌}
use ahaggar.Tree.Steady.{Steady, steady_rules, Steady-if, Steady-pure, Steady-around}
use ahaggar.Tree.Output.Level.{
  output_expr_code_lem, output_decl_name_lem, output_node_addr_lem, output_location_lem,
}
use ahaggar.Walk.Lists.{walk_statement_iterator}
use ahaggar.Walk.Lists.Level.{walk_statement_iterator_lem, walk_tree_vector_node_lem}
use ahaggar.Walk.Exprs.Level.{
  walk_unary_logic_expr_node_lem, walk_post_inc_dec_expr_node_lem, walk_binary_arith_logic_node_lem,
}
use ahaggar.Walk.Stmts.Level.{
  Steady-unsigned_newline, walk_modify_init_expr_node_lem, walk_target_expr_node_lem,
  walk_cond_expr_node_lem,
}
use ahaggar.Walk.Jumps.Level.{
  walk_loop_expr_node_lem, walk_case_label_expr_node_lem, walk_return_expr_node_lem,
}
use ahaggar.Ast
use ahaggar.Ast.{
  AstState, AstAct, Case, case_of_code, walker, set_is_expr, set_print_location, set_symbol_prefix,
}
use ahaggar.Ast.Cases.{
  ahg_ast_node_walker, variable_case, unary_case, statements_case, one_case, declared_case,
  statement_case, binary_case, jump_case, location_behind, walks_parts, ahg_ast_tree_walker,
}

-- The cases that follow no pointer which may be NULL.
pub data AlwaysWalked : Case → Type 0 where
  identifier : AlwaysWalked Ast.identifier
  a_binfo : AlwaysWalked Ast.a_binfo
  a_vector : AlwaysWalked Ast.a_vector
  ignored : AlwaysWalked Ast.ignored
  statements : AlwaysWalked Ast.statements
  fixed : AlwaysWalked Ast.fixed
  result : AlwaysWalked Ast.result
  variable : AlwaysWalked Ast.variable
  a_field : AlwaysWalked Ast.a_field
  target : AlwaysWalked Ast.target
  conditional : AlwaysWalked Ast.conditional
  assignment : AlwaysWalked Ast.assignment
  unary : AlwaysWalked Ast.unary
  postfix : AlwaysWalked Ast.postfix
  binary : AlwaysWalked Ast.binary
  loop : AlwaysWalked Ast.loop
  exit : AlwaysWalked Ast.exit
  case_of : AlwaysWalked Ast.case_of
  returning : AlwaysWalked Ast.returning
  other_case : AlwaysWalked Ast.other_case

module _ (ops : TableOps) (g : Tree.Gcc) (visit : ℕ → AstAct ops (Unit {0})) (links : ℕ)
    (visits : (n t : ℕ) → Steady n (visit t)) where
  abbrev w : Walker
  w = walker ops g visit links

  -- A state that is changed outside the level, the flags and the calls.
  Steady-extra :
      (n : ℕ) (f : AstState ops → AstState ops)
      → Steady {X = AstState ops} n (λ p. ok (tt, record p { extra = f p.extra }))
  Steady-extra n f = record {
    at = λ bound p l. record {
      result = tt;
      behind = record p { extra = f p.extra };
      added = [];
      returns = refl;
      level = refl;
      flags = refl;
      calls = sym (append-nil p.calls);
    };
  }

  Steady-is_expr : (n : ℕ) (b : Bool) → Steady n (set_is_expr {ops = ops} b)
  Steady-is_expr n b = Steady-extra n (λ x. record x { is_expr = b })

  Steady-print_location : (n : ℕ) (b : Bool) → Steady n (set_print_location {ops = ops} b)
  Steady-print_location n b = Steady-extra n (λ x. record x { print_location = b })

  Steady-symbol_prefix : (n : ℕ) (text : List ℕ) → Steady n (set_symbol_prefix {ops = ops} text)
  Steady-symbol_prefix n text = Steady-extra n (λ x. record x { symbol_prefix = text })

  ahg_ast_node_walker_lem :
      (n node : ℕ) (m : ℕ → AstAct ops ℤ)
      → Steady n (m node)
      → Steady n (ahg_ast_node_walker ops g visit links node m)
  unfolding ahg_ast_node_walker
  ahg_ast_node_walker_lem n node m s =
      search (steady_rules, Steady-unsigned_newline, output_expr_code_lem) depth 30 fits 3000

  ruleset ast_rules = (
    Steady-is_expr, Steady-print_location, Steady-unsigned_newline, output_expr_code_lem,
    ahg_ast_node_walker_lem,
  )

  variable_case_lem : (n node : ℕ) → Steady n (variable_case ops g visit links node)
  unfolding variable_case
  variable_case_lem n node =
      search (steady_rules, ast_rules, output_node_addr_lem, output_decl_name_lem) depth 30 fits
        3000

  unary_case_lem : (n node : ℕ) → (node == 0) ≡ false → Steady n (unary_case ops g visit links node)
  unfolding unary_case
  unary_case_lem n node e =
      search
        (steady_rules, ast_rules, Steady-symbol_prefix, walk_unary_logic_expr_node_lem w visits)
        depth 30 fits 3000

  abbrev statements_walk : ℕ → AstAct ops (Unit {0})
  statements_walk node = walk_statement_iterator w node >>= λ r. skip

  -- The statements are walked one level up.
  statements_case_lem : (n node : ℕ) → Steady n (statements_case ops g visit links node)
  unfolding statements_case
  statements_case_lem n node = record {
    at = λ bound.
        (Steady-around (λ k. (k + u32_mod - 1) % u32_mod) (λ k. (k + 1) % u32_mod)
            (statements_walk node) (pure tt) (omega arith) (λ b. omega arith)
            (search (steady_rules, walk_statement_iterator_lem w visits) depth 30 fits 3000)
            (Steady-pure tt)).at
          bound;
  }

  one_case_lem :
      (n node : ℕ)
      → (node == 0) ≡ false
      → (c : Case) → AlwaysWalked c
      → n + 1 < 2 ^ 30
      → Steady n (one_case ops g visit links c node)
  unfolding one_case declared_case statement_case binary_case jump_case
  one_case_lem n node e c identifier low =
      search (steady_rules, output_decl_name_lem) depth 30 fits 3000
  one_case_lem n node e c a_binfo low = search (steady_rules, visits) depth 30 fits 3000
  one_case_lem n node e c a_vector low =
      search (steady_rules, walk_tree_vector_node_lem w visits) depth 30 fits 3000
  one_case_lem n node e c statements low = statements_case_lem n node
  one_case_lem n node e c variable low = variable_case_lem n node
  one_case_lem n node e c unary low = unary_case_lem n node e
  one_case_lem n node e c postfix low =
      search (steady_rules, ast_rules, walk_post_inc_dec_expr_node_lem w visits) depth 30 fits 3000
  one_case_lem n node e c binary low =
      search (steady_rules, ast_rules, walk_binary_arith_logic_node_lem w visits) depth 30 fits 3000
  one_case_lem n node e c ignored low = search steady_rules
  one_case_lem n node e c fixed low = search steady_rules
  one_case_lem n node e c result low = search steady_rules
  one_case_lem n node e c a_field low =
      search (steady_rules, output_decl_name_lem) depth 30 fits 3000
  one_case_lem n node e c target low =
      search (steady_rules, ast_rules, walk_target_expr_node_lem w visits) depth 30 fits 3000
  one_case_lem n node e c conditional low =
      search (steady_rules, ast_rules, walk_cond_expr_node_lem w visits, low) depth 30 fits 3000
  one_case_lem n node e c assignment low =
      search (steady_rules, ast_rules, walk_modify_init_expr_node_lem w visits) depth 30 fits 3000
  one_case_lem n node e c loop low =
      search (steady_rules, ast_rules, walk_loop_expr_node_lem w visits, low) depth 30 fits 3000
  one_case_lem n node e c exit low = search (steady_rules, ast_rules, visits) depth 30 fits 3000
  one_case_lem n node e c case_of low =
      search (steady_rules, ast_rules, walk_case_label_expr_node_lem w visits) depth 30 fits 3000
  one_case_lem n node e c returning low =
      search (steady_rules, ast_rules, walk_return_expr_node_lem w visits) depth 30 fits 3000
  one_case_lem n node e c other_case low = search steady_rules

  location_behind_lem :
      (n node : ℕ)
      → (g.code node is Codes.overload) ≡ false
      → Steady n (location_behind ops g visit links node)
  unfolding location_behind
  location_behind_lem n node o =
      search (steady_rules, ast_rules, output_location_lem) depth 30 fits 3000

  -- What the walker does behind the case.
  abbrev ending : ℕ → AstAct ops Bool
  ending node = do
    set_symbol_prefix []
    location_behind ops g visit links node
    pure (walks_parts ops g visit links (case_of_code (g.code node)))

  ending_lem : (n node : ℕ) → (g.code node is Codes.overload) ≡ false → Steady n (ending node)
  ending_lem n node o =
      search (steady_rules, Steady-symbol_prefix, location_behind_lem) depth 30 fits 3000

  -- On a node whose case follows no pointer that may be NULL, a conditional, a loop, an assignment, a
  -- return and the like, and that is no overload set, at a depth that leaves room for an `int` as a
  -- column, ahg_ast_tree_walker returns, leaves the depth of the walk and the flags as they were and
  -- only adds to what is printed, if the walk on every node and at every level does.
  pub ahg_ast_tree_walker_lem :
      (n node : ℕ)
      → (g.code node is Codes.overload) ≡ false
      → AlwaysWalked (case_of_code (g.code node))
      → n + 2 < 2 ^ 30
      → Steady n (ahg_ast_tree_walker ops g visit links node)
  unfolding ahg_ast_tree_walker
  ahg_ast_tree_walker_lem n node o c low =
      Steady-if (node == 0) (λ e. Steady-pure true)
        (λ e.
          Steady-if (g.code node is Codes.error_mark) (λ m. Steady-pure true)
            (λ m.
              Steady-around (λ k. (k + 1) % u32_mod) (λ k. (k + u32_mod - 1) % u32_mod)
                (one_case ops g visit links (case_of_code (g.code node)) node) (ending node)
                (omega arith) (λ b. omega arith)
                (one_case_lem ((n + 1) % u32_mod) node e (case_of_code (g.code node)) c
                  (omega arith))
                (ending_lem n node o)))
