-- ===== src/Walk/Lists/Params.antt =====
-- walk-nodes.c: the parameters of a function.
use ahaggar.Base.{ℕ, zero, suc, ◌≡◌, ◌⊎◌, inl, inr, true, false, if◌then◌else◌, ◌==◌}
use ahaggar.Tree
use ahaggar.Tree.{Act, skip, ◌>>◌, ◌>>=◌, Walker}
use ahaggar.Tree.Steady.{
  Steady, steady_rules, Steady-get, Steady-pure, Steady-bind, Steady-output, Steady-on,
}
use ahaggar.Walk.Lists.{Walk, walk_param, walk_params, walk_function_decl_args, get, comma, blank}

-- A chain of declarations that ends within `k` links.
abbrev pub Ends : Tree.Gcc → ℕ → ℕ → Type 0
Ends g zero t = ⊥
Ends g (suc k) t = (((t == 0) ≡ true) ⊎ (((t == 0) ≡ false) × Ends g k (g.field Tree.decl_chain t)))

module _ (w : Walker) (visits : (n t : ℕ) → Steady n (w.visit t)) where
  comma_unless : (n next : ℕ) → Steady {X = w.Extra} n (if next == 0 then skip else comma)
  comma_unless n next = search steady_rules depth 12

  walk_param_lem :
      (n arg : ℕ) (rest : ℕ → Walk w)
      → (arg == 0) ≡ false
      → Steady n (rest (w.gcc.field Tree.decl_chain arg))
      → Steady n (walk_param w arg rest)
  unfolding walk_param
  walk_param_lem n arg rest e more =
      let inner : Steady n
          (get w Tree.decl_chain arg >>= λ next. (if next == 0 then skip else comma) >> rest next) =
        Steady-get (w.gcc.field Tree.decl_chain) arg _ e
          (Steady-bind _ _ (comma_unless n _) (λ a. more)) in
      Steady-bind (get w Tree.tree_type arg) _ (Steady-on (w.gcc.field Tree.tree_type) arg e) (λ t.
        Steady-bind (w.visit t) _ (visits n t) (λ a.
          Steady-bind blank _ (Steady-output _)
            (λ b. Steady-bind (w.visit arg) _ (visits n arg) (λ c. inner))))

  walk_params_lem : (n k t : ℕ) → Ends w.gcc k t → Steady n (walk_params w k t)
  unfolding walk_params
  walk_params_lem n zero t h = absurd h
  walk_params_lem n (suc k) t (inl e) = rw (e, walk_params) (Steady-pure tt)
  walk_params_lem n (suc k) t (inr (e, more)) =
      rw (e, walk_params)
        (walk_param_lem n t (walk_params w k) e
          (walk_params_lem n k (w.gcc.field Tree.decl_chain t) more))

  pub walk_function_decl_args_lem :
      (n fn : ℕ)
      → Ends w.gcc w.links (w.gcc.field Tree.decl_arguments fn)
      → Steady n (walk_function_decl_args w fn)
  unfolding walk_function_decl_args
  walk_function_decl_args_lem n fn h =
      let rest = walk_params_lem n w.links (w.gcc.field Tree.decl_arguments fn) h in
      search (Steady-get, steady_rules, rest) depth 30 fits 3000
