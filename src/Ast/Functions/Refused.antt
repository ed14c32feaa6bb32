-- ===== src/Ast/Functions/Refused.antt =====
-- ahaggar-ast.c: what is not dumped.
use ahaggar.Base.{
  ℕ, ◌≡◌, Bool, true, false, none, [], ◌∷◌, ◌++◌, ok, ◌||◌, not, negsuc, ℤ, ◌⊎◌, inl, inr, refl,
}
use ahaggar.Buffer.Script.{flush}
use ahaggar.Cache.{TableOps}
use ahaggar.Tree
use ahaggar.Tree.{Pdata}
use ahaggar.Tree.Names.{is_function_decl}
use ahaggar.Ast.{AstState, AstAct}
use ahaggar.Ast.Functions.{is_wanted, ahg_ast_function, ahaggar_ast_main}

module _ (ops : TableOps) (g : Tree.Gcc) (visit : ℕ → AstAct ops (Unit {0})) (links : ℕ)
    (only_main main_input : Bool) where
  abbrev function : Bool → ℕ → AstAct ops ℤ
  function errors fn = ahg_ast_function ops g visit links errors only_main main_input fn

  main_of :
      (errors : Bool) (fn : ℕ) (p : Pdata (AstState ops))
      → function errors fn (record p { calls = p.calls ++ flush ∷ [] })
        ≡ ok (negsuc 0, record p { calls = p.calls ++ flush ∷ [] })
      → ahaggar_ast_main ops g visit links errors only_main main_input fn p
        ≡ ok (none, record p { calls = p.calls ++ flush ∷ [] })
  unfolding ahaggar_ast_main
  main_of errors fn p e = simp e

  function_stopped :
      (errors : Bool) (fn : ℕ) (p : Pdata (AstState ops))
      → (errors || not (is_function_decl g fn)) ≡ true
      → function errors fn p ≡ ok (negsuc 0, p)
  unfolding ahg_ast_function
  function_stopped errors fn p e = simp e

  function_unwanted :
      (fn : ℕ) (p : Pdata (AstState ops))
      → is_function_decl g fn ≡ true
      → is_wanted ops g visit links only_main main_input fn ≡ ok false
      → function false fn p ≡ ok (negsuc 0, p)
  unfolding ahg_ast_function
  function_unwanted fn p f e = simp (f, e)

  pub ahaggar_ast_main_refused :
      (errors : Bool) (fn : ℕ) (p : Pdata (AstState ops))
      → ((errors || not (is_function_decl g fn)) ≡ true)
        ⊎ ((is_function_decl g fn ≡ true)
            × (is_wanted ops g visit links only_main main_input fn ≡ ok false))
      → ahaggar_ast_main ops g visit links errors only_main main_input fn p
        ≡ ok (none, record p { calls = p.calls ++ flush ∷ [] })
  ahaggar_ast_main_refused errors fn p (inl e) =
      main_of errors fn p (function_stopped errors fn _ e)
  ahaggar_ast_main_refused true fn p (inr (f, e)) =
      main_of true fn p (function_stopped true fn _ refl)
  ahaggar_ast_main_refused false fn p (inr (f, e)) = main_of false fn p (function_unwanted fn _ f e)
