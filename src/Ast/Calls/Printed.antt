-- ===== src/Ast/Calls/Printed.antt =====
-- ahaggar-ast.c: the arguments of a call as they are printed, read by the scanner of arguments of
-- the checks.
use ahaggar.Base.{
  arith, ℕ, ◌<◌, ◌^◌, suc, ◌≡◌, refl, sym, ap, ◌∙◌, List, [], ◌∷◌, ◌++◌, append_assoc, append-nil,
  ok, length, codes, Bool, true, false, if◌then◌else◌, ◌==◌, pos,
}
use ahaggar.Buffer.Script.{Call, char, print}
use ahaggar.Cache.{TableOps}
use ahaggar.Tree
use ahaggar.Tree.{Act, Pdata, ◌>>=◌, ◌>>◌, after, output, Walker}
use ahaggar.Checks.{get_args_nr}
use ahaggar.Checks.Args.{joined, call_text, get_args_nr_lem}
use ahaggar.Walk.Lists.{walk_elements}
use ahaggar.Walk.Lists.Separated.{shown, shown-output, ArePrinted, separated, walk_elements_lem}
use ahaggar.Ast.{AstState, AstAct, walker}
use ahaggar.Ast.Calls.{ahg_ast_walk_call_args, static_chain, call_rest, note_if}

joined-separated :
    (args : List (List ℕ)) (rest : List ℕ) → separated args ++ b')' ∷ rest ≡ joined args rest
joined-separated [] rest = refl
joined-separated (a ∷ []) rest = refl
joined-separated (a ∷ b ∷ more) rest =
    append_assoc a (b',' ∷ b' ' ∷ separated (b ∷ more)) (b')' ∷ rest)
    ∙ ap (λ t. a ++ b',' ∷ b' ' ∷ t) (joined-separated (b ∷ more) rest)

reassociate :
    (s inner more last : List ℕ)
    → ((((s ++ b'(' ∷ []) ++ inner) ++ b')' ∷ []) ++ more) ++ last
      ≡ s ++ b'(' ∷ (inner ++ b')' ∷ (more ++ last))
reassociate s inner more last = simp (append_assoc)

module _ (ops : TableOps) (g : Tree.Gcc) (visit : ℕ → AstAct ops (Unit {0})) (links : ℕ) where
  abbrev written : Pdata (AstState ops) → Call → Pdata (AstState ops)
  written p c = record p { calls = p.calls ++ c ∷ [] }

  abbrev noted : Bool → List ℕ → Pdata (AstState ops) → Pdata (AstState ops)
  noted b text p = if b then written p (print text) else p

  abbrev note : Bool → List ℕ → List ℕ
  note b text = if b then text else []

  note_if_lem :
      (b : Bool) (text : List ℕ) (p : Pdata (AstState ops))
      → note_if ops g visit links b text p ≡ ok (tt, noted b text p)
  note_if_lem true text p = refl
  note_if_lem false text p = refl

  shown-noted :
      (b : Bool) (text : List ℕ) (p : Pdata (AstState ops))
      → shown (noted b text p) ≡ shown p ++ note b text
  shown-noted true text p = shown-output p (print text)
  shown-noted false text p = sym (append-nil _)

  abbrev pub w : Walker
  w = walker ops g visit links

  module _ where
    call_args_lem :
        (node : ℕ) (p q : Pdata (AstState ops))
        → (node == 0) ≡ false
        → g.flag Tree.call_expr_va_arg_pack node ≡ false
        → walk_elements w (g.call_args node) p ≡ ok (tt, q)
        → ahg_ast_walk_call_args ops g visit links node p ≡ ok (tt, q)
    unfolding ahg_ast_walk_call_args
    call_args_lem node p q e va r = simp (e, va, r)

    static_chain_lem :
        (node : ℕ) (p : Pdata (AstState ops))
        → (node == 0) ≡ false
        → (g.field Tree.call_expr_static_chain node == 0) ≡ true
        → static_chain ops g visit links node p ≡ ok (tt, p)
    unfolding static_chain
    static_chain_lem node p e ch = simp (e, ch)

    -- The notes behind a call.
    abbrev notes : ℕ → List ℕ
    notes node =
        note (g.flag Tree.call_expr_return_slot_opt node) (codes "[return slot optimization] ")
        ++ note (g.flag Tree.call_expr_tailcall node) (codes "[tail call] ")

    abbrev Counted : ℕ → Pdata (AstState ops) → Type 0
    Counted node p =
        (q : Pdata (AstState ops)) × (text : List ℕ) × (call_rest ops g visit links node p
          ≡ ok (pos 0, q))
        × (shown q ≡ shown p ++ text)
        × (get_args_nr (suc (length (g.call_args node))) text ≡ ok (length (g.call_args node)))

    -- For a call without a static chain or an argument pack, with fewer than 2^31 arguments, where the
    -- walk on each node among its arguments returns from any state and adds an argument text to the
    -- buffer: behind the name of the call ahg_ast_call_aggr_init prints a text on which get_args_nr
    -- gives the number of arguments of the call.
    pub call_rest-get_args_nr :
        (node : ℕ) (p : Pdata (AstState ops))
        → (node == 0) ≡ false
        → g.flag Tree.call_expr_va_arg_pack node ≡ false
        → (g.field Tree.call_expr_static_chain node == 0) ≡ true
        → ArePrinted w (g.call_args node)
        → length (g.call_args node) < 2 ^ 31
        → Counted node p
    unfolding call_rest
    call_rest-get_args_nr node p e va ch prints few =
        let slot = g.flag Tree.call_expr_return_slot_opt node in
        let tail = g.flag Tree.call_expr_tailcall node in
        let r = walk_elements_lem w (g.call_args node) (written p (char b'(')) prints in
        let q1 = written r.behind (print (codes ")")) in
        let q2 = noted slot (codes "[return slot optimization] ") q1 in
        let q3 = noted tail (codes "[tail call] ") q2 in
        (
          q3,
          call_text r.args (notes node),
          simp (
            call_args_lem node _ r.behind e va r.returns,
            static_chain_lem node q1 e ch,
            note_if_lem slot (codes "[return slot optimization] ") q1,
            note_if_lem tail (codes "[tail call] ") q2,
          ),
          (shown-noted tail (codes "[tail call] ") q2
              ∙ ap (λ t. t ++ note tail (codes "[tail call] "))
                  (shown-noted slot (codes "[return slot optimization] ") q1
                    ∙ ap (λ t. t ++ note slot (codes "[return slot optimization] "))
                        (shown-output r.behind (print (codes ")"))
                          ∙ ap (λ t. t ++ codes ")")
                              (r.adds
                                ∙ ap (λ t. t ++ separated r.args) (shown-output p (char b'(')))))
              ∙ reassociate (shown p) (separated r.args)
                  (note slot (codes "[return slot optimization] "))
                  (note tail (codes "[tail call] "))
              ∙ ap (λ t. shown p ++ b'(' ∷ t) (joined-separated r.args (notes node))),
          get_args_nr_lem r.args (notes node) _ r.all (omega (arith, r.many))
                (omega (arith, r.many))
              ∙ ap ok r.many,
        )
