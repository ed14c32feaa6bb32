-- ===== src/Ast/Functions/Written.antt =====
-- ahaggar-ast.c: a function that is to be dumped is written, and nothing else is.
use ahaggar.Base.{
  ℕ, zero, suc, ◌+◌, ◌<◌, ◌≡◌, refl, ap, ◌∙◌, Bool, true, false, Option, some, List, [], ◌∷◌, ◌++◌,
  append_assoc, Run, ok, ◌==◌, ℤ, pos, u32_mod, arith, length,
}
use ahaggar.Buffer.Script.{Call, char, flush, meanings-append}
use ahaggar.Cache.{TableOps, PmapNodes}
use ahaggar.Cache.Numbering.{with_node, index_in, index_in-with_node, length-with_node}
use ahaggar.Cache.Pmap.{IsPmap, pmap_nodes_insert_lem}
use ahaggar.Tree
use ahaggar.Tree.{Act, Pdata, ◌>>=◌, ◌>>◌, after, output, no_flags, of_run, done, Walker}
use ahaggar.Tree.Codes
use ahaggar.Tree.Codes.{◌is◌, code_tag}
use ahaggar.Tree.Names.{is_function_decl, local_text}
use ahaggar.Tree.Names.Location.{is_function_decl_lem}
use ahaggar.Tree.Steady.{Steady, Kept}
use ahaggar.Walk.Lists.Params.{Ends}
use ahaggar.Ast.{AstState, AstAct, walker, insert_node, numbered}
use ahaggar.Ast.Functions.{
  ahg_ast_decl_node, ahg_ast_analyze_body, is_wanted, print_function, ahg_ast_function,
  ahg_ast_output_dump, ahaggar_ast_main,
}
use ahaggar.Ast.Functions.Level.{
  print_name_lem, print_address_lem, print_args_lem, ahg_ast_analyze_body_lem,
}

Ends-links : (g : Tree.Gcc) (k t : ℕ) → Ends g k t → 0 < k
Ends-links g zero t h = absurd h
Ends-links g (suc k) t h = omega arith

module _ (ops : TableOps) (g : Tree.Gcc) (visit : ℕ → AstAct ops (Unit {0})) (links : ℕ)
    (visits : (n t : ℕ) → Steady n (visit t)) where
  abbrev w : Walker
  w = walker ops g visit links

  abbrev P : Type 0
  P = Pdata (AstState ops)

  -- What is kept from one state to another, and the calls that are added between them.
  record Grows (p q : P) : Type 0 where
    added : List Call
    level : q.indent_level ≡ p.indent_level
    flags : q.flags ≡ p.flags
    calls : q.calls ≡ p.calls ++ added

  Grows-trans : {p q r : P} → Grows p q → Grows q r → Grows p r
  Grows-trans {p} one two = record {
    added = one.added ++ two.added;
    level = two.level ∙ one.level;
    flags = two.flags ∙ one.flags;
    calls =
        two.calls ∙ ap (λ cs. cs ++ two.added) one.calls ∙ append_assoc p.calls one.added two.added;
  }

  Grows-Kept : {A : Type 0} {p : P} {r : Run (A × P)} (k : Kept p r) → Grows p k.behind
  Grows-Kept k = record { added = k.added; level = k.level; flags = k.flags; calls = k.calls }

  -- The same where what else the plugin keeps was changed before.
  Grows-at :
      {A : Type 0} {p : P} {x : AstState ops} {r : Run (A × P)}
      (k : Kept (record p { extra = x }) r)
      → Grows p k.behind
  Grows-at k = record { added = k.added; level = k.level; flags = k.flags; calls = k.calls }

  -- A function that gives 0.
  abbrev Succeeds : P → Run (ℤ × P) → Type 0
  Succeeds p r = (q : P) × (r ≡ ok (pos 0, q)) × Grows p q

  -- A node is numbered, and nothing but the numbers changes.
  numbered_lem :
      (node : ℕ) (p : P) (xs : List ℕ)
      → (node == 0) ≡ false
      → IsPmap ops p.extra.pm_nodes xs
      → length xs + 1 < u32_mod
      → (index : ℕ) × (nodes : PmapNodes ops) × (insert_node {ops = ops} node p
          ≡ ok (index, record p { extra = record p.extra { pm_nodes = nodes } }))
        × ((index == 0) ≡ false)
        × IsPmap ops nodes (with_node xs node)
  numbered_lem node p xs e v bound =
      let (nodes, returns, more) = pmap_nodes_insert_lem ops p.extra.pm_nodes xs node v bound in
      (
        index_in (with_node xs node) node,
        nodes,
        ap (λ r. numbered r p) returns,
        index_in-with_node xs node e,
        more,
      )

  -- The name is printed, and 0 is given.
  decl_node_lem :
      (fn : ℕ) (p : P) (xs : List ℕ)
      → (fn == 0) ≡ false
      → is_function_decl g fn ≡ true
      → p.indent_level < u32_mod
      → IsPmap ops p.extra.pm_nodes xs
      → length xs + 1 < u32_mod
      → Succeeds p (ahg_ast_decl_node ops g visit links fn p)
  unfolding ahg_ast_decl_node
  decl_node_lem fn p xs e f small v bound =
      let (index, nodes, inserted, some_index, more) = numbered_lem fn p xs e v bound in
      let q = record p { extra = record p.extra { pm_nodes = nodes } } in
      let one = (print_address_lem ops g visit links visits p.indent_level fn).at small q refl in
      let two =
        (print_name_lem ops g visit links visits p.indent_level fn).at small one.behind one.level in
      (
        two.behind,
        simp (e, f, inserted, some_index, one.returns, two.returns),
        Grows-trans (Grows-at one) (Grows-Kept two),
      )

  print_function_lem :
      (fn : ℕ) (p : P)
      → p.indent_level < u32_mod
      → Succeeds p (ahg_ast_decl_node ops g visit links fn p)
      → (g.code fn is Codes.overload) ≡ false
      → Ends g links (g.field Tree.decl_arguments fn)
      → Succeeds p (print_function ops g visit links fn p)
  unfolding print_function
  print_function_lem fn p small (q, named, grown) o ends =
      let run =
        (print_args_lem ops g visit links visits p.indent_level fn o ends).at small
          (record q { flags = no_flags }) grown.level in
      let r = record run.behind { flags = q.flags } in
      (
        r,
        simp (named, run.returns),
        Grows-trans grown
            record { added = run.added; level = run.level; flags = refl; calls = run.calls },
      )

  module _ (only_main main_input : Bool) where
    ahg_ast_function_lem :
        (fn : ℕ) (p : P) (xs : List ℕ)
        → (fn == 0) ≡ false
        → g.code fn ≡ Codes.function_decl
        → is_wanted ops g visit links only_main main_input fn ≡ ok true
        → Ends g links (g.field Tree.decl_arguments fn)
        → p.indent_level < u32_mod
        → IsPmap ops p.extra.pm_nodes xs
        → length xs + 2 < u32_mod
        → Succeeds p (ahg_ast_function ops g visit links false only_main main_input fn p)
    unfolding ahg_ast_function
    ahg_ast_function_lem fn p xs e code wanted ends small v bound =
        let (index, nodes, inserted, some_index, more) = numbered_lem fn p xs e v (omega arith) in
        let q = record p { extra = record p.extra { pm_nodes = nodes } } in
        let fun : is_function_decl g fn ≡ true = is_function_decl_lem g fn e code in
        let named =
          decl_node_lem fn q (with_node xs fn) e fun small more
            (omega (arith, length-with_node xs fn)) in
        let (r, printed, grown) =
          print_function_lem fn q small named
            (ap (λ c. c is Codes.overload) code ∙ (unfold ◌is◌ code_tag in refl)) ends in
        (
          r,
          simp (fun, wanted, inserted, some_index, printed),
          record {
            added = grown.added;
            level = grown.level;
            flags = grown.flags;
            calls = grown.calls;
          },
        )

    main_returns :
        (fn : ℕ) (p q r : P) (result : ℤ)
        → ahg_ast_function ops g visit links false only_main main_input fn
            (record p { calls = p.calls ++ flush ∷ [] })
          ≡ ok (pos 0, q)
        → ahg_ast_analyze_body ops g visit links fn q ≡ ok (result, r)
        → ahaggar_ast_main ops g visit links false only_main main_input fn p
          ≡ ok (
            some (local_text (r.calls ++ char b'\n' ∷ [])),
            record r { calls = r.calls ++ char b'\n' ∷ [] },
          )
    unfolding ahaggar_ast_main ahg_ast_output_dump
    main_returns fn p q r result printed walked = simp (printed, walked)

    -- A text that was written from a state: the calls behind `flush` make it.
    pub record Written (p : P) (r : Run (Option (List ℕ) × P)) : Type 0 where
      pub behind : P
      pub added : List Call
      pub returns : r ≡ ok (some (local_text added), behind)
      pub level : behind.indent_level ≡ p.indent_level
      pub flags : behind.flags ≡ p.flags
      pub calls : behind.calls ≡ p.calls ++ flush ∷ added

    -- For a FUNCTION_DECL that is asked for, without an error so far, whose parameters end within the
    -- bound on chains, at a depth that is an unsigned int and with room for two more numbers,
    -- ahaggar_ast_main hands a text to write, if the walk on every node, at every level, returns, keeps
    -- the depth and the flags and only adds to what is printed: the text is some that was printed since
    -- the buffer was flushed; the depth of the walk and the flags are as before.
    pub ahaggar_ast_main-Written :
        (fn : ℕ) (p : P) (xs : List ℕ)
        → (fn == 0) ≡ false
        → g.code fn ≡ Codes.function_decl
        → is_wanted ops g visit links only_main main_input fn ≡ ok true
        → Ends g links (g.field Tree.decl_arguments fn)
        → p.indent_level < u32_mod
        → IsPmap ops p.extra.pm_nodes xs
        → length xs + 2 < u32_mod
        → Written p (ahaggar_ast_main ops g visit links false only_main main_input fn p)
    ahaggar_ast_main-Written fn p xs e code wanted ends small v bound =
        let start = record p { calls = p.calls ++ flush ∷ [] } in
        let (q, printed, grown) =
          ahg_ast_function_lem fn start xs e code wanted ends small v bound in
        let body =
          (ahg_ast_analyze_body_lem ops g visit links visits p.indent_level fn
              (Ends-links g links _ ends)).at
            small q grown.level in
        let all = Grows-trans grown (Grows-Kept body) in
        let last = record body.behind { calls = body.behind.calls ++ char b'\n' ∷ [] } in
        let added = all.added ++ char b'\n' ∷ [] in
        let calls : last.calls ≡ p.calls ++ flush ∷ added =
          ap (λ cs. cs ++ char b'\n' ∷ []) all.calls
          ∙ append_assoc (p.calls ++ flush ∷ []) all.added (char b'\n' ∷ [])
          ∙ append_assoc p.calls (flush ∷ []) added in
        let text : local_text last.calls ≡ local_text added =
          ap local_text calls ∙ (unfold local_text in meanings-append p.calls (flush ∷ added) []) in
        record {
          behind = last;
          added = added;
          returns =
              main_returns fn p q body.behind body.result printed body.returns
              ∙ ap (λ t. ok (some t, last)) text;
          level = all.level;
          flags = all.flags;
          calls = calls;
        }
