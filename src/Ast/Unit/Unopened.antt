-- ===== src/Ast/Unit/Unopened.antt =====
-- ahaggar-ast.c: a unit whose log file cannot be opened.
use ahaggar.Base.{
  ℕ, ◌+◌, ◌<◌, ◌≡◌, refl, sym, ap, ◌∙◌, subst, true, Option, none, some, List, [], ◌∷◌, ◌++◌, Run,
  ok, ◌>>=◌, negsuc, ◌==◌, ◌||◌, not, arith, codes, inl,
}
use ahaggar.Buffer.Script.{flush}
use ahaggar.Cache.{TableOps, pmap_nodes_init}
use ahaggar.Cache.Pmap.{IsPmap, pmap_nodes_init_lem, pmap_nodes_finish_lem}
use ahaggar.Log.Session.{unit_name, closed}
use ahaggar.Log.{Os, get_file_perms, get_logname, open_log}
use ahaggar.Tree
use ahaggar.Tree.{Pdata}
use ahaggar.Tree.Names.{is_function_decl}
use ahaggar.Ast.{AstAct}
use ahaggar.Ast.Functions.Refused.{ahaggar_ast_main_refused}
use ahaggar.Ast.Unit.Order.{started_file}
use ahaggar.Ast.Unit.{
  Plugin, Compiled, complain, say, opened_log, named_log, with_nodes, start_unit, finish_unit,
  handed, pre_genericize, each_function,
}

module _ (ops : TableOps) (os : Os) where
  -- No name for the log, or no file under the name.
  pub data CannotOpen (input : Option (List ℕ)) (s : os.State) : Type 0 where
    no_name :
        (t : os.State)
        → get_logname os input 0 (codes "ahaggar_ast.log") s ≡ (none, t)
        → CannotOpen input s
    no_file :
        (file : List ℕ) (t u : os.State)
        → get_logname os input 0 (codes "ahaggar_ast.log") s ≡ (some file, t)
        → open_log os file (get_file_perms os input s) t ≡ (negsuc 0, u)
        → CannotOpen input s

  -- What is left of a start that gave an error.
  record Complained (p q : Plugin ops os) : Type 0 where
    count : q.errorcount ≡ p.errorcount + 1
    nodes : q.has_nodes ≡ true
    at : q.fd ≡ p.fd
    made : q.walk_data.extra.pm_nodes ≡ pmap_nodes_init ops

  complain_lem :
      (text : List ℕ) (p : Plugin ops os) (s : os.State)
      → Complained p (complain ops os text (record (with_nodes ops os p) { sys = s }))
  unfolding complain with_nodes
  complain_lem text p s = record { count = refl; nodes = refl; at = refl; made = refl }

  abbrev named : Option (List ℕ) → Plugin ops os → Option (List ℕ) × os.State → Plugin ops os
  named input p r = named_log ops os input (get_file_perms os input p.sys) (with_nodes ops os p) r

  named-Complained :
      (input : Option (List ℕ)) (p : Plugin ops os)
      → CannotOpen input p.sys
      → Complained p (named input p (get_logname os input 0 (codes "ahaggar_ast.log") p.sys))
  unfolding named_log opened_log
  named-Complained input p (no_name t e) =
      subst (λ r. Complained p (named input p r)) (sym e) (complain_lem _ p t)
  named-Complained input p (no_file file t u e k) =
      subst (λ r. Complained p (named input p r)) (sym e)
        (subst (λ r. Complained p (opened_log ops os input file (with_nodes ops os p) r)) (sym k)
          (complain_lem _ p u))

  start_unit-Complained :
      (input : Option (List ℕ)) (p : Plugin ops os)
      → p.options.to_files ≡ true
      → CannotOpen input p.sys
      → Complained p (start_unit ops os input p)
  start_unit-Complained input p f cannot =
      subst (Complained p) (sym (started_file ops os input p f)) (named-Complained input p cannot)

  module _ (g : Tree.Gcc) (visit : ℕ → AstAct ops (Unit {0})) (links : ℕ) where
    -- The functions passed by: only the buffer and the error count changed.
    record Passed (p : Plugin ops os) (r : Run (Plugin ops os)) : Type 0 where
      behind : Plugin ops os
      returns : r ≡ ok behind
      system : behind.sys ≡ p.sys
      at : behind.fd ≡ p.fd
      nodes : behind.has_nodes ≡ p.has_nodes
      numbers : behind.walk_data.extra ≡ p.walk_data.extra

    one_passed :
        (c : Compiled) (p : Plugin ops os)
        → p.has_nodes ≡ true
        → 0 < p.errorcount
        → pre_genericize ops os g visit links c p
          ≡ ok (record p {
            errorcount = p.errorcount + c.errors;
            walk_data = record p.walk_data { calls = p.walk_data.calls ++ flush ∷ [] };
          })
    unfolding pre_genericize handed
    one_passed c p n some_error =
        let met : (not (p.errorcount + c.errors == 0)) ≡ true = ground arith in
        let main =
          ahaggar_ast_main_refused ops g visit links p.options.only_main c.main_input
            (not (p.errorcount + c.errors == 0)) c.fn p.walk_data
            (inl (ap (λ b. b || not (is_function_decl g c.fn)) met)) in
        simp (n, main)

    all-Passed :
        (cs : List Compiled) (p : Plugin ops os)
        → p.has_nodes ≡ true
        → 0 < p.errorcount
        → Passed p (each_function ops os g visit links cs p)
    unfolding each_function
    all-Passed [] p n some_error = record {
      behind = p;
      returns = refl;
      system = refl;
      at = refl;
      nodes = refl;
      numbers = refl;
    }
    all-Passed (c ∷ more) p n some_error =
        let q = record p {
          errorcount = p.errorcount + c.errors;
          walk_data = record p.walk_data { calls = p.walk_data.calls ++ flush ∷ [] };
        } in
        let rest = all-Passed more q n (omega arith) in
        record {
          behind = rest.behind;
          returns =
              ap (λ r. r >>= each_function ops os g visit links more) (one_passed c p n some_error)
              ∙ rest.returns;
          system = rest.system;
          at = rest.at;
          nodes = rest.nodes;
          numbers = rest.numbers;
        }

    -- Whatever the calls of the system do: where a plugin that writes to files gets no name for its
    -- log, or cannot open it, the callbacks for the functions return and leave the system as
    -- start_unit left it, so that nothing is written; and at the end of the unit the descriptor that
    -- the plugin had before is synchronised and closed, unless it is that of standard error.
    pub unit-unopened :
        (input : Option (List ℕ)) (cs : List Compiled) (p : Plugin ops os)
        → p.options.to_files ≡ true
        → CannotOpen input p.sys
        → 1 < links
        → (q r : Plugin ops os) × (each_function ops os g visit links cs (start_unit ops os input p)
            ≡ ok q)
          × (q.sys ≡ (start_unit ops os input p).sys)
          × (finish_unit ops os links input q ≡ ok r)
          × (r.sys
              ≡ os.print_error
                  (codes "GCC plugin '"
                    ++ (q.plugin_name
                        ++ (codes "' finished unit: " ++ (unit_name input ++ codes "\n"))))
                  (closed os p.fd q.sys))
    unfolding finish_unit say
    unit-unopened input cs p f cannot bound =
        let start = start_unit-Complained input p f cannot in
        let run =
          all-Passed cs (start_unit ops os input p) start.nodes (omega (arith, start.count)) in
        let q = run.behind in
        let made : q.walk_data.extra.pm_nodes ≡ pmap_nodes_init ops =
          ap (λ x. x.pm_nodes) run.numbers ∙ start.made in
        let (left, freed, owned) =
          pmap_nodes_finish_lem ops q.walk_data.extra.pm_nodes [] links
            (subst (λ n. IsPmap ops n []) (sym made) (pmap_nodes_init_lem ops)) (omega arith) in
        let at : q.fd ≡ p.fd = run.at ∙ start.at in
        let text =
          codes "GCC plugin '"
          ++ (q.plugin_name ++ (codes "' finished unit: " ++ (unit_name input ++ codes "\n"))) in
        (
          q,
          say ops os (codes "' finished unit: " ++ (unit_name input ++ codes "\n"))
              (record q { has_nodes = left.live; left = some left; sys = closed os q.fd q.sys }),
          run.returns,
          run.system,
          simp (run.nodes ∙ start.nodes, freed),
          ap (λ fd. os.print_error text (closed os fd q.sys)) at,
        )
