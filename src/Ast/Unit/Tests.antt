-- ===== src/Ast/Unit/Tests.antt =====
-- The plugin on a small unit, and the theorems at it.
use ahaggar.Base.{
  ℕ, ◌≡◌, refl, sym, ◌∙◌, subst, true, false, none, some, List, [], ◌∷◌, ◌++◌, Run, ok, fault, ap,
  pos, codes, arith, inl, ◌&&◌,
}
use ahaggar.Buffer.Script.{flush, char, print}
use ahaggar.Cache.{update, entry, PmapNodes}
use ahaggar.Cache.Tests.{pairs}
use ahaggar.Cache.Pmap.{IsPmap, pmap_nodes_insert_lem, pmap_nodes_init_lem}
use ahaggar.Cache.Numbering.{with_node}
use ahaggar.Log.Session.{header, unit_name, closed}
use ahaggar.Log.{Os}
use ahaggar.Log.Tests.{
  full_disk, full_disk-name, full_disk-open, no_space, no_space-IsLawful, no_space-name, system,
  system-IsLawful, system-IsComplete, three,
}
use ahaggar.Tree.Codes.{◌is◌, code_tag}
use ahaggar.Ast.Options.Known.{all_known}
use ahaggar.Ast.Functions.Refused.{ahaggar_ast_main_refused}
use ahaggar.Tree.{Pdata, no_flags}
use ahaggar.Ast.{AstState}
use ahaggar.Ast.Tests.{sample, visit_one}
use ahaggar.Ast.Functions.{
  ahaggar_ast_main, ahg_ast_function, is_wanted, print_function, ahg_ast_decl_node, print_address,
  ahg_ast_analyze_body, ahg_ast_output_dump, ahg_ast_walk_body, is_function_body_ok, print_args,
  print_name,
}
use ahaggar.Cache.{
  pmap_nodes_insert, pmap_nodes_init, pmap_nodes_add, enqueue, empty_queue, free_entries,
  sptree_nodes_finish, sptree_nodes_init, sptree_nodes_set_root,
}
use ahaggar.Cache.Tests.{lookup_pair, any_pair}
use ahaggar.Tree.Output.{
  output_node_addr, output_code_name, output_decl_name, output_expr_code, output_location,
}
use ahaggar.Tree.Names.{
  is_function_decl, decl_name_text, get_decl_name, get_expr_code, get_location,
  is_node_in_main_input, local_text, location_is_unknown, location_node, location_of, location_text,
  node_has_location,
}
use ahaggar.Walk.Lists.{walk_function_decl_args, walk_param, walk_params}
use ahaggar.Ast.Unit.{
  Plugin, Compiled, Registered, main_at, ast_init, with_nodes, start_unit, finish_unit,
  each_function, plugin_init,
}
use ahaggar.Ast.Unit.Dumped.{Dumps, Parts, HasFreed, nothing_left, passed, dumped}
use ahaggar.Ast.Unit.Written.{joined, First, unit, unit-dumped, unit-written}
use ahaggar.Ast.Unit.Unopened.{CannotOpen, no_file, unit-unopened}
use ahaggar.Ast.Unit.Start.{Answers, plugin_init_lem}

-- Node 2 is no function.
abbrev a_parameter : Compiled
a_parameter = record { fn = 2; main_input = true; errors = 0 }

abbrev fresh : (os : Os) → os.State → Plugin pairs os
fresh os s = record (ast_init pairs os (codes "ahaggar_ast") 0 s) {
  options = record { to_files = true; only_main = false };
}

abbrev a_function : Compiled
a_function = record { fn = 1; main_input = true; errors = 0 }

abbrev behind_function : Pdata (AstState pairs)
behind_function = record {
  indent_level = 0;
  flags = record no_flags { verbose = true };
  calls =
      flush
      ∷ char b'\n'
      ∷ char b'<'
      ∷ print (codes "node")
      ∷ print (codes "> ")
      ∷ print (codes "f")
      ∷ char b'('
      ∷ print (codes "x")
      ∷ char b' '
      ∷ print (codes "x")
      ∷ print (codes ") ")
      ∷ print (codes "[a.c:7]")
      ∷ print (codes "x")
      ∷ char b'\n'
      ∷ [];
  extra = record {
    is_expr = false;
    print_location = false;
    symbol_prefix = [];
    pm_nodes = record {
      index = 1;
      entries = record {
        queue = 1;
        queue_end = 1;
        cells = update (λ b. none) 1 (some (entry 1 0));
        fresh = 2;
      };
      pmap = (1, 1) ∷ [];
    };
  };
}

function_dumped :
    (os : Os) (s : os.State)
    → main_at pairs os sample visit_one 2 0
        (fresh os s).options
        a_function
        (with_nodes pairs os (fresh os s)).walk_data
      ≡ ok (some (codes "\n<node> f(x x) [a.c:7]x\n"), behind_function)
unfolding ◌is◌ code_tag with_nodes ast_init ahaggar_ast_main ahg_ast_function is_wanted
    print_function ahg_ast_decl_node print_address ahg_ast_analyze_body ahg_ast_output_dump
    ahg_ast_walk_body is_function_body_ok print_args print_name pmap_nodes_insert pmap_nodes_init
    pmap_nodes_add enqueue empty_queue free_entries sptree_nodes_finish sptree_nodes_init
    sptree_nodes_set_root lookup_pair any_pair output_node_addr output_code_name output_decl_name
    output_expr_code output_location is_function_decl decl_name_text get_decl_name get_expr_code
    get_location is_node_in_main_input local_text location_is_unknown location_node location_of
    location_text node_has_location walk_function_decl_args walk_param walk_params
function_dumped os s = refl

abbrev function_text : List ℕ
function_text = codes "\n<node> f(x x) [a.c:7]x\n"

abbrev behind_unit : Pdata (AstState pairs)
behind_unit = record behind_function { calls = behind_function.calls ++ flush ∷ [] }

one_dumped :
    (os : Os) (s : os.State)
    → Dumps pairs os sample visit_one 2
        (fresh os s).options
        behind_unit
        0
        (with_nodes pairs os (fresh os s)).walk_data
        (a_function ∷ a_parameter ∷ [])
        (function_text ∷ [])
unfolding ast_init
one_dumped os s = dumped (function_dumped os s) (
    passed
      (ahaggar_ast_main_refused pairs sample visit_one 2 false true false 2 behind_function
        (inl (unfold is_function_decl ◌is◌ code_tag in refl)))
      nothing_left)

one_numbered :
    pmap_nodes_insert pairs (pmap_nodes_init pairs) 1 ≡ ok (1, behind_unit.extra.pm_nodes)
unfolding pmap_nodes_insert pmap_nodes_init pmap_nodes_add enqueue empty_queue lookup_pair
one_numbered = refl

abbrev nodes_of : Run (ℕ × PmapNodes pairs) → PmapNodes pairs
nodes_of fault = pmap_nodes_init pairs
nodes_of (ok r) = r.1

numbers-IsPmap : IsPmap pairs behind_unit.extra.pm_nodes (with_node [] 1)
numbers-IsPmap =
    let (nodes, inserted, numbers) =
      pmap_nodes_insert_lem pairs (pmap_nodes_init pairs) [] 1 (pmap_nodes_init_lem pairs)
        (omega arith) in
    subst (λ n. IsPmap pairs n (with_node [] 1)) (ap nodes_of (sym inserted ∙ one_numbered)) numbers

unit-dumped_example :
    (q : Plugin pairs system) × (unit system system-IsLawful 3 three pairs sample visit_one 2
        (λ path mode s. refl)
        (codes "a.c")
        (a_function ∷ a_parameter ∷ [])
        (fresh system (λ n. []))
      ≡ ok q)
    × (q.sys 3 ≡ header ++ joined (function_text ∷ []))
    × HasFreed pairs system behind_unit.extra.pm_nodes (with_node [] 1) numbers-IsPmap q
unfolding with_nodes ast_init
unit-dumped_example =
    unit-dumped system system-IsLawful 3 three pairs sample visit_one 2 (λ path mode s. refl)
      system-IsComplete (codes "a.c") (a_function ∷ a_parameter ∷ []) (fresh system (λ n. []))
      (function_text ∷ []) behind_unit (with_node [] 1) refl (one_dumped system (λ n. []))
      numbers-IsPmap (omega arith)

unit-written_example :
    (q : Plugin pairs no_space) × (bytes rest : List ℕ) × (unit no_space no_space-IsLawful 3 three
        pairs sample visit_one 2
        (λ path mode s. refl)
        (codes "a.c")
        (a_function ∷ a_parameter ∷ [])
        (fresh no_space (λ n. []))
      ≡ ok q)
    × First header bytes
    × Parts First (function_text ∷ []) rest
    × (q.sys 3 ≡ bytes ++ rest)
    × HasFreed pairs no_space behind_unit.extra.pm_nodes (with_node [] 1) numbers-IsPmap q
unfolding with_nodes ast_init
unit-written_example =
    unit-written no_space no_space-IsLawful 3 three pairs sample visit_one 2 (λ path mode s. refl)
      (codes "a.c") (codes "a.c.000.ahaggar_ast.log") (a_function ∷ a_parameter ∷ [])
      (fresh no_space (λ n. [])) (function_text ∷ []) behind_unit (with_node [] 1) (λ n. []) refl
      no_space-name (one_dumped no_space (λ n. [])) numbers-IsPmap (omega arith)

cannot_open : CannotOpen pairs full_disk (some (codes "a.c")) (λ n. [])
cannot_open =
    no_file (codes "a.c.000.ahaggar_ast.log") (λ n. []) (λ n. []) full_disk-name full_disk-open

unit-unopened_example :
    (q r : Plugin pairs full_disk) × (each_function pairs full_disk sample visit_one 2
        (a_parameter ∷ [])
        (start_unit pairs full_disk (some (codes "a.c")) (fresh full_disk (λ n. [])))
      ≡ ok q)
    × (q.sys ≡ (start_unit pairs full_disk (some (codes "a.c")) (fresh full_disk (λ n. []))).sys)
    × (finish_unit pairs full_disk 2 (some (codes "a.c")) q ≡ ok r)
    × (r.sys
        ≡ full_disk.print_error
            (codes "GCC plugin '"
              ++ (q.plugin_name
                  ++ (codes "' finished unit: " ++ (unit_name (some (codes "a.c")) ++ codes "\n"))))
            (closed full_disk (pos 0) q.sys))
unfolding ast_init
unit-unopened_example =
    unit-unopened pairs full_disk sample visit_one 2 (some (codes "a.c")) (a_parameter ∷ [])
      (fresh full_disk (λ n. [])) refl cannot_open (omega arith)

plugin_init_lem_example :
    (r : Registered pairs system) × (plugin_init pairs system true
        (codes "ahaggar_ast")
        (record { key = codes "output"; value = some (codes "files") } ∷ [])
        0
        (λ n. [])
      ≡ ok r)
    × Answers pairs system
        (codes "ahaggar_ast")
        (record { key = codes "output"; value = some (codes "files") } ∷ [])
        0
        (λ n. [])
        (true && all_known (record { key = codes "output"; value = some (codes "files") } ∷ []))
        r
plugin_init_lem_example =
    plugin_init_lem pairs system (codes "ahaggar_ast")
      (record { key = codes "output"; value = some (codes "files") } ∷ []) 0 (λ n. []) true
      ((codes "files", refl), tt)
