-- ===== src/Ast/Tests.antt =====
-- A few nodes of a tree: a function with a parameter and a body, a call, a conditional and a string; and
-- the theorems at them.
use ahaggar.Base.{
  ℕ, ◌≤◌, ◌≡◌, refl, true, false, some, List, [], ◌∷◌, ◌++◌, ok, if◌then◌else◌, ◌==◌, codes, arith,
  length, pos, negsuc,
}
use ahaggar.Buffer.Script.{print}
use ahaggar.Cache.{pmap_nodes_init}
use ahaggar.Cache.Tests.{pairs}
use ahaggar.Checks.{get_args_nr}
use ahaggar.Checks.Args.{IsArg}
use ahaggar.Instrument.{same_text}
use ahaggar.Tree
use ahaggar.Tree.{Act, Pdata, output, no_flags}
use ahaggar.Tree.Codes
use ahaggar.Tree.Codes.{Code, ◌is◌, code_tag}
use ahaggar.Tree.Constants.{get_string_cst}
use ahaggar.Tree.Constants.Reading.{read_back, get_string_cst-read_back}
use ahaggar.Walk.Lists.Separated.{shown, shown-output, Adds}
use ahaggar.Ast.{AstState, AstAct}
use ahaggar.Ast.Calls.{call_rest}
use ahaggar.Ast.Calls.Printed.{call_rest-get_args_nr}
use ahaggar.Ast.Options.{ast_plugin_process_args}
use ahaggar.Ast.Options.Known.{ast_plugin_process_args_lem}

-- 1 is a function, 2 its parameter, 3 the type of that, 4 the body, 5 what the body holds, 6 a call of
-- two arguments, 7 a conditional, 8 a string of twelve bytes, 9 a result.
abbrev code_at : ℕ → Code
code_at n =
    if n == 1
    then Codes.function_decl
    else if n == 2
    then Codes.parm_decl
    else if n == 4
    then Codes.bind_expr
    else if n == 6
    then Codes.call_expr
    else if n == 7
    then Codes.cond_expr
    else if n == 8
    then Codes.string_cst
    else if n == 9
    then Codes.result_decl
    else Codes.other_code n

abbrev field_at : Tree.Field → ℕ → ℕ
field_at Tree.decl_arguments n = if n == 1 then 2 else 0
field_at Tree.tree_type n = if n == 2 then 3 else 0
field_at Tree.decl_saved_tree n = if n == 1 then 4 else 0
field_at Tree.bind_expr_body n = if n == 4 then 5 else 0
field_at Tree.cond_expr_then n = if n == 7 then 3 else 0
field_at Tree.cond_expr_else n = if n == 7 then 5 else 0
field_at _ n = 0

abbrev text_at : Tree.Text → ℕ → List ℕ
text_at Tree.string_pointer n = codes "two \"lines\"\n" ++ 0 ∷ []
text_at _ n = codes "f"

abbrev pub sample : Tree.Gcc
sample = record {
  code = code_at;
  field = field_at;
  flag = λ f n. false;
  number = λ k n. 13;
  text = text_at;
  vec = λ n. [];
  statements = λ n. [];
  call_args = λ n. if n == 6 then 2 ∷ 3 ∷ [] else [];
  code_class = λ c. Tree.other_class;
  code_name = λ c. codes "node";
  code_prio = λ c. 1;
  op_symbol_code = λ c. codes "+";
  location_file = λ l. codes "a.c";
  location_line = λ l. codes "7";
  char_type_size = 8;
  short_type_size = 16;
  int_type_size = 32;
  long_type_size = 64;
  long_long_type_size = 64;
  is_power_of_two = λ n. true;
  is_long_type = λ n. false;
  is_long_long_type = λ n. false;
  input_location = 1;
  unknown_location = 0;
  error_mark_node = 100;
  void_list_node = 101;
  void_type_node = 102;
}

-- The walk on each part prints one byte.
abbrev pub visit_one : ℕ → AstAct pairs (Unit {0})
visit_one t = output (print (codes "x"))

abbrev prints_one : (t : ℕ) (p : Pdata (AstState pairs)) → Adds IsArg p (visit_one t p)
prints_one t p = record {
  behind = record p { calls = p.calls ++ print (codes "x") ∷ [] };
  text = codes "x";
  returns = refl;
  adds = shown-output p (print (codes "x"));
  holds = (refl, omega arith, omega arith);
}

abbrev pub at_first : Pdata (AstState pairs)
at_first = record {
  indent_level = 3;
  flags = no_flags;
  calls = print (codes "old") ∷ [];
  extra = record {
    is_expr = false;
    print_location = true;
    symbol_prefix = codes "&";
    pm_nodes = pmap_nodes_init pairs;
  };
}

call_rest-get_args_nr_example :
    (q : Pdata (AstState pairs)) × (text : List ℕ) × (call_rest pairs sample visit_one 2 6 at_first
      ≡ ok (pos 0, q))
    × (shown q ≡ codes "old" ++ text)
    × (get_args_nr 3 text ≡ ok 2)
call_rest-get_args_nr_example =
    call_rest-get_args_nr pairs sample visit_one 2 6 at_first refl refl refl
      (prints_one 2, (prints_one 3, tt)) (omega arith)

get_string_cst-read_back_example :
    (text : List ℕ) × (get_string_cst sample 8 ≡ ok text)
    × (read_back text ≡ codes "two \"lines...")
    × (length text ≤ 23)
get_string_cst-read_back_example =
    get_string_cst-read_back sample 8 refl (codes "two \"lines\"\n") [] refl (ground arith)

ast_plugin_process_args_lem_example :
    ast_plugin_process_args
      (record { key = codes "output"; value = some (codes "files") }
        ∷ record { key = codes "depth"; value = some [] }
        ∷ [])
      (record { to_files = false; only_main = false })
    ≡ ok (negsuc 0, record { to_files = true; only_main = false })
unfolding same_text
ast_plugin_process_args_lem_example =
    ast_plugin_process_args_lem
      (record { key = codes "output"; value = some (codes "files") }
        ∷ record { key = codes "depth"; value = some [] }
        ∷ [])
      (record { to_files = false; only_main = false })
      ((codes "files", refl), ((codes "", refl), tt))
