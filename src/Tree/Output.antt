-- ===== src/Tree/Output.antt =====
-- print-nodes.c: the texts of nodes, printed into the buffer of the plugin.
pub mod Level
use ahaggar.Base.{ℕ, List, [], ◌∷◌, ◌++◌, if◌then◌else◌, ◌==◌, ◌||◌, codes}
use ahaggar.Buffer.Script.{char, print}
use ahaggar.Tree.Codes
use ahaggar.Tree.Codes.{◌is◌}
use ahaggar.Tree
use ahaggar.Tree.{Act, ◌>>=◌, ◌>>◌, pure, skip, of_run, output, Pdata}
use ahaggar.Tree.Names.{get_expr_code, get_location, get_decl_name, get_function_name}
use ahaggar.Tree.Constants.{get_int_cst, get_string_cst}

module _ (X : Type 0) (g : Tree.Gcc) where
  abbrev pub Output : Type 0
  Output = Act X (Unit {0})

  unfoldable pub output_node_addr : ℕ → Tree.Dump → Output
  output_node_addr node flags =
      if flags.address || flags.stmtaddr
      then output (print (codes "<@" ++ (g.text Tree.address node ++ codes "> ")))
      else skip

  pub output_node_index : List ℕ → Output
  output_node_index index = output (print (b'@' ∷ (index ++ b' ' ∷ [])))

  -- __output_expr_code
  unfoldable pub output_code_name : ℕ → Output
  output_code_name expr = output (print (get_expr_code g expr))

  unfoldable pub output_expr_code : ℕ → Tree.Dump → Output
  output_expr_code node flags =
      if flags.verbose
      then (output (char b'<') >> output_code_name node >> output (print (codes "> ")))
      else skip

  pub output_var_parm_decl_code : ℕ → Tree.Dump → Output
  output_var_parm_decl_code node flags =
      if node == 0
      then skip
      else if g.code node is Codes.var_decl || g.code node is Codes.parm_decl
      then output_expr_code node flags
      else skip

  unfoldable pub output_location : ℕ → Output
  output_location t = do text ← of_run (get_location g t); output (print text)

  unfoldable pub output_decl_name : ℕ → Tree.Dump → Output
  output_decl_name decl flags = output (print (get_decl_name g decl flags))

  pub output_function_name : ℕ → Tree.Dump → Output
  output_function_name fn flags = do
    text ← of_run (get_function_name g fn flags)
    output (print text)

  pub output_int_cst : ℕ → Output
  output_int_cst int_cst = do text ← of_run (get_int_cst g int_cst); output (print text)

  pub output_string_cst : ℕ → Output
  output_string_cst string_cst = do
    output (char b'"')
    text ← of_run (get_string_cst g string_cst)
    output (print text)
    output (char b'"')
