-- ===== src/Walk/Decls.antt =====
-- walk-nodes.c: declarations.
use ahaggar.Base.{ℕ, ◌++◌, if◌then◌else◌, ◌==◌, ◌&&◌, not, codes, ℤ}
use ahaggar.Buffer.Script.{char, print}
use ahaggar.Tree.Codes
use ahaggar.Tree.Codes.{◌is◌}
use ahaggar.Tree
use ahaggar.Tree.{
  Act, Pdata, ◌>>=◌, ◌>>◌, pure, skip, on, of_run, output, fail, done, unless_null, get_flags,
  Walker,
}
use ahaggar.Tree.Names.{get_type_declaration, get_class_or_enum}
use ahaggar.Walk.Lists.{Walk, get, code_of, blank, walk_function_decl_args}
use ahaggar.Walk.Types.{decl_name_of, element_type, walk_domains}

module _ (w : Walker) where
  -- A variable of an array type: the type of the elements, the node, and the domains.
  pub array_variable : ℕ → ℕ → Walk w
  array_variable node type = do
    element ← element_type w w.links type
    w.visit element
    blank
    w.visit node
    walk_domains w w.links type

  -- The source gives the type of the function to `walk_function_decl_args`.
  pub function_prototype : ℕ → ℕ → Walk w
  function_prototype node type = do
    result ← get w Tree.tree_type type
    w.visit result
    blank
    decl_name_of w node
    r ← walk_function_decl_args w type
    skip

  -- The first part of `walk_declaration_node`.
  pub typed_name : ℕ → Walk w
  typed_name node = do
    type ← get w Tree.tree_type node
    code ← code_of w node
    if not (type == 0) && w.gcc.code type is Codes.array_type
        then array_variable node type
        else if code is Codes.function_decl
        then function_prototype node type
        else (do w.visit type; blank; w.visit node)

  pub asm_name : ℕ → Walk w
  asm_name node = do
    tasm ← get w Tree.decl_assembler_name node
    output (print (codes " __asm__("))
    w.visit tasm
    output (char b')')

  pub initial_value : ℕ → Walk w
  initial_value node = do
    initial ← get w Tree.decl_initial node
    if initial == 0 then skip else (do output (print (codes " = ")); w.visit initial)

  pub value_of : ℕ → Walk w
  value_of node = do
    expr ← get w Tree.decl_value_expr node
    output (print (codes "<value: "))
    w.visit expr
    output (char b'>')

  pub walk_declaration_node : ℕ → Act w.Extra ℤ
  walk_declaration_node node = unless_null node (do
    output (print (get_type_declaration w.gcc node))
    typed_name node
    let code = w.gcc.code node
    if code is Codes.var_decl && w.gcc.flag Tree.decl_hard_register node
        then asm_name node
        else skip
    if code is Codes.function_decl then skip else initial_value node
    if code is Codes.var_decl && w.gcc.flag Tree.decl_has_value_expr_p node
        then value_of node
        else skip
    done)

  pub other_type : ℕ → Walk w
  other_type node = do
    type ← get w Tree.tree_type node
    name ← get w Tree.type_name type
    if name == node then skip else (do
      kind ← of_run (get_class_or_enum w.gcc node)
      output (print (kind ++ codes " "))
      w.visit type)

  pub walk_type_declaration_node : ℕ → Act w.Extra ℤ
  walk_type_declaration_node node = unless_null node (
      if w.gcc.flag Tree.decl_is_builtin node then done else (do
        name ← get w Tree.decl_name node
        if name == 0 then skip else decl_name_of w node
        other_type node
        done))

  pub label_number : ℕ → Walk w
  label_number node = do
    flags ← get_flags
    if not (w.gcc.flag Tree.label_uid_unknown node)
        then output (print (codes "<L" ++ (w.gcc.text Tree.label_decl_uid node ++ codes ">")))
        else if flags.nouid
        then output (print (codes "<D.xxxx>"))
        else output (print (codes "<D." ++ (w.gcc.text Tree.decl_uid node ++ codes ">")))

  pub walk_label_declaration_node : ℕ → Act w.Extra ℤ
  walk_label_declaration_node node = unless_null node (do
    name ← get w Tree.decl_name node
    if name == 0 then label_number node else decl_name_of w node
    done)
