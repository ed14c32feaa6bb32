-- ===== src/Walk/Types.antt =====
-- walk-nodes.c: types.
use ahaggar.Base.{
  ℕ, zero, suc, Bool, true, false, List, ◌++◌, if◌then◌else◌, ◌==◌, ◌||◌, ◌&&◌, not, codes, ℤ,
}
use ahaggar.Buffer.Script.{char, print}
use ahaggar.Tree.Codes
use ahaggar.Tree.Codes.{◌is◌}
use ahaggar.Tree
use ahaggar.Tree.{
  Act, Pdata, ◌>>=◌, ◌>>◌, pure, skip, on, of_run, output, fail, done, unless_null, get_flags,
  Walker,
}
use ahaggar.Tree.Names.{get_type_quals, get_class_or_enum, get_tcc_type, get_decl_name}
use ahaggar.Tree.Output.{output_decl_name}
use ahaggar.Walk.Lists.{Walk, get, code_of, endless, walk_function_decl_node}

module _ (w : Walker) where
  -- `TYPE_NAME(t) && DECL_NAME(TYPE_NAME(t))`
  pub has_decl_name : ℕ → Act w.Extra Bool
  has_decl_name t = do
    name ← get w Tree.type_name t
    if name == 0 then pure false else (do decl ← get w Tree.decl_name name; pure (not (decl == 0)))

  pub decl_name_of : ℕ → Walk w
  decl_name_of decl = do flags ← get_flags; output_decl_name w.Extra w.gcc decl flags

  -- `<T%x>`
  pub type_uid : ℕ → Walk w
  type_uid t = output (print (codes "<T" ++ (w.gcc.text Tree.type_uid_hex t ++ codes ">")))

  pub method_base : ℕ → Walk w
  method_base fn = do
    tbase ← get w Tree.type_method_basetype fn
    if tbase == 0
        then output (print (codes "<null method basetype>"))
        else (do name ← get w Tree.type_name tbase; decl_name_of name)
    output (print (codes "::"))

  pub function_type_name : ℕ → Walk w
  function_type_name fn = do
    named ← has_decl_name fn
    flags ← get_flags
    if named
        then (do name ← get w Tree.type_name fn; decl_name_of name)
        else if flags.nouid
        then output (print (codes "<Txxxx>"))
        else type_uid fn

  pub walk_function_type_node : ℕ → Act w.Extra ℤ
  walk_function_type_node fn = unless_null fn (do
    type ← get w Tree.tree_type fn
    w.visit type
    output (char b' ')
    code ← code_of w fn
    if code is Codes.method_type then method_base fn else skip
    function_type_name fn
    r ← walk_function_decl_node w fn
    done)

  -- `min && max && integer_zerop(min) && host_integerp(max, 0)`
  pub is_sized : ℕ → ℕ → Bool
  is_sized min max =
      not (min == 0)
      && not (max == 0)
      && w.gcc.flag Tree.integer_zerop min
      && w.gcc.flag Tree.host_integerp max

  abbrev pub visit_some : ℕ → Walk w
  visit_some t = if t == 0 then skip else w.visit t

  pub walk_array_domain : ℕ → Act w.Extra ℤ
  walk_array_domain node = do
    output (char b'[')
    if node == 0 then (output (print (codes "<unknown>]")) >> done) else (do
      min ← get w Tree.type_min_value node
      max ← get w Tree.type_max_value node
      if is_sized min max
          then output (print (w.gcc.text Tree.max_plus_one max))
          else (do visit_some min; output (char b':'); visit_some max)
      output (char b']')
      done)

  -- The type below the array types.
  pub element_type : ℕ → ℕ → Act w.Extra ℕ
  element_type zero t = endless
  element_type (suc k) t = do
    code ← code_of w t
    elim (code is Codes.array_type) [
      | false ↦ pure t
      | true ↦ (do next ← get w Tree.tree_type t; element_type k next)
    ]

  -- The domains of the array types from one on.
  pub walk_domains : ℕ → ℕ → Walk w
  walk_domains zero t = endless
  walk_domains (suc k) t = do
    code ← code_of w t
    elim (code is Codes.array_type) [
      | false ↦ skip
      | true ↦ (do
        domain ← get w Tree.type_domain t
        r ← walk_array_domain domain
        next ← get w Tree.tree_type t
        walk_domains k next)
    ]

  pub walk_array_node : ℕ → Act w.Extra ℤ
  walk_array_node node = unless_null node (do
    type ← get w Tree.tree_type node
    tmp ← element_type w.links type
    w.visit tmp
    walk_domains w.links node
    done)

  -- `VECTOR_TYPE` and `COMPLEX_TYPE` have the type of their elements behind them.
  pub number_element : ℕ → Walk w
  number_element node = do
    code ← code_of w node
    if code is Codes.vector_type || code is Codes.complex_type
        then (do type ← get w Tree.tree_type node; w.visit type)
        else skip

  pub number_declaration : ℕ → Walk w
  number_declaration node = do
    name ← get w Tree.decl_name node
    flags ← get_flags
    if name == 0
        then output (print (codes "<unnamed>"))
        else output (print (get_decl_name w.gcc node flags ++ codes " "))

  pub number_type : ℕ → Walk w
  number_type node = do
    flags ← get_flags
    text ← of_run (get_tcc_type w.gcc node flags)
    output (print (text ++ codes " "))
    number_element node

  pub walk_number_types_node : ℕ → Act w.Extra ℤ
  walk_number_types_node node = unless_null node (do
    output (print (get_type_quals w.gcc node))
    elim (w.gcc.code_class (w.gcc.code node)) [
      | Tree.declaration_class ↦ number_declaration node
      | Tree.type_class ↦ number_type node
      | _ ↦ skip
    ]
    done)

  -- The pointed-to type is that of a function: the result, the name, and the arguments.
  pub pointer_to_function : ℕ → ℕ → List ℕ → Walk w
  pointer_to_function op0 tnode str = do
    tfn ← get w Tree.tree_type tnode
    w.visit tfn
    output (char b'(')
    output (print str)
    named ← has_decl_name op0
    if named then (do name ← get w Tree.type_name op0; decl_name_of name) else type_uid op0
    output (char b')')
    r ← walk_function_decl_node w tnode
    skip

  pub pointer_with : ℕ → List ℕ → Act w.Extra ℤ
  pointer_with op0 str = do
    tnode ← get w Tree.tree_type op0
    if tnode == 0
        then (output (print str) >> output (print (codes " <null type>")))
        else if w.gcc.code tnode is Codes.function_type
        then pointer_to_function op0 tnode str
        else (do w.visit tnode; output (print str); output (print (get_type_quals w.gcc op0)))
    done

  pub walk_pointer_reference_node : ℕ → Act w.Extra ℤ
  walk_pointer_reference_node node = unless_null node (
      if w.gcc.code node is Codes.pointer_type
      then pointer_with node (codes "*")
      else if w.gcc.code node is Codes.reference_type
      then pointer_with node (codes "&")
      else fail)

  pub walk_record_union_node : ℕ → Act w.Extra ℤ
  walk_record_union_node node = unless_null node (do
    kind ← of_run (get_class_or_enum w.gcc node)
    output (print (get_type_quals w.gcc node ++ (kind ++ codes " ")))
    name ← get w Tree.type_name node
    visit_some name
    done)
