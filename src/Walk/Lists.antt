-- ===== src/Walk/Lists.antt =====
-- walk-nodes.c: lists of statements, of values and of arguments.
pub mod Separated
pub mod Params
pub mod Level
use ahaggar.Base.{
  ℕ, zero, suc, Bool, true, false, List, [], ◌∷◌, fault, if◌then◌else◌, ◌==◌, ◌||◌, ◌&&◌, not,
  codes, ℤ,
}
use ahaggar.Buffer.Script.{char, print}
use ahaggar.Tree.Codes
use ahaggar.Tree.Codes.{◌is◌}
use ahaggar.Tree
use ahaggar.Tree.{Act, Pdata, ◌>>=◌, ◌>>◌, pure, skip, on, output, fail, done, unless_null, Walker}

abbrev pub comma : {X : Type 0} → Act X (Unit {0})
comma = output (print (codes ", "))

abbrev pub blank : {X : Type 0} → Act X (Unit {0})
blank = output (char b' ')

-- The loop over a chain ran longer than the links allow.
abbrev pub endless : {X A : Type 0} → Act X A
endless p = fault

module _ (w : Walker) where
  abbrev pub Walk : Type 0
  Walk = Act w.Extra (Unit {0})

  -- A field of a node.
  abbrev pub get : Tree.Field → ℕ → Act w.Extra ℕ
  get f = on (w.gcc.field f)

  abbrev pub code_of : ℕ → Act w.Extra Codes.Code
  code_of = on w.gcc.code

  pub visit_each : List ℕ → Walk
  visit_each [] = skip
  visit_each (si ∷ more) = do w.visit si; visit_each more

  pub walk_statement_iterator : ℕ → Act w.Extra ℤ
  walk_statement_iterator node = unless_null node (do visit_each (w.gcc.statements node); done)

  -- `if (node && TREE_CODE(node) == TREE_LIST)`
  pub comma_before : ℕ → Walk
  comma_before node =
      if node == 0 then skip else if w.gcc.code node is Codes.tree_list then comma else skip

  -- The body of the loop.
  pub walk_purpose : ℕ → Walk
  walk_purpose node = do
    purpose ← get Tree.tree_purpose node
    if purpose == 0 then skip else (w.visit purpose >> blank)

  pub walk_list_from : ℕ → ℕ → Walk
  walk_list_from zero node = endless
  walk_list_from (suc k) node = elim (node == 0 || node == w.gcc.error_mark_node) [
    | true ↦ skip
    | false ↦ (do
      walk_purpose node
      value ← get Tree.tree_value node
      w.visit value
      next ← get Tree.tree_chain node
      comma_before next
      walk_list_from k next)
  ]

  pub walk_tree_list_node : ℕ → Act w.Extra ℤ
  walk_tree_list_node node = unless_null node (do walk_list_from w.links node; done)

  -- The elements but the last, with commas, and the last.
  pub walk_elements : List ℕ → Walk
  walk_elements [] = skip
  walk_elements (elt ∷ []) = w.visit elt
  walk_elements (elt ∷ next ∷ more) = do w.visit elt; comma; walk_elements (next ∷ more)

  pub walk_tree_vector_node : ℕ → Act w.Extra ℤ
  walk_tree_vector_node node = unless_null node (do walk_elements (w.gcc.vec node); done)

  -- The loop over the types of the arguments: where it ended, and whether one was written.
  pub walk_arg_types : ℕ → ℕ → Bool → Act w.Extra (ℕ × Bool)
  walk_arg_types zero arg wrote_arg = endless
  walk_arg_types (suc k) arg wrote_arg =
      elim (arg == 0 || arg == w.gcc.void_list_node || arg == w.gcc.error_mark_node) [
        | true ↦ pure (arg, wrote_arg)
        | false ↦ (do
          if wrote_arg then comma else skip
          value ← get Tree.tree_value arg
          w.visit value
          next ← get Tree.tree_chain arg
          walk_arg_types k next true)
      ]

  -- What stands behind the arguments.
  pub args_end : ℕ → Bool → Walk
  args_end arg wrote_arg =
      if arg == w.gcc.void_list_node && not wrote_arg
      then output (print (codes "void"))
      else if arg == 0 && wrote_arg
      then output (print (codes ", ..."))
      else skip

  -- The result is -1 in any case.
  pub walk_function_decl_node : ℕ → Act w.Extra ℤ
  walk_function_decl_node fn = unless_null fn (do
    output (char b'(')
    first ← get Tree.type_arg_types fn
    (arg, wrote_arg) ← walk_arg_types w.links first false
    args_end arg wrote_arg
    output (char b')')
    fail)

  -- The body of the loop, and the rest of the loop.
  unfoldable pub walk_param : ℕ → (ℕ → Walk) → Walk
  walk_param arg rest = do
    argtype ← get Tree.tree_type arg
    w.visit argtype
    blank
    w.visit arg
    next ← get Tree.decl_chain arg
    if next == 0 then skip else comma
    rest next

  unfoldable pub walk_params : ℕ → ℕ → Walk
  walk_params zero arg = endless
  walk_params (suc k) arg = elim (arg == 0) [ true ↦ skip | false ↦ walk_param arg (walk_params k) ]

  unfoldable pub walk_function_decl_args : ℕ → Act w.Extra ℤ
  walk_function_decl_args fn =
      unless_null fn (do first ← get Tree.decl_arguments fn; walk_params w.links first; done)
