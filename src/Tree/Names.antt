-- ===== src/Tree/Names.antt =====
-- nodes-utils.c: the texts of nodes. Each function writes into a buffer that output_local_prepare
-- gives; `gout` is never set, so it is a fresh one each time, and the function returns the text of it.
-- The functions here give the calls that are made on that buffer, or the text.
pub mod Location
use ahaggar.Base.{
  ℕ, Bool, false, Option, none, some, List, [], ◌∷◌, ◌++◌, Run, ok, fault, ◌>>=◌, if◌then◌else◌,
  ◌==◌, ◌&&◌, ◌||◌, not, codes, leb,
}
use ahaggar.Buffer.Script.{Call, print, meanings}
use ahaggar.Tree.Codes
use ahaggar.Tree.Codes.{Code, ◌is◌}
use ahaggar.Tree

abbrev pub say : List ℕ → List Call
say text = print text ∷ []

abbrev pub when : Bool → List Call → List Call
when b calls = if b then calls else []

-- `output_buf(adata)`
unfoldable pub local_text : List Call → List ℕ
local_text calls = meanings calls []

module _ (g : Tree.Gcc) where
  -- `op_prio`, `op_symbol` and the like follow the pointer.
  abbrev pub deref {ℓ} : {A : Type ℓ} → (ℕ → A) → ℕ → Run A
  deref f t = if t == 0 then fault else ok (f t)

  -- __decl_name
  unfoldable pub decl_name_text : ℕ → List ℕ
  decl_name_text decl =
      let id = if g.flag Tree.decl_p decl then g.field Tree.decl_name decl else decl in
      if id == 0 then codes "<unnamed>" else g.text Tree.identifier id

  pub get_class_or_enum : ℕ → Run (List ℕ)
  get_class_or_enum t = do
    code ← deref g.code t
    ok (
        if code is Codes.enumeral_type
        then (if g.flag Tree.scoped_enum_p t then codes "enum class" else codes "enum")
        else if code is Codes.union_type
        then codes "uninon"
        else if g.flag Tree.type_lang_specific t && g.flag Tree.classtype_declared_class t
        then codes "class"
        else codes "struct")

  pub get_type_declaration : ℕ → List ℕ
  get_type_declaration t =
      if t == 0
      then []
      else local_text (
          when (g.code t is Codes.type_decl) (say (codes "typedef "))
          ++ when (g.flag Tree.contains_decl_wrtl t && g.flag Tree.decl_register t)
              (say (codes "register "))
          ++ (if g.flag Tree.tree_public t && g.flag Tree.decl_external t
              then say (codes "extern ")
              else when (g.flag Tree.tree_static t) (say (codes "static "))))

  pub get_type_quals : ℕ → List ℕ
  get_type_quals t =
      if t == 0
      then []
      else local_text (
          when (g.flag Tree.qual_const t) (say (codes "const "))
          ++ when (g.flag Tree.qual_volatile t) (say (codes "volatile "))
          ++ when (g.flag Tree.qual_restrict t) (say (codes "restrict ")))

  pub get_tcc_declaration : ℕ → List ℕ
  get_tcc_declaration t = if t == 0 then [] else elim (g.code_class (g.code t)) [
    | Tree.declaration_class ↦ local_text (
        if g.flag Tree.contains_decl_common t
        then when (g.flag Tree.decl_unsigned t) (say (codes "unsigned"))
          ++ when (g.flag Tree.decl_ignored_p t) (say (codes "ignored"))
          ++ when (g.flag Tree.decl_abstract t) (say (codes "abstract"))
          ++ when (g.flag Tree.decl_external t) (say (codes "external"))
          ++ when (g.flag Tree.decl_nonlocal t) (say (codes "nonlocal"))
        else [])
    | _ ↦ []
  ]

  unfoldable pub get_decl_name : ℕ → Tree.Dump → List ℕ
  get_decl_name decl flags =
      if decl == 0
      then []
      else local_text (
          if g.flag Tree.decl_p decl && flags.asmname && g.flag Tree.decl_assembler_name_set_p decl
          then say (g.text Tree.identifier (g.field Tree.decl_assembler_name decl))
          else say (decl_name_text decl))

  -- The text behind the sign of an integer type; the sizes are the target's.
  pub precision_name : ℕ → ℕ → List ℕ
  precision_name t bits =
      if bits == g.char_type_size
      then codes " char"
      else if bits == g.short_type_size
      then codes " short"
      else if bits == g.int_type_size
      then codes " int"
      else if bits == g.long_type_size
      then codes " long"
      else if bits == g.long_long_type_size
      then codes " long long"
      else if leb g.char_type_size bits && g.is_power_of_two bits
      then codes " int" ++ (g.text Tree.precision_text t ++ codes "_t")
      else codes ":unnamed" ++ g.text Tree.precision_text t

  pub tcc_type_calls : ℕ → Tree.Dump → Run (List Call)
  tcc_type_calls t flags =
      let code = g.code t in
      if not (g.field Tree.type_name t == 0)
      then ok (say (get_decl_name (g.field Tree.type_name t) flags))
      else if code is Codes.vector_type
      then ok (say (codes "vector"))
      else if code is Codes.integer_type
      then ok (
          print (if g.flag Tree.type_unsigned t then codes "unsigned" else codes "signed")
          ∷ say (precision_name t (g.number Tree.type_precision t)))
      else if code is Codes.complex_type
      then ok (say (codes "__complex__"))
      else if code is Codes.real_type
      then ok (say (codes "float"))
      else if code is Codes.fixed_point_type
      then ok (say (codes "fixed-point"))
      else if code is Codes.void_type
      then ok (say (codes "void"))
      else if code is Codes.union_type || code is Codes.record_type
      then (do text ← get_class_or_enum t; ok (say text))
      else ok (say (codes "<unnamed type>"))

  pub get_tcc_type : ℕ → Tree.Dump → Run (List ℕ)
  get_tcc_type t flags = if t == 0 then ok [] else elim (g.code_class (g.code t)) [
    | Tree.type_class ↦ (do
      calls ← tcc_type_calls t flags
      ok (
          local_text (
            calls
            ++ when (g.flag Tree.type_packed t) (say (codes " packed"))
            ++ when (g.flag Tree.type_restrict t) (say (codes " restrict")))))
    | _ ↦ ok []
  ]

  -- gcc-utils.c
  unfoldable pub is_function_decl : ℕ → Bool
  is_function_decl fn = if fn == 0 then false else g.code fn is Codes.function_decl

  -- The node that location_of reads the location of, or `none` for the current location. A NULL
  -- where the source follows one is a fault.
  unfoldable pub location_node : ℕ → Run (Option ℕ)
  location_node t = do
    code ← deref g.code t
    if code is Codes.parm_decl && not (g.field Tree.decl_context t == 0)
        then ok (some (g.field Tree.decl_context t))
        else if g.flag Tree.type_p t
        then ok (
            if g.field Tree.type_main_decl t == 0
            then none
            else some (g.field Tree.type_main_decl t))
        else ok (some (if code is Codes.overload then g.field Tree.ovl_function t else t))

  -- `DECL_SOURCE_LOCATION` and `EXPR_LOC_OR_HERE` are one number of the node.
  unfoldable pub location_of : ℕ → Run ℕ
  location_of t = do
    n ← location_node t
    elim n [ none ↦ ok g.input_location | some s ↦ deref (g.number Tree.location) s ]

  unfoldable pub location_is_unknown : ℕ → Bool
  location_is_unknown loc = loc == g.unknown_location

  unfoldable pub node_has_location : ℕ → Run Bool
  node_has_location node = do loc ← location_of node; ok (not (location_is_unknown loc))

  unfoldable pub is_node_in_main_input : Bool → ℕ → Run Bool
  is_node_in_main_input main_input node = do
    has ← node_has_location node
    ok (if has then main_input else false)

  -- `file:line`
  unfoldable pub location_text : ℕ → List ℕ
  location_text loc = g.location_file loc ++ (b':' ∷ g.location_line loc)

  unfoldable pub get_location : ℕ → Run (List ℕ)
  get_location t = if t == 0 then ok [] else (do
    loc ← location_of t
    ok (
        local_text
          (when (not (location_is_unknown loc)) (say (b'[' ∷ (location_text loc ++ b']' ∷ []))))))

  pub get_location_as_string : ℕ → List ℕ
  get_location_as_string loc =
      if loc == 0
      then []
      else local_text (when (not (location_is_unknown loc)) (say (location_text loc)))

  pub get_function_name : ℕ → Tree.Dump → Run (List ℕ)
  get_function_name fn flags = if fn == 0 then ok [] else (do
    let t = if g.code fn is Codes.nop_expr then g.field (Tree.tree_operand 0) fn else fn
    name ← deref (g.field Tree.decl_name) t
    ok (
        if not (name == 0) && not flags.asmname
        then local_text (say (g.text Tree.printable_name t))
        else get_decl_name t flags))

  unfoldable pub get_expr_code : ℕ → List ℕ
  get_expr_code expr = if expr == 0 then [] else local_text (say (g.code_name (g.code expr)))

  pub get_extra_decl : ℕ → List ℕ
  get_extra_decl decl =
      if decl == 0 then [] else if g.code decl is Codes.result_decl then get_expr_code decl else []
