-- ===== src/Tree.antt =====
-- What the plugins read of GCC's trees, and how the walkers of walk-nodes.c and the dump of
-- ahaggar-ast.c act on the data of a plugin. GCC is a parameter: a node is its address, NULL is 0, and
-- each macro is a function of the address. To apply one to NULL is a fault.
pub mod Codes
pub mod Names
pub mod Constants
pub mod Output
pub mod Steady
use ahaggar.Base.{
  ℕ, ◌+◌, ◌-◌, ◌*◌, ◌%◌, ◌^◌, Bool, true, false, Option, none, some, List, [], ◌∷◌, ◌++◌, Run, ok,
  fault, if◌then◌else◌, ◌==◌, leb, ◌||◌, ℤ, pos, negsuc, u32_mod,
}
use ahaggar.Buffer.Script.{Call, char, print, indent, meanings}
use ahaggar.Tree.Codes.{Code}

-- The macros that give a node.
pub data Field : Type 0 where
  tree_type tree_purpose tree_value tree_chain decl_chain type_arg_types decl_arguments : Field
  type_method_basetype type_name decl_name type_min_value type_max_value type_domain : Field
  decl_initial decl_assembler_name decl_value_expr decl_expr_decl decl_saved_tree : Field
  decl_context type_main_decl ovl_function bind_expr_vars bind_expr_body : Field
  target_expr_slot target_expr_initial cond_expr_cond cond_expr_then cond_expr_else : Field
  switch_cond switch_body switch_labels case_low case_high case_label loop_expr_body : Field
  goto_destination asm_string asm_outputs asm_inputs asm_clobbers binfo_type : Field
  array_ref_low_bound array_ref_element_size call_expr_fn aggr_init_expr_fn : Field
  call_expr_static_chain type_main_variant ssa_name_var : Field
  tree_operand : ℕ → Field

-- The macros that give a Boolean.
pub data Flag : Type 0 where
  decl_p type_p decl_register tree_public decl_external tree_static contains_decl_wrtl : Flag
  contains_decl_common decl_unsigned decl_ignored_p decl_abstract decl_nonlocal : Flag
  qual_const qual_volatile qual_restrict type_packed type_restrict type_unsigned scoped_enum_p
        type_lang_specific :
      Flag
  classtype_declared_class decl_assembler_name_set_p decl_is_builtin decl_hard_register : Flag
  decl_has_value_expr_p integer_zerop host_integerp is_empty_stmt asm_volatile_p : Flag
  type_ref_can_alias_all call_expr_va_arg_pack call_expr_return_slot_opt : Flag
  call_expr_tailcall label_uid_unknown : Flag

-- The macros that give a number; those of an `int` that is printed give the text of it.
pub data Number : Type 0 where
  type_precision type_mode string_length location op_prio : Number

pub data Text : Type 0 where
  type_uid_hex decl_uid label_decl_uid identifier printable_name : Text
  int_cst_low int_cst_unsigned int_cst_signed string_pointer max_plus_one address fixed_decimal :
      Text
  precision_text : Text

-- `enum tree_code_class`
pub data CodeClass : Type 0 where
  declaration_class type_class constant_class reference_class other_class : CodeClass

pub record Gcc : Type 0 where
  pub code : ℕ → Code
  pub field : Field → ℕ → ℕ
  pub flag : Flag → ℕ → Bool
  pub number : Number → ℕ → ℕ
  pub text : Text → ℕ → List ℕ
  pub vec : ℕ → List ℕ
  pub statements : ℕ → List ℕ
  pub call_args : ℕ → List ℕ
  pub code_class : Code → CodeClass
  pub code_name : Code → List ℕ
  pub code_prio : Code → ℕ
  pub op_symbol_code : Code → List ℕ
  pub location_file : ℕ → List ℕ
  pub location_line : ℕ → List ℕ
  pub char_type_size : ℕ
  pub short_type_size : ℕ
  pub int_type_size : ℕ
  pub long_type_size : ℕ
  pub long_long_type_size : ℕ
  pub is_power_of_two : ℕ → Bool
  pub is_long_type : ℕ → Bool
  pub is_long_long_type : ℕ → Bool
  pub input_location : ℕ
  pub unknown_location : ℕ
  pub error_mark_node : ℕ
  pub void_list_node : ℕ
  pub void_type_node : ℕ

-- The `TDF_*` bits of the field `flags` that are tested.
pub record Dump : Type 0 where
  pub address : Bool
  pub stmtaddr : Bool
  pub verbose : Bool
  pub asmname : Bool
  pub nouid : Bool
  pub slim : Bool

-- `flags = 0`
abbrev pub no_flags : Dump
no_flags = record {
  address = false;
  stmtaddr = false;
  verbose = false;
  asmname = false;
  nouid = false;
  slim = false;
}

-- `struct plugin_data`, as far as the walkers use it: `indent_level` is what the pointer points to,
-- `calls` are the calls of the output functions on `buffer` so far, and `extra` is what else the
-- plugin keeps.
pub record Pdata (X : Type 0) : Type 0 where
  pub indent_level : ℕ
  pub flags : Dump
  pub calls : List Call
  pub extra : X

-- What a function does to the data of the plugin, and its result.
abbrev pub Act : Type 0 → Type 0 → Type 0
Act X A = Pdata X → Run (A × Pdata X)

abbrev pub after : {X A B : Type 0} → Run (A × Pdata X) → (A → Act X B) → Run (B × Pdata X)
after fault next = fault
after (ok (a, p)) next = next a p

infixl 5 ◌>>◌
infixl 5 ◌>>=◌
abbrev pub ◌>>=◌ : {X A B : Type 0} → Act X A → (A → Act X B) → Act X B
(m >>= next) p = after (m p) next

abbrev pub ◌>>◌ : {X A : Type 0} → Act X (Unit {0}) → Act X A → Act X A
m >> next = m >>= λ done. next

abbrev pub pure : {X A : Type 0} → A → Act X A
pure a p = ok (a, p)

abbrev pub skip : {X : Type 0} → Act X (Unit {0})
skip p = ok (tt, p)

-- A macro on a node.
abbrev pub on : {X A : Type 0} → (ℕ → A) → ℕ → Act X A
on f t p = if t == 0 then fault else ok (f t, p)

abbrev pub of_run : {X A : Type 0} → Run A → Act X A
of_run fault p = fault
of_run (ok a) p = ok (a, p)

-- `output_char`, `output_printf`.
abbrev pub output : {X : Type 0} → Call → Act X (Unit {0})
output c p = ok (tt, record p { calls = p.calls ++ c ∷ [] })

-- A negative column, which is one from 2^31 on as bits, prints no blanks.
abbrev pub indent_bits : ℕ → Call
indent_bits n = indent (if leb (2 ^ 31) n then 0 else n)

-- The macro on an `unsigned int`: the test for a new line is one for 0.
abbrev pub output_unsigned_indent_to_newline : {X : Type 0} → ℕ → Act X (Unit {0})
output_unsigned_indent_to_newline n =
    if n == 0 then skip else (output (char b'\n') >> output (indent_bits n))

-- The macro on an `int`: for a negative one there is no new line.
abbrev pub output_indent_to_newline : {X : Type 0} → ℕ → Act X (Unit {0})
output_indent_to_newline n =
    if n == 0 || leb (2 ^ 31) n then skip else (output (char b'\n') >> output (indent n))

-- -1 and 0.
abbrev pub fail : {X : Type 0} → Act X ℤ
fail p = ok (negsuc 0, p)

abbrev pub done : {X : Type 0} → Act X ℤ
done p = ok (pos 0, p)

-- `if (!node) return -1;`
abbrev pub unless_null : {X : Type 0} → ℕ → Act X ℤ → Act X ℤ
unless_null node m = if node == 0 then fail else m

abbrev pub get_indent : {X : Type 0} → Act X ℕ
get_indent p = ok (p.indent_level, p)

abbrev pub set_indent : {X : Type 0} → ℕ → Act X (Unit {0})
set_indent n p = ok (tt, record p { indent_level = n })

abbrev pub get_flags : {X : Type 0} → Act X Dump
get_flags p = ok (p.flags, p)

abbrev pub set_flags : {X : Type 0} → Dump → Act X (Unit {0})
set_flags f p = ok (tt, record p { flags = f })

-- `++*indent_level; ...; --*indent_level;`
abbrev pub deeper : {X : Type 0} → Act X (Unit {0}) → Act X (Unit {0})
deeper m = do
  n ← get_indent
  set_indent ((n + 1) % u32_mod)
  m
  k ← get_indent
  set_indent ((k + u32_mod - 1) % u32_mod)

-- The `tree_walker` of the plugin, run by GCC's walk over trees on a node: what
-- `base_cp_tree_walker` does. `links` bounds the links of a chain that are followed; to follow more is a
-- fault.
pub record Walker : Type 1 where
  pub Extra : Type 0
  pub gcc : Gcc
  pub visit : ℕ → Act Extra (Unit {0})
  pub links : ℕ

abbrev pub indent_step : ℕ
indent_step = 2
