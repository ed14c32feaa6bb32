-- ===== src/Walk/Exprs.antt =====
-- walk-nodes.c: expressions. `op_prio` of NULL is GCC's own value for it.
pub mod Level
use ahaggar.Base.{
  ℕ, Bool, true, false, List, [], ◌∷◌, ◌++◌, if◌then◌else◌, ◌==◌, ◌&&◌, not, codes, ℤ, ltb, leb,
}
use ahaggar.Buffer.Script.{char, print}
use ahaggar.Tree.Codes
use ahaggar.Tree.Codes.{◌is◌}
use ahaggar.Tree
use ahaggar.Tree.{Act, Pdata, ◌>>=◌, ◌>>◌, pure, skip, on, output, fail, done, unless_null, Walker}
use ahaggar.Walk.Lists.{Walk, get, code_of}
use ahaggar.Walk.Stmts.{visit_field}

module _ (w : Walker) where
  abbrev pub prio : ℕ → ℕ
  prio t = w.gcc.number Tree.op_prio t

  -- `op_symbol`
  abbrev pub op_symbol : ℕ → Act w.Extra (List ℕ)
  op_symbol node = on (λ t. w.gcc.op_symbol_code (w.gcc.code t)) node

  -- A part in parentheses if the test says so.
  pub wrapped : Bool → ℕ → Walk w
  wrapped b op = if b then (do output (char b'('); w.visit op; output (char b')')) else w.visit op

  pub walk_unary_logic_expr_node : ℕ → Act w.Extra ℤ
  walk_unary_logic_expr_node node =
      unless_null node
        (do op0 ← get w (Tree.tree_operand 0) node; wrapped (ltb (prio op0) (prio node)) op0; done)

  pub walk_post_inc_dec_expr_node : ℕ → Act w.Extra ℤ
  walk_post_inc_dec_expr_node node = unless_null node (do
    op0 ← get w (Tree.tree_operand 0) node
    wrapped (ltb (prio op0) (prio node)) op0
    symbol ← op_symbol node
    output (print symbol)
    done)

  pub walk_binary_arith_logic_node : ℕ → Act w.Extra ℤ
  walk_binary_arith_logic_node node = unless_null node (do
    op0 ← get w (Tree.tree_operand 0) node
    op1 ← get w (Tree.tree_operand 1) node
    wrapped (leb (prio op0) (prio node)) op0
    symbol ← op_symbol node
    output (print (b' ' ∷ (symbol ++ b' ' ∷ [])))
    wrapped (leb (prio op1) (prio node)) op1
    done)

  -- The test on the types of a `MEM_REF` that makes it print as a pointer that is followed: each
  -- part, in the order of the source, is only looked at where those before it hold.
  abbrev both : Act w.Extra Bool → Act w.Extra Bool → Act w.Extra Bool
  both m n = m >>= λ b. if b then n else pure false

  abbrev code_is : Codes.Code → ℕ → Act w.Extra Bool
  code_is c t = code_of w t >>= λ d. pure (d is c)

  abbrev negated : Act w.Extra Bool → Act w.Extra Bool
  negated m = m >>= λ b. pure (not b)

  abbrev type_of : ℕ → Act w.Extra ℕ
  type_of t = get w Tree.tree_type t

  abbrev same_number : Act w.Extra ℕ → Act w.Extra ℕ → Act w.Extra Bool
  same_number m n = do a ← m; b ← n; pure (a == b)

  abbrev mode_of : ℕ → Act w.Extra ℕ
  mode_of t = do type ← type_of t; on (w.gcc.number Tree.type_mode) type

  abbrev can_alias : ℕ → Act w.Extra Bool
  can_alias t = do type ← type_of t; on (w.gcc.flag Tree.type_ref_can_alias_all) type

  abbrev same_flag : Act w.Extra Bool → Act w.Extra Bool → Act w.Extra Bool
  same_flag m n = do a ← m; b ← n; pure (if a then b else not b)

  abbrev main_variant : Act w.Extra ℕ → Act w.Extra ℕ
  main_variant m = do type ← m; get w Tree.type_main_variant type

  abbrev pointed : ℕ → Act w.Extra ℕ
  pointed t = do type ← type_of t; type_of type

  pub is_pointer_mem_ref : ℕ → Act w.Extra Bool
  is_pointer_mem_ref op0 = do
    a ← get w (Tree.tree_operand 0) op0
    b ← get w (Tree.tree_operand 1) op0
    both (negated (code_is Codes.addr_expr a)) (
        both (on (w.gcc.flag Tree.integer_zerop) b) (
          both (negated (code_is Codes.integer_cst a)) (
            both (do type ← type_of a; pure (not (type == 0)))
              (both (same_number (pointed a) (pointed b)) (
                both (same_number (mode_of a) (mode_of b)) (
                  both (same_flag (can_alias a) (can_alias b))
                    (same_number (main_variant (type_of op0)) (main_variant (pointed b)))))))))

  pub is_followed : ℕ → Act w.Extra Bool
  is_followed op0 =
      if op0 == 0
      then pure false
      else if w.gcc.code op0 is Codes.indirect_ref
      then pure true
      else if w.gcc.code op0 is Codes.mem_ref
      then is_pointer_mem_ref op0
      else pure false

  pub walk_component_ref_node : ℕ → Act w.Extra ℤ
  walk_component_ref_node node = unless_null node (do
    op0 ← get w (Tree.tree_operand 0) node
    followed ← is_followed op0
    base ← (if followed then get w (Tree.tree_operand 0) op0 else pure op0)
    wrapped (ltb (prio base) (prio node)) base
    output (print (if followed then codes "->" else codes "."))
    visit_field w (Tree.tree_operand 1) node
    done)

  pub array_bounds : ℕ → Walk w
  array_bounds node = do
    low ← get w Tree.array_ref_low_bound node
    size ← get w Tree.array_ref_element_size node
    zero ← on (w.gcc.flag Tree.integer_zerop) low
    op2 ← get w (Tree.tree_operand 2) node
    op3 ← get w (Tree.tree_operand 3) node
    if zero && op2 == 0 && op3 == 0 then skip else (do
      output (print (codes "{lb: "))
      w.visit low
      output (print (codes " sz: "))
      w.visit size
      output (char b'}'))

  pub walk_array_ref_node : ℕ → Act w.Extra ℤ
  walk_array_ref_node node = unless_null node (do
    op0 ← get w (Tree.tree_operand 0) node
    wrapped (ltb (prio op0) (prio node)) op0
    op1 ← get w (Tree.tree_operand 1) node
    output (char b'[')
    w.visit op1
    code ← code_of w node
    if code is Codes.array_range_ref then output (print (codes " ...")) else skip
    output (char b']')
    array_bounds node
    done)

  pub asm_clobbers : ℕ → Walk w
  asm_clobbers node = do
    clobbers ← get w Tree.asm_clobbers node
    if clobbers == 0 then skip else (do output (char b':'); w.visit clobbers)

  pub walk_asm_expr_node : ℕ → Act w.Extra ℤ
  walk_asm_expr_node node = unless_null node (do
    output (print (codes "__asm__"))
    volatile ← on (w.gcc.flag Tree.asm_volatile_p) node
    if volatile then output (print (codes " __volatile__")) else skip
    output (char b'(')
    visit_field w Tree.asm_string node
    output (char b':')
    visit_field w Tree.asm_outputs node
    output (char b':')
    visit_field w Tree.asm_inputs node
    asm_clobbers node
    output (char b')')
    done)
