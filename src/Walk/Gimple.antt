-- ===== src/Walk/Gimple.antt =====
-- walk-gimple.c: the right-hand sides of assignments, and phi nodes.
use ahaggar.Base.{
  ℕ, Bool, true, false, List, [], ◌∷◌, ◌++◌, if◌then◌else◌, ◌==◌, ◌||◌, codes, ℤ, ltb, leb,
}
use ahaggar.Buffer.Script.{Call, char, print}
use ahaggar.Tree.Codes
use ahaggar.Tree.Codes.{Code, ◌is◌}
use ahaggar.Tree
use ahaggar.Tree.{Act, Pdata, ◌>>=◌, ◌>>◌, pure, skip, output, fail, done, unless_null, Walker}
use ahaggar.Walk.Lists.{Walk, get, walk_elements}
use ahaggar.Walk.Exprs.{prio}

-- What the walkers read of a gimple statement.
pub record Gimples : Type 0 where
  pub rhs_code : ℕ → Code
  pub lhs : ℕ → ℕ
  pub rhs1 : ℕ → ℕ
  pub rhs2 : ℕ → ℕ
  pub rhs3 : ℕ → ℕ
  pub phi_result : ℕ → ℕ
  pub phi_args : ℕ → List ℕ
  pub gimple_code_name : ℕ → List ℕ

-- The cases of the switches.
pub data Unary : Type 0 where
  viewed converted parenthesized absolute other_unary : Unary

pub unary_of : Code → Unary
unary_of Codes.view_convert_expr = viewed
unary_of Codes.assert_expr = viewed
unary_of Codes.fixed_convert_expr = converted
unary_of Codes.addr_space_convert_expr = converted
unary_of Codes.fix_trunc_expr = converted
unary_of Codes.float_expr = converted
unary_of Codes.nop_expr = converted
unary_of Codes.convert_expr = converted
unary_of Codes.paren_expr = parenthesized
unary_of Codes.abs_expr = absolute
unary_of _ = other_unary

pub is_named_binary : Code → Bool
is_named_binary Codes.complex_expr = true
is_named_binary Codes.min_expr = true
is_named_binary Codes.max_expr = true
is_named_binary Codes.vec_widen_mult_hi_expr = true
is_named_binary Codes.vec_widen_mult_lo_expr = true
is_named_binary Codes.vec_pack_trunc_expr = true
is_named_binary Codes.vec_pack_sat_expr = true
is_named_binary Codes.vec_pack_fix_trunc_expr = true
is_named_binary Codes.vec_widen_lshift_hi_expr = true
is_named_binary Codes.vec_widen_lshift_lo_expr = true
is_named_binary _ = false

pub data Ternary : Type 0 where
  named_ternary multiply_add conditional other_ternary : Ternary

pub ternary_of : Code → Ternary
ternary_of Codes.widen_mult_plus_expr = named_ternary
ternary_of Codes.widen_mult_minus_expr = named_ternary
ternary_of Codes.fma_expr = multiply_add
ternary_of Codes.cond_expr = conditional
ternary_of _ = other_ternary

module _ (w : Walker) (s : Gimples) where
  -- An operand in parentheses if the test says so.
  pub enclosed : Bool → Call → ℕ → Walk w
  enclosed b closing op =
      if b then (do output (char b'('); w.visit op; output closing) else w.visit op

  pub is_plain_rhs : Code → Bool
  is_plain_rhs code = elim (w.gcc.code_class code) [
    | Tree.declaration_class ↦ true
    | Tree.constant_class ↦ true
    | Tree.reference_class ↦ true
    | _ ↦ code is Codes.ssa_name || code is Codes.addr_expr || code is Codes.constructor
  ]

  pub unary_sign : Code → Walk w
  unary_sign code =
      if code is Codes.bit_not_expr
      then output (char b'~')
      else if code is Codes.truth_not_expr
      then output (char b'!')
      else if code is Codes.negate_expr
      then output (char b'-')
      else skip

  -- `op_prio(op) < op_code_prio(code)`
  abbrev pub below : ℕ → Code → Bool
  below op code = ltb (prio w op) (w.gcc.code_prio code)

  pub unary_other : Code → ℕ → Walk w
  unary_other code rhs =
      if is_plain_rhs code
      then w.visit rhs
      else (do unary_sign code; enclosed (below rhs code) (char b')') rhs)

  pub unary_rhs : Unary → Code → ℕ → ℕ → Walk w
  unary_rhs viewed code lhs rhs = w.visit rhs
  unary_rhs converted code lhs rhs = do
    output (char b'(')
    type ← get w Tree.tree_type lhs
    w.visit type
    output (print (codes ") "))
    enclosed (below rhs code) (print (codes ") ")) rhs
  unary_rhs parenthesized code lhs rhs = do
    output (print (codes "(("))
    w.visit rhs
    output (print (codes "))"))
  unary_rhs absolute code lhs rhs = do
    output (print (codes "ABS_EXPR("))
    w.visit rhs
    output (char b')')
  unary_rhs other_unary code lhs rhs = unary_other code rhs

  pub walk_gimple_unary_rhs : ℕ → Act w.Extra ℤ
  walk_gimple_unary_rhs gs =
      unless_null gs
        (do unary_rhs (unary_of (s.rhs_code gs)) (s.rhs_code gs) (s.lhs gs) (s.rhs1 gs); done)

  -- `<name> (`
  abbrev pub named : Code → Walk w
  named code = output (print (b'<' ∷ (w.gcc.code_name code ++ codes "> (")))

  -- `op_prio(op) <= op_code_prio(code)`
  abbrev pub not_above : ℕ → Code → Bool
  not_above op code = leb (prio w op) (w.gcc.code_prio code)

  pub binary_rhs : Code → ℕ → ℕ → Walk w
  binary_rhs code rhs1 rhs2 =
      if is_named_binary code
      then (do named code; walk_elements w (rhs1 ∷ rhs2 ∷ []); output (char b')'))
      else (do
        enclosed (not_above rhs1 code) (char b')') rhs1
        output (print (b' ' ∷ (w.gcc.op_symbol_code code ++ b' ' ∷ [])))
        enclosed (not_above rhs2 code) (char b')') rhs2)

  pub walk_gimple_binary_rhs : ℕ → Act w.Extra ℤ
  walk_gimple_binary_rhs gs =
      unless_null gs (do binary_rhs (s.rhs_code gs) (s.rhs1 gs) (s.rhs2 gs); done)

  pub ternary_rhs : Ternary → Code → ℕ → ℕ → ℕ → Walk w
  ternary_rhs named_ternary code rhs1 rhs2 rhs3 = do
    named code
    walk_elements w (rhs1 ∷ rhs2 ∷ rhs3 ∷ [])
    output (char b')')
  ternary_rhs multiply_add code rhs1 rhs2 rhs3 = do
    w.visit rhs1
    output (print (codes " * "))
    w.visit rhs2
    output (print (codes " + "))
    w.visit rhs3
  ternary_rhs conditional code rhs1 rhs2 rhs3 = do
    w.visit rhs1
    output (print (codes " ? "))
    w.visit rhs2
    output (print (codes " : "))
    w.visit rhs3
  ternary_rhs other_ternary code rhs1 rhs2 rhs3 = skip

  pub walk_gimple_ternary_rhs : ℕ → Act w.Extra ℤ
  walk_gimple_ternary_rhs gs = unless_null gs (do
    let code = s.rhs_code gs
    ternary_rhs (ternary_of code) code (s.rhs1 gs) (s.rhs2 gs) (s.rhs3 gs)
    done)

  pub walk_gimple_nop : ℕ → ℕ → Act w.Extra ℤ
  walk_gimple_nop gs var =
      if gs == 0 || var == 0
      then fail
      else (do decl ← get w Tree.ssa_name_var var; w.visit decl; done)

  pub walk_gimple_phi : ℕ → Act w.Extra ℤ
  walk_gimple_phi phi = unless_null phi (do
    w.visit (s.phi_result phi)
    output (print (codes " = <" ++ (s.gimple_code_name phi ++ codes "> (")))
    walk_elements w (s.phi_args phi)
    output (char b')')
    done)
