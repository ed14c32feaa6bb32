-- ===== src/Instrument/Calls/Inserted.antt =====
-- xinstrument-calls.h: what the pass inserts for the table.
use ahaggar.Base.{
  ℕ, ◌≡◌, refl, sym, ap, ◌∙◌, Bool, true, false, Option, none, some, List, [], ◌∷◌, ◌++◌, ok, ◌>>=◌,
  if◌then◌else◌, ◌==◌, ◌<◌, length, length-append, ◌+◌, ◌&&◌, ◌||◌, arith, Bool-cases, inl, inr,
  codes,
}
use Prim.Native.String.{String}
use ahaggar.Cache.{TableOps}
use ahaggar.Instrument.{
  Decl, Gimple, insert_after, TargetCall, same_text, names_builtin, is_builtin_of, is_builtin,
  is_target, gxinsert_call, placed, insert_built, gxinstrument_target, instrument_each,
  instrument_with, ahg_instrument_gimple_call, ahg_xinstrument_checker, called, with_code,
  ahg_check_gimple_stmt, around, ahaggar_xinstrument_main,
}
use ahaggar.Instrument.Table.{IsPassive, AreBuiltins, AreTargets}
use ahaggar.Instrument.Walk.{expanded, visits, behind_of}
use ahaggar.Instrument.Pass.{Within, all_expanded, ahaggar_xinstrument_main_lem}
use ahaggar.Instrument.Calls.{
  Builders, overflow_target, size_overflow, ptr_overflow, no_builtin, tcalls,
  gxinstrument_build_call,
}

-- The call that a builder gives, with the location and the block of the statement.
abbrev pub listed : Gimple → Option Gimple → List Gimple
listed gs none = []
listed gs (some call) = placed gs call ∷ []

built :
    (gs : Gimple) (size ptr : Option Gimple)
    → insert_built insert_after gs ptr
        (insert_built insert_after gs size (record { before = []; behind = [] }))
      ≡ record { before = []; behind = listed gs ptr ++ listed gs size }
unfolding insert_built gxinsert_call
built gs none none = refl
built gs none (some p) = refl
built gs (some s) none = refl
built gs (some s) (some p) = refl

module _ (b : Builders) where
  abbrev pub has_target : List ℕ → List TargetCall → Bool
  has_target name [] = false
  has_target name (tc ∷ more) = same_text name tc.name || has_target name more

  abbrev pub calls_target : Option Decl → Bool
  calls_target none = false
  calls_target (some d) = has_target d.name (tcalls b)

  -- A call that is to be instrumented, and the calls that are put behind it.
  abbrev pub inserted_behind : Gimple → List Gimple
  inserted_behind gs =
      if calls_target (called gs) && b.gimple_call == gs.code
      then listed gs (b.ptr_build gs) ++ listed gs (b.size_build gs)
      else []

  abbrev pub instrumented : List Gimple → List Gimple
  instrumented [] = []
  instrumented (gs ∷ rest) = gs ∷ (inserted_behind gs ++ instrumented rest)

  abbrev pub all_instrumented : List (List Gimple) → List (List Gimple)
  all_instrumented [] = []
  all_instrumented (block ∷ more) = instrumented block ∷ all_instrumented more

  abbrev pub AreShort : ℕ → List (List Gimple) → Type 0
  AreShort k [] = Unit
  AreShort k (block ∷ more) = (length (instrumented block) < k) × AreShort k more

  -- The target of a name in the table.
  data Lookup (name : List ℕ) (tcs : List TargetCall) : Type 0 where
    absent : is_target name tcs ≡ none → has_target name tcs ≡ false → Lookup name tcs
    present :
        (n : String)
        → is_target name tcs ≡ some (overflow_target b n)
        → has_target name tcs ≡ true
        → Lookup name tcs

  Lookup-cons :
      (name : List ℕ) (n : String) (tcs : List TargetCall)
      → Lookup name tcs
      → Lookup name (overflow_target b n ∷ tcs)
  unfolding is_target
  Lookup-cons name n tcs more = elim (Bool-cases (same_text name (codes n))) [
    | inl h ↦ present n (simp h) (simp h)
    | inr h ↦ elim more [
      | absent e k ↦ absent (simp (h, e)) (simp (h, k))
      | present m e k ↦ present m (simp (h, e)) (simp (h, k))
    ]
  ]

  Lookup-of : (name : List ℕ) → Lookup name (tcalls b)
  unfolding tcalls is_target
  Lookup-of name = Lookup-cons name "memset" _ (
      Lookup-cons name "memcpy" _ (
        Lookup-cons name "strncpy" _
          (Lookup-cons name "strlcpy" _ (Lookup-cons name "copy_from_user" [] (absent refl refl)))))

  inserted_by_builtins :
      (n : String) (gs : Gimple)
      → ahg_instrument_gimple_call (overflow_target b n) gs
        ≡ ok (record {
          before = [];
          behind = listed gs (b.ptr_build gs) ++ listed gs (b.size_build gs);
        })
  unfolding ahg_instrument_gimple_call instrument_with instrument_each gxinstrument_target
  inserted_by_builtins n gs = ap ok (built gs (b.size_build gs) (b.ptr_build gs))

  module _ (current : List ℕ) where
    -- The builders give calls of functions that are not in the table.
    abbrev pub BuildsPassive : (Gimple → Option Gimple) → Type 0
    BuildsPassive build =
        (gs call : Gimple) → build gs ≡ some call → IsPassive current (tcalls b) call

    -- No entry of the table names the function that is compiled as its builtin.
    none_named :
        same_text current b.size_overflow_func ≡ false
        → same_text current b.ptr_overflow_func ≡ false
        → names_builtin current (size_overflow b ∷ ptr_overflow b ∷ no_builtin b ∷ []) ≡ ok false
    unfolding names_builtin
    none_named h k = rw (names_builtin, h, k) refl

    not_builtin :
        same_text current b.size_overflow_func ≡ false
        → same_text current b.ptr_overflow_func ≡ false
        → is_builtin current (tcalls b) ≡ ok false
    unfolding is_builtin is_builtin_of tcalls
    not_builtin h k = simp (is_builtin, none_named h k, ◌>>=◌)

    -- A builder that calls a function outside of the table by gxinstrument_build_call is one.
    pub gxinstrument_build_call-BuildsPassive :
        (build_call_valist : Decl → List ℕ → Gimple) (fn : Decl) (args : Gimple → List ℕ)
        → ((d : Decl) (as_given : List ℕ) → (build_call_valist d as_given).fndecl ≡ some d)
        → is_target fn.name (tcalls b) ≡ none
        → BuildsPassive (λ gs. gxinstrument_build_call build_call_valist (some fn) (args gs))
    unfolding gxinstrument_build_call
    gxinstrument_build_call-BuildsPassive build fn args calls absent_name gs call e =
        elim (Bool-cases fn.is_function_decl) [
          | inl f ↦
              let made : some (build fn (args gs)) ≡ some call = sym (simp f) ∙ e in
              let same : build fn (args gs) ≡ call = cc in
              (fn, ap (λ c. c.fndecl) (sym same) ∙ calls fn (args gs), absent_name)
          | inr f ↦ let made : none ≡ some call = sym (simp f) ∙ e in absurd cc
        ]

    module _ (not_size : same_text current b.size_overflow_func ≡ false)
        (not_ptr : same_text current b.ptr_overflow_func ≡ false) where
      may : ahg_xinstrument_checker current (tcalls b) ≡ ok true
      unfolding ahg_xinstrument_checker
      may = simp (not_builtin not_size not_ptr, ◌>>=◌)

      around_of :
          (gs : Gimple) (d : Option Decl)
          → called gs ≡ d
          → around current (tcalls b) gs
            ≡ ok (record {
              before = [];
              behind =
                  if calls_target d && b.gimple_call == gs.code
                  then listed gs (b.ptr_build gs) ++ listed gs (b.size_build gs)
                  else [];
            })
      unfolding around ahg_check_gimple_stmt with_code
      around_of gs none e = simp (around, ahg_check_gimple_stmt, e, ◌>>=◌)
      around_of gs (some d) e = elim (Lookup-of d.name) [
        | absent k h ↦ simp (around, ahg_check_gimple_stmt, e, may, k, h, ◌>>=◌)
        | present n k h ↦ elim (Bool-cases (b.gimple_call == gs.code)) [
          | inl same ↦ simp (
            around,
            ahg_check_gimple_stmt,
            with_code,
            e,
            may,
            k,
            h,
            same,
            inserted_by_builtins n gs,
            ◌>>=◌,
          )
          | inr other ↦ simp (around, ahg_check_gimple_stmt, with_code, e, may, k, h, other, ◌>>=◌)
        ]
      ]

      around-tcalls :
          (gs : Gimple)
          → around current (tcalls b) gs ≡ ok (record { before = []; behind = inserted_behind gs })
      around-tcalls gs = around_of gs (called gs) refl

      expanded-tcalls :
          (block : List Gimple) → expanded current (tcalls b) block ≡ ok (instrumented block)
      expanded-tcalls [] = refl
      expanded-tcalls (gs ∷ rest) = simp (around-tcalls gs, expanded-tcalls rest, ◌>>=◌)

      all_expanded-tcalls :
          (blocks : List (List Gimple))
          → all_expanded current (tcalls b) blocks ≡ ok (all_instrumented blocks)
      all_expanded-tcalls [] = refl
      all_expanded-tcalls (block ∷ more) =
          simp (expanded-tcalls block, all_expanded-tcalls more, ◌>>=◌)

      visits-tcalls :
          (block : List Gimple) → visits current (tcalls b) block ≡ length (instrumented block) + 1
      visits-tcalls [] = refl
      visits-tcalls (gs ∷ rest) =
          let behind : behind_of current (tcalls b) (around current (tcalls b) gs)
              ≡ length (inserted_behind gs) =
            ap (behind_of current (tcalls b)) (around-tcalls gs) in
          omega (
            arith,
            visits-tcalls rest,
            behind,
            length-append (inserted_behind gs) (instrumented rest),
          )

      AreShort-Within :
          (k : ℕ) (blocks : List (List Gimple))
          → AreShort k blocks
          → Within current (tcalls b) k blocks
      AreShort-Within k [] h = tt
      AreShort-Within k (block ∷ more) (h, hs) =
          (omega (arith, visits-tcalls block), AreShort-Within k more hs)

      tcalls-AreTargets :
          BuildsPassive b.size_build
          → BuildsPassive b.ptr_build
          → AreTargets current (tcalls b) (tcalls b)
      unfolding tcalls
      tcalls-AreTargets size ptr =
          let bs : AreBuiltins current (tcalls b)
              (size_overflow b ∷ ptr_overflow b ∷ no_builtin b ∷ []) =
            inr (size, inr (ptr, inl refl)) in
          (bs, (bs, (bs, (bs, (bs, tt)))))

      -- For the table of xinstrument-calls.h: in a function that is not one of the two builtins, where
      -- the builders give calls of functions that are not in the table and each block with its calls
      -- is shorter than the bound, the pass ends without a fault, and puts behind each call of memset,
      -- memcpy, strncpy, strlcpy and copy_from_user that is to be instrumented the call that
      -- compiletime_ptr_build gives for it, if any, and behind that the one of
      -- compiletime_size_build; it changes no other statement.
      pub ahaggar_xinstrument_main-tcalls :
          (ops : TableOps) (fn k : ℕ) (blocks : List (List Gimple))
          → BuildsPassive b.size_build
          → BuildsPassive b.ptr_build
          → 0 < k
          → AreShort k blocks
          → ahaggar_xinstrument_main ops k current fn (tcalls b) blocks
            ≡ ok (all_instrumented blocks)
      ahaggar_xinstrument_main-tcalls ops fn k blocks size ptr some_rounds short =
          let (outs, e, run) =
            ahaggar_xinstrument_main_lem current (tcalls b) ops fn k blocks
              (tcalls-AreTargets size ptr) some_rounds (AreShort-Within k blocks short) in
          run ∙ sym e ∙ all_expanded-tcalls blocks
