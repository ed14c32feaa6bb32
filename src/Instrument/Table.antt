-- ===== src/Instrument/Table.antt =====
-- The tests on a statement do not fault on a table whose arrays end, and they leave the inserted calls
-- alone.
use ahaggar.Base.{
  ℕ, ◌≡◌, refl, ap, ◌⊎◌, Bool, true, false, Option, none, some, List, [], ◌∷◌, ok, ◌>>=◌, ◌==◌,
  ◌&&◌, not, if◌then◌else◌, Bool-cases, Option-cases, inl, inr,
}
use ahaggar.Instrument.{
  Decl, Gimple, Place, insert_before, insert_after, InsertBuiltin, TargetCall, same_text,
  names_builtin, is_builtin_of, is_builtin, is_target, Around, gxinsert_call, insert_built,
  gxinstrument_target, instrument_each, instrument_with, ahg_instrument_gimple_call,
  ahg_xinstrument_checker, called, with_code, ahg_check_gimple_stmt, around,
}

abbrev pub nothing : Around
nothing = record { before = []; behind = [] }

module _ (current : List ℕ) (tcalls : List TargetCall) where
  -- A statement that calls a function which is not in the table.
  abbrev pub IsPassive : Gimple → Type 0
  IsPassive gs = (d : Decl) × (gs.fndecl ≡ some d) × (is_target d.name tcalls ≡ none)

  abbrev pub ArePassive : List Gimple → Type 0
  ArePassive [] = Unit
  ArePassive (gs ∷ more) = IsPassive gs × ArePassive more

  -- An array of builtins that ends with an inactive one, and builds such calls before it.
  abbrev pub AreBuiltins : List InsertBuiltin → Type 0
  AreBuiltins [] = false ≡ true
  AreBuiltins (ib ∷ more) =
      (ib.active ≡ false)
      ⊎ (((gs call : Gimple) → ib.gxbuild gs ≡ some call → IsPassive call) × AreBuiltins more)

  abbrev pub OptionBuiltins : Option (List InsertBuiltin) → Type 0
  OptionBuiltins none = Unit
  OptionBuiltins (some ibs) = AreBuiltins ibs

  -- A table of which each entry has such builtins, or none.
  abbrev pub AreTargets : List TargetCall → Type 0
  AreTargets [] = Unit
  AreTargets (tc ∷ more) = OptionBuiltins tc.builtins × AreTargets more

  abbrev OptionTarget : Option TargetCall → Type 0
  OptionTarget none = Unit
  OptionTarget (some tc) = OptionBuiltins tc.builtins

  if-OptionTarget :
      (b : Bool) (x y : Option TargetCall)
      → OptionTarget x
      → OptionTarget y
      → OptionTarget (if b then x else y)
  if-OptionTarget true x y h k = h
  if-OptionTarget false x y h k = k

  is_target-OptionTarget :
      (name : List ℕ) (tcs : List TargetCall) → AreTargets tcs → OptionTarget (is_target name tcs)
  unfolding is_target
  is_target-OptionTarget name [] are = tt
  is_target-OptionTarget name (tc ∷ more) (one, are) =
      if-OptionTarget (same_text name tc.name) (some tc) (is_target name more) one
        (is_target-OptionTarget name more are)

  with_code-OptionTarget :
      (tc : Option TargetCall) (code : ℕ) → OptionTarget tc → OptionTarget (with_code tc code)
  unfolding with_code
  with_code-OptionTarget none code h = tt
  with_code-OptionTarget (some tc) code h = if-OptionTarget (tc.code == code) (some tc) none h tt

  names_builtin_ok :
      (fnname : List ℕ) (ibs : List InsertBuiltin)
      → AreBuiltins ibs
      → (b : Bool) × (names_builtin fnname ibs ≡ ok b)
  unfolding names_builtin
  names_builtin_ok fnname [] are = cc
  names_builtin_ok fnname (ib ∷ more) (inl off) = (false, simp (names_builtin, off))
  names_builtin_ok fnname (ib ∷ more) (inr (builds, are)) = elim (Bool-cases ib.active) [
    | inr off ↦ (false, simp (names_builtin, off))
    | inl on ↦ elim (Bool-cases (same_text fnname ib.name)) [
      | inl same ↦ (true, simp (names_builtin, on, same))
      | inr differs ↦
          let (b, e) = names_builtin_ok fnname more are in (b, simp (names_builtin, on, differs, e))
    ]
  ]

  is_builtin_of_ok :
      (fnname : List ℕ) (ibs : Option (List InsertBuiltin))
      → OptionBuiltins ibs
      → (b : Bool) × (is_builtin_of fnname ibs ≡ ok b)
  unfolding is_builtin_of
  is_builtin_of_ok fnname none are = (false, refl)
  is_builtin_of_ok fnname (some ibs) are = names_builtin_ok fnname ibs are

  is_builtin_ok :
      (fnname : List ℕ) (tcs : List TargetCall)
      → AreTargets tcs
      → (b : Bool) × (is_builtin fnname tcs ≡ ok b)
  unfolding is_builtin
  is_builtin_ok fnname [] are = (false, refl)
  is_builtin_ok fnname (tc ∷ more) (one, are) =
      let (b, e) = is_builtin_of_ok fnname tc.builtins one in
      let (b', e') = is_builtin_ok fnname more are in
      elim (Bool-cases b) [
        | inl found ↦ (true, simp (is_builtin, e, found, ◌>>=◌))
        | inr unknown ↦ (b', simp (is_builtin, e, unknown, e', ◌>>=◌))
      ]

  -- What the tests give for a statement: no fault, and a target with its builtins or none.
  check_ok :
      AreTargets tcalls
      → (gs : Gimple)
      → (tc : Option TargetCall) × (ahg_check_gimple_stmt current tcalls gs ≡ ok tc)
        × OptionTarget tc
  unfolding ahg_check_gimple_stmt ahg_xinstrument_checker
  check_ok are gs = elim (Option-cases (called gs)) [
    | inl no_call ↦ (none, simp (ahg_check_gimple_stmt, no_call), tt)
    | inr (d, calls) ↦
        let (b, e) = is_builtin_ok current tcalls are in
        (
          if not b then with_code (is_target d.name tcalls) gs.code else none,
          simp (ahg_check_gimple_stmt, ahg_xinstrument_checker, calls, e, ◌>>=◌),
          if-OptionTarget (not b) (with_code (is_target d.name tcalls) gs.code) none
              (with_code-OptionTarget (is_target d.name tcalls) gs.code
                (is_target-OptionTarget d.name tcalls are))
              tt,
        )
  ]

  -- The calls that are inserted behind a statement are passive.
  insert_built-ArePassive :
      (place : Place) (stmt : Gimple) (built : Option Gimple) (a : Around)
      → ((call : Gimple) → built ≡ some call → IsPassive call)
      → ArePassive a.behind
      → ArePassive (insert_built place stmt built a).behind
  unfolding insert_built gxinsert_call
  insert_built-ArePassive place stmt none a builds h = h
  insert_built-ArePassive insert_before stmt (some call) a builds h = h
  insert_built-ArePassive insert_after stmt (some call) a builds h = (builds call refl, h)

  instrument_each_ok :
      (tc : TargetCall) (ibs : List InsertBuiltin) (gs : Gimple) (a : Around)
      → AreBuiltins ibs
      → ArePassive a.behind
      → (a' : Around) × (instrument_each tc ibs gs a ≡ ok a') × ArePassive a'.behind
  unfolding instrument_each gxinstrument_target
  instrument_each_ok tc [] gs a are h = cc
  instrument_each_ok tc (ib ∷ more) gs a (inl off) h = (a, simp (instrument_each, off), h)
  instrument_each_ok tc (ib ∷ more) gs a (inr (builds, are)) h = elim (Bool-cases ib.active) [
    | inr off ↦ (a, simp (instrument_each, off), h)
    | inl on ↦
        let next = insert_built tc.gxinsert gs (ib.gxbuild gs) a in
        let passive = insert_built-ArePassive tc.gxinsert gs (ib.gxbuild gs) a (builds gs) h in
        let (a', e, p) = instrument_each_ok tc more gs next are passive in
        (a', simp (instrument_each, gxinstrument_target, on, e), p)
  ]

  instrument_with_ok :
      (tc : TargetCall) (ibs : Option (List InsertBuiltin)) (gs : Gimple)
      → OptionBuiltins ibs
      → (a : Around) × (instrument_with tc ibs gs ≡ ok a) × ArePassive a.behind
  unfolding instrument_with
  instrument_with_ok tc none gs are = (nothing, refl, tt)
  instrument_with_ok tc (some ibs) gs are = instrument_each_ok tc ibs gs nothing are tt

  pub around_ok :
      AreTargets tcalls
      → (gs : Gimple) → (a : Around) × (around current tcalls gs ≡ ok a) × ArePassive a.behind
  unfolding around ahg_instrument_gimple_call
  around_ok are gs = let (tc, e, builtins) = check_ok are gs in around_of tc e builtins
    where
      around_of :
          (tc : Option TargetCall)
          → ahg_check_gimple_stmt current tcalls gs ≡ ok tc
          → OptionTarget tc
          → (a : Around) × (around current tcalls gs ≡ ok a) × ArePassive a.behind
      around_of none e h = (nothing, rw (around, e) refl, tt)
      around_of (some tc) e h =
          let (a, e', p) = instrument_with_ok tc tc.builtins gs h in
          (a, simp (around, ahg_instrument_gimple_call, e, e', ◌>>=◌), p)

  -- A passive statement is left alone.
  pub around-IsPassive :
      AreTargets tcalls → (gs : Gimple) → IsPassive gs → around current tcalls gs ≡ ok nothing
  unfolding around ahg_check_gimple_stmt ahg_xinstrument_checker called with_code
  around-IsPassive are gs (d, calls, no_target) =
      elim (Bool-cases (gs.is_call && d.is_function_decl && not d.artificial)) [
        | inl passes ↦
            let (b, e) = is_builtin_ok current tcalls are in
            let c : called gs ≡ some d =
              rw (called, calls, ◌>>=◌) (ap (λ t. if t then some d else none) passes) in
            elim (Bool-cases b) [
              | inl own ↦
                  simp (around, ahg_check_gimple_stmt, ahg_xinstrument_checker, c, e, own, ◌>>=◌)
              | inr other ↦ simp (
                around, ahg_check_gimple_stmt, ahg_xinstrument_checker, c, e, other, no_target,
                with_code, ◌>>=◌,
              )
            ]
        | inr fails ↦
            let c : called gs ≡ none =
              rw (called, calls, ◌>>=◌) (ap (λ t. if t then some d else none) fails) in
            simp (around, ahg_check_gimple_stmt, c, ◌>>=◌)
      ]
