-- ===== src/Instrument/Calls.antt =====
-- xinstrument_calls/xinstrument-calls.h and xinstrument-utils.c: the table of the functions whose calls
-- are instrumented. compiletime-size.h, which declares the functions that build the calls and names
-- them, is not in the repository: they are parameters, and so is the number of GIMPLE_CALL.
pub mod Inserted
use ahaggar.Base.{ℕ, Bool, true, false, Option, none, some, List, [], ◌∷◌, codes, if◌then◌else◌}
use Prim.Native.String.{String}
use ahaggar.Instrument.{Decl, Gimple, insert_after, InsertBuiltin, TargetCall}

-- `gimple_build_call_valist` makes the call; without a function there is none.
unfoldable pub gxinstrument_build_call :
    (Decl → List ℕ → Gimple) → Option Decl → List ℕ → Option Gimple
gxinstrument_build_call build_call_valist none args = none
gxinstrument_build_call build_call_valist (some fn) args =
    if fn.is_function_decl then some (build_call_valist fn args) else none

-- __BUILTIN_SIZE_OVERFLOW_FUNC, __BUILTIN_PTR_OVERFLOW_FUNC, compiletime_size_build,
-- compiletime_ptr_build and GIMPLE_CALL.
pub record Builders : Type 0 where
  pub size_overflow_func : List ℕ
  pub ptr_overflow_func : List ℕ
  pub size_build : Gimple → Option Gimple
  pub ptr_build : Gimple → Option Gimple
  pub gimple_call : ℕ

module _ (b : Builders) where
  abbrev pub size_overflow : InsertBuiltin
  size_overflow = record { name = b.size_overflow_func; gxbuild = b.size_build; active = true }

  abbrev pub ptr_overflow : InsertBuiltin
  ptr_overflow = record { name = b.ptr_overflow_func; gxbuild = b.ptr_build; active = true }

  -- `{ NULL }`; its function is never called.
  abbrev pub no_builtin : InsertBuiltin
  no_builtin = record { name = []; gxbuild = λ gs. none; active = false }

  abbrev pub overflow_target : String → TargetCall
  overflow_target name = record {
    name = codes name;
    code = b.gimple_call;
    gxinsert = insert_after;
    builtins = some (size_overflow ∷ ptr_overflow ∷ no_builtin ∷ []);
  }

  unfoldable pub tcalls : List TargetCall
  tcalls =
      overflow_target "memset"
      ∷ overflow_target "memcpy"
      ∷ overflow_target "strncpy"
      ∷ overflow_target "strlcpy"
      ∷ overflow_target "copy_from_user"
      ∷ []
