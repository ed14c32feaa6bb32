-- ===== src/Instrument/Tests.antt =====
-- A table for memcpy with one builtin, and the theorems at it.
use ahaggar.Base.{
  arith, ℕ, ◌≡◌, refl, sym, ap, true, false, Option, none, some, List, [], ◌∷◌, ok, codes,
}
use ahaggar.Cache.Tests.{pairs}
use ahaggar.Instrument.{
  ahaggar_xinstrument_main, Decl, Gimple, insert_after, TargetCall, same_text, names_builtin,
  is_builtin_of, is_builtin, is_target, insert_built, gxinsert_call, gxinstrument_target,
  instrument_each, instrument_with, ahg_instrument_gimple_call, ahg_xinstrument_checker, called,
  with_code, ahg_check_gimple_stmt, around, ahg_bb_gimple_stmt,
}
use ahaggar.Instrument.Calls.{Builders, tcalls, gxinstrument_build_call}
use ahaggar.Instrument.Calls.Inserted.{
  AreShort, gxinstrument_build_call-BuildsPassive, ahaggar_xinstrument_main-tcalls,
}

abbrev decl : List ℕ → Decl
decl name = record { name = name; is_function_decl = true; artificial = false }

abbrev call_of : List ℕ → ℕ → Gimple
call_of name n = record {
  code = 7;
  is_call = true;
  fndecl = some (decl name);
  number = n;
  location = n;
  block = 3;
}

abbrev size_check : List ℕ
size_check = codes "chk"

abbrev build_check : Gimple → Option Gimple
build_check gs = some (call_of size_check gs.number)

abbrev table : List TargetCall
table =
    record {
      name = codes "cpy";
      code = 7;
      gxinsert = insert_after;
      builtins = some (
          record { name = size_check; gxbuild = build_check; active = true }
          ∷ record { name = []; gxbuild = build_check; active = false }
          ∷ []);
    }
    ∷ []

decl_of : Option Gimple → Option Decl
decl_of none = none
decl_of (some gs) = gs.fndecl

abbrev main_block : List Gimple
main_block = call_of (codes "cpy") 1 ∷ call_of (codes "foo") 2 ∷ []

inserted_after_cpy :
    ahg_bb_gimple_stmt 4 (codes "main") table main_block
    ≡ ok (call_of (codes "cpy") 1 ∷ call_of size_check 1 ∷ call_of (codes "foo") 2 ∷ [])
unfolding ahg_bb_gimple_stmt around ahg_check_gimple_stmt ahg_xinstrument_checker called with_code
    is_builtin is_builtin_of names_builtin is_target same_text ahg_instrument_gimple_call
    instrument_with instrument_each gxinstrument_target insert_built gxinsert_call
inserted_after_cpy = refl

-- The table of the plugin, with builders of calls of two functions.
abbrev ptr_check : List ℕ
ptr_check = codes "ptr"

abbrev build_call : Decl → List ℕ → Gimple
build_call d args = record {
  code = 7;
  is_call = true;
  fndecl = some d;
  number = 9;
  location = 0;
  block = 0;
}

abbrev build_ptr : Gimple → Option Gimple
build_ptr gs = gxinstrument_build_call build_call (some (decl ptr_check)) []

abbrev builders : Builders
builders = record {
  size_overflow_func = size_check;
  ptr_overflow_func = ptr_check;
  size_build = build_check;
  ptr_build = build_ptr;
  gimple_call = 7;
}

size_passive : is_target size_check (tcalls builders) ≡ none
unfolding is_target same_text tcalls
size_passive = refl

ptr_passive : is_target ptr_check (tcalls builders) ≡ none
unfolding is_target same_text tcalls
ptr_passive = refl

not_size : same_text (codes "main") size_check ≡ false
unfolding same_text
not_size = refl

not_ptr : same_text (codes "main") ptr_check ≡ false
unfolding same_text
not_ptr = refl

abbrev copying : List Gimple
copying = call_of (codes "memcpy") 1 ∷ call_of (codes "foo") 2 ∷ []

copying-AreShort : AreShort builders 5 (copying ∷ [])
unfolding called tcalls same_text gxinstrument_build_call decl_of
copying-AreShort = (omega arith, tt)

ahaggar_xinstrument_main-tcalls_example :
    ahaggar_xinstrument_main pairs 5 (codes "main") 7 (tcalls builders) (copying ∷ [])
    ≡ ok (
        (call_of (codes "memcpy") 1
          ∷ record (call_of ptr_check 9) { location = 1 }
          ∷ call_of size_check 1
          ∷ call_of (codes "foo") 2
          ∷ [])
        ∷ [])
unfolding called tcalls same_text gxinstrument_build_call decl_of
ahaggar_xinstrument_main-tcalls_example =
    ahaggar_xinstrument_main-tcalls builders (codes "main") not_size not_ptr pairs 7 5
      (copying ∷ []) (λ gs call e. (decl size_check, sym (ap decl_of e), size_passive))
      (gxinstrument_build_call-BuildsPassive builders (codes "main") build_call (decl ptr_check)
        (λ gs. []) (λ d args. refl) ptr_passive)
      (omega arith) copying-AreShort
