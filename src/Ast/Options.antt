-- ===== src/Ast/Options.antt =====
-- ahaggar-ast.c: the arguments of the plugin.
pub mod Known
use ahaggar.Base.{
  ℕ, Bool, true, Option, none, some, List, [], ◌∷◌, Run, ok, fault, if◌then◌else◌, ◌>>=◌, codes, ℤ,
  pos, negsuc,
}
use ahaggar.Instrument.{same_text}

-- What the arguments of the plugin set.
pub record Options : Type 0 where
  pub to_files : Bool
  pub only_main : Bool

-- `struct plugin_argument`; an argument without `=` has no value.
pub record Argument : Type 0 where
  pub key : List ℕ
  pub value : Option (List ℕ)

-- `!strcmp(argv[i].value, text)`: without a value NULL is followed.
pub value_is : Option (List ℕ) → List ℕ → Run Bool
value_is none text = fault
value_is (some value) text = ok (same_text value text)

-- One round of the loop; `none` is the error for an option that is not known.
pub process_arg : Argument → Options → Run (Option Options)
process_arg a o =
    if same_text a.key (codes "output")
    then value_is a.value (codes "files")
      >>= (λ b. ok (some (if b then record o { to_files = true } else o)))
    else if same_text a.key (codes "unit")
    then value_is a.value (codes "main")
      >>= (λ b. ok (some (if b then record o { only_main = true } else o)))
    else ok none

-- Behind an argument: on an error the loop is left.
abbrev pub after_arg :
    Run (Option Options) → Options → (Options → Run (ℤ × Options)) → Run (ℤ × Options)
after_arg fault o next = fault
after_arg (ok none) o next = ok (negsuc 0, o)
after_arg (ok (some o')) o next = next o'

-- The result of the C function, and the options: those before the argument that is not known are set.
pub ast_plugin_process_args : List Argument → Options → Run (ℤ × Options)
ast_plugin_process_args [] o = ok (pos 0, o)
ast_plugin_process_args (a ∷ more) o = after_arg (process_arg a o) o (ast_plugin_process_args more)
