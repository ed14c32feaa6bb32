-- ===== src/Ast/Options/Known.antt =====
-- ahaggar-ast.c: which arguments of the plugin are accepted, and what they set.
use ahaggar.Base.{
  arith, ℕ, ◌≡◌, refl, ap, ◌∙◌, Bool, true, false, Option, none, some, List, [], ◌∷◌, ok,
  if◌then◌else◌, ◌>>=◌, codes, pos, negsuc, ◌&&◌, ◌||◌, Bool-cases, inl, inr,
}
use ahaggar.Instrument.{same_text}
use ahaggar.Ast.Options.{
  Options, Argument, value_is, process_arg, after_arg, ast_plugin_process_args,
}

same_text-≡ : (cs ds : List ℕ) → same_text cs ds ≡ true → cs ≡ ds
unfolding same_text
same_text-≡ [] [] e = refl
same_text-≡ [] (d ∷ ds) e = absurd (ground arith)
same_text-≡ (c ∷ cs) [] e = absurd (ground arith)
same_text-≡ (c ∷ cs) (d ∷ ds) e = ground (arith, same_text-≡ cs ds)

abbrev pub HasValue : Argument → Type 0
HasValue a = (v : List ℕ) × (a.value ≡ some v)

abbrev pub HaveValues : List Argument → Type 0
HaveValues [] = Unit
HaveValues (a ∷ more) = HasValue a × HaveValues more

abbrev is_known : Argument → Bool
is_known a = same_text a.key (codes "output") || same_text a.key (codes "unit")

abbrev pub all_known : List Argument → Bool
all_known [] = true
all_known (a ∷ more) = is_known a && all_known more

-- The arguments before the first that is not known.
abbrev pub accepted : List Argument → List Argument
accepted [] = []
accepted (a ∷ more) = let rest = accepted more in if is_known a then a ∷ rest else []

abbrev has_text : Option (List ℕ) → List ℕ → Bool
has_text none text = false
has_text (some v) text = same_text v text

-- Whether one of the arguments is `key=text`.
abbrev pub asks : List ℕ → List ℕ → List Argument → Bool
asks key text [] = false
asks key text (a ∷ more) = (same_text a.key key && has_text a.value text) || asks key text more

abbrev pub set_by : List Argument → Options → Options
set_by args o = record {
  to_files = asks (codes "output") (codes "files") args || o.to_files;
  only_main = asks (codes "unit") (codes "main") args || o.only_main;
}

files_set :
    (b : Bool) (o : Options)
    → (if b then record o { to_files = true } else o)
      ≡ record o { to_files = (b || false) || o.to_files }
files_set true o = refl
files_set false o = refl

main_set :
    (b : Bool) (o : Options)
    → (if b then record o { only_main = true } else o)
      ≡ record o { only_main = (b || false) || o.only_main }
main_set true o = refl
main_set false o = refl

-- The value is compared, and sets what `set` says.
process_arg-output :
    (a : Argument) (v : List ℕ) (o : Options)
    → a.value ≡ some v
    → same_text a.key (codes "output") ≡ true
    → process_arg a o ≡ ok (some (set_by (a ∷ []) o))
unfolding process_arg value_is
process_arg-output a v o e k =
    let other : same_text a.key (codes "unit") ≡ false =
      ap (λ t. same_text t (codes "unit")) (same_text-≡ a.key _ k) ∙ (unfold same_text in refl) in
    simp (k, other, e, ◌>>=◌, files_set (same_text v (codes "files")) o)

process_arg-unit :
    (a : Argument) (v : List ℕ) (o : Options)
    → a.value ≡ some v
    → same_text a.key (codes "unit") ≡ true
    → process_arg a o ≡ ok (some (set_by (a ∷ []) o))
unfolding process_arg value_is
process_arg-unit a v o e k =
    let other : same_text a.key (codes "output") ≡ false =
      ap (λ t. same_text t (codes "output")) (same_text-≡ a.key _ k) ∙ (unfold same_text in refl) in
    simp (k, other, e, ◌>>=◌, main_set (same_text v (codes "main")) o)

process_arg-unknown : (a : Argument) (o : Options) → is_known a ≡ false → process_arg a o ≡ ok none
unfolding process_arg
process_arg-unknown a o e = ground arith

or_swap : (a b c : Bool) → b || (a || c) ≡ (a || b) || c
or_swap true true c = refl
or_swap true false c = refl
or_swap false b c = refl

or_false : (a : Bool) → a || false ≡ a
or_false true = refl
or_false false = refl

set_by-cons :
    (a : Argument) (more : List Argument) (o : Options)
    → set_by more (set_by (a ∷ []) o) ≡ set_by (a ∷ more) o
set_by-cons a more o = simp (
  or_false,
  or_swap (same_text a.key (codes "output") && has_text a.value (codes "files"))
      (asks (codes "output") (codes "files") more) o.to_files,
  or_swap (same_text a.key (codes "unit") && has_text a.value (codes "main"))
      (asks (codes "unit") (codes "main") more) o.only_main,
)

process_arg-known :
    (a : Argument) (o : Options)
    → HasValue a
    → is_known a ≡ true
    → process_arg a o ≡ ok (some (set_by (a ∷ []) o))
process_arg-known a o (v, e) k = elim (Bool-cases (same_text a.key (codes "output"))) [
  | inl h ↦ process_arg-output a v o e h
  | inr h ↦ process_arg-unit a v o e (ground arith)
]

args-unknown :
    (a : Argument) (more : List Argument) (o : Options)
    → process_arg a o ≡ ok none
    → ast_plugin_process_args (a ∷ more) o ≡ ok (negsuc 0, o)
unfolding ast_plugin_process_args
args-unknown a more o e = ap (λ r. after_arg r o (ast_plugin_process_args more)) e

args-known :
    (a : Argument) (more : List Argument) (o o' : Options)
    → process_arg a o ≡ ok (some o')
    → ast_plugin_process_args (a ∷ more) o ≡ ast_plugin_process_args more o'
unfolding ast_plugin_process_args
args-known a more o o' e = ap (λ r. after_arg r o (ast_plugin_process_args more)) e

-- Where every argument has a value, ast_plugin_process_args returns: 0 if the key of each is output or
-- unit, and -1 if not; and whether files are written and only the main input is dumped is set by the
-- arguments before the first whose key is neither.
pub ast_plugin_process_args_lem :
    (args : List Argument) (o : Options)
    → HaveValues args
    → ast_plugin_process_args args o
      ≡ ok (if all_known args then pos 0 else negsuc 0, set_by (accepted args) o)
unfolding ast_plugin_process_args
ast_plugin_process_args_lem [] o h = refl
ast_plugin_process_args_lem (a ∷ more) o (h, hs) = elim (Bool-cases (is_known a)) [
  | inl k ↦
      args-known a more o (set_by (a ∷ []) o) (process_arg-known a o h k)
      ∙ ast_plugin_process_args_lem more (set_by (a ∷ []) o) hs
      ∙ simp (k, set_by-cons a (accepted more) o)
  | inr k ↦ args-unknown a more o (process_arg-unknown a o k) ∙ simp k
]
