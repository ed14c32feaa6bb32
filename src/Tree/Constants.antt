-- ===== src/Tree/Constants.antt =====
-- nodes-utils.c: the texts of integer and string constants.
pub mod Reading
use ahaggar.Base.{
  ℕ, suc, ◌+◌, ◌-◌, true, false, List, [], ◌∷◌, ◌++◌, Run, ok, fault, ◌>>=◌, if◌then◌else◌, ◌==◌,
  ◌&&◌, ◌||◌, codes, leb, ltb, take,
}
use ahaggar.Buffer.Script.{Call, char, print}
use ahaggar.Tree.Codes
use ahaggar.Tree.Codes.{◌is◌}
use ahaggar.Tree
use ahaggar.Tree.Names.{deref, say, when, local_text}

-- `MAX_STR_PRINT`
abbrev pub max_str_print : ℕ
max_str_print = 10

-- The bytes that follow a backslash, or the byte itself.
pub escape : ℕ → Call
escape c =
    if c == 8
    then print (codes "\\b")
    else if c == 12
    then print (codes "\\f")
    else if c == b'\n'
    then print (codes "\\n")
    else if c == b'\r'
    then print (codes "\\r")
    else if c == b'\t'
    then print (codes "\\t")
    else if c == 11
    then print (codes "\\v")
    else if c == b'\\'
    then print (codes "\\\\")
    else if c == b'"'
    then print (codes "\\\"")
    else if c == 39
    then print (codes "\\'")
    else if leb 1 c && leb c 7
    then print (b'\\' ∷ (b'0' + c) ∷ [])
    else char c

-- The loop over the bytes of the string, `i` of which are printed.
pub string_calls : List ℕ → ℕ → Run (List Call)
string_calls [] i = fault
string_calls (c ∷ cs) i = elim (c == 0 || leb max_str_print i) [
  | true ↦ ok []
  | false ↦ (do rest ← string_calls cs (suc i); ok (escape c ∷ rest))
]

module _ (g : Tree.Gcc) where
  pub get_string_cst : ℕ → Run (List ℕ)
  get_string_cst node = if node == 0 then ok [] else (do
    calls ← string_calls (g.text Tree.string_pointer node) 0
    ok (
        local_text (
          calls
          ++ when (ltb max_str_print (g.number Tree.string_length node)) (say (codes "...")))))

  -- `sizeof(buffer)`
  abbrev pub int_buffer_size : ℕ
  int_buffer_size = 32

  pub long_suffix : ℕ → List ℕ
  long_suffix type =
      if g.is_long_type type then codes "l" else if g.is_long_long_type type then codes "ll" else []

  -- With a `HOST_WIDE_INT` of 64 bits.
  pub int_text : ℕ → ℕ → List ℕ
  int_text int_cst type =
      if g.code type is Codes.pointer_type
      then g.text Tree.int_cst_low int_cst
      else if g.flag Tree.type_unsigned type
      then g.text Tree.int_cst_unsigned int_cst ++ (b'u' ∷ long_suffix type)
      else g.text Tree.int_cst_signed int_cst ++ long_suffix type

  pub get_int_cst : ℕ → Run (List ℕ)
  get_int_cst int_cst = do
    type ← deref g (g.field Tree.tree_type) int_cst
    unsigned ← deref g (g.flag Tree.type_unsigned) type
    ok (local_text (say (take (int_buffer_size - 1) (int_text int_cst type))))
