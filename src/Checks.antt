-- ===== src/Checks.antt =====
-- fncalls_checks/checks-utils.c and checks-utils.h: the arguments in the text of a call. The text is a
-- block of bytes, its terminator and what stands behind it included; a pointer into it is an index,
-- and `none` is NULL. A read outside the block is a fault.
pub mod Args
pub mod Values
pub mod Sizes
pub mod Open
mod Tests
use ahaggar.Base.{
  ℕ, zero, suc, ◌+◌, ◌-◌, ◌%◌, ◌≡◌, Bool, true, false, Option, none, some, List, [], ◌∷◌, ◌++◌, Run,
  ok, fault, ◌>>=◌, ◌==◌, if◌then◌else◌, ◌||◌, ◌&&◌, from_option, get_elem?, drop, u32_mod, int_max,
  ltb, ℤ, pos, negsuc,
}

-- A pointer into the text.
abbrev pub Offset : Type 0
Offset = Option ℕ

-- The loop of `get_next_arg` from `end` on; `subcalls` is an `unsigned int`.
pub arg_end : List ℕ → ℕ → ℕ → Run ℕ
arg_end [] subcalls end = fault
arg_end (c ∷ cs) subcalls end =
    let deeper = arg_end cs ((subcalls + 1) % u32_mod) (end + 1) in
    let back = arg_end cs (subcalls - 1) (end + 1) in
    let on = arg_end cs subcalls (end + 1) in
    if c == 0
    then ok end
    else if c == b'('
    then deeper
    else if c == b')'
    then (if subcalls == 0 then ok end else back)
    else if c == b',' && subcalls == 0
    then ok (end + 2)
    else on

-- `get_next_arg` where `ptr` was moved behind the opening parenthesis: the result, and what
-- `*call_offset` becomes.
pub arg_at : List ℕ → ℕ → Run (Offset × Offset)
arg_at call ptr = do
  c ← from_option (get_elem? call ptr)
  if c == b')' || c == 0
      then ok (none, none)
      else (do end ← arg_end (drop ptr call) 0 ptr; ok (some ptr, some end))

pub get_next_arg : List ℕ → Offset → Run (Offset × Offset)
get_next_arg call none = ok (none, none)
get_next_arg call (some ptr) = arg_at call (if ptr == 0 then 1 else ptr)

-- The loop of `get_arg_value` at `ptr`.
pub value_from : List ℕ → ℕ → ℕ → ℕ → Run Offset
value_from [] subcalls tags ptr = fault
value_from (c ∷ cs) subcalls tags ptr =
    let deeper = value_from cs ((subcalls + 1) % u32_mod) tags (ptr + 1) in
    let back = value_from cs (subcalls - 1) tags (ptr + 1) in
    let tag = value_from cs subcalls ((tags + 1) % u32_mod) (ptr + 1) in
    let untag = value_from cs subcalls (tags - 1) (ptr + 1) in
    let on = value_from cs subcalls tags (ptr + 1) in
    if c == 0
    then ok none
    else if c == b'('
    then deeper
    else if c == b')'
    then (if subcalls == 0 then ok none else back)
    else if c == b'<'
    then tag
    else if c == b'>'
    then untag
    else if c == b','
    then (if subcalls == 0 then ok none else on)
    else if c == b' '
    then on
    else if subcalls == 0 && tags == 0
    then ok (some ptr)
    else on

pub get_arg_value : List ℕ → Offset → Run Offset
get_arg_value call none = ok none
get_arg_value call (some ptr) = do
  c ← from_option (get_elem? call ptr)
  if c == b')' then ok none else value_from (drop ptr call) 0 0 ptr

-- The loop of `get_args_nr`, with fuel; to outlive it is a fault, and so is to count on from the
-- largest `int`.
pub count_args : ℕ → List ℕ → Offset → ℕ → Run ℕ
count_args zero call offset nr = fault
count_args (suc k) call offset nr = do
  (ptr, next) ← get_next_arg call offset
  elim ptr [
    | none ↦ ok nr
    | some p ↦ elim (ltb nr int_max) [ false ↦ fault | true ↦ count_args k call next (nr + 1) ]
  ]

pub get_args_nr : ℕ → List ℕ → Run ℕ
get_args_nr fuel call = count_args fuel call (some 0) 0

-- The loop of `call_start_at_arg`: `n` more calls of `get_next_arg`.
pub skip_args : ℕ → List ℕ → Offset → Offset → Run Offset
skip_args zero call offset ptr = ok ptr
skip_args (suc n) call offset ptr = do
  (found, next) ← get_next_arg call offset
  skip_args n call next found

-- The third test of the source, for `arg_idx == 1`, is never reached.
pub call_start_at_arg : List ℕ → ℤ → Run Offset
call_start_at_arg call (pos zero) = ok none
call_start_at_arg call (pos (suc n)) = skip_args (suc n) call (some 0) none
call_start_at_arg call (negsuc n) = ok none
