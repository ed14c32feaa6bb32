-- ===== src/Checks/Open.antt =====
-- fncalls_checks/file-checks.c: the checks of a call of `open`. `strtol`, `strtoul` and the octal print
-- of `snprintf` are parameters; a `long` is given by its bits. `O_CREAT` is Linux's.
use ahaggar.Base.{
  ℕ, suc, ◌-◌, ◌/◌, ◌%◌, ◌^◌, ◌<◌, ◌≡◌, Bool, false, none, some, List, [], ◌∷◌, ◌++◌, Run, ok,
  ◌>>=◌, ◌==◌, if◌then◌else◌, ◌||◌, drop, take, length, pos, codes, arith, u32_mod, sub64, ℤ,
  length-append, not, ◌&&◌,
}
use ahaggar.Checks.{Offset, call_start_at_arg, get_args_nr}
use ahaggar.Checks.Args.{IsArgs, joined, call_text, get_args_nr_lem, call_start_at_arg_lem}
use ahaggar.Checks.Sizes.{Parsed, Verdict, matched, no_match, tagged_value, printed}
use ahaggar.Checks.Sizes.Results.{ValueAt, tagged_value_lem}

pub open_to_int_cst_arg : List ℕ → ℤ → Run Offset
open_to_int_cst_arg call arg_idx = do s ← call_start_at_arg call arg_idx; tagged_value call s

-- Bit `k` of a number.
abbrev pub bit : ℕ → ℕ → Bool
bit k n = n / 2 ^ k % 2 == 1

-- `S_IROTH`, `S_IWOTH`, `S_IXOTH` and `S_IXGRP`, on a `mode_t`.
pub is_others_read : ℕ → Bool
is_others_read mode = bit 2 (mode % u32_mod)

pub is_others_write : ℕ → Bool
is_others_write mode = bit 1 (mode % u32_mod)

pub is_others_exec : ℕ → Bool
is_others_exec mode = bit 0 (mode % u32_mod)

pub is_group_exec : ℕ → Bool
is_group_exec mode = bit 3 (mode % u32_mod)

-- `O_CREAT`
pub creates : ℕ → Bool
creates flags = bit 6 flags

-- A call's arguments are fewer than its bytes, so these are fuel enough.
pub open_assumes_file_exists : List ℕ → ℕ → List ℕ → ℕ → Run (Verdict × List ℕ)
open_assumes_file_exists call flags buf buflen = do
  nr ← get_args_nr (length call) call
  ok (if nr == 2 then matched else no_match, buf)

-- `errno || arg == endp`
abbrev pub unread : Parsed → Bool
unread p = p.failed || p.used == 0

-- The text of a mode, behind what is in the buffer.
pub mode_text : (ℕ → List ℕ) → ℕ → ℕ → List ℕ → List ℕ
mode_text octal mode buflen [] =
    let head = printed buflen (codes "function 'open' mode: ") [] in
    let room = sub64 buflen (length head) in
    if room == 0 then head else head ++ take (room - 1) (octal mode)
mode_text octal mode buflen (b ∷ bs) =
    let room = sub64 (sub64 buflen (length (b ∷ bs))) 1 in
    let head = (b ∷ bs) ++ take room (codes "mode: ") in
    let left = sub64 buflen (length head) in
    if left == 0 then head else head ++ take (left - 1) (octal mode)

module _ (strtol : List ℕ → Parsed) where
  -- Behind the scan of the flags argument.
  pub needs_mode : List ℕ → Offset → Verdict
  needs_mode call none = no_match
  needs_mode call (some p) =
      let flags = strtol (drop p call) in
      if unread flags then no_match else if creates flags.value then matched else no_match

  pub open_needs_mode_arg : List ℕ → ℕ → List ℕ → ℕ → Run (Verdict × List ℕ)
  open_needs_mode_arg call flags buf buflen = do
    nr ← get_args_nr (length call) call
    if nr == 3
        then ok (no_match, buf)
        else (do arg ← open_to_int_cst_arg call (pos 2); ok (needs_mode call arg, buf))

  module _ (strtoul : List ℕ → Parsed) (octal : ℕ → List ℕ) where
    -- Whether the flags argument stops the check.
    pub flags_stop : List ℕ → Offset → Bool
    flags_stop call none = false
    flags_stop call (some p) = unread (strtol (drop p call))

    pub mode_verdict : List ℕ → Offset → List ℕ → ℕ → Verdict × List ℕ
    mode_verdict call none buf buflen = (matched, buf)
    mode_verdict call (some p) buf buflen =
        let mode = strtoul (drop p call) in
        if unread mode
        then (no_match, buf)
        else if is_others_read mode.value
            || is_others_write mode.value
            || is_others_exec mode.value
            || is_group_exec mode.value
        then (matched, mode_text octal mode.value buflen buf)
        else (no_match, buf)

    pub open_chk_flag_mode : List ℕ → ℕ → List ℕ → ℕ → Run (Verdict × List ℕ)
    open_chk_flag_mode call flags buf buflen = do
      arg_flag ← open_to_int_cst_arg call (pos 2)
      if flags_stop call arg_flag then ok (no_match, buf) else (do
        arg_mode ← open_to_int_cst_arg call (pos 3)
        ok (mode_verdict call arg_mode buf buflen))

length-joined :
    (args : List (List ℕ)) (rest : List ℕ) → IsArgs args → length args < length (joined args rest)
length-joined [] rest is = omega arith
length-joined (a ∷ []) rest (is, more) = omega (arith, length-append a (b')' ∷ rest), is)
length-joined (a ∷ b ∷ others) rest (is, more) = omega (
  arith,
  length-append a (b',' ∷ b' ' ∷ joined (b ∷ others) rest),
  length-joined (b ∷ others) rest more,
)

count :
    (args : List (List ℕ)) (rest : List ℕ)
    → IsArgs args
    → length args < 2 ^ 31
    → get_args_nr (length (call_text args rest)) (call_text args rest) ≡ ok (length args)
count args rest is few =
    get_args_nr_lem args rest (length (call_text args rest)) is
      (omega (arith, length-joined args rest is)) few

-- A call of `open` with exactly two arguments, of fewer than 2^31, is taken to rely on an existing file.
pub open_assumes_file_exists_lem :
    (args : List (List ℕ)) (rest : List ℕ) (flags buflen : ℕ) (buf : List ℕ)
    → IsArgs args
    → length args < 2 ^ 31
    → open_assumes_file_exists (call_text args rest) flags buf buflen
      ≡ ok (if length args == 2 then matched else no_match, buf)
unfolding open_assumes_file_exists
open_assumes_file_exists_lem args rest flags buflen buf is few = rw (count args rest is few)

-- The flags or mode argument of a call, as a pointer to its text.
int_cst_arg :
    (args : List (List ℕ)) (rest text : List ℕ) (n : ℕ)
    → IsArgs args
    → ValueAt args n rest text
    → (q : ℕ) × (open_to_int_cst_arg (call_text args rest) (pos (suc n)) ≡ ok (some q))
      × (drop q (call_text args rest) ≡ text)
unfolding open_to_int_cst_arg
int_cst_arg args rest text n is v =
    tagged_value_lem (call_text args rest) args n rest text
      (call_start_at_arg (call_text args rest) (pos (suc n)))
      ((call_start_at_arg_lem args rest n is).0) v

-- With constant flags and a constant mode that are read, `open_chk_flag_mode` matches exactly if the
-- mode gives others a permission, or the group that to execute; it then prints the mode.
pub open_chk_flag_mode_lem :
    (strtol strtoul : List ℕ → Parsed) (octal : ℕ → List ℕ) (args : List (List ℕ))
    (rest flag_text text : List ℕ) (flags buflen : ℕ) (buf : List ℕ)
    → IsArgs args
    → ValueAt args 1 rest flag_text
    → ValueAt args 2 rest text
    → unread (strtol flag_text) ≡ false
    → unread (strtoul text) ≡ false
    → open_chk_flag_mode strtol strtoul octal (call_text args rest) flags buf buflen
      ≡ ok (
          if (strtoul text).value % 8 == 0 && not (bit 3 (strtoul text).value)
          then (no_match, buf)
          else (matched, mode_text octal (strtoul text).value buflen buf))
unfolding open_chk_flag_mode flags_stop mode_verdict is_others_read is_others_write is_others_exec
    is_group_exec
open_chk_flag_mode_lem strtol strtoul octal args rest flag_text text flags buflen buf is v w r1 r2 =
    let (p, flag_found, flag_at) = int_cst_arg args rest flag_text 1 is v in
    let (q, found, at) = int_cst_arg args rest text 2 is w in
    rw (flag_found, ◌>>=◌, flag_at, r1, found, at, r2) (ground arith)
