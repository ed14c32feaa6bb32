-- ===== src/Checks/Tests.antt =====
-- The checks on one call of each kind, and the theorems at them. The readers of numbers here read
-- decimal digits.
use ahaggar.Base.{
  ℕ, ◌+◌, ◌-◌, ◌*◌, ◌%◌, ◌≡◌, refl, false, none, some, List, [], ◌∷◌, ◌++◌, ok, ◌==◌, if◌then◌else◌,
  ◌||◌, ◌&&◌, not, leb, arith, length, codes, pos, negsuc,
}
use ahaggar.Checks.{
  arg_end, arg_at, get_next_arg, skip_args, get_args_nr, call_start_at_arg, get_arg_value,
}
use ahaggar.Checks.Args.{call_text, IsArgs, StartsAt, get_args_nr_lem, call_start_at_arg_lem}
use ahaggar.Checks.Values.{get_arg_value-none}
use ahaggar.Checks.Sizes.{Parsed, matched, no_match, printed_if, size_text}
use ahaggar.Checks.Sizes.Results.{matcher, memset, matcher_lem}
use ahaggar.Checks.Open.{
  open_assumes_file_exists, open_chk_flag_mode, bit, mode_text, open_assumes_file_exists_lem,
  open_chk_flag_mode_lem,
}

read_digits : List ℕ → ℕ → ℕ → Parsed
read_digits [] n used = record { value = n; used = used; failed = false }
read_digits (c ∷ cs) n used =
    let more = read_digits cs (n * 10 + (c - b'0')) (used + 1) in
    if leb b'0' c && leb c b'9' then more else record { value = n; used = used; failed = false }

abbrev decimal : List ℕ → Parsed
decimal text = read_digits text 0 0

-- `memset(p, 0, 8)` as it is dumped.
abbrev memset_args : List (List ℕ)
memset_args = codes "<var_decl> p" ∷ codes "<integer_cst> 0" ∷ codes "<integer_cst> 8" ∷ []

abbrev tail : List ℕ
tail = b' ' ∷ 0 ∷ 0 ∷ []

memset_args-IsArgs : IsArgs memset_args
memset_args-IsArgs = (
  (refl, omega arith, omega arith),
  ((refl, omega arith, omega arith), ((refl, omega arith, omega arith), tt)),
)

get_args_nr_lem_example : get_args_nr 4 (call_text memset_args tail) ≡ ok 3
get_args_nr_lem_example =
    get_args_nr_lem memset_args tail 4 memset_args-IsArgs (omega arith) (omega arith)

call_start_at_arg_lem_example :
    StartsAt
      (call_text memset_args tail)
      memset_args
      2
      tail
      (call_start_at_arg (call_text memset_args tail) (pos 3))
    × (call_start_at_arg (call_text memset_args tail) (pos 0) ≡ ok none)
    × (call_start_at_arg (call_text memset_args tail) (negsuc 2) ≡ ok none)
call_start_at_arg_lem_example = call_start_at_arg_lem memset_args tail 2 memset_args-IsArgs

-- The pointer to the second argument, and its value.
second_arg : call_start_at_arg (call_text memset_args tail) (pos 2) ≡ ok (some 15)
unfolding call_start_at_arg skip_args get_next_arg arg_at arg_end
second_arg = refl

get_arg_value-none_example : get_arg_value (codes "(<ssa_name>, 4)" ++ tail) (some 1) ≡ ok none
get_arg_value-none_example =
    get_arg_value-none (codes "(<ssa_name>, 4)" ++ tail) (codes "ssa_name") (codes " 4)" ++ tail) 1
      (omega arith) b',' refl refl

abbrev eight : List ℕ
eight = codes "8)" ++ tail

matcher_lem_example :
    matcher decimal memset (call_text memset_args tail) 0 [] 512
    ≡ ok (
        if (decimal eight).failed || (decimal eight).used == 0
        then (no_match, [])
        else (matched, printed_if 512 (size_text (codes "memset") (decimal eight).value) []))
matcher_lem_example =
    matcher_lem decimal memset memset_args tail eight 0 512 [] memset_args-IsArgs
      (b'8', [], refl, omega arith, omega arith, refl)

-- `open(p, O_CREAT | O_WRONLY)` and `open(p, O_CREAT | O_WRONLY, 0644)`.
abbrev two_args : List (List ℕ)
two_args = codes "<var_decl> p" ∷ codes "<integer_cst> 65" ∷ []

abbrev three_args : List (List ℕ)
three_args = codes "<var_decl> p" ∷ codes "<integer_cst> 65" ∷ codes "<integer_cst> 420" ∷ []

two_args-IsArgs : IsArgs two_args
two_args-IsArgs = ((refl, omega arith, omega arith), ((refl, omega arith, omega arith), tt))

three_args-IsArgs : IsArgs three_args
three_args-IsArgs = (
  (refl, omega arith, omega arith),
  ((refl, omega arith, omega arith), ((refl, omega arith, omega arith), tt)),
)

open_assumes_file_exists_lem_example :
    open_assumes_file_exists (call_text two_args tail) 0 [] 512
    ≡ ok (if length two_args == 2 then matched else no_match, [])
open_assumes_file_exists_lem_example =
    open_assumes_file_exists_lem two_args tail 0 512 [] two_args-IsArgs (omega arith)

decimal_65_420 :
    ((decimal (codes "65, <integer_cst> 420)" ++ tail)).failed
      || (decimal (codes "65, <integer_cst> 420)" ++ tail)).used == 0)
    ≡ false
unfolding read_digits
decimal_65_420 = refl

decimal_420 :
    ((decimal (codes "420)" ++ tail)).failed || (decimal (codes "420)" ++ tail)).used == 0) ≡ false
unfolding read_digits
decimal_420 = refl

open_chk_flag_mode_lem_example :
    open_chk_flag_mode decimal decimal (λ n. codes "00644") (call_text three_args tail) 0 [] 512
    ≡ ok (
        if (decimal (codes "420)" ++ tail)).value % 8 == 0
          && not (bit 3 (decimal (codes "420)" ++ tail)).value)
        then (no_match, [])
        else (
          matched,
          mode_text (λ n. codes "00644") (decimal (codes "420)" ++ tail)).value 512 [],
        ))
open_chk_flag_mode_lem_example =
    open_chk_flag_mode_lem decimal decimal (λ n. codes "00644") three_args tail
      (codes "65, <integer_cst> 420)" ++ tail) (codes "420)" ++ tail) 0 512 [] three_args-IsArgs
      (b'6', codes "5", refl, omega arith, omega arith, refl)
      (b'4', codes "20", refl, omega arith, omega arith, refl) decimal_65_420 decimal_420
