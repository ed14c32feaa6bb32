-- ===== src/Checks/Args.antt =====
-- Where `get_next_arg` and the functions above it find the arguments of a call that is printed as
-- `(a, b, c)`, with any bytes behind it.
use ahaggar.Base.{
  ℕ, zero, suc, ◌+◌, ◌-◌, ◌%◌, ◌<◌, ◌≡◌, refl, ◌∙◌, ap, false, Option, none, some, List, [], ◌∷◌,
  ◌++◌, Run, ok, ◌==◌, if◌then◌else◌, ◌||◌, ◌&&◌, get_elem?, drop, u32_mod, pos, negsuc, arith,
  length, get_elem?-drop, drop-drop, drop-append, ne→==, lt→ltb, int_max, ◌≤◌, ◌^◌, ◌>>=◌,
}
use ahaggar.Checks.{
  arg_end, arg_at, get_next_arg, count_args, get_args_nr, skip_args, call_start_at_arg, Offset,
}

-- How many parentheses are open behind an argument text that `k` open ones stand before; `none` where
-- the text closes one too many, ends, or has a comma outside all of them.
abbrev pub depth : ℕ → List ℕ → Option ℕ
depth k [] = some k
depth k (c ∷ cs) =
    let deeper = depth (k + 1) cs in
    let back = depth (k - 1) cs in
    let on = depth k cs in
    if c == 0
    then none
    else if c == b'('
    then deeper
    else if c == b')'
    then (if k == 0 then none else back)
    else if c == b',' && k == 0
    then none
    else on

-- A non-empty argument with balanced parentheses and no comma outside them, of a length that the
-- counter can follow.
abbrev pub IsArg : List ℕ → Type 0
IsArg a = (depth 0 a ≡ some 0) × (0 < length a) × (length a < u32_mod)

abbrev pub IsArgs : List (List ℕ) → Type 0
IsArgs [] = Unit
IsArgs (a ∷ more) = IsArg a × IsArgs more

-- The arguments from one on, the closing parenthesis, and what follows.
abbrev pub joined : List (List ℕ) → List ℕ → List ℕ
joined [] rest = b')' ∷ rest
joined (a ∷ []) rest = a ++ b')' ∷ rest
joined (a ∷ b ∷ more) rest = a ++ b',' ∷ b' ' ∷ joined (b ∷ more) rest

abbrev pub call_text : List (List ℕ) → List ℕ → List ℕ
call_text args rest = b'(' ∷ joined args rest

arg_end-append :
    (a rest : List ℕ) (k j end : ℕ)
    → depth k a ≡ some j
    → k + length a < u32_mod
    → arg_end (a ++ rest) k end ≡ arg_end rest j (end + length a)
unfolding arg_end
arg_end-append [] rest k j end h bound = let e : end + 0 ≡ end = omega arith in rw e (ground arith)
arg_end-append (c ∷ a) rest k j end h bound =
    let e : end + 1 + length a ≡ end + suc (length a) = omega arith in
    let small : (k + 1) % u32_mod ≡ k + 1 = omega arith in
    ground (
      arith,
      arg_end-append a rest (k + 1) j (end + 1),
      arg_end-append a rest (k - 1) j (end + 1),
      arg_end-append a rest k j (end + 1),
    )

-- One argument: the pointer stands at it, and the next one at what follows.
record Found (call : List ℕ) (p : ℕ) (more : List (List ℕ)) (rest : List ℕ) : Type 0 where
  next : ℕ
  gives : arg_at call p ≡ ok (some p, some next)
  behind : drop next call ≡ joined more rest
  on : p < next

-- The first byte of an argument does not end the call.
first_byte :
    (call a rest : List ℕ) (p : ℕ)
    → drop p call ≡ a ++ rest
    → IsArg a
    → (c : ℕ) × (get_elem? call p ≡ some c) × ((c == b')' || c == 0) ≡ false)
first_byte call [] rest p h (balanced, some_len, small) = absurd (omega arith)
first_byte call (c ∷ a) rest p h (balanced, some_len, small) =
    (c, get_elem?-drop call p ∙ ap (λ l. get_elem? l 0) h, ground arith)

-- The scan of an argument that stands at `p`.
arg_at_lem :
    (call a rest : List ℕ) (p q : ℕ)
    → drop p call ≡ a ++ rest
    → IsArg a
    → arg_end rest 0 (p + length a) ≡ ok q
    → arg_at call p ≡ ok (some p, some q)
unfolding arg_at
arg_at_lem call a rest p q h is e =
    let (c, at, more) = first_byte call a rest p h is in
    rw (at, more, h, arg_end-append a rest 0 0 p is.0 (omega (arith, is))) (rw e)

find_arg :
    (call a : List ℕ) (others : List (List ℕ)) (rest : List ℕ) (p : ℕ)
    → drop p call ≡ joined (a ∷ others) rest
    → IsArg a
    → Found call p others rest
find_arg call a [] rest p h is = record {
  next = p + length a;
  gives = arg_at_lem call a (b')' ∷ rest) p (p + length a) h is (unfold arg_end in refl);
  behind =
      drop-drop call p (length a)
      ∙ ap (drop (length a)) h
      ∙ drop-append a (b')' ∷ rest) (length a) refl;
  on = omega (arith, is);
}
find_arg call a (b ∷ others) rest p h is = record {
  next = p + length a + 2;
  gives =
      arg_at_lem call a (b',' ∷ b' ' ∷ joined (b ∷ others) rest) p (p + length a + 2) h is
        (unfold arg_end in refl);
  behind =
      drop-drop call (p + length a) 2
      ∙ ap (drop 2) (
          drop-drop call p (length a)
          ∙ ap (drop (length a)) h
          ∙ drop-append a (b',' ∷ b' ' ∷ joined (b ∷ others) rest) (length a) refl);
  on = omega (arith, is);
}

-- At the closing parenthesis there is no argument.
no_arg : (call rest : List ℕ) (p : ℕ) → drop p call ≡ b')' ∷ rest → arg_at call p ≡ ok (none, none)
unfolding arg_at
no_arg call rest p h = rw (get_elem?-drop call p ∙ ap (λ l. get_elem? l 0) h)

get_next_arg-inside : (call : List ℕ) (p : ℕ) → 0 < p → get_next_arg call (some p) ≡ arg_at call p
unfolding get_next_arg
get_next_arg-inside call p h = rw (ne→== p 0 (omega arith))

count_args_lem :
    (call : List ℕ) (args : List (List ℕ)) (rest : List ℕ) (k p q nr : ℕ)
    → drop q call ≡ joined args rest
    → IsArgs args
    → get_next_arg call (some p) ≡ arg_at call q
    → length args < k
    → nr + length args ≤ int_max
    → count_args k call (some p) nr ≡ ok (nr + length args)
unfolding count_args
count_args_lem call args rest zero p q nr h is e fuel fits = absurd (omega arith)
count_args_lem call [] rest (suc k) p q nr h is e fuel fits =
    let n : nr + 0 ≡ nr = omega arith in rw (e, no_arg call rest q h, n)
count_args_lem call (a ∷ others) rest (suc k) p q nr h (is, more) e fuel fits =
    let f = find_arg call a others rest q h is in
    let n : nr + 1 + length others ≡ nr + suc (length others) = omega arith in
    rw (e, f.gives, ◌>>=◌, lt→ltb nr int_max (omega arith))
      (count_args_lem call others rest k f.next f.next (nr + 1) f.behind more
          (get_next_arg-inside call f.next (omega (arith, f))) (omega arith) (omega arith)
        ∙ ap ok n)

-- On a printed call with balanced non-empty arguments, fewer than 2^31, the loop of get_args_nr ends
-- within one round more than there are arguments and returns their number.
pub get_args_nr_lem :
    (args : List (List ℕ)) (rest : List ℕ) (k : ℕ)
    → IsArgs args
    → length args < k
    → length args < 2 ^ 31
    → get_args_nr k (call_text args rest) ≡ ok (length args)
unfolding get_args_nr
get_args_nr_lem args rest k is fuel fits =
    let first : get_next_arg (call_text args rest) (some 0) ≡ arg_at (call_text args rest) 1 =
      unfold get_next_arg in refl in
    let n : 0 + length args ≡ length args = omega arith in
    count_args_lem (call_text args rest) args rest k 0 1 0 refl is first fuel (omega arith)
    ∙ ap ok n

-- Where `call_start_at_arg` ends: at the argument with index `n` and what follows it, or at NULL.
abbrev pub StartsAt : List ℕ → List (List ℕ) → ℕ → List ℕ → Run Offset → Type 0
StartsAt call [] n rest r = r ≡ ok none
StartsAt call (a ∷ others) zero rest r =
    (p : ℕ) × (r ≡ ok (some p)) × (drop p call ≡ joined (a ∷ others) rest)
StartsAt call (a ∷ others) (suc n) rest r = StartsAt call others n rest r

skip_none : (call : List ℕ) (n : ℕ) (ptr : Offset) → skip_args (suc n) call none ptr ≡ ok none
unfolding skip_args get_next_arg
skip_none call zero ptr = refl
skip_none call (suc n) ptr = skip_none call n none

skip_args_lem :
    (call : List ℕ) (args : List (List ℕ)) (rest : List ℕ) (n p q : ℕ) (ptr : Offset)
    → drop q call ≡ joined args rest
    → IsArgs args
    → get_next_arg call (some p) ≡ arg_at call q
    → StartsAt call args n rest (skip_args (suc n) call (some p) ptr)
unfolding skip_args
skip_args_lem call [] rest zero p q ptr h is e = rw (e, no_arg call rest q h)
skip_args_lem call [] rest (suc n) p q ptr h is e =
    rw (e, no_arg call rest q h) (skip_none call n none)
skip_args_lem call (a ∷ others) rest zero p q ptr h (is, more) e =
    let f = find_arg call a others rest q h is in (q, rw (e, f.gives), h)
skip_args_lem call (a ∷ others) rest (suc n) p q ptr h (is, more) e =
    let f = find_arg call a others rest q h is in
    rw (e, f.gives)
      (skip_args_lem call others rest n f.next f.next (some q) f.behind more
        (get_next_arg-inside call f.next (omega (arith, f))))

-- On a printed call with balanced non-empty arguments call_start_at_arg gives a pointer to the
-- argument with a positive index, or NULL if there are fewer, and NULL for 0 and for negative
-- indices.
pub call_start_at_arg_lem :
    (args : List (List ℕ)) (rest : List ℕ) (n : ℕ)
    → IsArgs args
    → StartsAt
        (call_text args rest)
        args
        n
        rest
        (call_start_at_arg (call_text args rest) (pos (suc n)))
      × (call_start_at_arg (call_text args rest) (pos 0) ≡ ok none)
      × (call_start_at_arg (call_text args rest) (negsuc n) ≡ ok none)
unfolding call_start_at_arg
call_start_at_arg_lem args rest n is = (
  skip_args_lem (call_text args rest) args rest n 0 1 none refl is (unfold get_next_arg in refl),
  refl,
  refl,
)
