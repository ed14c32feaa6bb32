-- ===== src/Str.antt =====
-- str-utils.c and str-utils.h: substrings of a text in memory, and what they use of string.h.
-- A pointer is a 64-bit address into one block of bytes, so that pointer arithmetic wraps as on the
-- machine; NULL is 0. A read outside the block is a fault.
pub mod Scan
pub mod Spans
pub mod Copies
mod Tests
use ahaggar.Base.{
  ℕ, zero, suc, ◌+◌, ◌-◌, Bool, true, false, Option, none, some, List, [], ◌∷◌, ◌++◌, Run, ok,
  fault, ◌>>=◌, ltb, leb, ◌==◌, if◌then◌else◌, length, take, drop, add64, sub64, from_option,
  get_elem?,
}
use ahaggar.Buffer.{write_bytes, fresh_bytes}

pub record Mem : Type 0 where
  pub base : ℕ
  pub bytes : List ℕ

-- The bytes from address `p` to the end of the block.
unfoldable pub bytes_from : Mem → ℕ → Run (List ℕ)
bytes_from m p = if leb m.base p then ok (drop (p - m.base) m.bytes) else fault

unfoldable pub first_byte : List ℕ → Run ℕ
first_byte [] = fault
first_byte (x ∷ xs) = ok x

-- `*p`
unfoldable pub read : Mem → ℕ → Run ℕ
read m p = do rest ← bytes_from m p; first_byte rest

-- `strchr` on the bytes at address `p`.
pub find_chr : ℕ → List ℕ → ℕ → Run (Option ℕ)
find_chr c [] p = fault
find_chr c (x ∷ xs) p = elim (x == c) [
  | true ↦ ok (some p)
  | false ↦ elim (x == 0) [ true ↦ ok none | false ↦ find_chr c xs (p + 1) ]
]

pub strchr : Mem → ℕ → ℕ → Run (Option ℕ)
strchr m s c = do rest ← bytes_from m s; find_chr c rest s

-- `strrchr`; `last` is the occurrence found so far.
pub find_last : ℕ → List ℕ → ℕ → Option ℕ → Run (Option ℕ)
find_last c [] p last = fault
find_last c (x ∷ xs) p last = elim (x == 0) [
  | true ↦ ok (if c == 0 then some p else last)
  | false ↦ find_last c xs (p + 1) (if x == c then some p else last)
]

unfoldable pub strrchr : Mem → ℕ → ℕ → Run (Option ℕ)
strrchr m s c = do rest ← bytes_from m s; find_last c rest s none

pub count_to_nul : List ℕ → Run ℕ
count_to_nul [] = fault
count_to_nul (x ∷ xs) = elim (x == 0) [ true ↦ ok 0 | false ↦ do n ← count_to_nul xs; ok (suc n) ]

pub strlen : Mem → ℕ → Run ℕ
strlen m s = do rest ← bytes_from m s; count_to_nul rest

-- `strncmp(str, prefix, strlen(prefix)) == 0` on the bytes of `str`; `prefix` is a literal, with no NUL.
pub has_prefix : List ℕ → List ℕ → Run Bool
has_prefix rest [] = ok true
has_prefix [] (q ∷ qs) = fault
has_prefix (x ∷ xs) (q ∷ qs) = elim (x == q) [ true ↦ has_prefix xs qs | false ↦ ok false ]

pub strstarts : Mem → ℕ → List ℕ → Run Bool
strstarts m s prefix = do rest ← bytes_from m s; has_prefix rest prefix

-- `strstr` with a literal.
pub find_str : List ℕ → List ℕ → ℕ → Run (Option ℕ)
find_str lit [] p = fault
find_str lit (x ∷ xs) p = do
  here ← has_prefix (x ∷ xs) lit
  elim here [
    | true ↦ ok (some p)
    | false ↦ elim (x == 0) [ true ↦ ok none | false ↦ find_str lit xs (p + 1) ]
  ]

pub strstr : Mem → ℕ → List ℕ → Run (Option ℕ)
strstr m s lit = do rest ← bytes_from m s; find_str lit rest s

-- `struct substring`
pub record Substring : Type 0 where
  pub start : ℕ
  pub stop : ℕ
  pub len : ℕ

-- The struct is zeroed: `start` is NULL.
pub substring_init : Substring
substring_init = record { start = 0; stop = 0; len = 0 }

pub substring_set : Substring → ℕ → ℕ → ℕ × Substring
substring_set sub s len =
    if len == 0 then (len, sub) else (len, record { start = s; stop = add64 s len; len = len })

-- From `s` up to the byte before `ch`.
pub ended_before : ℕ → ℕ → Substring
ended_before s ch = record { start = s; stop = sub64 ch 1; len = sub64 (sub64 ch 1) s }

pub substring_to_found : Substring → ℕ → Option ℕ → Substring
substring_to_found sub s none = sub
substring_to_found sub s (some ch) = ended_before s ch

pub substring_to_strchr : Mem → Substring → ℕ → ℕ → Run (Option ℕ × Substring)
substring_to_strchr m sub s c = do found ← strchr m s c; ok (found, substring_to_found sub s found)

-- From `ch` to the end of the text.
pub substring_move_to_found : Mem → Substring → Option ℕ → Run (Option ℕ × Substring)
substring_move_to_found m sub none = ok (none, sub)
substring_move_to_found m sub (some ch) = do
  n ← strlen m ch
  ok (some ch, record { start = ch; stop = add64 ch n; len = n })

pub substring_move_to_strchr : Mem → Substring → ℕ → ℕ → Run (Option ℕ × Substring)
substring_move_to_strchr m sub s c = do found ← strchr m s c; substring_move_to_found m sub found

pub substring_to_strstr : Mem → Substring → ℕ → List ℕ → Run (Option ℕ × Substring)
substring_to_strstr m sub s lit = do
  found ← strstr m s lit
  ok (found, substring_to_found sub s found)

pub substring_move_to_strstr : Mem → Substring → ℕ → List ℕ → Run (Option ℕ × Substring)
substring_move_to_strstr m sub s lit = do
  found ← strstr m s lit
  substring_move_to_found m sub found

-- `memcpy` from address `p`: `n` bytes.
unfoldable pub copy_from : Mem → ℕ → ℕ → Run (List ℕ)
copy_from m p n = do rest ← bytes_from m p; if leb n (length rest) then ok (take n rest) else fault

-- The bytes that are copied: with `size` 0 the room is computed as `size - 1`, which wraps.
pub copied_length : ℕ → ℕ → ℕ
copied_length len size = if leb size len then sub64 size 1 else len

pub substring_strncpy : Mem → List ℕ → Substring → ℕ → Run (ℕ × List ℕ)
substring_strncpy m dest src size = if src.len == 0 then ok (0, dest) else (do
  let n = copied_length src.len size
  bytes ← copy_from m src.start n
  d ← write_bytes dest 0 bytes
  d' ← write_bytes d n (0 ∷ [])
  ok (src.len, d'))

-- The new block; `junk` is what `xmalloc` leaves in it.
pub substring_strdup : (ℕ → ℕ) → Mem → Substring → Run (List ℕ)
substring_strdup junk m sub = do
  let size = add64 sub.len 1
  (_, str) ← substring_strncpy m (fresh_bytes junk 0 size) sub size
  ok str

-- `none` is NULL.
pub substring_strndup : (ℕ → ℕ) → Mem → Substring → ℕ → Run (Option (List ℕ))
substring_strndup junk m sub size =
    let len = add64 size 1 in
    if ltb len size
    then ok none
    else (do (_, str) ← substring_strncpy m (fresh_bytes junk 0 len) sub len; ok (some str))

pub substring_next_strchr : Mem → Substring → ℕ → Run Bool
substring_next_strchr m sub c = do ch ← read m (add64 sub.stop 1); ok (ch == c)

pub substring_addchr_start : Substring → Substring
substring_addchr_start sub = record sub { start = add64 sub.start 1; len = sub64 sub.len 1 }

pub substring_addnchr_start : Substring → ℕ → Substring
substring_addnchr_start sub n = record sub { start = add64 sub.start n; len = sub64 sub.len n }

pub substring_minuschr_start : Substring → Substring
substring_minuschr_start sub = record sub { start = sub64 sub.start 1; len = add64 sub.len 1 }

unfoldable pub substring_addchr_end : Substring → Substring
substring_addchr_end sub = record sub { stop = add64 sub.stop 1; len = add64 sub.len 1 }

unfoldable pub substring_addnchr_end : Substring → ℕ → Substring
substring_addnchr_end sub n = record sub { stop = add64 sub.stop n; len = add64 sub.len n }

pub substring_minuschr_end : Substring → Substring
substring_minuschr_end sub = record sub { stop = sub64 sub.stop 1; len = sub64 sub.len 1 }
