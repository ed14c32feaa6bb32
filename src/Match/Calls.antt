-- ===== src/Match/Calls.antt =====
-- fncalls-match.c: the calls in the printed text, one after the other: their extent, the name of the
-- function, and the location that is printed behind. The text is the one of the output buffer, whose
-- pointer is the base of the block.
pub mod Extents
pub mod Locations
use ahaggar.Base.{
  ℕ, zero, suc, ◌+◌, ◌-◌, Bool, true, false, Option, none, some, List, [], ◌∷◌, Run, ok, fault,
  ◌>>=◌, ◌==◌, if◌then◌else◌, ◌||◌, length, add64, sub64, ltb, codes, take, drop,
}
use ahaggar.Buffer.{write_bytes, print_at}
use ahaggar.Str.{
  Mem, read, strchr, strrchr, strstarts, Substring, substring_to_strchr, substring_move_to_strchr,
  substring_addchr_start, substring_addnchr_end, substring_addchr_end, copy_from,
}
use ahaggar.Match.{Libs, Event, written, lookup_key, tmpbuf_size}

-- `FUNCTION_DECL_CODE`
abbrev pub function_decl_code : List ℕ
function_decl_code = codes "<function_decl>"

-- The bytes of a C string, without the terminator.
pub c_string : List ℕ → List ℕ
c_string [] = []
c_string (c ∷ cs) = if c == 0 then [] else c ∷ c_string cs

-- `write` of `n` bytes at `p`.
pub write_out : Mem → ℕ → ℕ → Run (List Event)
write_out m p n = do bytes ← copy_from m p n; ok (written bytes ∷ [])

-- `substring_write`; no caller reads its result.
abbrev pub substring_write : Mem → Substring → Run (List Event)
substring_write m sub = write_out m sub.start sub.len

-- The result of `write` that the source returns here is used by no caller.
pub dump_decl_output : Mem → Run (List Event)
dump_decl_output m = do
  is ← strstarts m (add64 m.base 1) function_decl_code
  elim is [
    | false ↦ ok []
    | true ↦ (do
      ch ← strchr m (add64 m.base 1) b'\n'
      elim ch [ none ↦ ok [] | some c ↦ write_out m m.base (sub64 (add64 c 1) m.base) ])
  ]

-- Where the next call is looked for: `offset`, and the substring that was set on the way.
pub next_offset : Mem → Substring → Run (ℕ × Substring)
next_offset m sub = elim (sub.start == 0) [
  | false ↦ ok (sub.stop, sub)
  | true ↦ (do
    is ← strstarts m (add64 m.base 1) function_decl_code
    elim is [
      | false ↦ ok (m.base, sub)
      | true ↦ (do
        (found, moved) ← substring_move_to_strchr m sub (add64 m.base 1) b'\n'
        let sub' = substring_addchr_start moved
        ok (sub'.start, sub'))
    ])
]

-- From `offset` to the next `]`: the result is the length, and 0 where there is no call left.
pub call_from : Mem → Substring → ℕ → Run (ℕ × Substring)
call_from m sub offset = do
  (found, sub') ← substring_to_strchr m sub offset b']'
  elim found [
    | none ↦ ok (0, sub')
    | some ch ↦ ok ((substring_addnchr_end sub' 3).len, substring_addnchr_end sub' 3)
  ]

pub next_fncall_to_substring : Mem → Substring → Run (ℕ × Substring)
next_fncall_to_substring m sub = do
  (offset, sub') ← next_offset m sub
  elim (offset == 0) [
    | true ↦ ok (0, sub')
    | false ↦ (do
      c ← read m offset
      elim (c == 0) [ true ↦ ok (0, sub') | false ↦ call_from m sub' offset ])
  ]

-- `while (*ch1 && *ch1 != ' ') ch1--;`
pub walk_back : Mem → ℕ → Run ℕ
walk_back m zero = do c ← read m zero; if c == 0 || c == b' ' then ok zero else fault
walk_back m (suc p) = do
  c ← read m (suc p)
  elim (c == 0 || c == b' ') [ true ↦ ok (suc p) | false ↦ walk_back m p ]

-- `none` is NULL.
pub extract_fnname : Mem → Substring → Run (Option (List ℕ))
extract_fnname m sub = do
  paren ← strchr m sub.start b'('
  elim paren [
    | none ↦ ok none
    | some ch2 ↦ (do
      blank ← walk_back m ch2
      let ch1 = add64 blank 1
      c ← read m ch1
      elim (c == 0) [
        | true ↦ ok none
        | false ↦ (do name ← copy_from m ch1 (sub64 ch2 ch1); ok (some (c_string name)))
      ])
  ]

-- `memcpy(buf, start, len); buf[len - 1] = '\0';` where `len` is `end - start`, cut to `buflen`.
pub copy_clipped : Mem → ℕ → ℕ → ℕ → List ℕ → Run (List ℕ)
copy_clipped m start len buflen buf = do
  let n = if ltb buflen len then buflen else len
  bytes ← copy_from m start n
  b ← write_bytes buf 0 bytes
  write_bytes b (sub64 n 1) (0 ∷ [])

-- `loc` and the file that `LOCATION_FILE` gives for it; `tmp_buffer` as it is left. The source
-- returns its address.
pub arg_location : ℕ → (ℕ → List ℕ) → ℕ → List ℕ → Run (List ℕ)
arg_location loc location_file buflen buf = elim (loc == 0) [
  | true ↦ ok buf
  | false ↦ print_at buf 0 buflen (location_file loc)
]

pub extract_location : Mem → Substring → ℕ → (ℕ → List ℕ) → List ℕ → ℕ → Run (List ℕ)
extract_location m sub loc location_file buffer buflen = do
  buf ← write_bytes buffer 0 (0 ∷ [])
  bracket ← strrchr m sub.start b'['
  elim bracket [
    | none ↦ arg_location loc location_file buflen buf
    | some b ↦ (do
      let start = add64 b 1
      close ← strchr m start b']'
      elim close [
        | none ↦ arg_location loc location_file buflen buf
        | some e ↦ copy_clipped m start (sub64 (add64 e 1) start) buflen buf
      ])
  ]

module _ (libs : Libs) where
  -- Behind the call: the next newline is taken in.
  pub take_newline : Mem → Substring → Run Substring
  take_newline m sub = do
    c ← read m sub.stop
    ok (if c == b'\n' then substring_addchr_end sub else sub)

  -- The index of the target, or `none` for NULL.
  pub match_fncall : libs.Table → Mem → Substring → Run (Option ℕ × Substring)
  match_fncall tab m sub = do
    (len, sub') ← next_fncall_to_substring m sub
    elim (len == 0) [
      | true ↦ ok (none, sub')
      | false ↦ (do
        fnname ← extract_fnname m sub'
        elim fnname [
          | none ↦ ok (none, sub')
          | some name ↦ (do sub'' ← take_newline m sub'; ok (lookup_key libs tab name, sub''))
        ])
    ]
