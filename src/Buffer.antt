-- ===== src/Buffer.antt =====
-- buffer.c and buffer.h: the growing output buffer, as values. `buf` is the whole allocated block,
-- terminator and unused bytes included; `offset` is the index that the pointer `offset` has in it.
-- Buffer/Cells.antt has the functions over pointers, which load and store these values.
pub mod Valid
pub mod Growth
pub mod Cells
pub mod Script
mod Tests
use ahaggar.Base.{
  ℕ, zero, suc, ◌+◌, ◌-◌, ◌%◌, ◌<◌, ◌≡◌, refl, List, [], ◌∷◌, ◌++◌, arith, leb, ltb, ◌==◌,
  if◌then◌else◌, length, take, replicate, splice, Run, ok, fault, ◌>>=◌, ◌>>◌, require, add64,
  sub64, mul64, u32_mod, int_max, length-replicate,
}

-- BUF_SIZE
abbrev pub buf_size : ℕ
buf_size = 4096

-- `struct output_buf`
pub record OutputBuf : Type 0 where
  pub buf : List ℕ
  pub offset : ℕ
  pub size : ℕ
  pub used : ℕ

-- `n` bytes set to 0, as `memset` leaves them. Shut, so that no proof computes 4096 of them.
pub zeros : ℕ → List ℕ
zeros n = replicate n 0

pub length-zeros : (n : ℕ) → length (zeros n) ≡ n
unfolding zeros
length-zeros n = length-replicate n 0

-- What an allocator leaves in fresh bytes, from index `i` on: `junk` is not known.
pub fresh_bytes : (ℕ → ℕ) → ℕ → ℕ → List ℕ
fresh_bytes junk i zero = []
fresh_bytes junk i (suc n) = junk i ∷ fresh_bytes junk (i + 1) n

-- `xrealloc`: the old bytes as far as they fit, then fresh ones.
pub realloc : (ℕ → ℕ) → List ℕ → ℕ → List ℕ
realloc junk buf n = take n buf ++ fresh_bytes junk (length buf) (n - length buf)

-- A write of `src` at index `i`; out of bounds it is a fault.
pub write_bytes : List ℕ → ℕ → List ℕ → Run (List ℕ)
write_bytes buf i src = if leb (i + length src) (length buf) then ok (splice buf i src) else fault

-- `snprintf` and `vsnprintf` with a size `n`: at most `n - 1` bytes of the text, and the terminator.
pub print_at : List ℕ → ℕ → ℕ → List ℕ → Run (List ℕ)
print_at buf i n text = if n == 0 then ok buf else write_bytes buf i (take (n - 1) text ++ (0 ∷ []))

-- `__output_init`; `len` is an `unsigned int`.
pub prepared : ℕ → OutputBuf
prepared len =
    let n = if ltb (len % u32_mod) buf_size then buf_size else len % u32_mod in
    record { buf = zeros n; offset = 0; size = n; used = 0 }

-- `output_flush`
pub cleared : OutputBuf → Run OutputBuf
cleared d = do
  b ← write_bytes d.buf 0 (zeros d.size)
  ok (record d { buf = b; used = 0; offset = 0 })

-- The part of `output_expand` that reallocates: `need` has `used` added.
pub grown : (ℕ → ℕ) → OutputBuf → ℕ → Run OutputBuf
grown junk d need = do
  let doubled = mul64 d.size 2
  let newsize = if ltb need doubled then doubled else need
  b ← write_bytes (realloc junk d.buf newsize) d.used (0 ∷ [])
  ok (record { buf = b; offset = d.used; size = newsize; used = d.used })

-- `output_expand`
pub expand : (ℕ → ℕ) → OutputBuf → ℕ → Run OutputBuf
expand junk d need =
    if ltb need (sub64 d.size d.used) then ok d else grown junk d (add64 need d.used)

-- What `output_base_char`, `output_base_printf` and `output_base_concat` end with: `used` grows by
-- `n`, and `offset` and the terminator follow it.
pub settled : OutputBuf → List ℕ → ℕ → Run OutputBuf
settled d b n = do
  let used = add64 d.used n
  b' ← write_bytes b used (0 ∷ [])
  ok (record d { buf = b'; used = used; offset = used })

-- A formatted text behind `expand`: `snprintf` into the room that is left.
pub printed : (ℕ → ℕ) → OutputBuf → ℕ → List ℕ → Run OutputBuf
printed junk d need text = do
  out ← expand junk d need
  b ← print_at out.buf out.offset (sub64 out.size out.used) text
  settled out b (length text)

-- `output_base_char`; "%c" prints the `unsigned char` of `c`.
pub put_char : (ℕ → ℕ) → OutputBuf → ℕ → Run OutputBuf
put_char junk d c = printed junk d 2 ((c % 256) ∷ [])

-- `output_base_printf`, where `vsnprintf` formats the arguments to `text`. `need++` is on an `int`.
pub put_text : (ℕ → ℕ) → OutputBuf → List ℕ → Run OutputBuf
put_text junk d text = do require (ltb (length text) int_max); printed junk d (length text + 1) text

-- The tail of `output_base_concat`, behind the tests: `src` bytes of another buffer.
pub put_bytes : OutputBuf → List ℕ → Run OutputBuf
put_bytes d src = do b ← write_bytes d.buf d.offset src; settled d b (length src)

-- The tail of `output_base_copy`, behind the tests.
pub overwritten : OutputBuf → List ℕ → Run OutputBuf
overwritten d src = do
  b ← write_bytes d.buf 0 src
  b' ← write_bytes b (length src) (0 ∷ [])
  ok (record d { buf = b'; used = length src; offset = length src })
