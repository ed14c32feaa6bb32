-- ===== src/Buffer/Cells.antt =====
-- buffer.c over pointers: each function takes and returns `output_buf *` values, in a store of the
-- structs that are live. A `char *` block belongs to one struct, so it is kept in that struct.
-- `malloc` gives the address `next`, which is then never given again.
pub mod Single
pub mod Pairs
use ahaggar.Base.{
  ℕ, zero, suc, ◌+◌, ◌%◌, ◌<◌, ◌≤◌, Bool, true, false, Option, none, some, List, [], ◌∷◌, Run, ok,
  fault, ltb, leb, ◌==◌, if◌then◌else◌, length, take, add64, u64_mod, ◌&&◌, ◌||◌,
}
use ahaggar.Buffer.{
  OutputBuf, buf_size, prepared, cleared, expand, put_char, put_text, put_bytes, overwritten,
}

pub record Store : Type 0 where
  pub cell : ℕ → Option OutputBuf
  pub next : ℕ
  pub junk : ℕ → ℕ

-- A pointer; `none` is NULL.
abbrev pub Ptr : Type 0
Ptr = Option ℕ

-- A function of buffer.c, run in a store.
abbrev pub M : Type 0 → Type 0
M R = Store → Run (R × Store)

abbrev pub and_then : {Q R : Type 0} → Run (Q × Store) → (Q → M R) → Run (R × Store)
and_then fault next = fault
and_then (ok (q, after)) next = next q after

infixl 5 ◌>>◌
infixl 5 ◌>>=◌
abbrev pub ◌>>=◌ : {Q R : Type 0} → M Q → (Q → M R) → M R
first >>= next = λ before. and_then (first before) next

abbrev pub ◌>>◌ : {R : Type 0} → M (Unit {0}) → M R → M R
first >> second = first >>= λ done. second

abbrev pub pure : {R : Type 0} → R → M R
pure r store = ok (r, store)

-- The `int` results 0 and -1.
pub data Status : Type 0 where
  success failure : Status

pub put_cell : Store → ℕ → Option OutputBuf → Store
put_cell s a c = record s { cell = λ b. if b == a then c else s.cell b }

abbrev pub checked : {A : Type 0} → Option A → Store → Run (A × Store)
checked none s = fault
checked (some a) s = ok (a, s)

-- `*p`: a fault at NULL and at a struct that was freed.
pub load : Ptr → M OutputBuf
load none s = fault
load (some a) s = checked (s.cell a) s

pub save : Ptr → OutputBuf → M (Unit {0})
save none d s = fault
save (some a) d s = ok (tt, put_cell s a (some d))

abbrev pub lift : {A : Type 0} → Run A → M A
lift (ok a) s = ok (a, s)
lift fault s = fault

-- `xmalloc` of a struct.
pub alloc : OutputBuf → M Ptr
alloc d s = ok (some s.next, record (put_cell s s.next (some d)) { next = s.next + 1 })

pub output_init : M Ptr
output_init = alloc (prepared buf_size)

pub output_fini : Ptr → M (Unit {0})
output_fini none = pure tt
output_fini (some a) = do _ ← load (some a); λ s. ok (tt, put_cell s a none)

pub output_reset : Ptr → M Ptr
output_reset d = output_fini d >> output_init

pub output_flush : Ptr → M (Unit {0})
output_flush none = pure tt
output_flush (some a) = do d ← load (some a); e ← lift (cleared d); save (some a) e

-- `size` is read before the test for NULL, so NULL is a fault.
pub output_expand : Ptr → ℕ → M Ptr
output_expand p need s = (do d ← load p; e ← lift (expand s.junk d need); save p e; pure p) s

pub output_local_prepare : Ptr → M Ptr
output_local_prepare none = output_init
output_local_prepare (some a) = do output_flush (some a); pure (some a)

pub output_base_char : Ptr → ℕ → M Status
output_base_char p c s = (do d ← load p; e ← lift (put_char s.junk d c); save p e; pure success) s

-- `text` is what `vsnprintf` formats, `none` where it fails.
pub output_base_printf : Ptr → Option (List ℕ) → M Status
output_base_printf p none s = ok (failure, s)
output_base_printf p (some text) s =
    (do d ← load p; e ← lift (put_text s.junk d text); save p e; pure success) s

-- The loop runs `column` times, never for a negative one.
pub output_base_indent_to : Ptr → ℕ → M (Unit {0})
output_base_indent_to p zero = pure tt
output_base_indent_to p (suc n) = do _ ← output_base_char p b' '; output_base_indent_to p n

-- The macro `output_indent_to_newline`.
pub output_indent_to_newline : Ptr → ℕ → M (Unit {0})
output_indent_to_newline p zero = output_base_indent_to p zero
output_indent_to_newline p (suc n) = do
  _ ← output_base_char p b'\n'
  output_base_indent_to p (suc n)

pub output_base_swap_meta : Ptr → Ptr → M Status
output_base_swap_meta none b = pure failure
output_base_swap_meta (some a) none = pure failure
output_base_swap_meta (some a) (some b) = do
  x ← load (some a)
  y ← load (some b)
  save (some a) y
  save (some b) x
  pure success

abbrev pub same : Ptr → Ptr → Bool
same (some a) (some b) = a == b
same none none = true
same _ _ = false

-- `memcpy` of the first `n` bytes of `src`'s block.
pub block_of : Ptr → ℕ → M (List ℕ)
block_of src n = do d ← load src; if leb n (length d.buf) then pure (take n d.buf) else (λ _. fault)

-- `output_base_copy` behind its tests; `dest` here is the local variable. `memcpy` onto itself is a
-- fault.
pub copy_into : Ptr → Ptr → ℕ → M (Unit {0})
copy_into dest src n = do
  if same dest src then (λ _. fault) else pure tt
  bytes ← block_of src n
  d ← load dest
  e ← lift (overwritten d bytes)
  save dest e

-- Where the destination is too small it is freed, and a fresh local one takes the copy.
pub copy_room : Ptr → ℕ → M Ptr
copy_room dest need = do
  d ← load dest
  if ltb d.size need then (do output_fini dest; alloc (prepared need)) else pure dest

pub copied : Ptr → Ptr → ℕ → ℕ → M Status
copied dest src n need = do to ← copy_room dest need; copy_into to src n; pure success

pub output_base_copy : Ptr → Ptr → ℕ → M Status
output_base_copy dest src zero = pure success
output_base_copy dest src (suc k) = do
  let n = suc k
  s ← load src
  if leb n s.used && leb n (add64 n 1) then copied dest src n (add64 n 1) else pure success

pub concat_into : Ptr → Ptr → ℕ → M Status
concat_into dest src need = do
  _ ← output_expand dest need
  s ← load src
  bytes ← block_of src s.used
  d ← load dest
  e ← lift (put_bytes d bytes)
  save dest e
  pure success

pub output_base_concat : Ptr → Ptr → M Status
output_base_concat dest src = do
  s ← load src
  if s.used == 0 || ltb (add64 s.used 1) s.used
      then pure success
      else concat_into dest src (add64 s.used 1)
