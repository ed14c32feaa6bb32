-- ===== src/Buffer/Valid.antt =====
-- The representation invariant of `struct output_buf`, the text that a buffer holds, and what each
-- write into a valid buffer does.
use ahaggar.Base.{
  ℕ, ◌+◌, ◌≤◌, ◌<◌, ◌≡◌, refl, ◌∙◌, ap, List, [], ◌∷◌, ◌++◌, some, arith, length, take, get_elem?,
  splice, ok, u64_mod, add64_lem, le→leb, length-take, length-splice, take-splice, take-splice_le,
  get_elem?-splice,
}
use ahaggar.Buffer.{OutputBuf, write_bytes, settled, overwritten, put_bytes}

-- The block has the recorded size, `offset` follows `used`, and a NUL stands there.
pub record IsValid (d : OutputBuf) : Type 0 where
  pub allocated : length d.buf ≡ d.size
  pub bounded : d.size < u64_mod
  pub room : d.used < d.size
  pub at_end : d.offset ≡ d.used
  pub terminated : get_elem? d.buf d.used ≡ some 0

-- The text in the buffer.
abbrev pub text_of : OutputBuf → List ℕ
text_of d = take d.used d.buf

pub write_bytes_lem :
    (buf : List ℕ) (i : ℕ) (src : List ℕ)
    → i + length src ≤ length buf
    → write_bytes buf i src ≡ ok (splice buf i src)
unfolding write_bytes
write_bytes_lem buf i src h = rw (le→leb (i + length src) (length buf) h)

pub length-text_of : (d : OutputBuf) → IsValid d → length (text_of d) ≡ d.used
length-text_of d v = omega (arith, length-take d.used d.buf)

-- A one-byte write of the terminator.
pub get_elem?-splice_nul :
    (xs : List ℕ) (i : ℕ) → i < length xs → get_elem? (splice xs i (0 ∷ [])) i ≡ some 0
get_elem?-splice_nul xs i h = get_elem?-splice xs i i [] 0 (omega arith) (omega arith)

-- The buffer that `settled` makes of a block `b`.
abbrev pub settled_at : OutputBuf → List ℕ → ℕ → OutputBuf
settled_at d b n = record d {
  buf = splice b (d.used + n) (0 ∷ []);
  used = d.used + n;
  offset = d.used + n;
}

module _ (d : OutputBuf) (b : List ℕ) (n : ℕ) (same : length b ≡ d.size) (bound : d.size < u64_mod)
    (fits : d.used + n < d.size) where
  pub settled_lem : settled d b n ≡ ok (settled_at d b n)
  unfolding settled
  settled_lem =
      rw (add64_lem d.used n (omega arith), write_bytes_lem b (d.used + n) (0 ∷ []) (omega arith))

  pub settled-IsValid : IsValid (settled_at d b n)
  settled-IsValid = record {
    allocated = length-splice b (d.used + n) (0 ∷ []) (omega arith) ∙ same;
    bounded = bound;
    room = fits;
    at_end = refl;
    terminated = get_elem?-splice_nul b (d.used + n) (omega arith);
  }

  pub text_of-settled : text_of (settled_at d b n) ≡ take (d.used + n) b
  text_of-settled = take-splice_le b (d.used + n) (d.used + n) (0 ∷ []) (omega arith) (omega arith)

-- Bytes written at the end of the text, where there is room for them and a terminator.
module _ (d : OutputBuf) (src : List ℕ) (v : IsValid d) (fits : d.used + length src < d.size) where
  block : List ℕ
  block = splice d.buf d.offset src

  length-block : length block ≡ d.size
  unfolding block
  length-block = omega (arith, length-splice d.buf d.offset src (omega arith))

  pub put_bytes_lem :
      (e : OutputBuf) × (put_bytes d src ≡ ok e)
      × IsValid e
      × (text_of e ≡ text_of d ++ src)
      × (e.size ≡ d.size)
  unfolding put_bytes block
  put_bytes_lem = (
    settled_at d block (length src),
    rw (write_bytes_lem d.buf d.offset src (omega arith))
        (settled_lem d block (length src) length-block v.bounded fits),
    settled-IsValid d block (length src) length-block v.bounded fits,
    text_of-settled d block (length src) length-block v.bounded fits
        ∙ take-splice d.buf d.offset (d.used + length src) src (omega arith) (omega arith)
        ∙ ap (λ k. take k d.buf ++ src) v.at_end,
    refl,
  )

-- Bytes that replace the text.
pub overwritten_lem :
    (d : OutputBuf) (src : List ℕ)
    → IsValid d
    → length src < d.size
    → (e : OutputBuf) × (overwritten d src ≡ ok e) × IsValid e × (text_of e ≡ src)
unfolding overwritten
overwritten_lem d src v fits =
    let b = splice d.buf 0 src in
    let same : length b ≡ d.size = omega (arith, length-splice d.buf 0 src (omega arith)) in
    (
      record d { buf = splice b (length src) (0 ∷ []); used = length src; offset = length src },
      rw (
        write_bytes_lem d.buf 0 src (omega arith),
        write_bytes_lem b (length src) (0 ∷ []) (omega arith),
      ),
      record {
        allocated = length-splice b (length src) (0 ∷ []) (omega arith) ∙ same;
        bounded = v.bounded;
        room = fits;
        at_end = refl;
        terminated = get_elem?-splice_nul b (length src) (omega arith);
      },
      take-splice_le b (length src) (length src) (0 ∷ []) (omega arith) (omega arith)
          ∙ take-splice d.buf 0 (length src) src (omega arith) (omega arith),
    )
