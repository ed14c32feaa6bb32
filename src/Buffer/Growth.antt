-- ===== src/Buffer/Growth.antt =====
-- `output_expand`, the printing functions, `output_flush` and `__output_init` on a valid buffer.
use ahaggar.Base.{
  ℕ, zero, suc, ◌+◌, ◌-◌, ◌≤◌, ◌<◌, ◌%◌, ◌≡◌, refl, ◌∙◌, ap, sym, List, [], ◌∷◌, ◌++◌, some, arith,
  length, take, get_elem?, splice, ok, u64_mod, u32_mod, int_max, sub64, mul64, add64_lem,
  sub64_lem, mul64-lt, lt→ltb, ltb, ◌==◌, if◌then◌else◌, Bool-cases, inl, inr, false, length-append,
  length-take, length-splice, take-splice, take-splice_le, take_all, take-append_le, take-append,
  take-take, append_assoc, splice_whole, replicate,
}
use ahaggar.Buffer.{
  OutputBuf, buf_size, zeros, length-zeros, fresh_bytes, realloc, print_at, prepared, cleared,
  grown, expand, printed, put_char, put_text,
}
use ahaggar.Buffer.Valid.{
  IsValid, text_of, write_bytes_lem, get_elem?-splice_nul, settled_at, settled_lem, settled-IsValid,
  text_of-settled,
}

pub length-fresh_bytes : (junk : ℕ → ℕ) (i n : ℕ) → length (fresh_bytes junk i n) ≡ n
unfolding fresh_bytes
length-fresh_bytes junk i zero = refl
length-fresh_bytes junk i (suc n) = ap suc (length-fresh_bytes junk (i + 1) n)

length-realloc : (junk : ℕ → ℕ) (buf : List ℕ) (n : ℕ) → length (realloc junk buf n) ≡ n
unfolding realloc
length-realloc junk buf n = omega (
  arith,
  length-append (take n buf) (fresh_bytes junk (length buf) (n - length buf)),
  length-take n buf,
  length-fresh_bytes junk (length buf) (n - length buf),
)

-- `xrealloc` to a larger block keeps what was in the old one.
take-realloc :
    (junk : ℕ → ℕ) (buf : List ℕ) (k n : ℕ)
    → k ≤ length buf
    → length buf ≤ n
    → take k (realloc junk buf n) ≡ take k buf
unfolding realloc
take-realloc junk buf k n h g =
    take-append_le (take n buf) _ k (omega (arith, length-take n buf))
    ∙ ap (take k) (take_all buf n g)

-- The new size that `output_expand` chooses: the double, or what is needed if that is more.
abbrev newsize : OutputBuf → ℕ → ℕ
newsize d need = if ltb need (mul64 d.size 2) then mul64 d.size 2 else need

newsize_bounds :
    (d : OutputBuf) (need : ℕ)
    → need < u64_mod
    → (need ≤ newsize d need) × (newsize d need < u64_mod)
newsize_bounds d need h = ground (arith, mul64-lt d.size 2)

abbrev grown_at : (ℕ → ℕ) → OutputBuf → ℕ → OutputBuf
grown_at junk d n = record {
  buf = splice (realloc junk d.buf n) d.used (0 ∷ []);
  offset = d.used;
  size = n;
  used = d.used;
}

-- A valid buffer with the text of `d`, at least as large, and with room for `need` bytes.
pub record HasRoom (d : OutputBuf) (need : ℕ) (e : OutputBuf) : Type 0 where
  pub valid : IsValid e
  pub same_text : text_of e ≡ text_of d
  pub same_used : e.used ≡ d.used
  pub grows : d.size ≤ e.size
  pub fits : d.used + need ≤ e.size

grown_lem :
    (junk : ℕ → ℕ) (d : OutputBuf) (need : ℕ)
    → IsValid d
    → d.size ≤ d.used + need
    → d.used + need < u64_mod
    → (e : OutputBuf) × (grown junk d (need + d.used) ≡ ok e) × HasRoom d need e
unfolding grown
grown_lem junk d need v short bound =
    let n = newsize d (need + d.used) in
    let bounds = newsize_bounds d (need + d.used) (omega arith) in
    let len = length-realloc junk d.buf n in
    (
      grown_at junk d n,
      rw (write_bytes_lem (realloc junk d.buf n) d.used (0 ∷ []) (omega arith)),
      record {
        valid = record {
          allocated = length-splice (realloc junk d.buf n) d.used (0 ∷ []) (omega arith) ∙ len;
          bounded = omega arith;
          room = omega arith;
          at_end = refl;
          terminated = get_elem?-splice_nul (realloc junk d.buf n) d.used (omega arith);
        };
        same_text =
            take-splice_le (realloc junk d.buf n) d.used d.used (0 ∷ []) (omega arith) (omega arith)
            ∙ take-realloc junk d.buf d.used n (omega arith) (omega arith);
        same_used = refl;
        grows = omega arith;
        fits = omega arith;
      },
    )

pub expand_lem :
    (junk : ℕ → ℕ) (d : OutputBuf) (need : ℕ)
    → IsValid d
    → d.used + need < u64_mod
    → (e : OutputBuf) × (expand junk d need ≡ ok e) × HasRoom d need e
unfolding expand
expand_lem junk d need v bound =
    let left : sub64 d.size d.used ≡ d.size - d.used =
      sub64_lem d.size d.used (omega arith) v.bounded in
    elim (Bool-cases (ltb need (sub64 d.size d.used))) [
      | inl enough ↦ (
        d,
        rw enough,
        record {
          valid = v;
          same_text = refl;
          same_used = refl;
          grows = omega arith;
          fits = ground arith;
        },
      )
      | inr short ↦
          rw (short, add64_lem need d.used (omega arith))
            (grown_lem junk d need v (ground arith) bound)
    ]

-- A print into room for the whole text and its terminator writes all of it.
print_at_lem :
    (buf : List ℕ) (i n : ℕ) (text : List ℕ)
    → length text < n
    → i + length text < length buf
    → print_at buf i n text ≡ ok (splice buf i (text ++ 0 ∷ []))
unfolding print_at
print_at_lem buf i n text h g =
    let some_room : (n == 0) ≡ false = ground arith in
    rw (
      some_room,
      take_all text (n - 1) (omega arith),
      write_bytes_lem buf i (text ++ 0 ∷ []) (omega (arith, length-append text (0 ∷ []))),
    )

-- The text with `more` behind it, in a valid buffer.
pub record Appended (d : OutputBuf) (more : List ℕ) (e : OutputBuf) : Type 0 where
  pub valid : IsValid e
  pub text : text_of e ≡ text_of d ++ more
  pub used : e.used ≡ d.used + length more
  pub grows : d.size ≤ e.size

printed_lem :
    (junk : ℕ → ℕ) (d : OutputBuf) (need : ℕ) (text : List ℕ)
    → IsValid d
    → length text < need
    → d.used + need < u64_mod
    → (e : OutputBuf) × (printed junk d need text ≡ ok e) × Appended d text e
unfolding printed
printed_lem junk d need text v short bound =
    let (e, grew, r) = expand_lem junk d need v bound in
    let w = r.valid in
    let n = length text in
    let b = splice e.buf e.offset (text ++ 0 ∷ []) in
    let two = length-append text (0 ∷ []) in
    let left : sub64 e.size e.used ≡ e.size - e.used =
      sub64_lem e.size e.used (omega arith) w.bounded in
    let same : length b ≡ e.size =
      omega (arith, length-splice e.buf e.offset (text ++ 0 ∷ []) (omega arith)) in
    let room : e.used + n < e.size = omega arith in
    (
      settled_at e b n,
      rw (grew, print_at_lem e.buf e.offset (sub64 e.size e.used) text (omega arith) (omega arith))
          (settled_lem e b n same w.bounded room),
      record {
        valid = settled-IsValid e b n same w.bounded room;
        text =
            text_of-settled e b n same w.bounded room
            ∙ sym (take-take b (e.used + n) (e.used + n + 1) (omega arith))
            ∙ ap (take (e.used + n)) (
                take-splice e.buf e.offset (e.used + n + 1) (text ++ 0 ∷ []) (omega arith)
                  (omega arith))
            ∙ ap (take (e.used + n)) (sym (append_assoc (take e.offset e.buf) text (0 ∷ [])))
            ∙ take-append (take e.offset e.buf ++ text) (0 ∷ []) (e.used + n) (
                omega (arith, length-append (take e.offset e.buf) text, length-take e.offset e.buf))
            ∙ ap (λ k. take k e.buf ++ text) w.at_end
            ∙ ap (λ l. l ++ text) r.same_text;
        used = omega arith;
        grows = r.grows;
      },
    )

pub put_char_lem :
    (junk : ℕ → ℕ) (d : OutputBuf) (c : ℕ)
    → IsValid d
    → d.used + 2 < u64_mod
    → (e : OutputBuf) × (put_char junk d c ≡ ok e) × Appended d ((c % 256) ∷ []) e
unfolding put_char
put_char_lem junk d c v bound = printed_lem junk d 2 ((c % 256) ∷ []) v (omega arith) bound

pub put_text_lem :
    (junk : ℕ → ℕ) (d : OutputBuf) (text : List ℕ)
    → IsValid d
    → length text < int_max
    → d.used + length text + 1 < u64_mod
    → (e : OutputBuf) × (put_text junk d text ≡ ok e) × Appended d text e
unfolding put_text
put_text_lem junk d text v small bound =
    rw (lt→ltb (length text) int_max small)
      (printed_lem junk d (length text + 1) text v (omega arith) (omega arith))

get_elem?-replicate : (n i : ℕ) → i < n → get_elem? {A = ℕ} (replicate n 0) i ≡ some 0
get_elem?-replicate zero i h = absurd (omega arith)
get_elem?-replicate (suc n) zero h = refl
get_elem?-replicate (suc n) (suc i) h = get_elem?-replicate n i (omega arith)

get_elem?-zeros : (n : ℕ) → 0 < n → get_elem? (zeros n) 0 ≡ some 0
unfolding zeros
get_elem?-zeros n h = get_elem?-replicate n 0 h

-- A fresh buffer is valid and holds no text; its size is at least BUF_SIZE.
pub prepared-IsValid :
    (n : ℕ) → IsValid (prepared n) × (text_of (prepared n) ≡ []) × (buf_size ≤ (prepared n).size)
unfolding prepared
prepared-IsValid n =
    let m : ℕ = if ltb (n % u32_mod) buf_size then buf_size else n % u32_mod in
    let low : buf_size ≤ m = ground arith in
    let high : m < u32_mod = ground arith in
    (
      record {
        allocated = length-zeros m;
        bounded = omega arith;
        room = omega arith;
        at_end = refl;
        terminated = get_elem?-zeros m (omega arith);
      },
      refl,
      low,
    )

-- `__output_init` gives at least the size that it is asked for.
pub size-prepared : (n : ℕ) → n < u32_mod → n ≤ (prepared n).size
unfolding prepared
size-prepared n h = ground arith

pub cleared_lem :
    (d : OutputBuf)
    → IsValid d
    → (e : OutputBuf) × (cleared d ≡ ok e) × IsValid e × (text_of e ≡ []) × (e.size ≡ d.size)
unfolding cleared
cleared_lem d v =
    let len = length-zeros d.size in
    (
      record d { buf = zeros d.size; used = 0; offset = 0 },
      rw (
        write_bytes_lem d.buf 0 (zeros d.size) (omega arith),
        splice_whole d.buf (zeros d.size) (omega arith),
      ),
      record {
        allocated = len;
        bounded = v.bounded;
        room = omega arith;
        at_end = refl;
        terminated = get_elem?-zeros d.size (omega arith);
      },
      refl,
      refl,
    )
