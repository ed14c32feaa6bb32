-- ===== src/Str/Copies.antt =====
-- The functions of str-utils.c that copy a substring out of the text, and `strstarts`.
use ahaggar.Base.{
  ℕ, ◌+◌, ◌-◌, ◌≤◌, ◌<◌, ◌≡◌, refl, ◌∙◌, ap, sym, true, false, some, List, [], ◌∷◌, ◌++◌, ok, arith,
  length, take, u64_mod, add64, add64_lem, sub64_lem, le→leb, le→ltb, ◌==◌, min, length-take,
  splice, take-splice, length-splice, ◌↔◌, take_all,
}
use ahaggar.Buffer.{fresh_bytes}
use ahaggar.Buffer.Valid.{write_bytes_lem}
use ahaggar.Buffer.Growth.{length-fresh_bytes}
use ahaggar.Str.{
  Mem, bytes_from, Substring, copy_from, copied_length, substring_strncpy, substring_strdup,
  substring_strndup, strstarts,
}
use ahaggar.Str.Scan.{has_prefix_yes, has_prefix_only}

copy_from_lem :
    (m : Mem) (p n : ℕ) (text : List ℕ)
    → bytes_from m p ≡ ok text
    → n ≤ length text
    → copy_from m p n ≡ ok (take n text)
unfolding copy_from
copy_from_lem m p n text h fits = rw (h, le→leb n (length text) fits)

module _ (m : Mem) (src : Substring) (text : List ℕ) (at : bytes_from m src.start ≡ ok text)
    (inside : src.len ≤ length text) (some_len : 0 < src.len) where
  -- A copy of `n` bytes into a block with room for them and a terminator.
  copied_lem :
      (dest : List ℕ) (size n : ℕ)
      → copied_length src.len size ≡ n
      → n ≤ src.len
      → n < length dest
      → substring_strncpy m dest src size
        ≡ ok (src.len, splice (splice dest 0 (take n text)) n (0 ∷ []))
  unfolding substring_strncpy
  copied_lem dest size n chosen fits room =
      let not_empty : (src.len == 0) ≡ false = ground arith in
      let bytes = take n text in
      let len : length bytes ≡ n = omega (arith, length-take n text) in
      rw (
        not_empty,
        chosen,
        copy_from_lem m src.start n text at (omega arith),
        write_bytes_lem dest 0 bytes (omega arith),
        write_bytes_lem (splice dest 0 bytes) n (0 ∷ [])
            (omega (arith, length-splice dest 0 bytes (omega arith))),
      )

  -- What then stands at the front of the block.
  take-copied :
      (dest : List ℕ) (n k : ℕ)
      → k ≡ n + 1
      → n ≤ src.len
      → n < length dest
      → take k (splice (splice dest 0 (take n text)) n (0 ∷ [])) ≡ take n text ++ 0 ∷ []
  take-copied dest n k e fits room =
      let bytes = take n text in
      let len : length bytes ≡ n = omega (arith, length-take n text) in
      let wrote = length-splice dest 0 bytes (omega arith) in
      take-splice (splice dest 0 bytes) n k (0 ∷ []) (omega arith) (omega arith)
      ∙ ap (λ l. l ++ 0 ∷ []) (take-splice dest 0 n bytes (omega arith) (omega arith))

  -- substring_strncpy of a non-empty substring into a block of at least size bytes, for a positive size
  -- below 2^64, writes the first of its bytes, size - 1 at most, and a terminator, keeps the length of
  -- the block, and returns the length of the substring.
  pub substring_strncpy_lem :
      (dest : List ℕ) (size : ℕ)
      → 0 < size
      → size ≤ length dest
      → size < u64_mod
      → (d : List ℕ) × (substring_strncpy m dest src size ≡ ok (src.len, d))
        × (take (min src.len (size - 1) + 1) d ≡ take (min src.len (size - 1)) text ++ 0 ∷ [])
        × (length d ≡ length dest)
  unfolding copied_length
  substring_strncpy_lem dest size some_size room bound =
      let n = min src.len (size - 1) in
      let chosen : copied_length src.len size ≡ n = ground (arith, sub64_lem size 1) in
      let len : length (take n text) ≡ n = omega (arith, length-take n text) in
      let first = length-splice dest 0 (take n text) (omega arith) in
      (
        splice (splice dest 0 (take n text)) n (0 ∷ []),
        copied_lem dest size n chosen (omega arith) (omega arith),
        take-copied dest n (n + 1) refl (omega arith) (omega arith),
        length-splice (splice dest 0 (take n text)) n (0 ∷ []) (omega arith) ∙ first,
      )

  -- substring_strdup of a non-empty substring is a fresh block with its bytes and a terminator.
  pub substring_strdup_lem :
      (junk : ℕ → ℕ)
      → src.len + 1 < u64_mod
      → substring_strdup junk m src ≡ ok (take src.len text ++ 0 ∷ [])
  unfolding substring_strdup
  substring_strdup_lem junk bound =
      let size = src.len + 1 in
      let block = fresh_bytes junk 0 size in
      let fresh = length-fresh_bytes junk 0 size in
      let (d, wrote, front, len) =
        substring_strncpy_lem block size (omega arith) (omega arith) bound in
      let all : min src.len (size - 1) ≡ src.len = omega arith in
      let text_is : take (src.len + 1) d ≡ take src.len text ++ 0 ∷ [] = rw all at front in
      rw (add64_lem src.len 1 bound, wrote)
        (ap ok (sym (take_all d (src.len + 1) (omega arith)) ∙ text_is))

  -- For a non-empty substring of a text in memory and a size below 2^64 - 1, substring_strndup returns a
  -- block of size + 1 bytes, which begins with the first bytes of the substring, at most size, and a
  -- terminator.
  pub substring_strndup_lem :
      (junk : ℕ → ℕ) (size : ℕ)
      → size + 1 < u64_mod
      → (d : List ℕ) × (substring_strndup junk m src size ≡ ok (some d))
        × (take (min src.len size + 1) d ≡ take (min src.len size) text ++ 0 ∷ [])
        × (length d ≡ size + 1)
  unfolding substring_strndup
  substring_strndup_lem junk size bound =
      let len = size + 1 in
      let block = fresh_bytes junk 0 len in
      let fresh = length-fresh_bytes junk 0 len in
      let (d, wrote, front, same) =
        substring_strncpy_lem block len (omega arith) (omega arith) bound in
      let all : len - 1 ≡ size = omega arith in
      (
        d,
        rw (add64_lem size 1 bound, le→ltb len size (omega arith), wrote),
        rw all at front,
        same ∙ fresh,
      )

-- The copies of an empty substring are blocks in which nothing was written, without a terminator.
pub copies_of_empty :
    (junk : ℕ → ℕ) (m : Mem) (sub : Substring) (size : ℕ)
    → sub.len ≡ 0
    → size + 1 < u64_mod
    → (substring_strdup junk m sub ≡ ok (fresh_bytes junk 0 1))
      × (substring_strndup junk m sub size ≡ ok (some (fresh_bytes junk 0 (size + 1))))
unfolding substring_strdup substring_strndup substring_strncpy
copies_of_empty junk m sub size empty bound =
    let one : add64 0 1 ≡ 1 = unfold add64 in refl in
    (rw (empty, one), rw (add64_lem size 1 bound, le→ltb (size + 1) size (omega arith), empty))

-- `strstarts` is true of a text exactly if it begins with the prefix.
pub strstarts_iff :
    (m : Mem) (s : ℕ) (text prefix : List ℕ)
    → bytes_from m s ≡ ok text
    → (strstarts m s prefix ≡ ok true) ↔ ((rest : List ℕ) × (text ≡ prefix ++ rest))
unfolding strstarts
strstarts_iff m s text prefix h =
    rw h (has_prefix_only text prefix, λ (rest, is). rw is (has_prefix_yes prefix rest))
