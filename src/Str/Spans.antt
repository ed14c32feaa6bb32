-- ===== src/Str/Spans.antt =====
-- The functions of str-utils.c that set a substring, on a text that is written out around the byte
-- in question, and the macros of str-utils.h that move its ends.
use ahaggar.Base.{
  ℕ, ◌+◌, ◌-◌, ◌≤◌, ◌<◌, ◌≡◌, refl, ◌≢◌, ◌∙◌, ap, none, some, List, [], ◌∷◌, ◌++◌, ok, arith,
  length, drop, u64_mod, add64, sub64, add64_lem, sub64_lem, leb, le→leb, drop-append, leb→le,
  Bool-cases, inl, inr, drop-drop,
}
use ahaggar.Str.{
  Mem, bytes_from, strchr, strlen, Substring, substring_set, ended_before, substring_to_found,
  substring_to_strchr, substring_move_to_found, substring_move_to_strchr, substring_addchr_start,
  substring_addnchr_start, substring_minuschr_start, substring_addchr_end, substring_addnchr_end,
  substring_minuschr_end,
}
use ahaggar.Str.Scan.{Avoids, find_chr_found, find_chr-none, count_to_nul_lem}

-- The bytes from an address inside a known stretch.
pub bytes_from-append :
    (m : Mem) (p : ℕ) (pre rest : List ℕ)
    → bytes_from m p ≡ ok (pre ++ rest)
    → bytes_from m (p + length pre) ≡ ok rest
unfolding bytes_from
bytes_from-append m p pre rest h = elim (Bool-cases (leb m.base p)) [
  | inl inside ↦
      let found : drop (p - m.base) m.bytes ≡ pre ++ rest = ground arith in
      let base : m.base ≤ p = leb→le m.base p inside in
      let split : p + length pre - m.base ≡ p - m.base + length pre = omega arith in
      rw (le→leb m.base (p + length pre) (omega arith), split)
        (ap ok (
          drop-drop m.bytes (p - m.base) (length pre)
          ∙ ap (drop (length pre)) found
          ∙ drop-append pre rest (length pre) refl))
  | inr outside ↦ ground arith
]

module _ (m : Mem) (s c : ℕ) (pre post : List ℕ) where
  pub strchr_found :
      bytes_from m s ≡ ok (pre ++ c ∷ post)
      → Avoids c pre
      → strchr m s c ≡ ok (some (s + length pre))
  unfolding strchr
  strchr_found h a = rw h (find_chr_found c pre post s a)

  pub strchr-none :
      bytes_from m s ≡ ok (pre ++ 0 ∷ post) → Avoids c pre → c ≢ 0 → strchr m s c ≡ ok none
  unfolding strchr
  strchr-none h a n = rw h (find_chr-none c pre post s a n)

pub strlen_lem :
    (m : Mem) (s : ℕ) (pre post : List ℕ)
    → bytes_from m s ≡ ok (pre ++ 0 ∷ post)
    → Avoids 0 pre
    → strlen m s ≡ ok (length pre)
unfolding strlen
strlen_lem m s pre post h a = rw h (count_to_nul_lem pre post a)

abbrev pub span : ℕ → ℕ → ℕ → Substring
span start stop len = record { start = start; stop = stop; len = len }

-- `substring_to_strchr` finds the first `c` behind `suc k` bytes: the result is its address, `end` is
-- the last byte before it, and `len` is one less than the number of bytes before it.
pub substring_to_strchr_found :
    (m : Mem) (sub : Substring) (s c x : ℕ) (pre post : List ℕ)
    → bytes_from m s ≡ ok (x ∷ (pre ++ c ∷ post))
    → Avoids c (x ∷ pre)
    → s + length pre + 1 < u64_mod
    → substring_to_strchr m sub s c
      ≡ ok (some (s + length pre + 1), span s (s + length pre) (length pre))
unfolding substring_to_strchr substring_to_found ended_before
substring_to_strchr_found m sub s c x pre post h a bound =
    let at : s + length (x ∷ pre) ≡ s + length pre + 1 = omega arith in
    let back : sub64 (s + length pre + 1) 1 ≡ s + length pre =
      sub64_lem (s + length pre + 1) 1 (omega arith) bound ∙ omega arith in
    let len : sub64 (s + length pre) s ≡ length pre =
      sub64_lem (s + length pre) s (omega arith) (omega arith) ∙ omega arith in
    rw (strchr_found m s c (x ∷ pre) post h a, at, back, len)

-- Where `c` is the very first byte, `len` wraps round to the largest `unsigned long`.
pub substring_to_strchr_wraps :
    (m : Mem) (sub : Substring) (s c : ℕ) (post : List ℕ)
    → bytes_from m s ≡ ok (c ∷ post)
    → 0 < s
    → s < u64_mod
    → substring_to_strchr m sub s c ≡ ok (some s, span s (s - 1) (u64_mod - 1))
unfolding substring_to_strchr substring_to_found ended_before
substring_to_strchr_wraps m sub s c post h low high =
    let at : s + length {A = ℕ} [] ≡ s = omega arith in
    let back : sub64 s 1 ≡ s - 1 = sub64_lem s 1 low high in
    let len : sub64 (s - 1) s ≡ u64_mod - 1 = unfold sub64 in omega arith in
    rw (strchr_found m s c [] post h tt, at, back, len)

-- Where the text ends before any `c`, the result is NULL and the substring is left as it was.
pub substring_to_strchr-none :
    (m : Mem) (sub : Substring) (s c : ℕ) (pre post : List ℕ)
    → bytes_from m s ≡ ok (pre ++ 0 ∷ post)
    → Avoids c pre
    → c ≢ 0
    → substring_to_strchr m sub s c ≡ ok (none, sub)
unfolding substring_to_strchr substring_to_found
substring_to_strchr-none m sub s c pre post h a n = rw (strchr-none m s c pre post h a n)

-- `substring_move_to_strchr` makes the substring the rest of the text, from the first `c` to the
-- terminator, which `end` points at.
pub substring_move_to_strchr_found :
    (m : Mem) (sub : Substring) (s c : ℕ) (pre rest post : List ℕ)
    → bytes_from m s ≡ ok (pre ++ c ∷ (rest ++ 0 ∷ post))
    → Avoids c pre
    → Avoids 0 (c ∷ rest)
    → s + length pre + length rest + 1 < u64_mod
    → substring_move_to_strchr m sub s c
      ≡ ok (
        some (s + length pre),
        span (s + length pre) (s + length pre + length rest + 1) (length rest + 1),
      )
unfolding substring_move_to_strchr substring_move_to_found
substring_move_to_strchr_found m sub s c pre rest post h a b bound =
    let there = bytes_from-append m s pre (c ∷ (rest ++ 0 ∷ post)) h in
    let one : length (c ∷ rest) ≡ length rest + 1 = omega arith in
    let end : add64 (s + length pre) (length rest + 1) ≡ s + length pre + length rest + 1 =
      add64_lem (s + length pre) (length rest + 1) (omega arith) ∙ omega arith in
    rw (
      strchr_found m s c pre (rest ++ 0 ∷ post) h a,
      strlen_lem m (s + length pre) (c ∷ rest) post there b,
      one,
      end,
    )

-- `end` is `len` bytes behind `start`, and neither address has wrapped.
pub record IsSpan (sub : Substring) : Type 0 where
  pub extent : sub.stop ≡ sub.start + sub.len
  pub bounded : sub.stop < u64_mod

pub substring_set-IsSpan :
    (sub : Substring) (s len : ℕ)
    → IsSpan sub
    → s + len < u64_mod
    → IsSpan (substring_set sub s len).1 × ((substring_set sub s len).0 ≡ len)
unfolding substring_set
substring_set-IsSpan sub s len v bound = ground (arith, add64_lem s len)

-- The macros that drop bytes at the front or add them at the end keep a span one: they move its
-- ends by what they change its length by, where the bytes to drop are there.
pub adjust-IsSpan :
    (sub : Substring) (n : ℕ)
    → IsSpan sub
    → n ≤ sub.len
    → 0 < sub.len
    → sub.stop + n + 1 < u64_mod
    → IsSpan (substring_addchr_start sub)
      × IsSpan (substring_addnchr_start sub n)
      × IsSpan (substring_addchr_end sub)
      × IsSpan (substring_addnchr_end sub n)
      × IsSpan (substring_minuschr_end sub)
unfolding substring_addchr_start substring_addnchr_start substring_addchr_end substring_addnchr_end
    substring_minuschr_end add64 sub64
adjust-IsSpan sub n v fits some_len bound =
    (omega arith, omega arith, omega arith, omega arith, omega arith)

-- The front macros undo one another, and so do the macros for the end.
pub addchr-minuschr :
    (sub : Substring)
    → IsSpan sub
    → 0 < sub.start
    → sub.stop + 1 < u64_mod
    → (substring_addchr_start (substring_minuschr_start sub) ≡ sub)
      × (substring_minuschr_end (substring_addchr_end sub) ≡ sub)
      × IsSpan (substring_minuschr_start sub)
unfolding substring_addchr_start substring_minuschr_start substring_addchr_end
    substring_minuschr_end add64 sub64
addchr-minuschr sub v low bound = (ground arith, ground arith, omega arith)
