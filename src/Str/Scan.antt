-- ===== src/Str/Scan.antt =====
-- What the scans find, stated of a text that is written out up to the byte in question.
use ahaggar.Base.{
  ℕ, ◌+◌, ◌≡◌, refl, ◌≢◌, true, Option, none, some, List, [], ◌∷◌, ◌++◌, ok, arith, length,
}
use ahaggar.Str.{find_chr, count_to_nul, has_prefix, find_last}

-- No byte of the list is `c`, and none is NUL.
abbrev pub Avoids : ℕ → List ℕ → Type 0
Avoids c [] = Unit
Avoids c (x ∷ xs) = (x ≢ c) × (x ≢ 0) × Avoids c xs

-- `strchr` gives the first occurrence.
pub find_chr_found :
    (c : ℕ) (pre post : List ℕ) (p : ℕ)
    → Avoids c pre
    → find_chr c (pre ++ c ∷ post) p ≡ ok (some (p + length pre))
unfolding find_chr
find_chr_found c [] post p a = ground arith
find_chr_found c (x ∷ pre) post p (n, z, a) = ground (arith, find_chr_found c pre post (p + 1) a)

-- Where the text ends first, it gives NULL.
pub find_chr-none :
    (c : ℕ) (pre post : List ℕ) (p : ℕ)
    → Avoids c pre
    → c ≢ 0
    → find_chr c (pre ++ 0 ∷ post) p ≡ ok none
unfolding find_chr
find_chr-none c [] post p a h = ground arith
find_chr-none c (x ∷ pre) post p (n, z, a) h = ground (arith, find_chr-none c pre post (p + 1) a h)

pub count_to_nul_lem :
    (pre post : List ℕ) → Avoids 0 pre → count_to_nul (pre ++ 0 ∷ post) ≡ ok (length pre)
unfolding count_to_nul
count_to_nul_lem [] post a = refl
count_to_nul_lem (x ∷ pre) post (n, z, a) = ground (arith, count_to_nul_lem pre post a)

-- `strrchr` gives the last occurrence.
pub find_last-none :
    (c : ℕ) (pre post : List ℕ) (p : ℕ) (last : Option ℕ)
    → Avoids c pre
    → c ≢ 0
    → find_last c (pre ++ 0 ∷ post) p last ≡ ok last
unfolding find_last
find_last-none c [] post p last a h = ground arith
find_last-none c (x ∷ pre) post p last (n, z, a) h =
    ground (arith, find_last-none c pre post (p + 1) last a h)

pub find_last_lem :
    (c : ℕ) (pre mid post : List ℕ) (p : ℕ) (last : Option ℕ)
    → Avoids 0 pre
    → Avoids c mid
    → c ≢ 0
    → find_last c (pre ++ c ∷ (mid ++ 0 ∷ post)) p last ≡ ok (some (p + length pre))
unfolding find_last
find_last_lem c [] mid post p last a m h =
    ground (arith, find_last-none c mid post (p + 1) (some p) m h)
find_last_lem c (x ∷ pre) mid post p last (n, z, a) m h = ground (
  arith,
  find_last_lem c pre mid post (p + 1) (some p) a m h,
  find_last_lem c pre mid post (p + 1) last a m h,
)

-- The prefix test says yes exactly on the texts that begin with the literal.
pub has_prefix_yes : (lit rest : List ℕ) → has_prefix (lit ++ rest) lit ≡ ok true
unfolding has_prefix
has_prefix_yes [] rest = refl
has_prefix_yes (q ∷ qs) rest = ground (arith, has_prefix_yes qs rest)

pub has_prefix_only :
    (text lit : List ℕ) → has_prefix text lit ≡ ok true → (rest : List ℕ) × (text ≡ lit ++ rest)
unfolding has_prefix
has_prefix_only text [] h = (text, refl)
has_prefix_only [] (q ∷ qs) h = cc
has_prefix_only (x ∷ xs) (q ∷ qs) h =
    let tail : has_prefix xs qs ≡ ok true = ground arith in
    let same : x ≡ q = ground arith in let (rest, is) = has_prefix_only xs qs tail in (rest, cc)
