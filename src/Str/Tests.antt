-- ===== src/Str/Tests.antt =====
-- The functions of str-utils.c on one text, and the theorems at it.
use ahaggar.Base.{
  ℕ, ◌+◌, ◌-◌, ◌≡◌, refl, some, List, [], ◌∷◌, ◌++◌, ok, arith, length, take, codes, min, u64_mod,
}
use ahaggar.Str.{
  Mem, bytes_from, Substring, substring_to_strchr, substring_strncpy, substring_strndup,
}
use ahaggar.Str.Spans.{span, IsSpan, substring_to_strchr_found, substring_to_strchr_wraps}
use ahaggar.Str.Copies.{substring_strncpy_lem, substring_strndup_lem}

-- "f(x)]", a terminator and a byte behind it, at address 100.
abbrev mem : Mem
mem = record { base = 100; bytes = codes "f(x)]" ++ 0 ∷ 9 ∷ [] }

all_bytes : bytes_from mem 100 ≡ ok (codes "f(x)]" ++ 0 ∷ 9 ∷ [])
unfolding bytes_from
all_bytes = refl

from_paren : bytes_from mem 101 ≡ ok (codes "(x)]" ++ 0 ∷ 9 ∷ [])
unfolding bytes_from
from_paren = refl

abbrev blank : Substring
blank = span 0 0 0

substring_to_strchr_found_example :
    substring_to_strchr mem blank 100 b']' ≡ ok (some (100 + 3 + 1), span 100 (100 + 3) 3)
substring_to_strchr_found_example =
    substring_to_strchr_found mem blank 100 b']' b'f' (codes "(x)") (0 ∷ 9 ∷ []) all_bytes
      (omega arith) (omega arith)

substring_to_strchr_wraps_example :
    substring_to_strchr mem blank 101 b'(' ≡ ok (some 101, span 101 (101 - 1) (u64_mod - 1))
substring_to_strchr_wraps_example =
    substring_to_strchr_wraps mem blank 101 b'(' (codes "x)]" ++ 0 ∷ 9 ∷ []) from_paren
      (omega arith) (omega arith)

-- "(x)" of the text.
abbrev parens : Substring
parens = span 101 104 3

parens-IsSpan : IsSpan parens
parens-IsSpan = record { extent = refl; bounded = omega arith }

abbrev rest : List ℕ
rest = codes "(x)]" ++ 0 ∷ 9 ∷ []

substring_strncpy_lem_example :
    (d : List ℕ) × (substring_strncpy mem (5 ∷ 5 ∷ 5 ∷ []) parens 3 ≡ ok (3, d))
    × (take (min 3 (3 - 1) + 1) d ≡ take (min 3 (3 - 1)) rest ++ 0 ∷ [])
    × (length d ≡ 3)
substring_strncpy_lem_example =
    substring_strncpy_lem mem parens rest from_paren (omega arith) (omega arith) (5 ∷ 5 ∷ 5 ∷ []) 3
      (omega arith) (omega arith) (omega arith)

substring_strndup_lem_example :
    (d : List ℕ) × (substring_strndup (λ i. i + 9) mem parens 2 ≡ ok (some d))
    × (take (min 3 2 + 1) d ≡ take (min 3 2) rest ++ 0 ∷ [])
    × (length d ≡ 2 + 1)
substring_strndup_lem_example =
    substring_strndup_lem mem parens rest from_paren (omega arith) (omega arith) (λ i. i + 9) 2
      (omega arith)
