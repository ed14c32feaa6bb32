-- ===== src/Base/Lists.antt =====
-- Lists measured and indexed by native numbers, under the library's names, and the splice that a
-- write into a block of bytes makes.
use Prim.Native.Nat.{ℕ, zero, suc, ◌+◌, ◌-◌, ◌<◌, ◌≤◌, min}
use mathlib.Core.Path.{◌≡◌, refl, ap, sym, ◌∙◌}
use mathlib.Core.List.{List, [], ◌∷◌, ◌++◌, append-nil, append_assoc, map}
use mathlib.Core.Option.{Option, none, some}
use native.Mathlib.Omega.{arith}

module _ {ℓ} {A : Type ℓ} where
  abbrev pub length : List A → ℕ
  length [] = 0
  length (x ∷ xs) = suc (length xs)

  abbrev pub get_elem? : List A → ℕ → Option A
  get_elem? [] i = none
  get_elem? (x ∷ xs) zero = some x
  get_elem? (x ∷ xs) (suc i) = get_elem? xs i

  abbrev pub take : ℕ → List A → List A
  take zero xs = []
  take (suc n) [] = []
  take (suc n) (x ∷ xs) = x ∷ take n xs

  abbrev pub drop : ℕ → List A → List A
  drop zero xs = xs
  drop (suc n) [] = []
  drop (suc n) (x ∷ xs) = drop n xs

  abbrev pub replicate : ℕ → A → List A
  replicate zero a = []
  replicate (suc n) a = a ∷ replicate n a

  pub length-append : (xs ys : List A) → length (xs ++ ys) ≡ length xs + length ys
  length-append [] ys = omega arith
  length-append (x ∷ xs) ys = omega (arith, length-append xs ys)

  pub length-take : (n : ℕ) (xs : List A) → length (take n xs) ≡ min n (length xs)
  length-take zero xs = omega arith
  length-take (suc n) [] = omega arith
  length-take (suc n) (x ∷ xs) = omega (arith, length-take n xs)

  pub length-drop : (n : ℕ) (xs : List A) → length (drop n xs) ≡ length xs - n
  length-drop zero xs = omega arith
  length-drop (suc n) [] = omega arith
  length-drop (suc n) (x ∷ xs) = omega (arith, length-drop n xs)

  pub length-replicate : (n : ℕ) (a : A) → length (replicate n a) ≡ n
  length-replicate zero a = refl
  length-replicate (suc n) a = ap suc (length-replicate n a)

  -- The first `n` of a list that begins with `n` given elements.
  pub take-append : (xs ys : List A) (n : ℕ) → length xs ≡ n → take n (xs ++ ys) ≡ xs
  take-append [] ys zero h = refl
  take-append [] ys (suc n) h = absurd (omega arith)
  take-append (x ∷ xs) ys zero h = absurd (omega arith)
  take-append (x ∷ xs) ys (suc n) h = ap (◌∷◌ x) (take-append xs ys n (omega arith))

  -- The first `n` of a list of which at least `n` stand in front.
  pub take-append_le : (xs ys : List A) (n : ℕ) → n ≤ length xs → take n (xs ++ ys) ≡ take n xs
  take-append_le xs ys zero h = refl
  take-append_le [] ys (suc n) h = absurd (omega arith)
  take-append_le (x ∷ xs) ys (suc n) h = ap (◌∷◌ x) (take-append_le xs ys n (omega arith))

  pub take-take : (xs : List A) (n m : ℕ) → n ≤ m → take n (take m xs) ≡ take n xs
  take-take xs zero m h = refl
  take-take xs (suc n) zero h = absurd (omega arith)
  take-take [] (suc n) (suc m) h = refl
  take-take (x ∷ xs) (suc n) (suc m) h = ap (◌∷◌ x) (take-take xs n m (omega arith))

  pub take_all : (xs : List A) (n : ℕ) → length xs ≤ n → take n xs ≡ xs
  take_all [] zero h = refl
  take_all [] (suc n) h = refl
  take_all (x ∷ xs) zero h = absurd (omega arith)
  take_all (x ∷ xs) (suc n) h = ap (◌∷◌ x) (take_all xs n (omega arith))

  pub drop_all : (xs : List A) (n : ℕ) → length xs ≤ n → drop n xs ≡ []
  drop_all [] zero h = refl
  drop_all [] (suc n) h = refl
  drop_all (x ∷ xs) zero h = absurd (omega arith)
  drop_all (x ∷ xs) (suc n) h = drop_all xs n (omega arith)

  pub get_elem?-append :
      (xs ys : List A) (n : ℕ) → length xs ≡ n → get_elem? (xs ++ ys) n ≡ get_elem? ys 0
  get_elem?-append [] ys zero h = refl
  get_elem?-append [] ys (suc n) h = absurd (omega arith)
  get_elem?-append (x ∷ xs) ys zero h = absurd (omega arith)
  get_elem?-append (x ∷ xs) ys (suc n) h = get_elem?-append xs ys n (omega arith)

  pub take-append-drop : (n : ℕ) (xs : List A) → take n xs ++ drop n xs ≡ xs
  take-append-drop zero xs = refl
  take-append-drop (suc n) [] = refl
  take-append-drop (suc n) (x ∷ xs) = ap (◌∷◌ x) (take-append-drop n xs)

  pub drop-append : (xs ys : List A) (n : ℕ) → length xs ≡ n → drop n (xs ++ ys) ≡ ys
  drop-append [] ys zero h = refl
  drop-append [] ys (suc n) h = absurd (omega arith)
  drop-append (x ∷ xs) ys zero h = absurd (omega arith)
  drop-append (x ∷ xs) ys (suc n) h = drop-append xs ys n (omega arith)

  pub get_elem?-drop : (xs : List A) (n : ℕ) → get_elem? xs n ≡ get_elem? (drop n xs) 0
  get_elem?-drop xs zero = refl
  get_elem?-drop [] (suc n) = refl
  get_elem?-drop (x ∷ xs) (suc n) = get_elem?-drop xs n

  pub drop-drop : (xs : List A) (n m : ℕ) → drop (n + m) xs ≡ drop m (drop n xs)
  drop-drop xs zero m = let e : 0 + m ≡ m = omega arith in ap (λ k. drop k xs) e
  drop-drop [] (suc n) zero = let e : suc n + 0 ≡ suc n = omega arith in ap (λ k. drop k []) e
  drop-drop [] (suc n) (suc m) =
      let e : suc n + suc m ≡ suc (n + suc m) = omega arith in ap (λ k. drop k []) e
  drop-drop (x ∷ xs) (suc n) m =
      let e : suc n + m ≡ suc (n + m) = omega arith in
      ap (λ k. drop k (x ∷ xs)) e ∙ drop-drop xs n m

  -- `src` written over `xs` from index `i` on.
  pub splice : List A → ℕ → List A → List A
  splice xs i src = take i xs ++ (src ++ drop (i + length src) xs)

  pub length-splice :
      (xs : List A) (i : ℕ) (src : List A)
      → i + length src ≤ length xs
      → length (splice xs i src) ≡ length xs
  unfolding splice
  length-splice xs i src h = omega (
    arith,
    length-append (take i xs) (src ++ drop (i + length src) xs),
    length-append src (drop (i + length src) xs),
    length-take i xs,
    length-drop (i + length src) xs,
  )

  -- What stands before the splice and the splice itself.
  pub take-splice :
      (xs : List A) (i n : ℕ) (src : List A)
      → i + length src ≤ length xs
      → n ≡ i + length src
      → take n (splice xs i src) ≡ take i xs ++ src
  unfolding splice
  take-splice xs i n src h e =
      ap (take n) (sym (append_assoc (take i xs) src (drop (i + length src) xs)))
      ∙ take-append (take i xs ++ src) _ n
          (omega (arith, length-append (take i xs) src, length-take i xs))

  -- A write behind `n` leaves the first `n`.
  pub take-splice_le :
      (xs : List A) (i n : ℕ) (src : List A)
      → i ≤ length xs
      → n ≤ i
      → take n (splice xs i src) ≡ take n xs
  unfolding splice
  take-splice_le xs i n src h e =
      take-append_le (take i xs) _ n (omega (arith, length-take i xs)) ∙ take-take xs n i e

  -- The element just behind `src` in a splice of `src` and one more.
  pub get_elem?-splice :
      (xs : List A) (i n : ℕ) (src : List A) (a : A)
      → i + length src < length xs
      → n ≡ i + length src
      → get_elem? (splice xs i (src ++ a ∷ [])) n ≡ some a
  unfolding splice
  get_elem?-splice xs i n src a h e =
      ap (λ ys. get_elem? (take i xs ++ ys) n) (append_assoc src (a ∷ []) _)
      ∙ ap (λ ys. get_elem? ys n) (sym (append_assoc (take i xs) src _))
      ∙ get_elem?-append (take i xs ++ src) _ n
          (omega (arith, length-append (take i xs) src, length-take i xs))

  pub splice_whole : (xs ys : List A) → length xs ≡ length ys → splice xs 0 ys ≡ ys
  unfolding splice
  splice_whole xs ys e = ap (◌++◌ ys) (drop_all xs (0 + length ys) (omega arith)) ∙ append-nil ys

pub length-map {ℓ κ} :
    {A : Type ℓ} {B : Type κ} (f : A → B) (xs : List A) → length (map f xs) ≡ length xs
length-map f [] = refl
length-map f (x ∷ xs) = ap suc (length-map f xs)
