-- ===== src/Match/Setup/Tables.antt =====
-- What the tables hold after fncalls_match_init, which names match_function_name counts, and the
-- patterns that compile_regexp_match passes over.
use ahaggar.Base.{
  ℕ, ◌+◌, ◌<◌, ◌%◌, ◌≡◌, refl, ◌≢◌, ◌↔◌, ap, Bool, true, false, some, List, [], ◌∷◌, if◌then◌else◌,
  ◌||◌, ℤ, pos, negsuc, u32_mod, map, arith, Bool-cases, inl, inr, ne→==,
}
use ahaggar.Match.{Libs, Target, HashFunctions, is_hash_safe}
use ahaggar.Match.Setup.{targets_array_size, names, match_each, match_function_name}

module _ (libs : Libs) where
  -- is_hash_safe of an array accepts exactly 1 to 767 elements.
  pub is_hash_safe_iff :
      (arr : List (Target libs)) (n : ℕ)
      → (is_hash_safe libs (some arr) n ≡ true) ↔ ((0 < n) × (n < 768))
  unfolding is_hash_safe
  is_hash_safe_iff arr n = ground arith

  -- Some table with targets holds the name.
  abbrev pub named_in : List ℕ → List (HashFunctions libs) → Bool
  named_in fnname [] = false
  named_in fnname (h ∷ more) = names libs h fnname || named_in fnname more

  abbrev pub counted : List ℕ → HashFunctions libs → HashFunctions libs
  counted fnname h =
      if names libs h fnname then record h { mcounter = (h.mcounter + 1) % u32_mod } else h

  if_same {ℓ} : {A : Type ℓ} (b : Bool) (a : A) → (if b then a else a) ≡ a
  if_same true a = refl
  if_same false a = refl

  match_each_lem :
      (fnname : List ℕ) (hashes : List (HashFunctions libs)) (ret : ℤ)
      → match_each libs fnname hashes ret
        ≡ (if named_in fnname hashes then pos 0 else ret, map (counted fnname) hashes)
  unfolding match_each
  match_each_lem fnname [] ret = refl
  match_each_lem fnname (h ∷ more) ret = elim (Bool-cases (names libs h fnname)) [
    | inl is ↦
        rw (match_each, is, match_each_lem fnname more (pos 0))
          (ap
            (λ r.
              (r, record h { mcounter = (h.mcounter + 1) % u32_mod } ∷ map (counted fnname) more))
            (if_same (named_in fnname more) (pos 0)))
    | inr not_here ↦ rw (match_each, not_here, match_each_lem fnname more ret) refl
  ]

  -- Where there is a target at all, match_function_name succeeds exactly if some table holds the
  -- name, and it counts the call in each such table, modulo 2^32, and changes nothing else.
  pub match_function_name_lem :
      (fnname : List ℕ) (hashes : List (HashFunctions libs))
      → targets_array_size libs hashes ≢ 0
      → match_function_name libs fnname hashes
        ≡ (if named_in fnname hashes then pos 0 else negsuc 0, map (counted fnname) hashes)
  unfolding match_function_name
  match_function_name_lem fnname hashes h =
      rw (match_function_name, ne→== (targets_array_size libs hashes) 0 h)
        (match_each_lem fnname hashes (negsuc 0))
