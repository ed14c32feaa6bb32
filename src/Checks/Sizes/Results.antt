-- ===== src/Checks/Sizes/Results.antt =====
-- What the size checks decide of a call that is printed as `(a, b, c)`.
use ahaggar.Base.{
  ℕ, zero, suc, ◌+◌, ◌≡◌, refl, ◌≢◌, ◌∙◌, ap, Bool, true, false, Option, none, some, List, [], ◌∷◌,
  ◌++◌, Run, ok, ◌>>=◌, ◌==◌, if◌then◌else◌, ◌||◌, drop, pos, codes, arith, drop-drop, sym, leb,
}
use ahaggar.Str.{has_prefix}
use ahaggar.Str.Scan.{has_prefix_yes}
use ahaggar.Checks.{Offset, call_start_at_arg, get_arg_value}
use ahaggar.Checks.Args.{IsArgs, joined, call_text, StartsAt, call_start_at_arg_lem}
use ahaggar.Checks.Values.{Plain, IsPlain, get_arg_value_found}
use ahaggar.Checks.Sizes.{
  Parsed, int_const_tag, Verdict, matched, no_match, tagged_value, mem_to_int_cst_size,
  pointer_size, size_text, printed_if, chk_memory_size, init_fncall_data, chk_value, chk_named,
  mem_chk_common_size, malloc_chk_size, kmalloc_chk_size, kzalloc_chk_size, strndup_chk_size,
  strndupa_chk_size, memset_chk_size, memcpy_chk_size, strncpy_chk_size, strncat_chk_size,
  memmove_chk_size, memcmp_chk_size,
}

-- What stands behind an argument: the ones after it, up to the end of the text.
abbrev pub behind : List (List ℕ) → List ℕ → List ℕ
behind [] rest = b')' ∷ rest
behind (b ∷ others) rest = b',' ∷ b' ' ∷ joined (b ∷ others) rest

joined-behind :
    (a : List ℕ) (others : List (List ℕ)) (rest : List ℕ)
    → joined (a ∷ others) rest ≡ a ++ behind others rest
joined-behind a [] rest = refl
joined-behind a (b ∷ others) rest = refl

-- The text from the value of the argument with index `n` on, if that is an integer constant.
abbrev pub ValueAt : List (List ℕ) → ℕ → List ℕ → List ℕ → Type 0
ValueAt [] n rest text = ⊥
ValueAt (a ∷ others) zero rest text =
    (v : ℕ) × (digits : List ℕ) × (a ≡ int_const_tag ++ v ∷ digits)
    × IsPlain v
    × (v ≢ b' ')
    × (text ≡ v ∷ (digits ++ behind others rest))
ValueAt (a ∷ others) (suc n) rest text = ValueAt others n rest text

abbrev tag_name : List ℕ
tag_name = codes "integer_cst"

tag_name-Plain : Plain tag_name
tag_name-Plain = omega arith

-- The pointer that an argument's value has.
pub tagged_value_lem :
    (call : List ℕ) (args : List (List ℕ)) (n : ℕ) (rest text : List ℕ) (r : Run Offset)
    → StartsAt call args n rest r
    → ValueAt args n rest text
    → (q : ℕ) × (r >>= tagged_value call ≡ ok (some q)) × (drop q call ≡ text)
unfolding tagged_value
tagged_value_lem call [] n rest text r s v = absurd v
tagged_value_lem call (a ∷ others) (suc n) rest text r s v =
    tagged_value_lem call others n rest text r s v
tagged_value_lem call (a ∷ others) zero rest text r (p, e, at)
      (v, digits, is, plain, visible, from) =
    let tail = v ∷ (digits ++ behind others rest) in
    let whole : drop p call ≡ int_const_tag ++ tail =
      at ∙ joined-behind a others rest ∙ ap (λ l. l ++ behind others rest) is in
    let tagged : has_prefix (drop p call) int_const_tag ≡ ok true =
      ap (λ l. has_prefix l int_const_tag) whole ∙ has_prefix_yes int_const_tag tail in
    let back : p + 11 + 3 ≡ p + 14 = omega arith in
    let value : get_arg_value call (some p) ≡ ok (some (p + 14)) =
      get_arg_value_found call tag_name (digits ++ behind others rest) p tag_name-Plain v whole
        plain visible
      ∙ ap (λ k. ok (some k)) back in
    (p + 14, rw (e, tagged, value), drop-drop call p 14 ∙ ap (drop 14) whole ∙ sym from)

module _ (strtoul : List ℕ → Parsed) (args : List (List ℕ)) (rest text : List ℕ) (n : ℕ)
    (is : IsArgs args) (v : ValueAt args n rest text) where
  -- The common check on a named function whose size argument is an integer constant: where `strtoul`
  -- reads its value it decides by that, else it does not match and leaves the buffer.
  pub mem_chk_common_size_lem :
      (c : ℕ) (cs : List ℕ) (flags buflen : ℕ) (buf : List ℕ)
      → mem_chk_common_size strtoul
          (some (init_fncall_data (c ∷ cs) (call_text args rest) (pos (suc n)) flags))
          buflen
          buf
        ≡ ok (
            if (strtoul text).failed || (strtoul text).used == 0
            then (no_match, buf)
            else (matched, printed_if buflen (size_text (c ∷ cs) (strtoul text).value) buf))
  unfolding mem_chk_common_size init_fncall_data chk_named mem_to_int_cst_size chk_value
      chk_memory_size
  mem_chk_common_size_lem c cs flags buflen buf =
      let starts = (call_start_at_arg_lem args rest n is).0 in
      let (q, found, at) =
        tagged_value_lem (call_text args rest) args n rest text
          (call_start_at_arg (call_text args rest) (pos (suc n))) starts v in
      rw (found, ◌>>=◌, at) (ground arith)

abbrev pub is_said : Option (List ℕ) → Bool
is_said none = false
is_said (some text) = true

-- `chk_memory_size` of a named function matches at every size, and says something exactly where the
-- size is a pointer's or less; without a name it does not match.
pub chk_memory_size_lem :
    (c : ℕ) (cs : List ℕ) (size buflen : ℕ) (buf : List ℕ)
    → ((chk_memory_size (some (c ∷ cs)) size buflen buf).0 ≡ matched)
      × (is_said (size_text (c ∷ cs) size) ≡ leb size pointer_size)
      × (chk_memory_size (some (c ∷ cs)) size buflen buf
          ≡ (matched, printed_if buflen (size_text (c ∷ cs) size) buf))
      × (chk_memory_size (some []) size buflen buf ≡ (no_match, buf))
      × (chk_memory_size none size buflen buf ≡ (no_match, buf))
unfolding chk_memory_size size_text
chk_memory_size_lem c cs size buflen buf = (refl, ground arith, refl, refl, refl)

-- The checks of malloc-checks.c and mem-checks.c, with the name of the function that each is about and
-- the index of its size argument, less one.
pub data MemCheck : Type 0 where
  malloc kmalloc kzalloc strndup strndupa memset memcpy strncpy strncat memmove memcmp : MemCheck

pub matcher : (List ℕ → Parsed) → MemCheck → List ℕ → ℕ → List ℕ → ℕ → Run (Verdict × List ℕ)
matcher strtoul malloc = malloc_chk_size strtoul
matcher strtoul kmalloc = kmalloc_chk_size strtoul
matcher strtoul kzalloc = kzalloc_chk_size strtoul
matcher strtoul strndup = strndup_chk_size strtoul
matcher strtoul strndupa = strndupa_chk_size strtoul
matcher strtoul memset = memset_chk_size strtoul
matcher strtoul memcpy = memcpy_chk_size strtoul
matcher strtoul strncpy = strncpy_chk_size strtoul
matcher strtoul strncat = strncat_chk_size strtoul
matcher strtoul memmove = memmove_chk_size strtoul
matcher strtoul memcmp = memcmp_chk_size strtoul

abbrev pub size_place : MemCheck → ℕ
size_place malloc = 0
size_place kmalloc = 0
size_place kzalloc = 0
size_place strndup = 1
size_place strndupa = 1
size_place _ = 2

abbrev pub checked_name : MemCheck → List ℕ
checked_name malloc = codes "malloc"
checked_name kmalloc = codes "kmalloc"
checked_name kzalloc = codes "kzalloc"
checked_name strndup = codes "strndup"
checked_name strndupa = codes "strndupa"
checked_name memset = codes "memset"
checked_name memcpy = codes "memcpy"
checked_name strncpy = codes "strncpy"
checked_name strncat = codes "strncat"
checked_name memmove = codes "memmove"
checked_name memcmp = codes "memcmp"

-- Each size check, on a call whose size argument is an integer constant, matches if `strtoul` reads the
-- constant, and then prints about its function and that size what `chk_memory_size` says.
pub matcher_lem :
    (strtoul : List ℕ → Parsed) (check : MemCheck) (args : List (List ℕ)) (rest text : List ℕ)
    (flags buflen : ℕ) (buf : List ℕ)
    → IsArgs args
    → ValueAt args (size_place check) rest text
    → matcher strtoul check (call_text args rest) flags buf buflen
      ≡ ok (
          if (strtoul text).failed || (strtoul text).used == 0 then (no_match, buf) else (
            matched,
            printed_if buflen (size_text (checked_name check) (strtoul text).value) buf,
          ))
unfolding matcher malloc_chk_size kmalloc_chk_size kzalloc_chk_size strndup_chk_size
    strndupa_chk_size memset_chk_size memcpy_chk_size strncpy_chk_size strncat_chk_size
    memmove_chk_size memcmp_chk_size
matcher_lem strtoul malloc args rest text flags buflen buf is v =
    mem_chk_common_size_lem strtoul args rest text 0 is v _ _ flags buflen buf
matcher_lem strtoul kmalloc args rest text flags buflen buf is v =
    mem_chk_common_size_lem strtoul args rest text 0 is v _ _ flags buflen buf
matcher_lem strtoul kzalloc args rest text flags buflen buf is v =
    mem_chk_common_size_lem strtoul args rest text 0 is v _ _ flags buflen buf
matcher_lem strtoul strndup args rest text flags buflen buf is v =
    mem_chk_common_size_lem strtoul args rest text 1 is v _ _ flags buflen buf
matcher_lem strtoul strndupa args rest text flags buflen buf is v =
    mem_chk_common_size_lem strtoul args rest text 1 is v _ _ flags buflen buf
matcher_lem strtoul _ args rest text flags buflen buf is v =
    mem_chk_common_size_lem strtoul args rest text 2 is v _ _ flags buflen buf
