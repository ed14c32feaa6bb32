-- ===== src/Checks/Sizes.antt =====
-- fncalls_checks/mem-checks.c and malloc-checks.c: whether the size argument of a call is a constant
-- that is as small as a pointer. `strtoul` is a parameter; it is given the text from a pointer on.
pub mod Results
use ahaggar.Base.{
  ℕ, zero, suc, ◌+◌, ◌-◌, Bool, true, false, Option, none, some, List, [], ◌∷◌, ◌++◌, Run, ok,
  fault, ◌>>=◌, ◌==◌, if◌then◌else◌, ◌||◌, drop, take, ltb, ℤ, pos, codes,
}
use ahaggar.Str.{has_prefix}
use ahaggar.Checks.{Offset, call_start_at_arg, get_arg_value}

-- What `strtoul` and `strtol` give: the value as an `unsigned long`, how far `endp` stands behind the
-- start, and whether `errno` was set.
pub record Parsed : Type 0 where
  pub value : ℕ
  pub used : ℕ
  pub failed : Bool

abbrev pub int_const_tag : List ℕ
int_const_tag = codes "<integer_cst> "

-- `__SIZEOF_POINTER__` of a 64-bit target.
abbrev pub pointer_size : ℕ
pointer_size = 8

-- 0 and REG_NOMATCH.
pub data Verdict : Type 0 where
  matched no_match : Verdict

-- `snprintf(buf, buflen, "%s", text)`, as the text that `buf` then holds.
abbrev pub printed : ℕ → List ℕ → List ℕ → List ℕ
printed buflen text buf = if buflen == 0 then buf else take (buflen - 1) text

-- Behind `call_start_at_arg`: the value of the argument if its tag is that of an integer constant.
pub tagged_value : List ℕ → Offset → Run Offset
tagged_value call none = ok none
tagged_value call (some p) = do
  is ← has_prefix (drop p call) int_const_tag
  if is then get_arg_value call (some p) else ok none

pub mem_to_int_cst_size : Option (List ℕ) → ℤ → ℕ → Run Offset
mem_to_int_cst_size none arg_idx flags = ok none
mem_to_int_cst_size (some call) arg_idx flags = do
  ptr ← call_start_at_arg call arg_idx
  tagged_value call ptr

-- The text that `chk_memory_size` prints, if any; a size of 8 at most is printed as one digit.
pub size_text : List ℕ → ℕ → Option (List ℕ)
size_text fnname size =
    if size == 0
    then some (codes "function '" ++ fnname ++ codes "' argument size is 0")
    else if ltb size pointer_size
    then some
        (codes "function '" ++ fnname ++ codes "' argument size equals " ++ (b'0' + size) ∷ [])
    else if size == pointer_size
    then some (
        codes "function '"
        ++ fnname
        ++ codes "' argument size equals ptr size "
        ++ (b'0' + size) ∷ [])
    else none

pub printed_if : ℕ → Option (List ℕ) → List ℕ → List ℕ
printed_if buflen none buf = buf
printed_if buflen (some text) buf = printed buflen text buf

pub chk_memory_size : Option (List ℕ) → ℕ → ℕ → List ℕ → Verdict × List ℕ
chk_memory_size none size buflen buf = (no_match, buf)
chk_memory_size (some []) size buflen buf = (no_match, buf)
chk_memory_size (some (c ∷ cs)) size buflen buf =
    (matched, printed_if buflen (size_text (c ∷ cs) size) buf)

-- `struct fncall_data`
pub record FncallData : Type 0 where
  pub fnname : Option (List ℕ)
  pub call : Option (List ℕ)
  pub arg_idx : ℤ
  pub flags : ℕ

pub init_fncall_data : List ℕ → List ℕ → ℤ → ℕ → FncallData
init_fncall_data fnname call arg_idx flags = record {
  fnname = some fnname;
  call = some call;
  arg_idx = arg_idx;
  flags = flags;
}

module _ (strtoul : List ℕ → Parsed) where
  -- From the value on.
  pub chk_value : FncallData → List ℕ → Offset → ℕ → List ℕ → Run (Verdict × List ℕ)
  chk_value fn call none buflen buf = ok (no_match, buf)
  chk_value fn call (some p) buflen buf =
      let size = strtoul (drop p call) in
      if size.failed || size.used == 0
      then ok (no_match, buf)
      else ok (chk_memory_size fn.fnname size.value buflen buf)

  pub chk_named :
      FncallData → Option (List ℕ) → Option (List ℕ) → ℕ → List ℕ → Run (Verdict × List ℕ)
  chk_named fn none call buflen buf = ok (no_match, buf)
  chk_named fn (some fnname) none buflen buf = ok (no_match, buf)
  chk_named fn (some fnname) (some call) buflen buf = do
    ptr ← mem_to_int_cst_size (some call) fn.arg_idx fn.flags
    chk_value fn call ptr buflen buf

  pub mem_chk_common_size : Option FncallData → ℕ → List ℕ → Run (Verdict × List ℕ)
  mem_chk_common_size none buflen buf = ok (no_match, buf)
  mem_chk_common_size (some fn) buflen buf = chk_named fn fn.fnname fn.call buflen buf

  -- A callback matcher: the text of the call, its flags, the buffer and its length.
  abbrev pub Matcher : Type 0
  Matcher = List ℕ → ℕ → List ℕ → ℕ → Run (Verdict × List ℕ)

  pub malloc_chk_size : Matcher
  malloc_chk_size call flags buf buflen =
      mem_chk_common_size (some (init_fncall_data (codes "malloc") call (pos 1) flags)) buflen buf

  pub kmalloc_chk_size : Matcher
  kmalloc_chk_size call flags buf buflen =
      mem_chk_common_size (some (init_fncall_data (codes "kmalloc") call (pos 1) flags)) buflen buf

  pub kzalloc_chk_size : Matcher
  kzalloc_chk_size call flags buf buflen =
      mem_chk_common_size (some (init_fncall_data (codes "kzalloc") call (pos 1) flags)) buflen buf

  pub strndup_chk_size : Matcher
  strndup_chk_size call flags buf buflen =
      mem_chk_common_size (some (init_fncall_data (codes "strndup") call (pos 2) flags)) buflen buf

  pub strndupa_chk_size : Matcher
  strndupa_chk_size call flags buf buflen =
      mem_chk_common_size (some (init_fncall_data (codes "strndupa") call (pos 2) flags)) buflen buf

  pub memset_chk_size : Matcher
  memset_chk_size call flags buf buflen =
      mem_chk_common_size (some (init_fncall_data (codes "memset") call (pos 3) flags)) buflen buf

  pub memcpy_chk_size : Matcher
  memcpy_chk_size call flags buf buflen =
      mem_chk_common_size (some (init_fncall_data (codes "memcpy") call (pos 3) flags)) buflen buf

  pub strncpy_chk_size : Matcher
  strncpy_chk_size call flags buf buflen =
      mem_chk_common_size (some (init_fncall_data (codes "strncpy") call (pos 3) flags)) buflen buf

  pub strncat_chk_size : Matcher
  strncat_chk_size call flags buf buflen =
      mem_chk_common_size (some (init_fncall_data (codes "strncat") call (pos 3) flags)) buflen buf

  pub memmove_chk_size : Matcher
  memmove_chk_size call flags buf buflen =
      mem_chk_common_size (some (init_fncall_data (codes "memmove") call (pos 3) flags)) buflen buf

  pub memcmp_chk_size : Matcher
  memcmp_chk_size call flags buf buflen =
      mem_chk_common_size (some (init_fncall_data (codes "memcmp") call (pos 3) flags)) buflen buf
