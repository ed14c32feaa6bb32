-- ===== src/Match/Calls/Extents.antt =====
-- What next_fncall_to_substring, extract_fnname and match_fncall find in a text that is written out
-- around the call.
use ahaggar.Base.{
  ℕ, zero, suc, ◌+◌, ◌<◌, ◌≡◌, refl, ◌≢◌, sym, ap, ◌∙◌, false, some, List, [], ◌∷◌, ◌++◌,
  append_assoc, ok, ◌>>=◌, ◌==◌, if◌then◌else◌, arith, length, u64_mod, add64, sub64, add64_lem,
  sub64_lem, le→leb, ne→==, length-append, take-append, subst,
}
use ahaggar.Str.{
  Mem, bytes_from, read, first_byte, Substring, substring_addnchr_end, substring_addchr_end,
  copy_from, strchr,
}
use ahaggar.Str.Scan.{Avoids}
use ahaggar.Str.Spans.{bytes_from-append, strchr_found, span, substring_to_strchr_found}
use ahaggar.Match.{Libs, lookup_key}
use ahaggar.Match.Calls.{
  c_string, next_offset, call_from, next_fncall_to_substring, walk_back, extract_fnname,
  take_newline, match_fncall,
}

read_lem : (m : Mem) (p x : ℕ) (rest : List ℕ) → bytes_from m p ≡ ok (x ∷ rest) → read m p ≡ ok x
unfolding read first_byte
read_lem m p x rest h = rw h refl

-- From `s` to two bytes behind the next `]`.
pub call_from_lem :
    (m : Mem) (sub : Substring) (s : ℕ) (text post : List ℕ)
    → bytes_from m s ≡ ok (text ++ b']' ∷ post)
    → Avoids b']' text
    → 0 < length text
    → s + length text + 2 < u64_mod
    → call_from m sub s ≡ ok (length text + 2, span s (s + length text + 2) (length text + 2))
unfolding call_from substring_addnchr_end
call_from_lem m sub s [] post h a nonempty bound = absurd (omega arith)
call_from_lem m sub s (x ∷ text) post h a nonempty bound =
    let found = substring_to_strchr_found m sub s b']' x text post h a (omega arith) in
    let stop : add64 (s + length text) 3 ≡ s + length (x ∷ text) + 2 =
      add64_lem (s + length text) 3 (omega arith) ∙ omega arith in
    let len : add64 (length text) 3 ≡ length (x ∷ text) + 2 =
      add64_lem (length text) 3 (omega arith) ∙ omega arith in
    rw (call_from, found, stop, len) refl

-- The walk back from a byte over bytes that are neither blank nor NUL.
walk_back_stop : (m : Mem) (p : ℕ) → read m p ≡ ok b' ' → walk_back m p ≡ ok p
unfolding walk_back
walk_back_stop m zero h = rw (walk_back, h) refl
walk_back_stop m (suc p) h = rw (walk_back, h) refl

walk_back_on :
    (m : Mem) (p c : ℕ)
    → read m (suc p) ≡ ok c
    → c ≢ 0
    → c ≢ b' '
    → walk_back m (suc p) ≡ walk_back m p
unfolding walk_back
walk_back_on m p c h n k = rw (walk_back, h, ◌>>=◌, ne→== c 0 n, ne→== c b' ' k) refl

next_byte :
    (m : Mem) (q z : ℕ) (rest : List ℕ)
    → bytes_from m q ≡ ok (z ∷ rest)
    → bytes_from m (suc q) ≡ ok rest
next_byte m q z rest h =
    let e : q + 1 ≡ suc q = omega arith in
    subst (λ p. bytes_from m p ≡ ok rest) e (bytes_from-append m q (z ∷ []) rest h)

walk_back_over :
    (m : Mem) (q z : ℕ) (name post : List ℕ) (c : ℕ)
    → bytes_from m q ≡ ok (z ∷ (name ++ c ∷ post))
    → Avoids b' ' name
    → c ≢ 0
    → c ≢ b' '
    → walk_back m (q + suc (length name)) ≡ walk_back m q
walk_back_over m q z [] post c h a n k =
    let e : q + 1 ≡ suc q = omega arith in
    ap (walk_back m) e
    ∙ walk_back_on m q c (read_lem m (suc q) c post (next_byte m q z (c ∷ post) h)) n k
walk_back_over m q z (d ∷ name) post c h (blank, nul, a) n k =
    let e : q + suc (suc (length name)) ≡ suc q + suc (length name) = omega arith in
    let next = next_byte m q z (d ∷ (name ++ c ∷ post)) h in
    ap (walk_back m) e
    ∙ walk_back_over m (suc q) d name post c next a n k
    ∙ walk_back_on m q d (read_lem m (suc q) d (name ++ c ∷ post) next) nul blank

-- The name of a function stands between the last blank before the first parenthesis and that.
pub c_string-Avoids : (text : List ℕ) → Avoids b' ' text → c_string text ≡ text
unfolding c_string
c_string-Avoids [] a = refl
c_string-Avoids (x ∷ text) (n, z, a) = rw (ne→== x 0 z) (ap (◌∷◌ x) (c_string-Avoids text a))

pub copy_from_lem :
    (m : Mem) (p : ℕ) (text rest : List ℕ)
    → bytes_from m p ≡ ok (text ++ rest)
    → copy_from m p (length text) ≡ ok text
unfolding copy_from
copy_from_lem m p text rest h =
    rw
      (
        copy_from,
        h,
        ◌>>=◌,
        le→leb (length text) (length (text ++ rest)) (omega (arith, length-append text rest)),
        take-append text rest (length text) refl,
      )
      refl

first_of :
    (name : List ℕ) (c : ℕ) (post : List ℕ)
    → Avoids b' ' name
    → c ≢ 0
    → (x : ℕ) × (rest : List ℕ) × (name ++ c ∷ post ≡ x ∷ rest) × (x ≢ 0)
first_of [] c post a n = (c, post, refl, n)
first_of (x ∷ name) c post (blank, nul, a) n = (x, name ++ c ∷ post, refl, nul)

extract_fnname_on :
    (m : Mem) (sub : Substring) (ch2 q ch1 x n : ℕ) (name : List ℕ)
    → strchr m sub.start b'(' ≡ ok (some ch2)
    → walk_back m ch2 ≡ ok q
    → add64 q 1 ≡ ch1
    → read m ch1 ≡ ok x
    → (x == 0) ≡ false
    → sub64 ch2 ch1 ≡ n
    → copy_from m ch1 n ≡ ok name
    → c_string name ≡ name
    → extract_fnname m sub ≡ ok (some name)
unfolding extract_fnname
extract_fnname_on m sub ch2 q ch1 x n name paren back one reads nonzero len copies whole =
    simp (extract_fnname, paren, back, one, reads, nonzero, len, copies, whole, ◌>>=◌)

-- The name that extract_fnname gives is the one between the last blank before the first parenthesis
-- and that parenthesis.
pub extract_fnname_lem :
    (m : Mem) (sub : Substring) (lead name post : List ℕ)
    → bytes_from m sub.start ≡ ok ((lead ++ b' ' ∷ name) ++ b'(' ∷ post)
    → Avoids b'(' (lead ++ b' ' ∷ name)
    → Avoids b' ' name
    → sub.start + length (lead ++ b' ' ∷ name) < u64_mod
    → extract_fnname m sub ≡ ok (some name)
unfolding extract_fnname
extract_fnname_lem m sub lead name post h a b bound =
    let s = sub.start in
    let q = s + length lead in
    let all_len = length-append lead (b' ' ∷ name) in
    let paren = strchr_found m s b'(' (lead ++ b' ' ∷ name) post h a in
    let split = append_assoc lead (b' ' ∷ name) (b'(' ∷ post) in
    let at_blank : bytes_from m q ≡ ok (b' ' ∷ (name ++ b'(' ∷ post)) =
      bytes_from-append m s lead (b' ' ∷ (name ++ b'(' ∷ post)) (h ∙ ap ok split) in
    let at_name = next_byte m q b' ' (name ++ b'(' ∷ post) at_blank in
    let e : s + length (lead ++ b' ' ∷ name) ≡ q + suc (length name) = omega arith in
    let back : walk_back m (s + length (lead ++ b' ' ∷ name)) ≡ ok q =
      ap (walk_back m) e
      ∙ walk_back_over m q b' ' name post b'(' at_blank b (omega arith) (omega arith)
      ∙ walk_back_stop m q (read_lem m q b' ' (name ++ b'(' ∷ post) at_blank) in
    let ch1 : add64 q 1 ≡ suc q = add64_lem q 1 (omega arith) ∙ omega arith in
    let n : sub64 (s + length (lead ++ b' ' ∷ name)) (suc q) ≡ length name =
      sub64_lem (s + length (lead ++ b' ' ∷ name)) (suc q) (omega arith) bound ∙ omega arith in
    let (x, rest, begins, nonzero) = first_of name b'(' post b (omega arith) in
    let reads = read_lem m (suc q) x rest (at_name ∙ ap ok begins) in
    let copies = copy_from_lem m (suc q) name (b'(' ∷ post) at_name in
    extract_fnname_on m sub (s + length (lead ++ b' ' ∷ name)) q (suc q) x (length name) name paren
      back ch1 reads (ne→== x 0 nonzero) n copies (c_string-Avoids name b)

-- A call behind the one that the substring holds: from its end to two bytes behind the next `]`.
pub next_fncall_to_substring_lem :
    (m : Mem) (sub : Substring) (text post : List ℕ)
    → sub.start ≢ 0
    → sub.stop ≢ 0
    → bytes_from m sub.stop ≡ ok (text ++ b']' ∷ post)
    → Avoids b']' text
    → 0 < length text
    → sub.stop + length text + 2 < u64_mod
    → next_fncall_to_substring m sub
      ≡ ok (length text + 2, span sub.stop (sub.stop + length text + 2) (length text + 2))
unfolding next_fncall_to_substring next_offset
next_fncall_to_substring_lem m sub [] post later off h a nonempty bound = absurd (omega arith)
next_fncall_to_substring_lem m sub (x ∷ text) post later off h a nonempty bound =
    let (_, nul, _) = a in
    let reads = read_lem m sub.stop x (text ++ b']' ∷ post) h in
    let call = call_from_lem m sub sub.stop (x ∷ text) post h a nonempty bound in
    simp (
      next_fncall_to_substring,
      next_offset,
      ne→== sub.start 0 later,
      ne→== sub.stop 0 off,
      reads,
      ne→== x 0 nul,
      call,
      ◌>>=◌,
    )

take_newline_lem :
    (libs : Libs) (m : Mem) (sub : Substring) (y : ℕ) (rest : List ℕ)
    → bytes_from m sub.stop ≡ ok (y ∷ rest)
    → take_newline libs m sub ≡ ok (if y == b'\n' then substring_addchr_end sub else sub)
unfolding take_newline
take_newline_lem libs m sub y rest h = rw (take_newline, read_lem m sub.stop y rest h) refl

match_fncall_on :
    (libs : Libs) (tab : libs.Table) (m : Mem) (sub call : Substring) (len : ℕ) (name : List ℕ)
    (call' : Substring)
    → next_fncall_to_substring m sub ≡ ok (len, call)
    → (len == 0) ≡ false
    → extract_fnname m call ≡ ok (some name)
    → take_newline libs m call ≡ ok call'
    → match_fncall libs tab m sub ≡ ok (lookup_key libs tab name, call')
unfolding match_fncall
match_fncall_on libs tab m sub call len name call' next some_len fnname newline =
    simp (match_fncall, next, some_len, fnname, newline, ◌>>=◌)

-- A printed call `lead name(args]xy`, behind the one that the substring holds. match_fncall looks the
-- name up, and the substring is moved to the call, with one byte behind its `]`, and with the byte
-- after that if it is a newline.
pub match_fncall_lem :
    (libs : Libs) (tab : libs.Table) (m : Mem) (sub : Substring) (lead name args : List ℕ) (x y : ℕ)
    (post : List ℕ)
    → let text = (lead ++ b' ' ∷ name) ++ b'(' ∷ args in
      let call = span sub.stop (sub.stop + length text + 2) (length text + 2) in
      sub.start ≢ 0
      → sub.stop ≢ 0
      → bytes_from m sub.stop ≡ ok (text ++ b']' ∷ x ∷ y ∷ post)
      → Avoids b']' text
      → Avoids b'(' (lead ++ b' ' ∷ name)
      → Avoids b' ' name
      → sub.stop + length text + 2 < u64_mod
      → match_fncall libs tab m sub
        ≡ ok (lookup_key libs tab name, if y == b'\n' then substring_addchr_end call else call)
unfolding match_fncall
match_fncall_lem libs tab m sub lead name args x y post later off h a b c bound =
    let front = lead ++ b' ' ∷ name in
    let text = front ++ b'(' ∷ args in
    let s = sub.stop in
    let text_len = length-append front (b'(' ∷ args) in
    let call = span s (s + length text + 2) (length text + 2) in
    let next =
      next_fncall_to_substring_lem m sub text (x ∷ y ∷ post) later off h a (omega arith) bound in
    let fnname : extract_fnname m call ≡ ok (some name) =
      extract_fnname_lem m call lead name (args ++ b']' ∷ x ∷ y ∷ post)
        (h ∙ ap ok (append_assoc front (b'(' ∷ args) (b']' ∷ x ∷ y ∷ post))) b c (omega arith) in
    let behind_len : s + length (text ++ b']' ∷ x ∷ []) ≡ s + length text + 2 =
      omega (arith, length-append text (b']' ∷ x ∷ [])) in
    let behind : bytes_from m (s + length text + 2) ≡ ok (y ∷ post) =
      subst (λ p. bytes_from m p ≡ ok (y ∷ post)) behind_len
        (bytes_from-append m s (text ++ b']' ∷ x ∷ []) (y ∷ post)
          (h ∙ ap ok (sym (append_assoc text (b']' ∷ x ∷ []) (y ∷ post))))) in
    let newline = take_newline_lem libs m call y post behind in
    let some_len : (length text + 2 == 0) ≡ false = ne→== (length text + 2) 0 (omega arith) in
    match_fncall_on libs tab m sub call (length text + 2) name _ next some_len fnname newline
