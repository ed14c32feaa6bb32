-- ===== src/Match/Calls/Locations.antt =====
-- Which location extract_location prints.
use ahaggar.Base.{
  ℕ, ◌+◌, ◌<◌, ◌≤◌, ◌≡◌, refl, sym, ap, ◌∙◌, some, none, List, [], ◌∷◌, ◌++◌, append_assoc, ok,
  ◌>>=◌, arith, length, drop, take, u64_mod, add64, sub64, add64_lem, sub64_lem, le→ltb, ne→==,
  length-append, take-append, splice, length-splice, take-splice, take-append-drop, take-take,
  subst,
}
use ahaggar.Buffer.{write_bytes}
use ahaggar.Buffer.Valid.{write_bytes_lem}
use ahaggar.Str.{Mem, bytes_from, Substring, strrchr, copy_from}
use ahaggar.Str.Scan.{Avoids, find_last_lem}
use ahaggar.Str.Spans.{bytes_from-append, strchr_found}
use ahaggar.Match.Calls.{c_string, copy_clipped, extract_location}
use ahaggar.Match.Calls.Extents.{copy_from_lem}

c_string-nul : (text rest : List ℕ) → Avoids 0 text → c_string (text ++ 0 ∷ rest) ≡ text
unfolding c_string
c_string-nul [] rest a = refl
c_string-nul (x ∷ text) rest (n, z, a) = rw (ne→== x 0 n) (ap (◌∷◌ x) (c_string-nul text rest a))

Avoids-nul : (c : ℕ) (text : List ℕ) → Avoids c text → Avoids 0 text
Avoids-nul c [] a = a
Avoids-nul c (x ∷ text) (n, z, a) = (z, z, Avoids-nul c text a)

take_written :
    (buf place : List ℕ) (c : ℕ)
    → length place + 1 ≤ length buf
    → take (length place) (splice buf 0 (place ++ c ∷ [])) ≡ place
take_written buf place c room =
    let bytes = place ++ c ∷ [] in
    let n : length bytes ≡ length place + 1 = omega (arith, length-append place (c ∷ [])) in
    let whole : take (length bytes) (splice buf 0 bytes) ≡ bytes =
      take-splice buf 0 (length bytes) bytes (omega arith) (omega arith) in
    sym (take-take (splice buf 0 bytes) (length place) (length bytes) (omega arith))
    ∙ ap (take (length place)) whole
    ∙ take-append place (c ∷ []) (length place) refl

-- `place` and a byte, of which the last is made a terminator.
copy_clipped_lem :
    (m : Mem) (start buflen c : ℕ) (place rest buf : List ℕ)
    → bytes_from m start ≡ ok (place ++ c ∷ rest)
    → Avoids 0 place
    → length place < buflen
    → buflen ≤ length buf
    → length place + 1 < u64_mod
    → (buf' : List ℕ) × (copy_clipped m start (length place + 1) buflen buf ≡ ok buf')
      × (c_string buf' ≡ place)
unfolding copy_clipped
copy_clipped_lem m start buflen c place rest buf h a short room bound =
    let bytes = place ++ c ∷ [] in
    let n : length bytes ≡ length place + 1 = omega (arith, length-append place (c ∷ [])) in
    let copied : copy_from m start (length place + 1) ≡ ok bytes =
      ap (copy_from m start) (sym n)
      ∙ copy_from_lem m start bytes rest (h ∙ ap ok (sym (append_assoc place (c ∷ []) rest))) in
    let len = length place in
    let b = splice buf 0 bytes in
    let b_len : length b ≡ length buf = length-splice buf 0 bytes (omega arith) in
    let first : write_bytes buf 0 bytes ≡ ok b = write_bytes_lem buf 0 bytes (omega arith) in
    let second : write_bytes b len (0 ∷ []) ≡ ok (splice b len (0 ∷ [])) =
      write_bytes_lem b len (0 ∷ []) (omega arith) in
    let back : sub64 (len + 1) 1 ≡ len = sub64_lem (len + 1) 1 (omega arith) bound ∙ omega arith in
    (
      splice b len (0 ∷ []),
      simp
          (copy_clipped, le→ltb buflen (len + 1) (omega arith), copied, first, back, second, ◌>>=◌),
      ap c_string (
            sym (take-append-drop (len + 1) (splice b len (0 ∷ [])))
            ∙ ap (λ t. t ++ drop (len + 1) (splice b len (0 ∷ [])))
                (take-splice b len (len + 1) (0 ∷ []) (omega arith) (omega arith)
                  ∙ ap (λ t. t ++ 0 ∷ []) (take_written buf place c (omega arith)))
            ∙ append_assoc place (0 ∷ []) (drop (len + 1) (splice b len (0 ∷ []))))
          ∙ c_string-nul place (drop (len + 1) (splice b len (0 ∷ []))) a,
    )

-- Where the text from the call on has a last bracketed location that fits the buffer,
-- extract_location prints that one, whichever call it belongs to.
pub extract_location_lem :
    (m : Mem) (sub : Substring) (loc : ℕ) (location_file : ℕ → List ℕ) (buffer : List ℕ)
    (buflen : ℕ) (before place after post : List ℕ)
    → bytes_from m sub.start ≡ ok (before ++ b'[' ∷ ((place ++ b']' ∷ after) ++ 0 ∷ post))
    → Avoids 0 before
    → Avoids b'[' (place ++ b']' ∷ after)
    → Avoids b']' place
    → length place < buflen
    → buflen ≤ length buffer
    → sub.start + length before + length place + 2 < u64_mod
    → (buf : List ℕ) × (extract_location m sub loc location_file buffer buflen ≡ ok buf)
      × (c_string buf ≡ place)
unfolding extract_location strrchr
extract_location_lem m sub loc location_file buffer buflen before place after post h a b c short
      room bound =
    let s = sub.start in
    let start = s + length before + 1 in
    let text = place ++ b']' ∷ after in
    let cleared = write_bytes_lem buffer 0 (0 ∷ []) (omega arith) in
    let buf0 = splice buffer 0 (0 ∷ []) in
    let buf0_len = length-splice buffer 0 (0 ∷ []) (omega arith) in
    let bracket : strrchr m s b'[' ≡ ok (some (s + length before)) =
      rw (strrchr, h, ◌>>=◌) (find_last_lem b'[' before text post s none a b (omega arith)) in
    let e : s + length (before ++ b'[' ∷ []) ≡ start =
      omega (arith, length-append before (b'[' ∷ [])) in
    let behind : bytes_from m start ≡ ok (place ++ b']' ∷ (after ++ 0 ∷ post)) =
      subst (λ p. bytes_from m p ≡ ok (place ++ b']' ∷ (after ++ 0 ∷ post))) e
        (bytes_from-append m s (before ++ b'[' ∷ []) (place ++ b']' ∷ (after ++ 0 ∷ post)) (
          h
          ∙ ap (λ t. ok (before ++ b'[' ∷ t)) (append_assoc place (b']' ∷ after) (0 ∷ post))
          ∙ ap ok (sym (append_assoc before (b'[' ∷ []) (place ++ b']' ∷ (after ++ 0 ∷ post)))))) in
    let close = strchr_found m start b']' place (after ++ 0 ∷ post) behind c in
    let one : add64 (s + length before) 1 ≡ start = add64_lem (s + length before) 1 (omega arith) in
    let stop : add64 (start + length place) 1 ≡ start + length place + 1 =
      add64_lem (start + length place) 1 (omega arith) in
    let n : sub64 (start + length place + 1) start ≡ length place + 1 =
      sub64_lem (start + length place + 1) start (omega arith) (omega arith) ∙ omega arith in
    let (buf, copied, whole) =
      copy_clipped_lem m start buflen b']' place (after ++ 0 ∷ post) buf0 behind
        (Avoids-nul b']' place c) short (omega arith) (omega arith) in
    (buf, simp (extract_location, cleared, bracket, one, close, stop, n, copied, ◌>>=◌), whole)
