-- ===== src/Buffer/Cells/Pairs.antt =====
-- The functions of buffer.c on two buffers, which may be the same one.
use ahaggar.Base.{
  ℕ, suc, ◌+◌, ◌<◌, ◌≤◌, ◌≡◌, refl, ◌≢◌, ◌∙◌, ap, sym, false, none, some, List, ◌++◌, arith, length,
  take, ok, ◌==◌, if◌then◌else◌, u64_mod, add64_lem, le→leb, lt→ltb, le→ltb, ==_self, append-nil,
  ==_iff, Bool-cases, inl, inr, take-take, length-take, u32_mod,
}
use ahaggar.Buffer.{OutputBuf, put_bytes, overwritten, prepared}
use ahaggar.Buffer.Valid.{IsValid, text_of, length-text_of, put_bytes_lem, overwritten_lem}
use ahaggar.Buffer.Growth.{HasRoom, prepared-IsValid, size-prepared}
use ahaggar.Buffer.Cells.{
  Store, success, failure, put_cell, save, alloc, output_fini, output_expand, output_base_swap_meta,
  copy_into, copy_room, copied, output_base_copy, concat_into, output_base_concat, block_of,
}
use ahaggar.Buffer.Cells.Single.{
  Becomes, Becomes-same, now, others, Becomes-trans, put_cell-Becomes, load_lem, Updates,
  output_expand_lem,
}

-- A live and valid buffer with the text `text`.
pub record Holds (s : Store) (a : ℕ) (text : List ℕ) : Type 0 where
  pub value : OutputBuf
  pub live : s.cell a ≡ some value
  pub valid : IsValid value
  pub text_is : text_of value ≡ text

-- A buffer still holds its text when room was made in one, which may be the same.
Holds-expand :
    {s t : Store} (a b need : ℕ) {d e r : OutputBuf}
    → s.cell a ≡ some d
    → s.cell b ≡ some e
    → IsValid e
    → Becomes s a (some r) t
    → HasRoom d need r
    → Holds t b (text_of e)
Holds-expand a b need {d} {e} {r} da eb v c room = elim (Bool-cases (b == a)) [
  | inl one ↦
      let at : b ≡ a = (==_iff b a).0 one in
      let de : d ≡ e = ground (arith) in
      record {
        value = r;
        live = rw at (now c);
        valid = room.valid;
        text_is = room.same_text ∙ ap text_of de;
      }
  | inr two ↦ record {
    value = e;
    live = others c b (λ p. ground arith) ∙ eb;
    valid = v;
    text_is = refl;
  }
]

block_of_lem :
    (s : Store) (b n : ℕ) {d : OutputBuf}
    → s.cell b ≡ some d
    → n ≤ length d.buf
    → block_of (some b) n s ≡ ok (take n d.buf, s)
unfolding block_of
block_of_lem s b n {d} live h = rw (load_lem s b live, le→leb n (length d.buf) h)

-- The steps behind the tests, each given by its result.
concat_steps :
    (s t : Store) (a b need : ℕ) {f to r : OutputBuf}
    → output_expand (some a) need s ≡ ok (some a, t)
    → t.cell b ≡ some f
    → f.used ≤ length f.buf
    → t.cell a ≡ some to
    → put_bytes to (text_of f) ≡ ok r
    → concat_into (some a) (some b) need s ≡ ok (success, put_cell t a (some r))
unfolding concat_into save
concat_steps s t a b need {f} grew from inside to put =
    rw (grew, load_lem t b from, block_of_lem t b f.used from inside, load_lem t a to, put)

abbrev pub Concatenated : OutputBuf → OutputBuf → OutputBuf → Type 0
Concatenated d e r = IsValid r × (text_of r ≡ text_of d ++ text_of e)

concat_into_lem :
    (s : Store) (a b : ℕ) {d e : OutputBuf}
    → s.cell a ≡ some d
    → s.cell b ≡ some e
    → IsValid d
    → IsValid e
    → d.used + (e.used + 1) < u64_mod
    → Updates s a (Concatenated d e) success (concat_into (some a) (some b) (e.used + 1) s)
concat_into_lem s a b {d} {e} da eb v w bound =
    let room = output_expand_lem s a da v (e.used + 1) bound in
    let t = room.after in
    let from = Holds-expand a b (e.used + 1) da eb w room.change room.holds in
    let f = from.value in
    let len : length (text_of f) ≡ f.used = length-text_of f from.valid in
    let same_len : f.used ≡ e.used =
      omega (arith, len, length-text_of e w, ap length from.text_is) in
    let h = room.holds in
    let (r, put, valid, text, _) = put_bytes_lem room.result (text_of f) h.valid (omega arith) in
    record {
      after = put_cell t a (some r);
      result = r;
      returns =
          concat_steps s t a b (e.used + 1) room.returns from.live (omega (arith, from.valid))
            (now room.change) put;
      change = Becomes-trans room.change (put_cell-Becomes t a (some r));
      holds = (
        valid,
        text ∙ ap (λ l. l ++ text_of f) h.same_text ∙ ap (λ l. text_of d ++ l) from.text_is,
      );
    }

-- output_base_concat of two live valid buffers with room below the address space, also of one with
-- itself, returns success and leaves the text of the source behind that of the destination, in a
-- valid buffer; no other buffer changes.
pub output_base_concat_lem :
    (s : Store) (a b : ℕ) {d e : OutputBuf}
    → s.cell a ≡ some d
    → s.cell b ≡ some e
    → IsValid d
    → IsValid e
    → d.used + (e.used + 1) < u64_mod
    → Updates s a (Concatenated d e) success (output_base_concat (some a) (some b) s)
unfolding output_base_concat
output_base_concat_lem s a b {d} {e} da eb v w bound = elim (Bool-cases (e.used == 0)) [
  | inl empty ↦
      let none_used : e.used ≡ 0 = ground arith in
      record {
        after = s;
        result = d;
        returns = rw (load_lem s b eb, empty);
        change = Becomes-same da;
        holds =
            (v, sym (append-nil (text_of d)) ∙ ap (λ k. text_of d ++ take k e.buf) (sym none_used));
      }
  | inr some_used ↦
      rw
        (
          load_lem s b eb,
          some_used,
          add64_lem e.used 1 (omega arith),
          le→ltb (e.used + 1) e.used (omega arith),
        )
        (concat_into_lem s a b da eb v w bound)
]

copy_into_lem :
    (s : Store) (a b n : ℕ) {d e r : OutputBuf}
    → s.cell a ≡ some d
    → s.cell b ≡ some e
    → a ≢ b
    → n ≤ length e.buf
    → overwritten d (take n e.buf) ≡ ok r
    → copy_into (some a) (some b) n s ≡ ok (tt, put_cell s a (some r))
unfolding copy_into save
copy_into_lem s a b n {d} {e} da eb apart has wrote =
    let distinct : (a == b) ≡ false = ground arith in
    rw (distinct, block_of_lem s b n eb has, load_lem s a da, wrote)

-- output_base_copy of at least one and at most the used bytes between two distinct valid buffers,
-- where the destination is large enough, makes its text the first bytes of the source text.
pub output_base_copy_lem :
    (s : Store) (a b k : ℕ) {d e : OutputBuf}
    → s.cell a ≡ some d
    → s.cell b ≡ some e
    → IsValid d
    → IsValid e
    → a ≢ b
    → suc k ≤ e.used
    → suc k < d.size
    → Updates s a
        (λ r. IsValid r × (text_of r ≡ take (suc k) (text_of e)))
        success
        (output_base_copy (some a) (some b) (suc k) s)
unfolding output_base_copy copied copy_room
output_base_copy_lem s a b k {d} {e} da eb v w apart has fits =
    let n = suc k in
    let src = take n e.buf in
    let len : length src ≡ n = omega (arith, length-take n e.buf) in
    let (r, wrote, valid, text) = overwritten_lem d src v (omega arith) in
    record {
      after = put_cell s a (some r);
      result = r;
      returns = rw (
        load_lem s b eb,
        le→leb n e.used has,
        add64_lem n 1 (omega arith),
        le→leb n (n + 1) (omega arith),
        load_lem s a da,
        le→ltb d.size (n + 1) (omega arith),
        copy_into_lem s a b n da eb apart (omega arith) wrote,
      );
      change = put_cell-Becomes s a (some r);
      holds = (valid, text ∙ sym (take-take e.buf n e.used has));
    }

-- For two live valid buffers at different addresses, other than the one that malloc gives next, and at
-- least one byte, fewer than 2^32 - 1, that the source has: where the destination has no room for them
-- and a terminator, output_base_copy frees it and returns success; the pointer of the caller dangles,
-- and the copy stands in a fresh buffer at an address that the caller is not given.
pub output_base_copy_dangling :
    (s : Store) (a b k : ℕ) {d e : OutputBuf}
    → s.cell a ≡ some d
    → s.cell b ≡ some e
    → IsValid d
    → IsValid e
    → a ≢ b
    → b ≢ s.next
    → a ≢ s.next
    → suc k ≤ e.used
    → suc k + 1 < u32_mod
    → d.size < suc k + 1
    → (t : Store) × (output_base_copy (some a) (some b) (suc k) s ≡ ok (success, t))
      × (t.cell a ≡ none)
      × Holds t s.next (take (suc k) (text_of e))
unfolding output_base_copy copied copy_room output_fini alloc put_cell
output_base_copy_dangling s a b k {d} {e} da eb v w apart fresh_b fresh_a has small short =
    let n = suc k in
    let src = take n e.buf in
    let fresh = prepared (n + 1) in
    let good = prepared-IsValid (n + 1) in
    let len : length src ≡ n = omega (arith, length-take n e.buf) in
    let t = record (put_cell (put_cell s a none) s.next (some fresh)) { next = s.next + 1 } in
    let live : t.cell s.next ≡ some fresh = rw (==_self s.next) in
    let from : t.cell b ≡ some e = ground arith in
    let gone : t.cell a ≡ none = ground arith in
    let (r, wrote, valid, text) =
      overwritten_lem fresh src good.0 (omega (arith, size-prepared (n + 1) small)) in
    let last = put_cell-Becomes t s.next (some r) in
    (
      put_cell t s.next (some r),
      rw
          (
            load_lem s b eb,
            le→leb n e.used has,
            add64_lem n 1 (omega arith),
            le→leb n (n + 1) (omega arith),
            load_lem s a da,
            lt→ltb d.size (n + 1) (omega arith),
            load_lem s a da,
          )
          (rw (copy_into_lem t s.next b n live from (λ p. fresh_b (sym p)) (omega arith) wrote)),
      others last a fresh_a ∙ gone,
      record {
        value = r;
        live = now last;
        valid = valid;
        text_is = text ∙ sym (take-take e.buf n e.used has);
      },
    )

-- `output_base_swap_meta` exchanges two live buffers and touches no other; with a NULL it fails and
-- changes nothing.
pub output_base_swap_meta_lem :
    (s : Store) (a b : ℕ) {d e : OutputBuf}
    → s.cell a ≡ some d
    → s.cell b ≡ some e
    → (t : Store) × (output_base_swap_meta (some a) (some b) s ≡ ok (success, t))
      × ((c : ℕ) → t.cell c ≡ (if c == b then some d else if c == a then some e else s.cell c))
      × (output_base_swap_meta none (some b) s ≡ ok (failure, s))
      × (output_base_swap_meta (some a) none s ≡ ok (failure, s))
unfolding output_base_swap_meta save put_cell
output_base_swap_meta_lem s a b {d} {e} da eb = (
  put_cell (put_cell s a (some e)) b (some d),
  rw (load_lem s a da, load_lem s b eb),
  λ c. refl,
  refl,
  refl,
)
