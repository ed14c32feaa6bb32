-- ===== src/Buffer/Cells/Single.antt =====
-- What the functions of buffer.c on one buffer do to the store: which struct changes, to what, and
-- what is kept.
use ahaggar.Base.{
  ℕ, zero, suc, ◌+◌, ◌%◌, ◌<◌, ◌≤◌, ◌≡◌, refl, ◌≢◌, ◌∙◌, ap, sym, Option, none, some, List, [], ◌∷◌,
  ◌++◌, arith, length, replicate, Run, ok, fault, ◌==◌, if◌then◌else◌, u64_mod, int_max,
  append_assoc, append-nil, ==_iff, Bool-cases, inl, inr,
}
use ahaggar.Buffer.{OutputBuf, buf_size, prepared}
use ahaggar.Buffer.Valid.{IsValid, text_of}
use ahaggar.Buffer.Growth.{
  HasRoom, expand_lem, Appended, put_char_lem, put_text_lem, prepared-IsValid, cleared_lem,
}
use ahaggar.Buffer.Cells.{
  Store, success, put_cell, load, save, alloc, output_init, output_fini, output_flush,
  output_expand, output_base_char, output_base_printf, output_base_indent_to,
}

-- From `s` to `t` only the struct at `a` changes, and it becomes `c`.
pub record Becomes (s : Store) (a : ℕ) (c : Option OutputBuf) (t : Store) : Type 0 where
  pub cells : (b : ℕ) → t.cell b ≡ (if b == a then c else s.cell b)

module _ {s t : Store} {a : ℕ} {c : Option OutputBuf} (change : Becomes s a c t) where
  pub now : t.cell a ≡ c
  now = ground (arith, change.cells a)

  pub others : (b : ℕ) → b ≢ a → t.cell b ≡ s.cell b
  others b n = ground (arith, change.cells b)

pub Becomes-trans :
    {s t u : Store} {a : ℕ} {c e : Option OutputBuf}
    → Becomes s a c t
    → Becomes t a e u
    → Becomes s a e u
Becomes-trans p q = record { cells = λ b. ground (arith, p.cells b, q.cells b) }

pub Becomes-same : {s : Store} {a : ℕ} {c : Option OutputBuf} → s.cell a ≡ c → Becomes s a c s
Becomes-same {s} {a} live = record {
  cells = λ b. elim (Bool-cases (b == a)) [
    | inl one ↦ rw (one, (==_iff b a).0 one) live
    | inr two ↦ rw two
  ];
}

pub put_cell-Becomes : (s : Store) (a : ℕ) (c : Option OutputBuf) → Becomes s a c (put_cell s a c)
unfolding put_cell
put_cell-Becomes s a c = record { cells = λ b. refl }

pub load_lem : (s : Store) (a : ℕ) {d : OutputBuf} → s.cell a ≡ some d → load (some a) s ≡ ok (d, s)
unfolding load
load_lem s a h = rw h

-- A call on the live struct `d` at `a` that returns `r` and leaves there an `e` with `P e`.
pub record Updates {R : Type 0} (s : Store) (a : ℕ) (P : OutputBuf → Type 0) (r : R)
    (call : Run (R × Store)) : Type 0 where
  pub after : Store
  pub result : OutputBuf
  pub returns : call ≡ ok (r, after)
  pub change : Becomes s a (some result) after
  pub holds : P result

module _ (s : Store) (a : ℕ) {d : OutputBuf} (live : s.cell a ≡ some d) (v : IsValid d) where
  -- `output_base_char` appends the byte of its argument to the text, whatever the room, and touches
  -- no other buffer.
  pub output_base_char_lem :
      (c : ℕ)
      → d.used + 2 < u64_mod
      → Updates s a (Appended d ((c % 256) ∷ [])) success (output_base_char (some a) c s)
  unfolding output_base_char save
  output_base_char_lem c bound =
      let (e, wrote, is) = put_char_lem s.junk d c v bound in
      record {
        after = put_cell s a (some e);
        result = e;
        returns = rw (load_lem s a live, wrote);
        change = put_cell-Becomes s a (some e);
        holds = is;
      }

  pub output_base_printf_lem :
      (text : List ℕ)
      → length text < int_max
      → d.used + length text + 1 < u64_mod
      → Updates s a (Appended d text) success (output_base_printf (some a) (some text) s)
  unfolding output_base_printf save
  output_base_printf_lem text small bound =
      let (e, wrote, is) = put_text_lem s.junk d text v small bound in
      record {
        after = put_cell s a (some e);
        result = e;
        returns = rw (load_lem s a live, wrote);
        change = put_cell-Becomes s a (some e);
        holds = is;
      }

  -- `output_expand` of a live valid buffer gives the same pointer, and leaves a valid buffer with the
  -- same text, at least as large and with room for what is needed; no other buffer changes.
  pub output_expand_lem :
      (need : ℕ)
      → d.used + need < u64_mod
      → Updates s a (HasRoom d need) (some a) (output_expand (some a) need s)
  unfolding output_expand save
  output_expand_lem need bound =
      let (e, grew, is) = expand_lem s.junk d need v bound in
      record {
        after = put_cell s a (some e);
        result = e;
        returns = rw (load_lem s a live, grew);
        change = put_cell-Becomes s a (some e);
        holds = is;
      }

  pub output_flush_lem :
      Updates s a
        (λ e. IsValid e × (text_of e ≡ []) × (e.size ≡ d.size))
        tt
        (output_flush (some a) s)
  unfolding output_flush save
  output_flush_lem =
      let (e, wrote, valid, empty, size) = cleared_lem d v in
      record {
        after = put_cell s a (some e);
        result = e;
        returns = rw (load_lem s a live, wrote);
        change = put_cell-Becomes s a (some e);
        holds = (valid, empty, size);
      }

-- The loop of `output_base_indent_to` appends `n` blanks.
pub output_base_indent_to_lem :
    (n : ℕ) (s : Store) (a : ℕ) {d : OutputBuf}
    → s.cell a ≡ some d
    → IsValid d
    → d.used + n + 2 < u64_mod
    → Updates s a (Appended d (replicate n b' ')) tt (output_base_indent_to (some a) n s)
unfolding output_base_indent_to
output_base_indent_to_lem zero s a {d} live v bound = record {
  after = s;
  result = d;
  returns = refl;
  change = Becomes-same live;
  holds = record {
    valid = v;
    text = sym (append-nil (text_of d));
    used = omega arith;
    grows = omega arith;
  };
}
output_base_indent_to_lem (suc n) s a {d} live v bound =
    let one = output_base_char_lem s a live v b' ' (omega arith) in
    let ap1 = one.holds in
    let rest = output_base_indent_to_lem n one.after a (now one.change) ap1.valid (omega arith) in
    record {
      after = rest.after;
      result = rest.result;
      returns = rw one.returns rest.returns;
      change = Becomes-trans one.change rest.change;
      holds = record {
        valid = rest.holds.valid;
        text =
            rest.holds.text
            ∙ ap (λ l. l ++ replicate n b' ') ap1.text
            ∙ append_assoc (text_of d) (b' ' ∷ []) (replicate n b' ');
        used = omega arith;
        grows = omega arith;
      };
    }

-- output_init at an unused address gives a valid empty buffer of at least BUF_SIZE bytes there,
-- and changes no other buffer.
pub output_init_lem :
    (s : Store)
    → s.cell s.next ≡ none
    → Updates s s.next
        (λ d. IsValid d × (text_of d ≡ []) × (buf_size ≤ d.size))
        (some s.next)
        (output_init s)
unfolding output_init alloc put_cell
output_init_lem s free = record {
  after = record (put_cell s s.next (some (prepared buf_size))) { next = s.next + 1 };
  result = prepared buf_size;
  returns = refl;
  change = record { cells = λ b. refl };
  holds = prepared-IsValid buf_size;
}

-- output_fini of a live buffer removes it alone; to free it again, or to write into it, is a
-- fault; NULL is ignored.
pub output_fini_lem :
    (s : Store) (a : ℕ) {d : OutputBuf}
    → s.cell a ≡ some d
    → (t : Store) × (output_fini (some a) s ≡ ok (tt, t))
      × Becomes s a none t
      × (output_fini (some a) t ≡ fault)
      × ((c : ℕ) → output_base_char (some a) c t ≡ fault)
      × (output_fini none t ≡ ok (tt, t))
unfolding output_fini output_base_char load
output_fini_lem s a live =
    let c = put_cell-Becomes s a none in
    (put_cell s a none, rw live, c, rw (now c), λ x. rw (now c), refl)
