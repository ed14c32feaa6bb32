-- ===== src/Buffer/Script.antt =====
-- Whole runs of the writers of buffer.c on one buffer, against what they mean for its text.
use ahaggar.Base.{
  ℕ, ◌+◌, ◌%◌, ◌<◌, ◌≤◌, ◌≡◌, refl, ◌∙◌, ap, List, [], ◌∷◌, ◌++◌, some, arith, length, replicate,
  u64_mod, int_max, length-replicate, Run, ok,
}
use ahaggar.Buffer.{OutputBuf}
use ahaggar.Buffer.Valid.{IsValid, text_of, length-text_of}
use ahaggar.Buffer.Cells.{
  Store, Ptr, M, ◌>>=◌, ◌>>◌, pure, output_flush, output_base_char, output_base_printf,
  output_base_indent_to,
}
use ahaggar.Buffer.Cells.Single.{
  Becomes-same, Becomes-trans, now, Updates, output_base_char_lem, output_base_printf_lem,
  output_base_indent_to_lem, output_flush_lem,
}

-- One call of a writer.
pub data Call : Type 0 where
  char : ℕ → Call
  print : List ℕ → Call
  indent : ℕ → Call
  flush : Call

pub run_call : Call → Ptr → M (Unit {0})
run_call (char c) p = do _ ← output_base_char p c; pure tt
run_call (print text) p = do _ ← output_base_printf p (some text); pure tt
run_call (indent n) p = output_base_indent_to p n
run_call flush p = output_flush p

pub run_calls : List Call → Ptr → M (Unit {0})
run_calls [] p = pure tt
run_calls (c ∷ cs) p = do run_call c p; run_calls cs p

-- What a call does to the text.
abbrev pub meaning : Call → List ℕ → List ℕ
meaning (char c) text = text ++ (c % 256) ∷ []
meaning (print more) text = text ++ more
meaning (indent n) text = text ++ replicate n b' '
meaning flush text = []

abbrev pub meanings : List Call → List ℕ → List ℕ
meanings [] text = text
meanings (c ∷ cs) text = meanings cs (meaning c text)

pub meanings-append :
    (cs ds : List Call) (text : List ℕ) → meanings (cs ++ ds) text ≡ meanings ds (meanings cs text)
meanings-append [] ds text = refl
meanings-append (c ∷ cs) ds text = meanings-append cs ds (meaning c text)

-- The bytes that a call may ask for.
abbrev pub cost : Call → ℕ
cost (char c) = 2
cost (print text) = length text + 1
cost (indent n) = n + 2
cost flush = 0

abbrev pub total_cost : List Call → ℕ
total_cost [] = 0
total_cost (c ∷ cs) = cost c + total_cost cs

-- No formatted text is as long as the largest `int`.
abbrev pub Printable : List Call → Type 0
Printable [] = Unit
Printable (print text ∷ cs) = (length text < int_max) × Printable cs
Printable (_ ∷ cs) = Printable cs

abbrev pub Wrote : OutputBuf → (List ℕ → List ℕ) → ℕ → OutputBuf → Type 0
Wrote d f n e = IsValid e × (text_of e ≡ f (text_of d)) × (e.used ≤ d.used + n)

abbrev CallWrote : Store → ℕ → OutputBuf → Call → Type 0
CallWrote s a d c = Updates s a (Wrote d (meaning c) (cost c)) tt (run_call c (some a) s)

-- The same run under another result and postcondition.
reuse :
    {R T : Type 0} {s : Store} {a : ℕ} {P Q : OutputBuf → Type 0} {r : R} {t : T}
    {call : Run (R × Store)} {call' : Run (T × Store)}
    → (u : Updates s a P r call) → call' ≡ ok (t, u.after)
    → Q u.result
    → Updates s a Q t call'
reuse u e q = record {
  after = u.after;
  result = u.result;
  returns = e;
  change = u.change;
  holds = q;
}

Printable-cons :
    (c : Call) (cs : List Call) → Printable (c ∷ cs) → Printable (c ∷ []) × Printable cs
Printable-cons (char c) cs p = (tt, p)
Printable-cons (print text) cs p = ((p.0, tt), p.1)
Printable-cons (indent n) cs p = (tt, p)
Printable-cons flush cs p = (tt, p)

module _ (s : Store) (a : ℕ) {d : OutputBuf} (live : s.cell a ≡ some d) (v : IsValid d) where
  run_call_lem : (c : Call) → Printable (c ∷ []) → d.used + cost c < u64_mod → CallWrote s a d c
  unfolding run_call
  run_call_lem (char c) small bound =
      let u = output_base_char_lem s a live v c bound in
      reuse u (rw u.returns) (u.holds.valid, u.holds.text, omega arith)
  run_call_lem (print text) small bound =
      let u = output_base_printf_lem s a live v text small.0 (omega arith) in
      reuse u (rw u.returns) (u.holds.valid, u.holds.text, omega arith)
  run_call_lem (indent n) small bound =
      let u = output_base_indent_to_lem n s a live v (omega arith) in
      reuse u u.returns
        (u.holds.valid, u.holds.text, omega (arith, length-replicate {A = ℕ} n b' '))
  run_call_lem flush small bound =
      let u = output_flush_lem s a live v in
      reuse u u.returns (
        u.holds.0,
        u.holds.1,
        omega (arith, length-text_of u.result u.holds.0, ap length u.holds.1),
      )

-- Any sequence of calls of output_base_char, output_base_printf, output_base_indent_to and
-- output_flush on a live valid buffer, whose formatted texts are each shorter than INT_MAX and whose
-- costs stay below the address space, returns without a fault and leaves a valid buffer whose text is
-- what the calls mean, and no other buffer changes.
pub run_calls-meanings :
    (cs : List Call) (s : Store) (a : ℕ) {d : OutputBuf}
    → s.cell a ≡ some d
    → IsValid d
    → Printable cs
    → d.used + total_cost cs < u64_mod
    → Updates s a (Wrote d (meanings cs) (total_cost cs)) tt (run_calls cs (some a) s)
unfolding run_calls
run_calls-meanings [] s a {d} live v small bound = record {
  after = s;
  result = d;
  returns = refl;
  change = Becomes-same live;
  holds = (v, refl, omega arith);
}
run_calls-meanings (c ∷ cs) s a {d} live v small bound =
    let (one, more) = Printable-cons c cs small in
    let u = run_call_lem s a live v c one (omega arith) in
    let w = u.holds in
    let rest = run_calls-meanings cs u.after a (now u.change) w.0 more (omega arith) in
    let done = rest.holds in
    record {
      after = rest.after;
      result = rest.result;
      returns = rw u.returns rest.returns;
      change = Becomes-trans u.change rest.change;
      holds = (done.0, done.1 ∙ ap (meanings cs) w.1, omega arith);
    }
