-- ===== src/Tree/Constants/Reading.antt =====
-- nodes-utils.c: the text of a string constant, against a reader of its escapes.
use ahaggar.Base.{
  arith, ℕ, zero, suc, ◌+◌, ◌-◌, ◌*◌, ◌%◌, ◌<◌, ◌≤◌, ◌≡◌, refl, sym, ap, ◌∙◌, List, [], ◌∷◌, ◌++◌,
  append_assoc, append-nil, length-append, Run, ok, length, codes, Bool, true, false, if◌then◌else◌,
  ◌==◌, ◌&&◌, ◌||◌, leb, ltb, take, ◌>>=◌,
}
use ahaggar.Buffer.Script.{Call, char, print, meaning, meanings, meanings-append}
use ahaggar.Tree
use ahaggar.Tree.Names.{local_text, say, when}
use ahaggar.Tree.Constants.{escape, string_calls, get_string_cst, max_str_print}

-- The byte that a backslash and `d` stand for; the numbers have one digit.
abbrev pub decoded : ℕ → ℕ
decoded d =
    if d == b'b'
    then 8
    else if d == b'f'
    then 12
    else if d == b'n'
    then b'\n'
    else if d == b'r'
    then b'\r'
    else if d == b't'
    then b'\t'
    else if d == b'v'
    then 11
    else if leb b'1' d && leb d b'7'
    then d - b'0'
    else d

abbrev pub read_back : List ℕ → List ℕ
read_back [] = []
read_back (c ∷ []) = c ∷ []
read_back (c ∷ d ∷ rest) =
    let escaped = read_back rest in
    let plain = read_back (d ∷ rest) in if c == b'\\' then decoded d ∷ escaped else c ∷ plain

read_back-plain :
    (c : ℕ) (rest : List ℕ) → (c == b'\\') ≡ false → read_back (c ∷ rest) ≡ c ∷ read_back rest
read_back-plain c [] e = refl
read_back-plain c (d ∷ rest) e = simp e

-- The call adds at most two bytes, which are read as the byte `c`.
record Reads (c : ℕ) (call : Call) : Type 0 where
  adds : (text : List ℕ) → meaning call text ≡ text ++ meaning call []
  reads : (rest : List ℕ) → read_back (meaning call [] ++ rest) ≡ c ∷ read_back rest
  short : length (meaning call []) ≤ 2

Reads-if :
    (c : ℕ) (b : Bool) (x y : Call)
    → (b ≡ true → Reads c x)
    → (b ≡ false → Reads c y)
    → Reads c (if b then x else y)
Reads-if c true x y one two = one refl
Reads-if c false x y one two = two refl

Reads-backslash : (c d : ℕ) → decoded d ≡ c → Reads c (print (b'\\' ∷ d ∷ []))
Reads-backslash c d e = record {
  adds = λ text. refl;
  reads = λ rest. ap (λ k. k ∷ read_back rest) e;
  short = omega arith;
}

Reads-named : (c k d : ℕ) → (c == k) ≡ true → decoded d ≡ k → Reads c (print (b'\\' ∷ d ∷ []))
Reads-named c k d e h = Reads-backslash c d (h ∙ ground arith)

Reads-char : (c : ℕ) → c < 256 → (c == b'\\') ≡ false → Reads c (char c)
Reads-char c b e =
    let small : c % 256 ≡ c = omega arith in
    record {
      adds = λ text. refl;
      reads = λ rest. ap (λ k. read_back (k ∷ rest)) small ∙ read_back-plain c rest e;
      short = omega arith;
    }

decoded-digit : (c : ℕ) → (leb 1 c && leb c 7) ≡ true → decoded (b'0' + c) ≡ c
decoded-digit c e = ground arith

escape-Reads : (c : ℕ) → c < 256 → Reads c (escape c)
unfolding escape
escape-Reads c b =
    Reads-if c _ _ _ (λ e. Reads-named c 8 b'b' e refl)
      (λ n1.
        Reads-if c _ _ _ (λ e. Reads-named c 12 b'f' e refl)
          (λ n2.
            Reads-if c _ _ _ (λ e. Reads-named c b'\n' b'n' e refl)
              (λ n3.
                Reads-if c _ _ _ (λ e. Reads-named c b'\r' b'r' e refl)
                  (λ n4.
                    Reads-if c _ _ _ (λ e. Reads-named c b'\t' b't' e refl)
                      (λ n5.
                        Reads-if c _ _ _ (λ e. Reads-named c 11 b'v' e refl)
                          (λ n6.
                            Reads-if c _ _ _ (λ e. Reads-named c b'\\' b'\\' e refl)
                              (λ plain.
                                Reads-if c _ _ _ (λ e. Reads-named c b'"' b'"' e refl)
                                  (λ n8.
                                    Reads-if c _ _ _ (λ e. Reads-named c 39 39 e refl)
                                      (λ n9.
                                        Reads-if c _ _ _
                                          (λ e. Reads-backslash c (b'0' + c) (decoded-digit c e))
                                          (λ n10. Reads-char c b plain))))))))))

-- Bytes that are not 0.
abbrev pub IsCharacters : List ℕ → Type 0
IsCharacters [] = Unit
IsCharacters (c ∷ cs) = (0 < c) × (c < 256) × IsCharacters cs

meanings-Reads :
    (c : ℕ) (call : Call) (calls : List Call)
    → Reads c call
    → ((text : List ℕ) → meanings calls text ≡ text ++ local_text calls)
    → (text : List ℕ) → meanings (call ∷ calls) text ≡ text ++ local_text (call ∷ calls)
unfolding local_text
meanings-Reads c call calls one more text =
    more (meaning call text)
    ∙ ap (λ t. t ++ meanings calls []) (one.adds text)
    ∙ append_assoc text (meaning call []) (meanings calls [])
    ∙ ap (λ t. text ++ t) (sym (more (meaning call [])))

-- The calls for the first `n` bytes of `cs`.
record Printed (cs : List ℕ) (n : ℕ) (r : Run (List Call)) : Type 0 where
  calls : List Call
  returns : r ≡ ok calls
  adds : (text : List ℕ) → meanings calls text ≡ text ++ local_text calls
  reads : (rest : List ℕ) → read_back (local_text calls ++ rest) ≡ take n cs ++ read_back rest
  short : length (local_text calls) ≤ 2 * n

Printed-nil :
    (cs : List ℕ) (n : ℕ) (r : Run (List Call)) → r ≡ ok [] → take n cs ≡ [] → Printed cs n r
unfolding local_text
Printed-nil cs n r e none_left = record {
  calls = [];
  returns = e;
  adds = λ text. sym (append-nil text);
  reads = λ rest. sym (ap (λ t. t ++ read_back rest) none_left);
  short = omega arith;
}

take-nil : (n : ℕ) → take {A = ℕ} n [] ≡ []
take-nil zero = refl
take-nil (suc n) = refl

string_calls-stop :
    (c : ℕ) (cs : List ℕ) (i : ℕ)
    → (c == 0 || leb max_str_print i) ≡ true
    → string_calls (c ∷ cs) i ≡ ok []
unfolding string_calls
string_calls-stop c cs i e = ground arith

string_calls-step :
    (c : ℕ) (cs : List ℕ) (i : ℕ) (calls : List Call)
    → (c == 0 || leb max_str_print i) ≡ false
    → string_calls cs (suc i) ≡ ok calls
    → string_calls (c ∷ cs) i ≡ ok (escape c ∷ calls)
unfolding string_calls
string_calls-step c cs i calls e more = ground (arith, more)

string_calls_lem :
    (cs rest : List ℕ) (n i : ℕ)
    → i + n ≡ max_str_print
    → IsCharacters cs
    → Printed cs n (string_calls (cs ++ 0 ∷ rest) i)
unfolding local_text
string_calls_lem [] rest n i e is =
    Printed-nil [] n _ (string_calls-stop 0 rest i refl) (take-nil n)
string_calls_lem (c ∷ cs) rest zero i e is =
    Printed-nil (c ∷ cs) zero _ (string_calls-stop c (cs ++ 0 ∷ rest) i (ground arith)) refl
string_calls_lem (c ∷ cs) rest (suc n) i e (some, small, is) =
    let one = escape-Reads c small in
    let more = string_calls_lem cs rest n (suc i) (omega arith) is in
    let here = meaning (escape c) [] in
    let split : local_text (escape c ∷ more.calls) ≡ here ++ local_text more.calls =
      more.adds here in
    record {
      calls = escape c ∷ more.calls;
      returns = string_calls-step c (cs ++ 0 ∷ rest) i more.calls (ground arith) more.returns;
      adds = meanings-Reads c (escape c) more.calls one more.adds;
      reads = λ text.
          ap (λ t. read_back (t ++ text)) split
          ∙ ap read_back (append_assoc here (local_text more.calls) text)
          ∙ one.reads (local_text more.calls ++ text)
          ∙ ap (λ t. c ∷ t) (more.reads text);
      short = omega (
        arith,
        ap length split,
        length-append here (local_text more.calls),
        one.short,
        more.short,
      );
    }

-- `...` behind a string that does not fit.
abbrev pub dots : Bool → List ℕ
dots b = if b then codes "..." else []

dots_lem :
    (calls : List Call) (b : Bool)
    → local_text (calls ++ when b (say (codes "..."))) ≡ local_text calls ++ dots b
unfolding local_text
dots_lem calls true = meanings-append calls _ []
dots_lem calls false = meanings-append calls [] [] ∙ sym (append-nil _)

read_back-dots : (b : Bool) → read_back (dots b) ≡ dots b
read_back-dots true = refl
read_back-dots false = refl

length-dots : (b : Bool) → length (dots b) ≤ 3
length-dots true = omega arith
length-dots false = omega arith

module _ (g : Tree.Gcc) (node : ℕ) (e : (node == 0) ≡ false) where
  abbrev is_long : Bool
  is_long = ltb max_str_print (g.number Tree.string_length node)

  get_string_cst-calls :
      (calls : List Call)
      → string_calls (g.text Tree.string_pointer node) 0 ≡ ok calls
      → get_string_cst g node ≡ ok (local_text calls ++ dots is_long)
  unfolding get_string_cst
  get_string_cst-calls calls r = simp (e, r, ◌>>=◌, dots_lem calls is_long)

  -- For a constant whose bytes are `cs`, none of them 0, then a terminator, the text is found, a
  -- reader of its escapes reads it as the first ten bytes of `cs`, and as `...` behind them if the
  -- length that GCC gives is above ten, and it has at most 23 bytes.
  pub get_string_cst-read_back :
      (cs rest : List ℕ)
      → g.text Tree.string_pointer node ≡ cs ++ 0 ∷ rest
      → IsCharacters cs
      → (text : List ℕ) × (get_string_cst g node ≡ ok text)
        × (read_back text ≡ take max_str_print cs ++ dots is_long)
        × (length text ≤ 23)
  get_string_cst-read_back cs rest bytes is =
      let run = string_calls_lem cs rest max_str_print 0 refl is in
      (
        local_text run.calls ++ dots is_long,
        get_string_cst-calls run.calls (ap (λ t. string_calls t 0) bytes ∙ run.returns),
        run.reads (dots is_long) ∙ ap (λ t. take max_str_print cs ++ t) (read_back-dots is_long),
        omega (
          arith,
          length-append (local_text run.calls) (dots is_long),
          length-dots is_long,
          run.short,
        ),
      )
