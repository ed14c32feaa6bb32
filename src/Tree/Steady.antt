-- ===== src/Tree/Steady.antt =====
-- Actions that return, leave the level of the indentation and the flags as they were, and only add
-- calls: one rule for each way to build an action.
use ahaggar.Base.{
  ℕ, ◌+◌, ◌-◌, ◌%◌, ◌<◌, ◌≡◌, refl, sym, ap, ◌∙◌, subst, Bool, true, false, List, [], ◌∷◌, ◌++◌,
  append-nil, append_assoc, Run, ok, fault, if◌then◌else◌, ◌==◌, u32_mod, arith,
}
use ahaggar.Buffer.Script.{Call}
use ahaggar.Tree.{Act, Pdata, ◌>>=◌, ◌>>◌, after, pure, on, output, get_indent, set_indent, deeper}

-- The state behind a run from `p` that returned `a`.
pub record Kept {X A : Type 0} (p : Pdata X) (r : Run (A × Pdata X)) : Type 0 where
  pub result : A
  pub behind : Pdata X
  pub added : List Call
  pub returns : r ≡ ok (result, behind)
  pub level : behind.indent_level ≡ p.indent_level
  pub flags : behind.flags ≡ p.flags
  pub calls : behind.calls ≡ p.calls ++ added

-- `m` from the level `n`.
pub record Steady {X A : Type 0} (n : ℕ) (m : Act X A) : Type 0 where
  pub at : n < u32_mod → (p : Pdata X) → p.indent_level ≡ n → Kept p (m p)

module _ {X : Type 0} {n : ℕ} where
  pub Steady-pure : {A : Type 0} (a : A) → Steady {X = X} n (pure a)
  Steady-pure a = record {
    at = λ bound p l. record {
      result = a;
      behind = p;
      added = [];
      returns = refl;
      level = refl;
      flags = refl;
      calls = sym (append-nil p.calls);
    };
  }

  pub Steady-output : (c : Call) → Steady {X = X} n (output c)
  Steady-output c = record {
    at = λ bound p l. record {
      result = tt;
      behind = record p { calls = p.calls ++ c ∷ [] };
      added = c ∷ [];
      returns = refl;
      level = refl;
      flags = refl;
      calls = refl;
    };
  }

  pub Steady-bind :
      {A B : Type 0} (m : Act X A) (f : A → Act X B)
      → Steady n m
      → ((a : A) → Steady n (f a))
      → Steady n (m >>= f)
  Steady-bind m f sm sf = record {
    at = λ bound p l.
        let one = sm.at bound p l in
        let two = (sf one.result).at bound one.behind (one.level ∙ l) in
        record {
          result = two.result;
          behind = two.behind;
          added = one.added ++ two.added;
          returns = ap (λ r. after r f) one.returns ∙ two.returns;
          level = two.level ∙ one.level;
          flags = two.flags ∙ one.flags;
          calls =
              two.calls
              ∙ ap (λ cs. cs ++ two.added) one.calls
              ∙ append_assoc p.calls one.added two.added;
        };
  }

  -- `get_flags`, `skip`, `done` and the like: an action that only reads.
  pub Steady-read : {A : Type 0} (f : Pdata X → A) → Steady {X = X} n (λ p. ok (f p, p))
  Steady-read f = record {
    at = λ bound p l. record {
      result = f p;
      behind = p;
      added = [];
      returns = refl;
      level = refl;
      flags = refl;
      calls = sym (append-nil p.calls);
    };
  }

  -- The level that is read is `n`.
  pub Steady-get_indent :
      {A : Type 0} (f : ℕ → Act X A) → Steady n (f n) → Steady n (get_indent >>= f)
  Steady-get_indent f s = record {
    at = λ bound p l. subst (λ k. Kept p (f k p)) (sym l) (s.at bound p l);
  }

  pub Steady-set_indent : Steady {X = X} n (set_indent n)
  Steady-set_indent = record {
    at = λ bound p l. record {
      result = tt;
      behind = record p { indent_level = n };
      added = [];
      returns = refl;
      level = sym l;
      flags = refl;
      calls = sym (append-nil p.calls);
    };
  }

  pub Steady-on : {A : Type 0} (f : ℕ → A) (t : ℕ) → (t == 0) ≡ false → Steady {X = X} n (on f t)
  Steady-on f t e = record {
    at = λ bound p l.
        subst (λ b. Kept p (if b then fault else ok (f t, p))) (sym e)
          ((Steady-pure (f t)).at bound p l);
  }

  -- The value that is read is known behind the bind.
  pub Steady-get :
      {A B : Type 0} (f : ℕ → A) (t : ℕ) (next : A → Act X B)
      → (t == 0) ≡ false
      → Steady n (next (f t))
      → Steady n (on f t >>= next)
  Steady-get f t next e s = record {
    at = λ bound p l.
        subst (λ b. Kept p (after (if b then fault else ok (f t, p)) next)) (sym e)
          (s.at bound p l);
  }

  pub Steady-if :
      {A : Type 0} (b : Bool) {m k : Act X A}
      → (b ≡ true → Steady n m)
      → (b ≡ false → Steady n k)
      → Steady n (if b then m else k)
  Steady-if true one two = one refl
  Steady-if false one two = two refl

  -- The level is changed by `up` before `m`, and by `down` behind it, which undoes that.
  pub Steady-around :
      {A : Type 0} (up down : ℕ → ℕ) (m : Act X (Unit {0})) (rest : Act X A)
      → up n < u32_mod
      → (n < u32_mod → down (up n) ≡ n)
      → Steady (up n) m
      → Steady n rest
      → Steady n (do
        depth ← get_indent
        set_indent (up depth)
        m
        depth' ← get_indent
        set_indent (down depth')
        rest)
  Steady-around up down m rest small back s t = record {
    at = λ bound p l.
        let one = s.at small (record p { indent_level = up p.indent_level }) (ap up l) in
        let returned = one.level ∙ ap up l in
        let two =
          t.at bound (record one.behind { indent_level = down one.behind.indent_level })
            (ap down returned ∙ back bound) in
        record {
          result = two.result;
          behind = two.behind;
          added = one.added ++ two.added;
          returns =
              ap (λ r. after r (λ a. get_indent >>= λ k. set_indent (down k) >>= λ b. rest))
                one.returns
              ∙ two.returns;
          level = two.level ∙ ap down returned ∙ back bound ∙ sym l;
          flags = two.flags ∙ one.flags;
          calls =
              two.calls
              ∙ ap (λ cs. cs ++ two.added) one.calls
              ∙ append_assoc p.calls one.added two.added;
        };
  }

  pub Steady-deeper : {m : Act X (Unit {0})} → Steady ((n + 1) % u32_mod) m → Steady n (deeper m)
  Steady-deeper {m} s = record {
    at = λ bound p l.
        (Steady-around (λ k. (k + 1) % u32_mod) (λ k. (k + u32_mod - 1) % u32_mod) m (pure tt)
            (omega arith) (λ b. omega arith) s (Steady-pure tt)).at
          bound p l;
  }

pub ruleset steady_rules = (
  Steady-pure, Steady-output, Steady-bind, Steady-read, Steady-get_indent, Steady-set_indent,
  Steady-on, Steady-if, Steady-deeper,
)
