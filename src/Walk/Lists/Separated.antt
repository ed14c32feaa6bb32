-- ===== src/Walk/Lists/Separated.antt =====
-- walk-nodes.c: what the loops with commas leave in the buffer, where the walk on each element prints a
-- text of its own.
use ahaggar.Base.{
  ℕ, arith, ◌≡◌, refl, sym, ap, ◌∙◌, List, [], ◌∷◌, ◌++◌, append_assoc, append-nil, Run, ok, length,
  codes, suc,
}
use ahaggar.Buffer.Script.{Call, print, meaning, meanings, meanings-append}
use ahaggar.Tree.{Pdata, ◌>>◌, after, Walker}
use ahaggar.Checks.Args.{IsArg, IsArgs}
use ahaggar.Walk.Lists.{walk_elements, comma}

-- What is in the buffer.
abbrev pub shown : {X : Type 0} → Pdata X → List ℕ
shown p = meanings p.calls []

-- A call adds what it means to what is in the buffer.
pub shown-output :
    {X : Type 0} (p : Pdata X) (c : Call)
    → shown (record p { calls = p.calls ++ c ∷ [] }) ≡ meaning c (shown p)
shown-output p c = meanings-append p.calls (c ∷ []) []

-- A run from `p` that returns and adds a text with the property `Q` to the buffer.
pub record Adds {X : Type 0} (Q : List ℕ → Type 0) (p : Pdata X) (r : Run (Unit {0} × Pdata X))
    : Type 0 where
  pub behind : Pdata X
  pub text : List ℕ
  pub returns : r ≡ ok (tt, behind)
  pub adds : shown behind ≡ shown p ++ text
  pub holds : Q text

-- Texts with commas between them.
abbrev pub separated : List (List ℕ) → List ℕ
separated [] = []
separated (a ∷ []) = a
separated (a ∷ b ∷ more) = a ++ b',' ∷ b' ' ∷ separated (b ∷ more)

separated-cons :
    (a : List ℕ) (args : List (List ℕ)) (n : ℕ)
    → length args ≡ suc n
    → separated (a ∷ args) ≡ a ++ b',' ∷ b' ' ∷ separated args
separated-cons a [] n e = absurd (omega arith)
separated-cons a (b ∷ more) n e = refl

-- A run from `p` that returns and adds `n` argument texts, with commas between them.
pub record AddsArgs {X : Type 0} (n : ℕ) (p : Pdata X) (r : Run (Unit {0} × Pdata X)) : Type 0 where
  pub behind : Pdata X
  pub args : List (List ℕ)
  pub returns : r ≡ ok (tt, behind)
  pub adds : shown behind ≡ shown p ++ separated args
  pub all : IsArgs args
  pub many : length args ≡ n

module _ (w : Walker) where
  -- The walk on each of the nodes prints an argument text.
  abbrev pub ArePrinted : List ℕ → Type 0
  ArePrinted [] = Unit
  ArePrinted (t ∷ ts) = ((p : Pdata w.Extra) → Adds IsArg p (w.visit t p)) × ArePrinted ts

  pub walk_elements_lem :
      (elts : List ℕ) (p : Pdata w.Extra)
      → ArePrinted elts
      → AddsArgs (length elts) p (walk_elements w elts p)
  unfolding walk_elements
  walk_elements_lem [] p prints = record {
    behind = p;
    args = [];
    returns = refl;
    adds = sym (append-nil _);
    all = tt;
    many = refl;
  }
  walk_elements_lem (elt ∷ []) p (prints, none_left) =
      let one = prints p in
      record {
        behind = one.behind;
        args = one.text ∷ [];
        returns = one.returns;
        adds = one.adds;
        all = (one.holds, tt);
        many = refl;
      }
  walk_elements_lem (elt ∷ next ∷ more) p (prints, others) =
      let one = prints p in
      let q = record one.behind { calls = one.behind.calls ++ print (codes ", ") ∷ [] } in
      let rest = walk_elements_lem (next ∷ more) q others in
      record {
        behind = rest.behind;
        args = one.text ∷ rest.args;
        returns =
            ap (λ r. after r (λ a. comma >> walk_elements w (next ∷ more))) one.returns
            ∙ rest.returns;
        adds =
            rest.adds
            ∙ ap (λ s. s ++ separated rest.args)
                (shown-output one.behind (print (codes ", ")) ∙ ap (λ s. s ++ codes ", ") one.adds)
            ∙ append_assoc (shown p ++ one.text) (codes ", ") (separated rest.args)
            ∙ append_assoc (shown p) one.text (codes ", " ++ separated rest.args)
            ∙ ap (λ s. shown p ++ s)
                (sym (separated-cons one.text rest.args (length more) rest.many));
        all = (one.holds, rest.all);
        many = ap suc rest.many;
      }
