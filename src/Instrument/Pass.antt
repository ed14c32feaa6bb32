-- ===== src/Instrument/Pass.antt =====
-- ahaggar-xinstrument.c: the pass over all blocks of a function.
use ahaggar.Base.{
  ℕ, zero, suc, ◌+◌, ◌-◌, ◌<◌, ◌≤◌, ◌≡◌, refl, sym, ap, ◌∙◌, List, [], ◌∷◌, ◌++◌, Run, ok, fault,
  ◌>>=◌, arith,
}
use ahaggar.Cache.{TableOps}
use ahaggar.Cache.Sptree.{sptree_nodes_finish-sptree_nodes_init}
use ahaggar.Instrument.{
  Gimple, TargetCall, Around, around, ahg_bb_gimple_stmt, each_block, ahaggar_xinstrument_main,
}
use ahaggar.Instrument.Table.{AreTargets}
use ahaggar.Instrument.Walk.{expanded, visits, ahg_bb_gimple_stmt_lem}

bind_later :
    {A B : Type 0} (r : Run A) (f g : A → Run B) (out : B)
    → ((a : A) → f a ≡ ok out → g a ≡ ok out)
    → (r >>= f) ≡ ok out
    → (r >>= g) ≡ ok out
bind_later fault f g out h e = e
bind_later (ok a) f g out h e = h a e

bind_first :
    {A B : Type 0} (r s : Run A) (f : A → Run B) (out : B)
    → ((a : A) → r ≡ ok a → s ≡ ok a)
    → (r >>= f) ≡ ok out
    → (s >>= f) ≡ ok out
bind_first fault s f out h e = cc
bind_first (ok a) s f out h e = ap (λ r. r >>= f) (h a refl) ∙ e

module _ (current : List ℕ) (tcalls : List TargetCall) where
  abbrev walk : ℕ → List Gimple → Run (List Gimple)
  walk k block = ahg_bb_gimple_stmt k current tcalls block

  -- More rounds change nothing.
  more_rounds :
      (k j : ℕ) (block out : List Gimple) → walk k block ≡ ok out → walk (k + j) block ≡ ok out
  unfolding ahg_bb_gimple_stmt
  more_rounds zero j block out e = cc
  more_rounds (suc k) j [] out e =
      let later : suc k + j ≡ suc (k + j) = omega arith in ap (λ m. walk m []) later ∙ e
  more_rounds (suc k) j (gs ∷ rest) out e =
      let later : suc k + j ≡ suc (k + j) = omega arith in
      let next = λ (m : ℕ) (a : Around).
        walk m (a.behind ++ rest) >>= λ rest'. ok (a.before ++ gs ∷ rest') in
      ap (λ m. walk m (gs ∷ rest)) later
      ∙ bind_later (around current tcalls gs) (next k) (next (k + j)) out
          (λ a h.
            bind_first (walk k (a.behind ++ rest)) (walk (k + j) (a.behind ++ rest))
              (λ rest'. ok (a.before ++ gs ∷ rest')) out (λ d. more_rounds k j (a.behind ++ rest) d)
              h)
          e

  -- Each block ends within `k` rounds.
  abbrev pub Within : ℕ → List (List Gimple) → Type 0
  Within k [] = Unit
  Within k (block ∷ more) = (visits current tcalls block ≤ k) × Within k more

  abbrev pub all_expanded : List (List Gimple) → Run (List (List Gimple))
  all_expanded [] = ok []
  all_expanded (block ∷ more) = do
    block' ← expanded current tcalls block
    more' ← all_expanded more
    ok (block' ∷ more')

  block_lem :
      AreTargets current tcalls tcalls
      → (block : List Gimple) (k : ℕ) → visits current tcalls block ≤ k
      → (out : List Gimple) × (expanded current tcalls block ≡ ok out) × (walk k block ≡ ok out)
  block_lem are block k small =
      let (out, e, walked) = ahg_bb_gimple_stmt_lem current tcalls are block in
      let n = visits current tcalls block in
      let enough : n + (k - n) ≡ k = omega arith in
      (out, e, sym (ap (λ m. walk m block) enough) ∙ more_rounds n (k - n) block out walked)

  each_block_lem :
      AreTargets current tcalls tcalls
      → (blocks : List (List Gimple)) (k : ℕ) → Within k blocks
      → (outs : List (List Gimple)) × (all_expanded blocks ≡ ok outs)
        × (each_block k current tcalls blocks ≡ ok outs)
  unfolding each_block
  each_block_lem are [] k h = ([], refl, refl)
  each_block_lem are (block ∷ more) k (small, h) =
      let (out, e, walked) = block_lem are block k small in
      let (outs, es, rest) = each_block_lem are more k h in
      (out ∷ outs, simp (e, es, ◌>>=◌), simp (each_block, walked, rest, ◌>>=◌))

  -- With a table of which each entry builds calls of functions that are not in it, the pass over a
  -- function ends without a fault, where the bound is at least 1 and at least the statements that are
  -- visited in each block, and makes of every block the block with its calls around each statement.
  pub ahaggar_xinstrument_main_lem :
      (ops : TableOps) (fn k : ℕ) (blocks : List (List Gimple))
      → AreTargets current tcalls tcalls
      → 0 < k
      → Within k blocks
      → (outs : List (List Gimple)) × (all_expanded blocks ≡ ok outs)
        × (ahaggar_xinstrument_main ops k current fn tcalls blocks ≡ ok outs)
  unfolding ahaggar_xinstrument_main
  ahaggar_xinstrument_main_lem ops fn k blocks are some_rounds h =
      let (outs, e, walked) = each_block_lem are blocks k h in
      let (left, freed) = sptree_nodes_finish-sptree_nodes_init ops fn k some_rounds in
      (outs, e, simp (walked, freed, ◌>>=◌))
