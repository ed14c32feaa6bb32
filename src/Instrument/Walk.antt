-- ===== src/Instrument/Walk.antt =====
-- The walk over a basic block ends, and what it makes of the block.
use ahaggar.Base.{
  ℕ, suc, ◌+◌, ◌≡◌, refl, ap, ◌∙◌, List, [], ◌∷◌, ◌++◌, Run, ok, fault, ◌>>=◌, length, arith,
}
use ahaggar.Instrument.{Gimple, TargetCall, Around, around, ahg_bb_gimple_stmt}
use ahaggar.Instrument.Table.{ArePassive, AreTargets, around_ok, around-IsPassive}

module _ (current : List ℕ) (tcalls : List TargetCall) where
  -- What the block becomes: each statement with its calls around it.
  abbrev pub expanded : List Gimple → Run (List Gimple)
  expanded [] = ok []
  expanded (gs ∷ rest) = do
    a ← around current tcalls gs
    rest' ← expanded rest
    ok (a.before ++ gs ∷ (a.behind ++ rest'))

  -- The statements that are visited: those of the block and those inserted behind them.
  abbrev pub behind_of : Run Around → ℕ
  behind_of fault = 0
  behind_of (ok a) = length a.behind

  abbrev pub visits : List Gimple → ℕ
  visits [] = 1
  visits (gs ∷ rest) = suc (behind_of (around current tcalls gs) + visits rest)

  walk_over :
      AreTargets current tcalls tcalls
      → (inserted rest out : List Gimple) (k : ℕ) → ArePassive current tcalls inserted
      → ahg_bb_gimple_stmt k current tcalls rest ≡ ok out
      → ahg_bb_gimple_stmt (length inserted + k) current tcalls (inserted ++ rest)
        ≡ ok (inserted ++ out)
  unfolding ahg_bb_gimple_stmt
  walk_over are [] rest out k p h =
      let e : 0 + k ≡ k = omega arith in ap (λ n. ahg_bb_gimple_stmt n current tcalls rest) e ∙ h
  walk_over are (gs ∷ inserted) rest out k (one, p) h =
      let e : suc (length inserted) + k ≡ suc (length inserted + k) = omega arith in
      let next = walk_over are inserted rest out k p h in
      ap (λ n. ahg_bb_gimple_stmt n current tcalls (gs ∷ (inserted ++ rest))) e
      ∙ simp (ahg_bb_gimple_stmt, around-IsPassive current tcalls are gs one, next, ◌>>=◌)

  walk_on :
      (gs : Gimple) (rest out : List Gimple) (k : ℕ) (a : Around)
      → around current tcalls gs ≡ ok a
      → ahg_bb_gimple_stmt k current tcalls (a.behind ++ rest) ≡ ok (a.behind ++ out)
      → ahg_bb_gimple_stmt (suc k) current tcalls (gs ∷ rest)
        ≡ ok (a.before ++ gs ∷ (a.behind ++ out))
  unfolding ahg_bb_gimple_stmt
  walk_on gs rest out k a here next = simp (ahg_bb_gimple_stmt, here, next, ◌>>=◌)

  -- With a table of which each entry builds calls of functions that are not in it, the walk over any
  -- block ends without a fault within as many rounds as there are statements in the block and behind
  -- them, and makes of it the block with its calls around each statement.
  pub ahg_bb_gimple_stmt_lem :
      AreTargets current tcalls tcalls
      → (block : List Gimple)
      → (out : List Gimple) × (expanded block ≡ ok out)
        × (ahg_bb_gimple_stmt (visits block) current tcalls block ≡ ok out)
  unfolding ahg_bb_gimple_stmt
  ahg_bb_gimple_stmt_lem are [] = ([], refl, refl)
  ahg_bb_gimple_stmt_lem are (gs ∷ rest) =
      let (a, here, p) = around_ok current tcalls are gs in
      let (out, e, walked) = ahg_bb_gimple_stmt_lem are rest in
      (
        a.before ++ gs ∷ (a.behind ++ out),
        simp (here, e, ◌>>=◌),
        ap (λ r. ahg_bb_gimple_stmt (suc (behind_of r + visits rest)) current tcalls (gs ∷ rest))
              here
            ∙ walk_on gs rest out (length a.behind + visits rest) a here
                (walk_over are a.behind rest out (visits rest) p walked),
      )
