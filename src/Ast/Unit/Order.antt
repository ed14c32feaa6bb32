-- ===== src/Ast/Unit/Order.antt =====
-- ahaggar-ast.c: the callbacks in the order in which GCC makes them.
use ahaggar.Base.{
  ℕ, ◌<◌, ◌≡◌, ◌≢◌, true, false, Option, none, some, List, ok, ℤ, negsuc, codes, ◌⊎◌,
}
use ahaggar.Cache.{TableOps, Left}
use ahaggar.Cache.Pmap.{Ended}
use ahaggar.Log.{Os, stderr_fileno, get_file_perms, get_logname, open_log}
use ahaggar.Tree
use ahaggar.Ast.{AstAct}
use ahaggar.Ast.Options.{Options}
use ahaggar.Ast.Unit.{
  Plugin, Compiled, named_log, with_nodes, start_unit, finish_unit, pre_genericize, ast_finish,
}

module _ (ops : TableOps) (os : Os) (input : Option (List ℕ)) (p : Plugin ops os) where
  pub started_file :
      p.options.to_files ≡ true
      → start_unit ops os input p
        ≡ named_log ops os input
            (get_file_perms os input p.sys)
            (with_nodes ops os p)
            (get_logname os input 0 (codes "ahaggar_ast.log") p.sys)
  unfolding start_unit
  started_file f = simp f

-- Outside of a unit, within one, and when the plugin is freed.
pub data Phase : Type 0 where
  idle within gone : Phase

module _ (ops : TableOps) (os : Os) (g : Tree.Gcc) (visit : ℕ → AstAct ops (Unit {0}))
    (links : ℕ) where
  -- What GCC documents of the order: PLUGIN_START_UNIT comes before the functions of a unit and
  -- PLUGIN_FINISH_UNIT behind them, and PLUGIN_FINISH comes last, outside of a unit.
  pub data Reach (first : Plugin ops os) : Phase → Option (Plugin ops os) → Type 0 where
    registered : Reach first idle (some first)
    started :
        {p : Plugin ops os} (input : Option (List ℕ))
        → Reach first idle (some p)
        → Reach first within (some (start_unit ops os input p))
    compiled :
        {p q : Plugin ops os} (c : Compiled)
        → Reach first within (some p)
        → pre_genericize ops os g visit links c p ≡ ok q
        → Reach first within (some q)
    finished :
        {p q : Plugin ops os} (input : Option (List ℕ))
        → Reach first within (some p)
        → finish_unit ops os links input p ≡ ok q
        → Reach first idle (some q)
    ended :
        {p : Plugin ops os} {r : Option (Plugin ops os)}
        → Reach first idle (some p)
        → ast_finish ops os (some p) ≡ ok r
        → Reach first gone r

  -- A descriptor that open_log gave, other than -1.
  pub record IsOpened (fd : ℤ) : Type 0 where
    pub path : List ℕ
    pub mode : ℕ
    pub s : os.State
    pub gave : (open_log os path mode s).0 ≡ fd
    pub valid : fd ≢ negsuc 0

  -- Where a text may go: to standard error, to a descriptor that was opened, or nowhere, because GCC
  -- has met errors.
  abbrev pub HasPlace : Plugin ops os → Type 0
  HasPlace p = (p.fd ≡ stderr_fileno) ⊎ (IsOpened p.fd ⊎ (0 < p.errorcount))

  -- No structure was made yet, or the last one is freed: its entries by the loop, its table and the
  -- block itself.
  abbrev pub HasEnded : Plugin ops os → Type 0
  HasEnded p =
      (p.left ≡ none)
      ⊎ ((left : Left ops) × (p.left ≡ some left) × Ended ops links p.walk_data.extra.pm_nodes left)

  abbrev pub IsSound : Options → Phase → Option (Plugin ops os) → Type 0
  IsSound o idle (some p) = (p.options ≡ o) × (p.has_nodes ≡ false) × HasEnded p
  IsSound o within (some p) = (p.options ≡ o) × (p.has_nodes ≡ true) × HasPlace p
  IsSound o gone (some p) = ⊥
  IsSound o idle none = ⊥
  IsSound o within none = ⊥
  IsSound o gone none = Unit
