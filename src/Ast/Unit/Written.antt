-- ===== src/Ast/Unit/Written.antt =====
-- ahaggar-ast.c: the log of a unit, where the writes take all their bytes, and where they do not.
use ahaggar.Base.{
  ℕ, ◌<◌, ◌≡◌, ◌≢◌, refl, sym, ap, ◌∙◌, true, some, List, [], ◌∷◌, ◌++◌, append-nil, Run, ok, ◌>>=◌,
  length, take, ℤ, pos, negsuc, codes,
}
use ahaggar.Cache.{TableOps}
use ahaggar.Cache.Pmap.{IsPmap}
use ahaggar.Log.{Os, IsLawful, Took, stderr_fileno, get_logname, log_file_name}
use ahaggar.Log.Session.{header}
use ahaggar.Log.Written.{IsComplete, write_lem, write_log_lem, write_log-Wrote, get_logname-whole}
use ahaggar.Tree
use ahaggar.Tree.{Pdata}
use ahaggar.Ast.{AstState, AstAct}
use ahaggar.Ast.Unit.{Plugin, Compiled, with_nodes, start_unit, finish_unit, each_function}
use ahaggar.Ast.Unit.Dumped.{Dumps, Parts, no_part, part, Taking, unit_lem, HasFreed}

abbrev pub joined : List (List ℕ) → List ℕ
joined [] = []
joined (text ∷ texts) = text ++ joined texts

-- All bytes of a text are taken, or some first bytes.
abbrev All : List ℕ → List ℕ → Type 0
All text bytes = bytes ≡ text

abbrev pub First : List ℕ → List ℕ → Type 0
First text bytes = (n : ℕ) × (bytes ≡ take n text)

Parts-All : (texts : List (List ℕ)) (bytes : List ℕ) → Parts All texts bytes → bytes ≡ joined texts
Parts-All [] bytes no_part = refl
Parts-All (text ∷ texts) bytes (part {rest = rest} e more) =
    ap (λ b. b ++ rest) e ∙ ap (λ r. text ++ r) (Parts-All texts rest more)

module _ (os : Os) (law : IsLawful os) (k : ℕ) (not_stderr : pos k ≢ stderr_fileno) where
  open os use {State, written}

  first_of :
      (text : List ℕ) (s : State) (r : ℤ × State)
      → Took os (pos k) text s r
      → (bytes : List ℕ) × First text bytes × (written r.1 (pos k) ≡ written s (pos k) ++ bytes)
  first_of text s (pos n, t) (h, e) = (take n text, (n, refl), e)
  first_of text s (negsuc n, t) e = ([], (0, refl), e ∙ sym (append-nil _))

  taking-First : Taking os k First
  taking-First = record {
    by_write = λ text s. first_of text s _ (law.took (pos k) text s);
    by_log = λ text s. first_of text s _ (write_log_lem os law (pos k) not_stderr text s);
  }

  taking-All : IsComplete os (pos k) → Taking os k All
  taking-All whole = record {
    by_write = λ text s. (text, refl, (write_lem os law (pos k) not_stderr whole text s).1);
    by_log = λ text s. (text, refl, (write_log-Wrote os law (pos k) not_stderr whole text s).1);
  }

  module _ (ops : TableOps) (g : Tree.Gcc) (visit : ℕ → AstAct ops (Unit {0})) (links : ℕ)
      (opens : (path : List ℕ) (mode : ℕ) (s : State) → (os.open_file path mode s).0 ≡ pos k) where
    abbrev pub unit : List ℕ → List Compiled → Plugin ops os → Run (Plugin ops os)
    unit file cs p =
        each_function ops os g visit links cs (start_unit ops os (some file) p)
        >>= finish_unit ops os links (some file)

    -- For a plugin that writes to files, where open gives a descriptor other than that of standard
    -- error, whose writes take all their bytes, and there is memory: if ahaggar_ast_main returns for
    -- each function of the unit, and the node map that it leaves is well formed and smaller than the
    -- bound, the plugin runs from the start of the unit to its end without a fault; the log then
    -- holds the header and behind it the texts of the functions that are dumped, in order and
    -- nothing else; each entry of the node map's queue, its table and the structure itself are freed.
    pub unit-dumped :
        IsComplete os (pos k)
        → (file : List ℕ) (cs : List Compiled) (p : Plugin ops os) (texts : List (List ℕ))
          (e : Pdata (AstState ops)) (xs : List ℕ)
        → p.options.to_files ≡ true
        → Dumps ops os g visit links p.options e p.errorcount
            (with_nodes ops os p).walk_data
            cs
            texts
        → (v : IsPmap ops e.extra.pm_nodes xs) → length xs < links
        → (q : Plugin ops os) × (unit file cs p ≡ ok q)
          × (written q.sys (pos k) ≡ header ++ joined texts)
          × HasFreed ops os e.extra.pm_nodes xs v q
    unit-dumped whole file cs p texts e xs f run v bound =
        let (s, named) =
          get_logname-whole os law (pos k) not_stderr whole file 0 (codes "ahaggar_ast.log")
            p.sys in
        let name = log_file_name os file 0 (codes "ahaggar_ast.log") in
        let (q, bytes, rest, runs, all, parts, holds, freed) =
          unit_lem ops os g visit links law k not_stderr All (taking-All whole) opens file name cs p
            texts e xs s f named run v bound in
        (
          q,
          runs,
          holds ∙ ap (λ b. b ++ rest) all ∙ ap (λ r. header ++ r) (Parts-All texts rest parts),
          freed,
        )

    -- For a plugin that writes to files, where open gives a descriptor other than that of standard
    -- error and the log gets its name, while any write may fail or take only some bytes: if
    -- ahaggar_ast_main returns for each function of the unit, and the node map that it leaves is well
    -- formed and smaller than the bound, the plugin runs from the start of the unit to its end without
    -- a fault; the log then holds some first bytes of the header, and behind it some first bytes of
    -- each text of a function that is dumped, in order and nothing else; each entry of the node map's
    -- queue, its table and the structure itself are freed.
    pub unit-written :
        (file name : List ℕ) (cs : List Compiled) (p : Plugin ops os) (texts : List (List ℕ))
        (e : Pdata (AstState ops)) (xs : List ℕ) (s : State)
        → p.options.to_files ≡ true
        → get_logname os (some file) 0 (codes "ahaggar_ast.log") p.sys ≡ (some name, s)
        → Dumps ops os g visit links p.options e p.errorcount
            (with_nodes ops os p).walk_data
            cs
            texts
        → (v : IsPmap ops e.extra.pm_nodes xs) → length xs < links
        → (q : Plugin ops os) × (bytes rest : List ℕ) × (unit file cs p ≡ ok q)
          × First header bytes
          × Parts First texts rest
          × (written q.sys (pos k) ≡ bytes ++ rest)
          × HasFreed ops os e.extra.pm_nodes xs v q
    unit-written file name cs p texts e xs s f named run v bound =
        unit_lem ops os g visit links law k not_stderr First taking-First opens file name cs p texts
          e xs s f named run v bound
