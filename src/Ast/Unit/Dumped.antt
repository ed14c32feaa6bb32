-- ===== src/Ast/Unit/Dumped.antt =====
-- ahaggar-ast.c: what the log of a unit holds when the unit is finished.
use ahaggar.Base.{
  ℕ, ◌+◌, ◌<◌, ◌≡◌, ◌≢◌, refl, sym, ap, ◌∙◌, subst, Bool, true, false, Option, none, some, List, [],
  ◌∷◌, ◌++◌, append-nil, append_assoc, Run, ok, ◌>>=◌, length, ℤ, pos, if◌then◌else◌, codes,
}
use ahaggar.Cache.{TableOps, PmapNodes, Left, pmap_nodes_finish}
use ahaggar.Cache.Pmap.{IsPmap, IsFreed, pmap_nodes_finish_lem}
use ahaggar.Log.Session.{header, is_stderr, unit_name, closed}
use ahaggar.Log.{
  Os, IsLawful, stderr_fileno, get_file_perms, close_log, fsync_log, write_log, get_logname,
}
use ahaggar.Log.Written.{open_log_lem, close_log-fsync_log}
use ahaggar.Tree
use ahaggar.Tree.{Pdata}
use ahaggar.Ast.{AstState, AstAct}
use ahaggar.Ast.Options.{Options}
use ahaggar.Ast.Unit.{
  Plugin, Compiled, say, begin_log, use_log, opened_log, named_log, with_nodes, start_unit,
  finish_unit, handed, main_at, pre_genericize, each_function,
}

module _ (ops : TableOps) (os : Os) where
  -- The plugin has freed the structure that stood for the nodes `xs`.
  abbrev pub HasFreed :
      (pn : PmapNodes ops) (xs : List ℕ) → IsPmap ops pn xs → Plugin ops os → Type 0
  HasFreed pn xs v q =
      (q.has_nodes ≡ false) × ((left : Left ops) × (q.left ≡ some left) × IsFreed ops pn xs v left)

-- What a log takes of each text: `Out` relates a text and the bytes that are taken of it.
pub data Parts (Out : List ℕ → List ℕ → Type 0) : List (List ℕ) → List ℕ → Type 0 where
  no_part : Parts Out [] []
  part :
      {text bytes : List ℕ} {texts : List (List ℕ)} {rest : List ℕ}
      → Out text bytes
      → Parts Out texts rest
      → Parts Out (text ∷ texts) (bytes ++ rest)

-- What the log takes of a text, by `write` and by write_log.
pub record Taking (os : Os) (k : ℕ) (Out : List ℕ → List ℕ → Type 0) : Type 0 where
  pub by_write :
      (text : List ℕ) (s : os.State)
      → (bytes : List ℕ) × Out text bytes
        × (os.written (os.write (pos k) text s).1 (pos k) ≡ os.written s (pos k) ++ bytes)
  pub by_log :
      (text : List ℕ) (s : os.State)
      → (bytes : List ℕ) × Out text bytes
        × (os.written (write_log os (pos k) text s).1 (pos k) ≡ os.written s (pos k) ++ bytes)

module _ (ops : TableOps) (os : Os) (g : Tree.Gcc) (visit : ℕ → AstAct ops (Unit {0}))
    (links : ℕ) where
  -- From an error count and the data of a plugin, ahaggar_ast_main hands the texts to write, one for
  -- each function that it dumps, and leaves the data `e`.
  pub data Dumps (o : Options) (e : Pdata (AstState ops))
      : ℕ → Pdata (AstState ops) → List Compiled → List (List ℕ) → Type 0 where
    nothing_left : {n : ℕ} → Dumps o e n e [] []
    dumped :
        {n : ℕ} {c : Compiled} {more : List Compiled} {text : List ℕ} {texts : List (List ℕ)}
        {d d' : Pdata (AstState ops)}
        → main_at ops os g visit links n o c d ≡ ok (some text, d')
        → Dumps o e (n + c.errors) d' more texts
        → Dumps o e n d (c ∷ more) (text ∷ texts)
    passed :
        {n : ℕ} {c : Compiled} {more : List Compiled} {texts : List (List ℕ)}
        {d d' : Pdata (AstState ops)}
        → main_at ops os g visit links n o c d ≡ ok (none, d')
        → Dumps o e (n + c.errors) d' more texts
        → Dumps o e n d (c ∷ more) texts

  module _ (law : IsLawful os) (k : ℕ) (not_stderr : pos k ≢ stderr_fileno)
      (Out : List ℕ → List ℕ → Type 0) (taking : Taking os k Out) where
    open os use {State, written}

    -- A plugin within a unit, whose log holds the text.
    record IsOpen (p : Plugin ops os) (text : List ℕ) : Type 0 where
      nodes : p.has_nodes ≡ true
      at : p.fd ≡ pos k
      holds : written p.sys (pos k) ≡ text

    -- Behind the functions: the log has what it took of the texts, and the data are `e`.
    record Behind (e : Pdata (AstState ops)) (text : List ℕ) (texts : List (List ℕ))
        (r : Run (Plugin ops os)) : Type 0 where
      behind : Plugin ops os
      bytes : List ℕ
      returns : r ≡ ok behind
      parts : Parts Out texts bytes
      is_open : IsOpen behind (text ++ bytes)
      left : behind.walk_data ≡ e

    each_of :
        (c : Compiled) (more : List Compiled) (p q : Plugin ops os)
        → pre_genericize ops os g visit links c p ≡ ok q
        → each_function ops os g visit links (c ∷ more) p
          ≡ each_function ops os g visit links more q
    unfolding each_function
    each_of c more p q one = ap (λ r. r >>= each_function ops os g visit links more) one

    pre_genericize_of :
        (c : Compiled) (p : Plugin ops os) (r : Option (List ℕ)) (d : Pdata (AstState ops))
        → p.has_nodes ≡ true
        → main_at ops os g visit links p.errorcount p.options c p.walk_data ≡ ok (r, d)
        → pre_genericize ops os g visit links c p
          ≡ handed ops os (record p { errorcount = p.errorcount + c.errors }) (ok (r, d))
    unfolding pre_genericize
    pre_genericize_of c p r d n e = simp (n, e)

    handed-some :
        (p : Plugin ops os) (t : List ℕ) (d : Pdata (AstState ops)) (text : List ℕ)
        → IsOpen p text
        → (q : Plugin ops os) × (bytes : List ℕ) × (handed ops os p (ok (some t, d)) ≡ ok q)
          × Out t bytes
          × IsOpen q (text ++ bytes)
          × (q.walk_data ≡ d)
          × (q.options ≡ p.options)
          × (q.errorcount ≡ p.errorcount)
    unfolding handed
    handed-some p t d text h =
        let (bytes, out, took) = taking.by_write t p.sys in
        (
          record p { walk_data = d; sys = (os.write p.fd t p.sys).1 },
          bytes,
          refl,
          out,
          record {
            nodes = h.nodes;
            at = h.at;
            holds =
                ap (λ f. written (os.write f t p.sys).1 (pos k)) h.at
                ∙ took
                ∙ ap (λ w. w ++ bytes) h.holds;
          },
          refl,
          refl,
          refl,
        )

    each_function_lem :
        {o : Options} {e : Pdata (AstState ops)} {n : ℕ} {d : Pdata (AstState ops)}
        {cs : List Compiled} {texts : List (List ℕ)} (p : Plugin ops os) (text : List ℕ)
        → Dumps o e n d cs texts
        → p.options ≡ o
        → p.errorcount ≡ n
        → p.walk_data ≡ d
        → IsOpen p text
        → Behind e text texts (each_function ops os g visit links cs p)
    unfolding each_function handed
    each_function_lem p text nothing_left eo en ed h = record {
      behind = p;
      bytes = [];
      returns = refl;
      parts = no_part;
      is_open = record { nodes = h.nodes; at = h.at; holds = h.holds ∙ sym (append-nil text) };
      left = ed;
    }
    each_function_lem {e = e} p text
          (dumped {c = c} {more = more} {text = t} {texts = texts} {d' = d'} run rest) eo en ed h =
        let q0 = record p { errorcount = p.errorcount + c.errors } in
        let (q, bytes, step, out, is_open, left, o, count) =
          handed-some q0 t d' text (record { nodes = h.nodes; at = h.at; holds = h.holds }) in
        let main : main_at ops os g visit links p.errorcount p.options c p.walk_data
            ≡ ok (some t, d') =
          rw (eo, en, ed) run in
        let one = pre_genericize_of c p (some t) d' h.nodes main ∙ step in
        let all =
          each_function_lem q (text ++ bytes) rest (o ∙ eo) (count ∙ ap (λ m. m + c.errors) en) left
            is_open in
        record {
          behind = all.behind;
          bytes = bytes ++ all.bytes;
          returns = each_of c more p q one ∙ all.returns;
          parts = part out all.parts;
          is_open = subst (IsOpen all.behind) (append_assoc text bytes all.bytes) all.is_open;
          left = all.left;
        }
    each_function_lem p text (passed {c = c} {more = more} {d' = d'} run rest) eo en ed h =
        let q = record p { errorcount = p.errorcount + c.errors; walk_data = d' } in
        let main : main_at ops os g visit links p.errorcount p.options c p.walk_data
            ≡ ok (none, d') =
          rw (eo, en, ed) run in
        let one = pre_genericize_of c p none d' h.nodes main in
        let all =
          each_function_lem q text rest eo (ap (λ m. m + c.errors) en) refl
            (record { nodes = h.nodes; at = h.at; holds = h.holds }) in
        record {
          behind = all.behind;
          bytes = all.bytes;
          returns = each_of c more p q one ∙ all.returns;
          parts = all.parts;
          is_open = all.is_open;
          left = all.left;
        }

    -- A unit whose log has the header.
    record Headed (q : Plugin ops os) : Type 0 where
      bytes : List ℕ
      out : Out header bytes
      is_open : IsOpen q bytes

    begin_log_lem :
        (input : Option (List ℕ)) (p : Plugin ops os)
        → p.has_nodes ≡ true
        → p.fd ≡ pos k
        → written p.sys (pos k) ≡ []
        → Headed (begin_log ops os input p)
    unfolding begin_log say
    begin_log_lem input p n f w =
        let (bytes, out, took) = taking.by_log header p.sys in
        record {
          bytes = bytes;
          out = out;
          is_open = record {
            nodes = n;
            at = f;
            holds =
                law.kept-print_error _ (pos k) _ not_stderr
                ∙ ap (λ fd. written (write_log os fd header p.sys).1 (pos k)) f
                ∙ took
                ∙ ap (λ t. t ++ bytes) w;
          };
        }

    -- The log was opened under a name.
    module _
        (opens : (path : List ℕ) (mode : ℕ) (s : State)
          → (os.open_file path mode s).0 ≡ pos k) where
      -- The state behind a start that opened the log.
      record Started (p q : Plugin ops os) : Type 0 where
        begun : Headed q
        options : q.options ≡ p.options
        count : q.errorcount ≡ p.errorcount
        left : q.walk_data ≡ (with_nodes ops os p).walk_data

      opened_log_lem :
          (input : Option (List ℕ)) (file : List ℕ) (p : Plugin ops os) (t : State)
          → p.has_nodes ≡ true
          → written t (pos k) ≡ []
          → Headed (opened_log ops os input file p (pos k, t))
      unfolding opened_log use_log say
      opened_log_lem input file p t n w =
          begin_log_lem input _ n refl (law.kept-print_error _ (pos k) t not_stderr ∙ w)

      start_unit_lem :
          (file name : List ℕ) (p : Plugin ops os) (s : State)
          → p.options.to_files ≡ true
          → get_logname os (some file) 0 (codes "ahaggar_ast.log") p.sys ≡ (some name, s)
          → Started p (start_unit ops os (some file) p)
      unfolding start_unit named_log opened_log use_log begin_log say with_nodes
      start_unit_lem file name p s f named =
          let mode = get_file_perms os (some file) p.sys in
          let (t, opened, empty) = open_log_lem os law name mode k s opens in
          let q = opened_log ops os (some file) name (with_nodes ops os p) (pos k, t) in
          let e : start_unit ops os (some file) p ≡ q = simp (f, named, opened) in
          subst (Started p) (sym e) (record {
            begun = opened_log_lem (some file) name (with_nodes ops os p) t refl empty;
            options = refl;
            count = refl;
            left = refl;
          })

      closed_at :
          (b : Bool) (fd : ℤ) (s : State)
          → written (if b then s else (close_log os fd (fsync_log os fd s).1).1) (pos k)
            ≡ written s (pos k)
      closed_at true fd s = refl
      closed_at false fd s = close_log-fsync_log os law fd (pos k) s

      finish_unit_lem :
          (input : Option (List ℕ)) (p : Plugin ops os) (e : Pdata (AstState ops))
          (text xs : List ℕ)
          → IsOpen p text
          → p.walk_data ≡ e
          → (v : IsPmap ops e.extra.pm_nodes xs) → length xs < links
          → (q : Plugin ops os) × (finish_unit ops os links input p ≡ ok q)
            × (written q.sys (pos k) ≡ text)
            × HasFreed ops os e.extra.pm_nodes xs v q
      unfolding finish_unit say closed
      finish_unit_lem input p e text xs h same v bound =
          let (left, freed, owned) = pmap_nodes_finish_lem ops e.extra.pm_nodes xs links v bound in
          (
            say ops os (codes "' finished unit: " ++ (unit_name input ++ codes "\n"))
                (record p { has_nodes = left.live; left = some left; sys = closed os p.fd p.sys }),
            simp (h.nodes, ap (λ d. pmap_nodes_finish ops links d.extra.pm_nodes) same ∙ freed),
            law.kept-print_error _ (pos k) _ not_stderr
                ∙ closed_at (is_stderr p.fd) p.fd p.sys
                ∙ h.holds,
            (owned.2, (left, refl, owned)),
          )

      -- The plugin on a unit: start_unit, the callback for each function, and finish_unit.
      abbrev pub unit_of : List ℕ → List Compiled → Plugin ops os → Run (Plugin ops os)
      unit_of file cs p =
          each_function ops os g visit links cs (start_unit ops os (some file) p)
          >>= finish_unit ops os links (some file)

      pub unit_lem :
          (file name : List ℕ) (cs : List Compiled) (p : Plugin ops os) (texts : List (List ℕ))
          (e : Pdata (AstState ops)) (xs : List ℕ) (s : State)
          → p.options.to_files ≡ true
          → get_logname os (some file) 0 (codes "ahaggar_ast.log") p.sys ≡ (some name, s)
          → Dumps p.options e p.errorcount (with_nodes ops os p).walk_data cs texts
          → (v : IsPmap ops e.extra.pm_nodes xs) → length xs < links
          → (q : Plugin ops os) × (bytes rest : List ℕ) × (unit_of file cs p ≡ ok q)
            × Out header bytes
            × Parts Out texts rest
            × (written q.sys (pos k) ≡ bytes ++ rest)
            × HasFreed ops os e.extra.pm_nodes xs v q
      unit_lem file name cs p texts e xs s f named run v bound =
          let one = start_unit_lem file name p s f named in
          let all =
            each_function_lem (start_unit ops os (some file) p) one.begun.bytes run one.options
              one.count one.left one.begun.is_open in
          let (q, finished, holds, freed) =
            finish_unit_lem (some file) all.behind e (one.begun.bytes ++ all.bytes) xs all.is_open
              all.left v bound in
          (
            q,
            one.begun.bytes,
            all.bytes,
            ap (λ r. r >>= finish_unit ops os links (some file)) all.returns ∙ finished,
            one.begun.out,
            all.parts,
            holds,
            freed,
          )
