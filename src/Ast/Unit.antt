-- ===== src/Ast/Unit.antt =====
-- ahaggar-ast.c: the callbacks of the plugin, from its start to its end, and the log file of a unit.
pub mod Dumped
pub mod Written
pub mod Unopened
pub mod Order
pub mod Start
mod Tests
use ahaggar.Base.{
  ℕ, ◌+◌, ◌-◌, Bool, true, false, Option, none, some, List, [], ◌∷◌, ◌++◌, Run, ok, fault, ◌>>=◌,
  if◌then◌else◌, ◌==◌, ◌||◌, not, codes, take, ℤ, pos, negsuc, is_zero,
}
use ahaggar.Cache.{TableOps, Left, pmap_nodes_init, pmap_nodes_finish}
use ahaggar.Instrument.{same_text}
use ahaggar.Log.{
  Os, dk_error, stderr_fileno, get_file_perms, get_logname, open_log, close_log, fsync_log,
  write_log,
}
use ahaggar.Log.Session.{header, path_max, unit_name, closed}
use ahaggar.Tree
use ahaggar.Tree.{Pdata, no_flags}
use ahaggar.Ast.{AstState, AstAct}
use ahaggar.Ast.Functions.{ahaggar_ast_main}
use ahaggar.Ast.Options.{Options, Argument, ast_plugin_process_args}

-- `struct plugin_data` with the state of the system. `has_nodes` tells whether `pm_nodes` points to a
-- live structure, which is `walk_data.extra.pm_nodes`; `left` is what is in memory of one that was
-- freed. `errorcount` is GCC's, which `error` counts up.
pub record Plugin (ops : TableOps) (os : Os) : Type 0 where
  pub plugin_name : List ℕ
  pub options : Options
  pub fd : ℤ
  pub errorcount : ℕ
  pub has_nodes : Bool
  pub left : Option (Left ops)
  pub walk_data : Pdata (AstState ops)
  pub sys : os.State

-- A function that GCC hands over; `main_input` as in `ahg_ast_function`, and `errors` are the errors
-- that GCC has met since the last callback.
pub record Compiled : Type 0 where
  pub fn : ℕ
  pub main_input : Bool
  pub errors : ℕ

module _ (ops : TableOps) (os : Os) where
  -- `error(G_(...))`
  pub complain : List ℕ → Plugin ops os → Plugin ops os
  complain text p = record p {
    errorcount = p.errorcount + 1;
    sys = os.diagnose dk_error text p.sys;
  }

  -- `fprintf(stderr, "GCC plugin '%s'...", ast->plugin_name, ...)`
  pub say : List ℕ → Plugin ops os → Plugin ops os
  say text p = record p {
    sys = os.print_error (codes "GCC plugin '" ++ (p.plugin_name ++ text)) p.sys;
  }

  -- The end of `start_unit`.
  pub begin_log : Option (List ℕ) → Plugin ops os → Plugin ops os
  begin_log input p =
      say (codes "' processing unit: " ++ (unit_name input ++ codes "\n"))
        (record p { sys = (write_log os p.fd header p.sys).1 })

  -- A descriptor other than -1 is used.
  pub use_log : Option (List ℕ) → List ℕ → Plugin ops os → ℤ → Plugin ops os
  use_log input file p fd =
      begin_log input
        (say (codes "' save output into: " ++ (file ++ codes "\n")) (record p { fd = fd }))

  pub opened_log : Option (List ℕ) → List ℕ → Plugin ops os → ℤ × os.State → Plugin ops os
  opened_log input file p (pos n, s) = use_log input file (record p { sys = s }) (pos n)
  opened_log input file p (negsuc ℕ.zero, s) =
      complain
        (codes "GCC plugin '"
          ++ (p.plugin_name ++ (codes "' open output file '" ++ (file ++ codes "' failed"))))
        (record p { sys = s })
  opened_log input file p (negsuc (ℕ.suc n), s) =
      use_log input file (record p { sys = s }) (negsuc (ℕ.suc n))

  pub named_log : Option (List ℕ) → ℕ → Plugin ops os → Option (List ℕ) × os.State → Plugin ops os
  named_log input mode p (none, s) =
      complain (codes "GCC plugin '" ++ (p.plugin_name ++ codes "' output name failed\n"))
        (record p { sys = s })
  named_log input mode p (some file, s) = opened_log input file p (open_log os file mode s)

  -- `ast->pm_nodes = pmap_nodes_init()`
  pub with_nodes : Plugin ops os → Plugin ops os
  with_nodes p = record p {
    has_nodes = true;
    left = none;
    walk_data = record p.walk_data {
      extra = record p.walk_data.extra { pm_nodes = pmap_nodes_init ops };
    };
  }

  pub start_unit : Option (List ℕ) → Plugin ops os → Plugin ops os
  start_unit input p =
      if p.options.to_files
      then named_log input (get_file_perms os input p.sys) (with_nodes p)
          (get_logname os input 0 (codes "ahaggar_ast.log") p.sys)
      else begin_log input (record (with_nodes p) { fd = stderr_fileno })

  -- `links` bounds the entries that `pmap_nodes_finish` frees; to free a structure that is not live is a
  -- fault.
  pub finish_unit : ℕ → Option (List ℕ) → Plugin ops os → Run (Plugin ops os)
  finish_unit links input p =
      if p.has_nodes
      then (do
        left ← pmap_nodes_finish ops links p.walk_data.extra.pm_nodes
        ok (
            say (codes "' finished unit: " ++ (unit_name input ++ codes "\n"))
              (record p { has_nodes = left.live; left = some left; sys = closed os p.fd p.sys })))
      else fault

  -- Behind the dump of a function: its text is written with one call, whose result is not read.
  pub handed : Plugin ops os → Run (Option (List ℕ) × Pdata (AstState ops)) → Run (Plugin ops os)
  handed p fault = fault
  handed p (ok (none, d)) = ok (record p { walk_data = d })
  handed p (ok (some text, d)) = ok (record p { walk_data = d; sys = (os.write p.fd text p.sys).1 })

  module _ (g : Tree.Gcc) (visit : ℕ → AstAct ops (Unit {0})) (links : ℕ) where
    abbrev pub main_at :
        ℕ → Options → Compiled → Pdata (AstState ops) → Run (Option (List ℕ) × Pdata (AstState ops))
    main_at errorcount o c =
        ahaggar_ast_main ops g visit links (not (errorcount + c.errors == 0)) o.only_main
          c.main_input c.fn

    -- The callback for PLUGIN_PRE_GENERICIZE. It may number nodes, so that to run it without a live
    -- structure for them is a fault.
    pub pre_genericize : Compiled → Plugin ops os → Run (Plugin ops os)
    pre_genericize c p =
        if p.has_nodes
        then handed (record p { errorcount = p.errorcount + c.errors })
            (main_at p.errorcount p.options c p.walk_data)
        else fault

    pub each_function : List Compiled → Plugin ops os → Run (Plugin ops os)
    each_function [] p = ok p
    each_function (c ∷ more) p = do q ← pre_genericize c p; each_function more q

  -- The data of a plugin that was set to 0 and filled in; GCC's error count and the system are as they
  -- are.
  pub ast_init : List ℕ → ℕ → os.State → Plugin ops os
  ast_init base_name errorcount s = record {
    plugin_name = take (path_max - 1) base_name;
    options = record { to_files = false; only_main = false };
    fd = pos 0;
    errorcount = errorcount;
    has_nodes = false;
    left = none;
    walk_data = record {
      indent_level = 0;
      flags = record no_flags { verbose = true };
      calls = [];
      extra = record {
        is_expr = false;
        print_location = false;
        symbol_prefix = [];
        pm_nodes = pmap_nodes_init ops;
      };
    };
    sys = s;
  }

-- The events that the plugin asks for.
pub data Callback : Type 0 where
  plugin_info plugin_start_unit plugin_finish_unit plugin_pre_genericize plugin_finish : Callback

-- What `plugin_init` leaves: its result, the plugin unless it was freed, and the callbacks.
pub record Registered (ops : TableOps) (os : Os) : Type 0 where
  pub result : ℤ
  pub plugin : Option (Plugin ops os)
  pub callbacks : List Callback
  pub errorcount : ℕ
  pub sys : os.State

-- The argument at which `ast_plugin_process_args` stops.
pub unknown_key : List Argument → List ℕ
unknown_key [] = []
unknown_key (a ∷ more) =
    let rest = unknown_key more in
    if same_text a.key (codes "output") || same_text a.key (codes "unit") then rest else a.key

module _ (ops : TableOps) (os : Os) where
  abbrev pub refused_start : Plugin ops os → Registered ops os
  refused_start p = record {
    result = negsuc 0;
    plugin = none;
    callbacks = [];
    errorcount = p.errorcount;
    sys = p.sys;
  }

  -- The arguments were read to the options `o`; on an error two messages are given, and `ast_finish`
  -- frees the plugin.
  pub with_args : List Argument → Plugin ops os → ℤ × Options → Registered ops os
  with_args args p (ret, o) =
      if is_zero ret
      then record {
        result = pos 0;
        plugin = some (record p { options = o });
        callbacks =
            plugin_info ∷ plugin_start_unit ∷ plugin_finish_unit ∷ plugin_pre_genericize
            ∷ plugin_finish ∷ [];
        errorcount = p.errorcount;
        sys = p.sys;
      }
      else refused_start (
          complain ops os (codes "GCC plugin: args and initialization failed") (
            complain ops os
              (codes "unkown option '-fplugin-arg-"
                ++ (p.plugin_name ++ (codes "-" ++ (unknown_key args ++ codes "'"))))
              p))

  -- `same_version` is what `plugin_default_version_check` gives.
  pub plugin_init : Bool → List ℕ → List Argument → ℕ → os.State → Run (Registered ops os)
  plugin_init same_version base_name args errorcount s =
      let p = ast_init ops os base_name errorcount s in
      if same_version
      then (do r ← ast_plugin_process_args args p.options; ok (with_args args p r))
      else ok (refused_start (complain ops os (codes "incompatible gcc/plugin versions") p))

  -- `ast_finish`: the plugin is freed; to free it twice is a fault.
  pub ast_finish : Option (Plugin ops os) → Run (Option (Plugin ops os))
  ast_finish none = fault
  ast_finish (some p) = ok none
