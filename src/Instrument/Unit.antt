-- ===== src/Instrument/Unit.antt =====
-- ahaggar-xinstrument.c: the callbacks of the plugin, from its start to its end. It has no log file:
-- what it prints goes to standard error.
use ahaggar.Base.{
  ℕ, ◌-◌, ◌≡◌, refl, Bool, Option, none, some, List, [], ◌∷◌, ◌++◌, if◌then◌else◌, codes, take, ℤ,
  pos, negsuc, Run, ok, fault,
}
use ahaggar.Log.Session.{header, unit_name, closed, path_max}
use ahaggar.Log.{Os, dk_error, stderr_fileno, write_log}

module _ (os : Os) where
  -- The fields of `struct plugin_data` that this plugin uses, and the state of the system.
  pub record Plugin : Type 0 where
    pub plugin_name : List ℕ
    pub fd : ℤ
    pub sys : os.State

  -- `fprintf(stderr, "GCC plugin '%s'...", ahg->plugin_name, ...)`
  pub say : List ℕ → List ℕ → Plugin → Plugin
  say head text p = record p {
    sys = os.print_error (head ++ (codes "GCC plugin '" ++ (p.plugin_name ++ text))) p.sys;
  }

  pub start_unit : Option (List ℕ) → Plugin → Plugin
  start_unit input p =
      say [] (codes "' processing unit: " ++ (unit_name input ++ codes "\n"))
        (record p { fd = stderr_fileno; sys = (write_log os stderr_fileno header p.sys).1 })

  pub finish_unit : Option (List ℕ) → Plugin → Plugin
  finish_unit input p =
      say (codes "\n") (codes "' finished unit: " ++ (unit_name input ++ codes "\n"))
        (record p { sys = closed os p.fd p.sys })

  pub ahaggar_xinstrument_init : List ℕ → os.State → Plugin
  ahaggar_xinstrument_init base_name s = record {
    plugin_name = take (path_max - 1) base_name;
    fd = pos 0;
    sys = s;
  }

  -- The plugin is freed; to free it twice is a fault.
  pub ahaggar_fncalls_finish : Option Plugin → Run (Option Plugin)
  ahaggar_fncalls_finish none = fault
  ahaggar_fncalls_finish (some p) = ok none

-- The events that the plugin asks for; the pass comes behind the one that builds SSA form.
pub data Callback : Type 0 where
  plugin_info plugin_start_unit plugin_finish_unit plugin_pass_manager_setup plugin_finish :
      Callback

module _ (os : Os) where
  -- The result, the plugin, the callbacks and the state; `same_version` is what
  -- `plugin_default_version_check` gives. `xmalloc` never gives NULL.
  pub plugin_init : Bool → List ℕ → os.State → ℤ × Option (Plugin os) × List Callback × os.State
  plugin_init same_version base_name s =
      if same_version
      then (
        pos 0,
        some (ahaggar_xinstrument_init os base_name s),
        plugin_info ∷ plugin_start_unit ∷ plugin_finish_unit ∷ plugin_pass_manager_setup
            ∷ plugin_finish ∷ [],
        s,
      )
      else (negsuc 0, none, [], os.diagnose dk_error (codes "incompatible gcc/plugin versions") s)

  -- A unit is finished without closing or synchronising a descriptor, also that of the fresh plugin.
  pub finish_unit-start_unit :
      (input : Option (List ℕ)) (p : Plugin os)
      → finish_unit os input (start_unit os input p)
        ≡ say os
            (codes "\n")
            (codes "' finished unit: " ++ (unit_name input ++ codes "\n"))
            (start_unit os input p)
  unfolding finish_unit start_unit say closed
  finish_unit-start_unit input p = refl
