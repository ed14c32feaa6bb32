-- ===== src/Ast/Unit/Start.antt =====
-- ahaggar-ast.c: what plugin_init does on each of its ways.
use ahaggar.Base.{
  ℕ, ◌<◌, ◌≡◌, refl, ap, Bool, true, false, none, some, List, [], ◌∷◌, ok, ◌>>=◌, ◌&&◌, pos, negsuc,
  if◌then◌else◌, arith,
}
use ahaggar.Cache.{TableOps}
use ahaggar.Log.{Os}
use ahaggar.Ast.Options.{Argument}
use ahaggar.Ast.Options.Known.{HaveValues, all_known, accepted, set_by, ast_plugin_process_args_lem}
use ahaggar.Ast.Unit.{
  Plugin, Registered, plugin_info, plugin_start_unit, plugin_finish_unit, plugin_pre_genericize,
  plugin_finish, ast_init, complain, with_args, plugin_init,
}

module _ (ops : TableOps) (os : Os) (base_name : List ℕ) (args : List Argument) (errorcount : ℕ)
    (s : os.State) where
  -- The plugin that is registered.
  abbrev pub ready : Plugin ops os
  ready =
      let p = ast_init ops os base_name errorcount s in
      record p { options = set_by (accepted args) p.options }

  -- Whether it was registered, or refused with an error.
  abbrev pub Answers : Bool → Registered ops os → Type 0
  Answers true r =
      (r.result ≡ pos 0)
      × (r.plugin ≡ some ready)
      × (r.callbacks
          ≡ plugin_info ∷ plugin_start_unit ∷ plugin_finish_unit ∷ plugin_pre_genericize
            ∷ plugin_finish ∷ [])
      × (r.errorcount ≡ errorcount)
      × (r.sys ≡ s)
  Answers false r =
      (r.result ≡ negsuc 0) × (r.plugin ≡ none) × (r.callbacks ≡ []) × (errorcount < r.errorcount)

  with_args-Answers :
      (known : Bool)
      → Answers known (
          with_args ops os args (ast_init ops os base_name errorcount s) (
            if known then pos 0 else negsuc 0,
            set_by (accepted args) (ast_init ops os base_name errorcount s).options,
          ))
  unfolding with_args complain ast_init
  with_args-Answers true = (refl, refl, refl, refl, refl)
  with_args-Answers false = (refl, refl, refl, omega arith)

  -- Where every argument has a value, plugin_init returns. If the versions agree and the key of every
  -- argument is output or unit, it returns 0, leaves the system and the error count as they were,
  -- registers its five callbacks, each once, and the plugin has the options that the arguments ask
  -- for. If not, it returns -1, registers nothing, has counted an error and has freed the plugin.
  pub plugin_init_lem :
      (same_version : Bool)
      → HaveValues args
      → (r : Registered ops os) × (plugin_init ops os same_version base_name args errorcount s
          ≡ ok r)
        × Answers (same_version && all_known args) r
  unfolding plugin_init complain ast_init
  plugin_init_lem true values = (
    _,
    ap (λ r. r >>= λ a. ok (with_args ops os args (ast_init ops os base_name errorcount s) a))
        (ast_plugin_process_args_lem args _ values),
    with_args-Answers (all_known args),
  )
  plugin_init_lem false values = (_, refl, (refl, refl, refl, omega arith))
