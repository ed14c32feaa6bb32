-- ===== src/Match/Targets.antt =====
-- The headers of fncalls_checks/ that fncalls-match.c can include in its tables: the functions to
-- look out for. `{ NULL }`, which ends an array of patterns, is a pattern that is not active.
pub mod Filled
pub mod Listed
use ahaggar.Base.{ℕ, Bool, true, false, Option, none, some, List, [], ◌∷◌, ◌++◌, codes}
use Prim.Native.String.{String}
use ahaggar.Checks.Sizes.{
  Parsed, memset_chk_size, memcpy_chk_size, strncpy_chk_size, strncat_chk_size, memmove_chk_size,
  malloc_chk_size, strndup_chk_size, strndupa_chk_size, kmalloc_chk_size, kzalloc_chk_size,
}
use ahaggar.Checks.Open.{open_assumes_file_exists, open_needs_mode_arg, open_chk_flag_mode}
use ahaggar.Match.{
  Libs, HashId, errors_id, warns_id, reports_id, Matcher, PatternMatch, Target, HashFunctions,
}

module _ (libs : Libs) where
  -- A pattern of which every field is 0.
  abbrev pub no_pattern : PatternMatch libs
  no_pattern = record {
    args = none;
    all = none;
    c_args = none;
    c_all = none;
    force_match = false;
    flags = 0;
    match_args_func = none;
    match_all_func = none;
    msg = none;
    msg_nomatch = none;
    msg_extra = false;
    active = false;
  }

  abbrev forced : String → PatternMatch libs
  forced msg = record no_pattern { active = true; force_match = true; msg = some (codes msg) }

  abbrev if_args : String → String → PatternMatch libs
  if_args args msg = record no_pattern {
    active = true;
    args = some (codes args);
    msg = some (codes msg);
  }

  abbrev unless_args : String → String → PatternMatch libs
  unless_args args msg = record no_pattern {
    active = true;
    args = some (codes args);
    msg_nomatch = some (codes msg);
  }

  abbrev by_check : Matcher → ℕ → PatternMatch libs
  by_check check flags = record no_pattern {
    active = true;
    flags = flags;
    match_args_func = some check;
  }

  -- A target without patterns, and one with a pattern.
  abbrev bare : String → Target libs
  bare name = record { name = some (codes name); patterns = none }

  abbrev target : String → PatternMatch libs → Target libs
  target name pm = record { name = some (codes name); patterns = some (pm ∷ no_pattern ∷ []) }

  abbrev checked : String → Matcher → Target libs
  checked name check = target name (by_check check 0)

  -- api-warnings.h, up to `strcat`
  pub dangerous_functions : List (Target libs)
  dangerous_functions =
      target "reboot" (forced "do not use the reboot system call.")
      ∷ target "gets" (forced "the 'gets' function is dangerous and should not be used.")
      ∷ target "getwd" (forced "the 'getwd' function is dangerous and should not be used.")
      ∷ target "realpath" (forced "the 'realpath' function is dangerous and should not be used.")
      ∷ target "mktemp" (forced "the 'mktemp' function is dangerous and should not be used.")
      ∷ target "tmpnam" (forced "the 'tmpnam' function is dangerous and should not be used.")
      ∷ target "tempnam" (forced "the 'tempnam' function is dangerous and should not be used.")
      ∷ bare "chmod"
      ∷ target "strcpy" (
          unless_args "^\\(.*, <addr_expr> <string_cst>\\s.*\\)$"
            "function 'strcpy' src argument is not a const")
      ∷ target "strcat" (
          unless_args "^\\(.*, <addr_expr> <string_cst>\\s.*\\)$"
            "function 'strcat' src argument is not a const")
      ∷ []

  -- api-warnings.h, from `bcopy` on
  pub obsolete_functions : List (Target libs)
  obsolete_functions =
      target "bcopy"
        (forced "the 'bcopy' function is obsolete. POSIX.1-2008 removed it specification")
      ∷ target "bzero"
          (forced "the 'bzero' function is obsolete. POSIX.1-2008 removed it specification")
      ∷ target "atoi" (forced "the 'atoi' function does not detect errors")
      ∷ target "atol" (forced "the 'atol' function does not detect errors")
      ∷ target "getpw" (forced "the 'getpw' function is dangerous and should not be used.")
      ∷ target "ulimit" (forced "the 'ulimit' function is marked obsolete by POSIX.1-2008")
      ∷ target "usleep"
          (forced "the 'usleep' function is obsolete. POSIX.1-2008 removed it specification")
      ∷ []

  pub api_warnings : List (Target libs)
  api_warnings = dangerous_functions ++ obsolete_functions

  -- kmalloc-reports.h
  pub kmalloc_reports : List (Target libs)
  kmalloc_reports =
      target "kfree" (
        if_args "^\\(<pointer_type>\\s<integer_cst>\\s0\\)$"
          "function 'kfree' is nop, ptr argument is NULL")
      ∷ []

  -- kmemory-reports.h
  pub kmemory_reports : List (Target libs)
  kmemory_reports =
      bare "copy_from_user"
      ∷ bare "strncpy"
      ∷ bare "memset"
      ∷ bare "memcpy"
      ∷ bare "strncat"
      ∷ bare "__compiletime_size_overflow"
      ∷ bare "__compiletime_ptr_overflow"
      ∷ []

  -- const-reports.h
  pub const_reports : List (Target libs)
  const_reports =
      bare "strncpy"
      ∷ bare "memset"
      ∷ bare "memcpy"
      ∷ bare "strncat"
      ∷ bare "__compiletime_size_overflow"
      ∷ bare "__compiletime_ptr_overflow"
      ∷ []

  module _ (const_str_chk_arg : Matcher) where
    abbrev format : String → ℕ → Target libs
    format name flags = target name (by_check const_str_chk_arg flags)

    -- `const_str_chk_arg` is declared nowhere in the repository.
    -- kformat-warnings.h, up to `bdi_register`
    unfoldable pub message_formats : List (Target libs)
    message_formats =
        format "scnprintf" 3
        ∷ format "DEBUG_ENT" 1
        ∷ format "debugl1" 2
        ∷ format "l3_debug" 2
        ∷ format "seq_printf" 2
        ∷ format "pr_info" 1
        ∷ format "pr_err" 1
        ∷ format "pr_debug" 1
        ∷ format "dev_info" 2
        ∷ format "dev_err" 2
        ∷ format "dev_set_name" 2
        ∷ format "bdi_register" 3
        ∷ []

    -- kformat-warnings.h, from `kthread_create_on_node` to `try_then_request_module`
    unfoldable pub name_formats : List (Target libs)
    name_formats =
        format "kthread_create_on_node" 4
        ∷ format "alloc_workqueue" 1
        ∷ format "__alloc_workqueue_key" 1
        ∷ format "alloc_ordered_workqueue" 1
        ∷ format "kobject_set_name" 2
        ∷ format "try_then_request_module" 2
        ∷ []

    -- kformat-warnings.h, from `HiSax_putstatus` on
    unfoldable pub file_system_formats : List (Target libs)
    file_system_formats =
        format "HiSax_putstatus" 2
        ∷ format "ext3_msg" 3
        ∷ format "ext3_error" 3
        ∷ format "ext3_warning" 3
        ∷ format "__ext4_abort" 4
        ∷ format "__ext4_error" 4
        ∷ format "ext4_error_inode" 5
        ∷ format "ext4_error_file" 5
        ∷ format "ext4_msg" 3
        ∷ format "__ext4_warning" 4
        ∷ []

    unfoldable pub kformat_warnings : List (Target libs)
    kformat_warnings = message_formats ++ (name_formats ++ file_system_formats)

  module _ (strtoul : List ℕ → Parsed) where
    -- mem-warnings.h
    unfoldable pub mem_warnings : List (Target libs)
    mem_warnings =
        checked "memset" (memset_chk_size strtoul)
        ∷ checked "memcpy" (memcpy_chk_size strtoul)
        ∷ checked "strncpy" (strncpy_chk_size strtoul)
        ∷ checked "strncat" (strncat_chk_size strtoul)
        ∷ checked "memmove" (memmove_chk_size strtoul)
        ∷ []

    -- malloc-warnings.h
    unfoldable pub malloc_warnings : List (Target libs)
    malloc_warnings =
        checked "malloc" (malloc_chk_size strtoul)
        ∷ checked "strndup" (strndup_chk_size strtoul)
        ∷ checked "strndupa" (strndupa_chk_size strtoul)
        ∷ target "free" (
            if_args "^\\(<pointer_type>\\s<integer_cst>\\s0\\)$"
              "function 'free' is nop, ptr argument is NULL")
        ∷ []

    -- kmalloc-warnings.h
    unfoldable pub kmalloc_warnings : List (Target libs)
    kmalloc_warnings =
        checked "kmalloc" (kmalloc_chk_size strtoul)
        ∷ checked "kzalloc" (kzalloc_chk_size strtoul)
        ∷ target "kfree" (
            if_args "^\\(<pointer_type>\\s<integer_cst>\\s0\\)$"
              "function 'kfree' is nop, ptr argument is NULL")
        ∷ []

    module _ (strtol : List ℕ → Parsed) (octal : ℕ → List ℕ) where
      pub open_patterns : List (PatternMatch libs)
      open_patterns =
          record (by_check open_assumes_file_exists 0) {
            msg = some (codes "the 'open' function assumes file do exist");
          }
          ∷ record (by_check (open_needs_mode_arg strtol) 0) {
            msg = some (codes "the 'open' function needs the mode argument");
          }
          ∷ by_check (open_chk_flag_mode strtol strtoul octal) 0
          ∷ no_pattern
          ∷ []

      -- file-warnings.h
      unfoldable pub file_warnings : List (Target libs)
      file_warnings =
          record { name = some (codes "open"); patterns = some open_patterns }
          ∷ bare "umask"
          ∷ bare "chmod"
          ∷ []

module _ (libs : Libs) where
  abbrev pub table_of : HashId → List (Target libs) → HashFunctions libs
  table_of id targets = record { id = id; tab = none; targets = targets; mcounter = 0 }

  -- The three tables of fncalls-match.c, for the arrays of targets.
  pub ghash :
      List (Target libs) → List (Target libs) → List (Target libs) → List (HashFunctions libs)
  ghash errors warnings reports =
      table_of errors_id errors ∷ table_of warns_id warnings ∷ table_of reports_id reports ∷ []
