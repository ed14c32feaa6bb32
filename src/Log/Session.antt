-- ===== src/Log/Session.antt =====
-- ahaggar-ast.c and ahaggar-xinstrument.c: what both plugins print and close at the ends of a unit.
use ahaggar.Base.{
  ℕ, ◌==◌, Bool, false, Option, none, some, List, ℤ, pos, negsuc, codes, if◌then◌else◌,
}
use ahaggar.Log.{Os, close_log, fsync_log}

-- AHAGGAR_HEADER and its line break
abbrev pub header : List ℕ
header = codes "#generated by the Ahaggar framework\n"

-- PATH_MAX
abbrev pub path_max : ℕ
path_max = 4096

-- `main_input_filename ? main_input_filename : "-"`
pub unit_name : Option (List ℕ) → List ℕ
unit_name none = codes "-"
unit_name (some file) = file

abbrev pub is_stderr : ℤ → Bool
is_stderr (pos n) = n == 2
is_stderr (negsuc n) = false

-- The log is closed unless it is standard error.
unfoldable pub closed : (os : Os) → ℤ → os.State → os.State
closed os fd s = if is_stderr fd then s else (close_log os fd (fsync_log os fd s).1).1
