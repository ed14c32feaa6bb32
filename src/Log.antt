-- ===== src/Log.antt =====
-- log.c and gcc-log.c: the log file of a unit, and messages. The operating system, the formatting of
-- the C library and GCC's diagnostics are a parameter, Os: each call changes a state that is not
-- known. A format with its arguments enters as the text that it stands for.
pub mod Written
pub mod Report
pub mod Session
pub mod Tests
use ahaggar.Base.{
  ℕ, zero, suc, ◌+◌, ◌*◌, ◌≡◌, ◌≢◌, ◌≤◌, Bool, true, false, Option, none, some, List, ◌++◌, codes,
  length, take, ℤ, pos, negsuc, if◌then◌else◌,
}

-- `DK_ERROR`, `DK_WARNING`
pub data Kind : Type 0 where
  dk_error dk_warning : Kind

-- `lstat` gives the field `st_mode`, or `none` for an error. `vasprintf` tells whether there is memory
-- for the text. `print_error` is `fprintf` on stderr, whose result is not read. `pad_three` is "%03d".
-- `written` are the bytes that a descriptor has taken since it was opened; no code reads it.
pub record Os : Type 1 where
  pub State : Type 0
  pub lstat : List ℕ → State → Option ℕ
  pub unlink : List ℕ → State → State
  pub open_file : List ℕ → ℕ → State → ℤ × State
  pub close : ℤ → State → ℤ × State
  pub fsync : ℤ → State → ℤ × State
  pub write : ℤ → List ℕ → State → ℤ × State
  pub vasprintf : List ℕ → State → Bool × State
  pub print_error : List ℕ → State → State
  pub diagnose : Kind → List ℕ → State → State
  pub pad_three : ℕ → List ℕ
  pub written : State → ℤ → List ℕ

-- `STDERR_FILENO`
abbrev pub stderr_fileno : ℤ
stderr_fileno = pos 2

module _ (os : Os) where
  open os use {State, written}

  -- `write` fails and writes nothing, or takes as many of the first bytes as it returns.
  abbrev pub Took : ℤ → List ℕ → State → ℤ × State → Type 0
  Took fd text s (pos n, s') = (n ≤ length text) × (written s' fd ≡ written s fd ++ take n text)
  Took fd text s (negsuc n, s') = written s' fd ≡ written s fd

  -- `open` with `O_TRUNC` fails, or gives a descriptor of an empty file.
  abbrev pub OpensEmpty : ℤ × State → Type 0
  OpensEmpty (pos n, s) = written s (pos n) ≡ List.[]
  OpensEmpty (negsuc n, s) = Unit

-- What the code relies on: no call but `write` and `open` changes what a descriptor has taken, except
-- that messages may go to the descriptor of stderr.
pub record IsLawful (os : Os) : Type 0 where
  pub took : (fd : ℤ) (text : List ℕ) (s : os.State) → Took os fd text s (os.write fd text s)
  pub opens : (path : List ℕ) (mode : ℕ) (s : os.State) → OpensEmpty os (os.open_file path mode s)
  pub kept-close : (a fd : ℤ) (s : os.State) → os.written (os.close a s).1 fd ≡ os.written s fd
  pub kept-fsync : (a fd : ℤ) (s : os.State) → os.written (os.fsync a s).1 fd ≡ os.written s fd
  pub kept-vasprintf :
      (text : List ℕ) (fd : ℤ) (s : os.State)
      → os.written (os.vasprintf text s).1 fd ≡ os.written s fd
  pub kept-print_error :
      (text : List ℕ) (fd : ℤ) (s : os.State)
      → fd ≢ stderr_fileno
      → os.written (os.print_error text s) fd ≡ os.written s fd

-- A text that is allocated, or NULL.
abbrev pub text_or_null : {S : Type 0} → List ℕ → Bool × S → Option (List ℕ) × S
text_or_null text (true, s) = (some text, s)
text_or_null text (false, s) = (none, s)

module _ (os : Os) where
  open os use {State}

  -- `S_IRUSR|S_IWUSR|S_IRGRP|S_IROTH`, which is 0644.
  abbrev pub default_perms : ℕ
  default_perms = 6 * 64 + 4 * 8 + 4

  pub mode_or_default : Option ℕ → ℕ
  mode_or_default none = default_perms
  mode_or_default (some st_mode) = st_mode

  pub get_file_perms : Option (List ℕ) → State → ℕ
  get_file_perms none s = default_perms
  get_file_perms (some source) s = mode_or_default (os.lstat source s)

  abbrev pub log_file_name : List ℕ → ℕ → List ℕ → List ℕ
  log_file_name source pass suffix =
      source ++ (codes "." ++ (os.pad_three pass ++ (codes "." ++ suffix)))

  pub get_logname : Option (List ℕ) → ℕ → List ℕ → State → Option (List ℕ) × State
  get_logname none pass suffix s = (none, s)
  get_logname (some source) pass suffix s =
      let file = log_file_name source pass suffix in text_or_null file (os.vasprintf file s)

  -- A file that `lstat` finds is unlinked.
  pub unlink_found : List ℕ → Option ℕ → State → State
  unlink_found filename none s = s
  unlink_found filename (some st_mode) s = os.unlink filename s

  pub open_log : List ℕ → ℕ → State → ℤ × State
  open_log filename mode s =
      os.open_file filename mode (unlink_found filename (os.lstat filename s) s)

  pub close_log : ℤ → State → ℤ × State
  close_log fd s = os.close fd s

  pub fsync_log : ℤ → State → ℤ × State
  fsync_log fd s = os.fsync fd s

  -- `error:` in `write_log`
  pub log_failed : ℤ → State → ℤ × State
  log_failed ret s =
      (ret, os.print_error (codes "Error: failed to log data in log.c:write_log()\n") s)

  pub log_result : ℤ × State → ℤ × State
  log_result (pos n, s) = (pos n, s)
  log_result (negsuc n, s) = log_failed (negsuc n) s

  pub write_formatted : ℤ → List ℕ → Bool × State → ℤ × State
  write_formatted fd text (true, s) = log_result (os.write fd text s)
  write_formatted fd text (false, s) = log_failed (negsuc 0) s

  pub write_log : ℤ → List ℕ → State → ℤ × State
  write_log fd text s = write_formatted fd text (os.vasprintf text s)

  -- `if (ret > 0) write_log(fd, "\n");`
  pub end_line : ℤ → ℤ × State → State
  end_line fd (pos zero, s) = s
  end_line fd (pos (suc n), s) = (write_log fd (codes "\n") s).1
  end_line fd (negsuc n, s) = s

  pub report_formatted : ℤ → List ℕ → Bool × State → State
  report_formatted fd text (true, s) = end_line fd (os.write fd text s)
  report_formatted fd text (false, s) = s

  pub report_behind : ℤ → List ℕ → ℤ × State → State
  report_behind fd text (pos n, s) = report_formatted fd text (os.vasprintf text s)
  report_behind fd text (negsuc n, s) = s

  pub report : ℤ → List ℕ → List ℕ → State → State
  report fd prefix text s = report_behind fd text (write_log fd (prefix ++ codes ": report: ") s)

  -- `if (str) fprintf(stderr, ...)`
  pub headed : Option (List ℕ) → List ℕ → State → State
  headed none text s = s
  headed (some str) text s = os.print_error (str ++ text) s

  -- `__error` and `__warning`
  pub error : Option (List ℕ) → List ℕ → State → State
  error str text s = os.diagnose dk_error text (headed str (codes ": error:\n") s)

  pub warning : Option (List ℕ) → List ℕ → State → State
  warning str text s = os.diagnose dk_warning text (headed str (codes ": warning:\n") s)
