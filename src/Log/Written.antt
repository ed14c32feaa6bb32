-- ===== src/Log/Written.antt =====
-- log.c: what a write to the log leaves in it.
use ahaggar.Base.{
  ℕ, ◌≡◌, ◌≢◌, ◌∙◌, sym, ap, refl, Bool, true, false, some, List, [], ◌++◌, take, length, take_all,
  ℤ, pos, negsuc, arith,
}
use ahaggar.Log.{
  Os, IsLawful, Took, OpensEmpty, stderr_fileno, log_result, log_failed, write_formatted, write_log,
  open_log, close_log, fsync_log, unlink_found, get_logname, log_file_name, text_or_null,
}

module _ (os : Os) (law : IsLawful os) (fd : ℤ) (not_stderr : fd ≢ stderr_fileno) where
  open os use {State, written}

  log_failed_lem : (ret : ℤ) (s : State) → written (log_failed os ret s).1 fd ≡ written s fd
  unfolding log_failed
  log_failed_lem ret s = law.kept-print_error _ fd s not_stderr

  log_result_lem :
      (text : List ℕ) (s : State) (r : ℤ × State)
      → Took os fd text s r
      → Took os fd text s (log_result os r)
  unfolding log_result log_failed
  log_result_lem text s (pos n, s') h = h
  log_result_lem text s (negsuc n, s') h = law.kept-print_error _ fd s' not_stderr ∙ h

  Took-from :
      (text : List ℕ) (s s' : State) (r : ℤ × State)
      → written s' fd ≡ written s fd
      → Took os fd text s' r
      → Took os fd text s r
  Took-from text s s' (pos n, t) e (h, k) = (h, k ∙ ap (λ w. w ++ take n text) e)
  Took-from text s s' (negsuc n, t) e k = k ∙ e

  write_formatted_lem :
      (text : List ℕ) (s : State) (r : Bool × State)
      → written r.1 fd ≡ written s fd
      → Took os fd text s (write_formatted os fd text r)
  unfolding write_formatted log_failed
  write_formatted_lem text s (true, s') e =
      Took-from text s s' _ e (log_result_lem text s' _ (law.took fd text s'))
  write_formatted_lem text s (false, s') e = law.kept-print_error _ fd s' not_stderr ∙ e

  -- write_log takes as many of the first bytes of its text as it returns.
  pub write_log_lem : (text : List ℕ) (s : State) → Took os fd text s (write_log os fd text s)
  unfolding write_log
  write_log_lem text s =
      write_formatted_lem text s (os.vasprintf text s) (law.kept-vasprintf text fd s)

-- Writes to the descriptor take all their bytes, and there is memory.
pub record IsComplete (os : Os) (fd : ℤ) : Type 0 where
  pub all_bytes : (text : List ℕ) (s : os.State) → (os.write fd text s).0 ≡ pos (length text)
  pub memory : (text : List ℕ) (s : os.State) → (os.vasprintf text s).0 ≡ true

allocated_lem :
    {S : Type 0} (text : List ℕ) (r : Bool × S)
    → r.0 ≡ true
    → (text_or_null text r) ≡ (some text, r.1)
allocated_lem text (true, s) e = refl
allocated_lem text (false, s) e = absurd cc

pos-injective : (m n : ℕ) → pos m ≡ pos n → m ≡ n
pos-injective m n e = cc

module _ (os : Os) (law : IsLawful os) (fd : ℤ) (not_stderr : fd ≢ stderr_fileno)
    (whole : IsComplete os fd) where
  open os use {State, written}

  -- What is behind a write that took all its bytes.
  abbrev pub Wrote : List ℕ → State → ℤ × State → Type 0
  Wrote text s r = (r.0 ≡ pos (length text)) × (written r.1 fd ≡ written s fd ++ text)

  Took-Wrote :
      (text : List ℕ) (s : State) (r : ℤ × State)
      → r.0 ≡ pos (length text)
      → Took os fd text s r
      → Wrote text s r
  Took-Wrote text s (pos n, s') e (h, k) =
      (e, k ∙ ap (λ t. written s fd ++ t) (take_all text n (omega (arith, pos-injective n _ e))))
  Took-Wrote text s (negsuc n, s') e k = absurd cc

  pub write_lem : (text : List ℕ) (s : State) → Wrote text s (os.write fd text s)
  write_lem text s = Took-Wrote text s _ (whole.all_bytes text s) (law.took fd text s)

  log_result-Wrote :
      (text : List ℕ) (s : State) (r : ℤ × State) → Wrote text s r → Wrote text s (log_result os r)
  unfolding log_result
  log_result-Wrote text s (pos n, s') h = h
  log_result-Wrote text s (negsuc n, s') (e, k) = absurd cc

  write_formatted-Wrote :
      (text : List ℕ) (s : State) (r : Bool × State)
      → r.0 ≡ true
      → written r.1 fd ≡ written s fd
      → Wrote text s (write_formatted os fd text r)
  unfolding write_formatted
  write_formatted-Wrote text s (true, s') e k =
      let (h, w) = log_result-Wrote text s' _ (write_lem text s') in (h, w ∙ ap (λ t. t ++ text) k)
  write_formatted-Wrote text s (false, s') e k = absurd cc

  pub write_log-Wrote : (text : List ℕ) (s : State) → Wrote text s (write_log os fd text s)
  unfolding write_log
  write_log-Wrote text s =
      write_formatted-Wrote text s _ (whole.memory text s) (law.kept-vasprintf text fd s)

  pub get_logname-whole :
      (source : List ℕ) (pass : ℕ) (suffix : List ℕ) (s : State)
      → (t : State) × (get_logname os (some source) pass suffix s
          ≡ (some (log_file_name os source pass suffix), t))
  unfolding get_logname
  get_logname-whole source pass suffix s =
      let file = log_file_name os source pass suffix in
      ((os.vasprintf file s).1, allocated_lem file _ (whole.memory file s))

module _ (os : Os) (law : IsLawful os) where
  opens_at :
      (r : ℤ × os.State) (n : ℕ)
      → r.0 ≡ pos n
      → OpensEmpty os r
      → (t : os.State) × (r ≡ (pos n, t)) × (os.written t (pos n) ≡ [])
  opens_at (pos m, s) n e h = (s, ap (λ z. (z, s)) e, ap (os.written s) (sym e) ∙ h)
  opens_at (negsuc m, s) n e h = absurd cc

  open os use {State, written}

  pub open_log_lem :
      (filename : List ℕ) (mode n : ℕ) (s : State)
      → ((path : List ℕ) (mode : ℕ) (s : State) → (os.open_file path mode s).0 ≡ pos n)
      → (t : State) × (open_log os filename mode s ≡ (pos n, t)) × (written t (pos n) ≡ [])
  unfolding open_log
  open_log_lem filename mode n s opens =
      let s' = unlink_found os filename (os.lstat filename s) s in
      opens_at (os.open_file filename mode s') n (opens filename mode s')
        (law.opens filename mode s')

  pub close_log-fsync_log :
      (a fd : ℤ) (s : State) → written (close_log os a (fsync_log os a s).1).1 fd ≡ written s fd
  unfolding close_log fsync_log
  close_log-fsync_log a fd s = law.kept-close a fd _ ∙ law.kept-fsync a fd s
