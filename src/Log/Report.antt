-- ===== src/Log/Report.antt =====
-- log.c: what a line of a report leaves in the log.
use ahaggar.Base.{
  ℕ, zero, suc, ◌≡◌, ◌≢◌, ◌<◌, ◌≤◌, length, refl, ◌∙◌, sym, ap, Bool, true, false, List, [], ◌∷◌,
  ◌++◌, append-nil, append_assoc, take, ℤ, pos, negsuc, codes, arith,
}
use ahaggar.Log.{
  Os, IsLawful, Took, stderr_fileno, write_log, end_line, report_formatted, report_behind, report,
}
use ahaggar.Log.Written.{IsComplete, Wrote, write_lem, write_log_lem, write_log-Wrote}

-- A line break is written behind a text that is not empty.
abbrev pub line_end : List ℕ → List ℕ
line_end [] = []
line_end (c ∷ text) = codes "\n"

-- The bytes that a result of `write` counts.
abbrev pub count_of : ℤ → ℕ
count_of (pos n) = n
count_of (negsuc n) = 0

module _ (os : Os) (law : IsLawful os) (fd : ℤ) (not_stderr : fd ≢ stderr_fileno) where
  open os use {State, written}

  -- The parts of a line that a log has taken: `a` bytes of the prefix, `b` of the text, and `c` of the
  -- line break.
  pub record Reported (prefix text : List ℕ) (s s' : State) : Type 0 where
    pub a : ℕ
    pub b : ℕ
    pub c : ℕ
    pub took :
        written s' fd
        ≡ written s fd
          ++ (take a (prefix ++ codes ": report: ") ++ (take b text ++ take c (codes "\n")))
    pub few : b ≤ length text
    pub ended : 0 < c → 0 < b
    pub head : a ≡ count_of (write_log os fd (prefix ++ codes ": report: ") s).0

  -- The state behind the prefix.
  record Prefixed (prefix : List ℕ) (s s' : State) : Type 0 where
    a : ℕ
    took : written s' fd ≡ written s fd ++ take a (prefix ++ codes ": report: ")
    head : a ≡ count_of (write_log os fd (prefix ++ codes ": report: ") s).0

  module _ (prefix text : List ℕ) (s : State) where
    stopped : (t : State) (h : Prefixed prefix s t) → Reported prefix text s t
    stopped t h = record {
      a = h.a;
      b = 0;
      c = 0;
      took = h.took ∙ ap (λ w. written s fd ++ w) (sym (append-nil _));
      few = omega arith;
      ended = λ p. p;
      head = h.head;
    }

    behind_text :
        (t u : State) (n : ℕ) (h : Prefixed prefix s t)
        → n ≤ length text
        → written u fd ≡ written t fd ++ take n text
        → Reported prefix text s u
    behind_text t u n h l e = record {
      a = h.a;
      b = n;
      c = 0;
      took =
          e
          ∙ ap (λ w. w ++ take n text) h.took
          ∙ append_assoc (written s fd) _ _
          ∙ ap (λ w. written s fd ++ (take h.a (prefix ++ codes ": report: ") ++ w))
              (sym (append-nil _));
      few = l;
      ended = λ p. absurd (omega arith);
      head = h.head;
    }

    behind_break :
        (t u : State) (n : ℕ) (h : Prefixed prefix s t) (r : ℤ × State)
        → suc n ≤ length text
        → written u fd ≡ written t fd ++ take (suc n) text
        → Took os fd (codes "\n") u r
        → Reported prefix text s r.1
    behind_break t u n h (negsuc m, v) few e k = behind_text t v (suc n) h few (k ∙ e)
    behind_break t u n h (pos m, v) few e (l, k) = record {
      a = h.a;
      b = suc n;
      c = m;
      took =
          k
          ∙ ap (λ w. w ++ take m (codes "\n")) (e ∙ ap (λ w. w ++ take (suc n) text) h.took)
          ∙ append_assoc (written s fd ++ take h.a _) _ _
          ∙ append_assoc (written s fd) _ _;
      few = few;
      ended = λ p. omega arith;
      head = h.head;
    }

    end_line_lem :
        (t u : State) (h : Prefixed prefix s t) (r : ℤ × State)
        → Took os fd text t r
        → Reported prefix text s (end_line os fd r)
    unfolding end_line
    end_line_lem t u h (pos zero, v) (l, k) = behind_text t v 0 h l k
    end_line_lem t u h (pos (suc n), v) (l, k) =
        behind_break t v n h _ l k (write_log_lem os law fd not_stderr (codes "\n") v)
    end_line_lem t u h (negsuc n, v) k =
        stopped v (record { a = h.a; took = k ∙ h.took; head = h.head })

    report_formatted_lem :
        (h : (t : State) × Prefixed prefix s t) (r : Bool × State)
        → written r.1 fd ≡ written h.0 fd
        → Reported prefix text s (report_formatted os fd text r)
    unfolding report_formatted
    report_formatted_lem (t, h) (true, u) e =
        end_line_lem u u (record { a = h.a; took = e ∙ h.took; head = h.head }) _
          (law.took fd text u)
    report_formatted_lem (t, h) (false, u) e =
        stopped u (record { a = h.a; took = e ∙ h.took; head = h.head })

    report_behind_lem :
        (r : ℤ × State)
        → write_log os fd (prefix ++ codes ": report: ") s ≡ r
        → Took os fd (prefix ++ codes ": report: ") s r
        → Reported prefix text s (report_behind os fd text r)
    unfolding report_behind
    report_behind_lem (pos n, t) e (l, k) =
        report_formatted_lem (t, record { a = n; took = k; head = ap (λ r. count_of r.0) (sym e) })
          _ (law.kept-vasprintf text fd t)
    report_behind_lem (negsuc n, t) e k =
        stopped t
          (record { a = 0; took = k ∙ sym (append-nil _); head = ap (λ r. count_of r.0) (sym e) })

    -- However the calls of the system end, report adds to a log that is not standard error as many
    -- bytes of the prefix as the write of it took, then some first bytes of the text, which are no more
    -- than it has, and then at most a line break, that only if it took a byte of the text.
    pub report_lem : Reported prefix text s (report os fd prefix text s)
    unfolding report
    report_lem = report_behind_lem _ refl (write_log_lem os law fd not_stderr _ s)

  module _ (whole : IsComplete os fd) where
    end_line-whole :
        (text : List ℕ) (t : State) (r : ℤ × State)
        → Wrote os law fd not_stderr whole text t r
        → written (end_line os fd r) fd ≡ (written t fd ++ text) ++ line_end text
    unfolding end_line
    end_line-whole [] t (pos zero, v) (e, k) = k ∙ sym (append-nil _)
    end_line-whole (c ∷ text) t (pos zero, v) (e, k) = absurd cc
    end_line-whole [] t (pos (suc n), v) (e, k) = absurd cc
    end_line-whole (c ∷ text) t (pos (suc n), v) (e, k) =
        (write_log-Wrote os law fd not_stderr whole (codes "\n") v).1 ∙ ap (λ w. w ++ codes "\n") k
    end_line-whole text t (negsuc n, v) (e, k) = absurd cc

    report_formatted-whole :
        (text : List ℕ) (t : State) (r : Bool × State)
        → r.0 ≡ true
        → written r.1 fd ≡ written t fd
        → written (report_formatted os fd text r) fd ≡ (written t fd ++ text) ++ line_end text
    unfolding report_formatted
    report_formatted-whole text t (true, u) e k =
        end_line-whole text u _ (write_lem os law fd not_stderr whole text u)
        ∙ ap (λ w. (w ++ text) ++ line_end text) k
    report_formatted-whole text t (false, u) e k = absurd cc

    report_behind-whole :
        (head text : List ℕ) (s : State) (r : ℤ × State)
        → Wrote os law fd not_stderr whole head s r
        → written (report_behind os fd text r) fd
          ≡ ((written s fd ++ head) ++ text) ++ line_end text
    unfolding report_behind
    report_behind-whole head text s (pos n, t) (e, k) =
        report_formatted-whole text t _ (whole.memory text t) (law.kept-vasprintf text fd t)
        ∙ ap (λ w. (w ++ text) ++ line_end text) k
    report_behind-whole head text s (negsuc n, t) (e, k) = absurd cc

    -- Where writes to a log that is not standard error take all their bytes and there is memory, report
    -- adds the prefix, the text and a line break; behind an empty text there is no line break.
    pub report-whole :
        (prefix text : List ℕ) (s : State)
        → written (report os fd prefix text s) fd
          ≡ ((written s fd ++ (prefix ++ codes ": report: ")) ++ text) ++ line_end text
    unfolding report
    report-whole prefix text s =
        report_behind-whole _ text s _ (write_log-Wrote os law fd not_stderr whole _ s)
