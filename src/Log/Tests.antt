-- ===== src/Log/Tests.antt =====
-- A system whose descriptors are streams of bytes, and the theorems at it.
use ahaggar.Base.{
  ℕ, ◌≡◌, ◌≢◌, refl, ap, true, false, some, List, [], ◌++◌, ◌==◌, if◌then◌else◌, length, take_all,
  ℤ, pos, negsuc, codes, arith,
}
use ahaggar.Log.{
  Os, IsLawful, Took, stderr_fileno, report, get_logname, get_file_perms, open_log, unlink_found,
}
use ahaggar.Log.Written.{IsComplete}
use ahaggar.Log.Report.{Reported, report_lem, report-whole}

abbrev pub Streams : Type 0
Streams = ℕ → List ℕ

abbrev append_at : ℕ → List ℕ → Streams → Streams
append_at n text s k = if k == n then s k ++ text else s k

abbrev emptied : ℕ → Streams → Streams
emptied n s k = if k == n then [] else s k

abbrev write_to : ℤ → List ℕ → Streams → ℤ × Streams
write_to (pos n) text s = (pos (length text), append_at n text s)
write_to (negsuc n) text s = (negsuc 0, s)

abbrev taken : Streams → ℤ → List ℕ
taken s (pos n) = s n
taken s (negsuc n) = []

-- Descriptor 3 is what `open` gives, if it gives one.
abbrev pub disk : (List ℕ → ℕ → Streams → ℤ × Streams) → Os
disk opening = record {
  State = Streams;
  lstat = λ path s. some 420;
  unlink = λ path s. s;
  open_file = opening;
  close = λ fd s. (pos 0, s);
  fsync = λ fd s. (pos 0, s);
  write = write_to;
  vasprintf = λ text s. (true, s);
  print_error = append_at 2;
  diagnose = λ kind text s. append_at 2 text s;
  pad_three = λ n. codes "000";
  written = taken;
}

abbrev pub opens_three : List ℕ → ℕ → Streams → ℤ × Streams
opens_three path mode s = (pos 3, emptied 3 s)

abbrev pub opens_nothing : List ℕ → ℕ → Streams → ℤ × Streams
opens_nothing path mode s = (negsuc 0, s)

abbrev pub system : Os
system = disk opens_three

same_number : (n : ℕ) → (n == n) ≡ true
same_number n = ground arith

other_number : (n : ℕ) → ¬ (n ≡ 2) → (n == 2) ≡ false
other_number n h = ground arith

write_to-Took : (fd : ℤ) (text : List ℕ) (s : Streams) → Took system fd text s (write_to fd text s)
write_to-Took (pos n) text s =
    (omega arith, simp (same_number n, take_all text (length text) (omega arith)))
write_to-Took (negsuc n) text s = refl

append_at-other :
    (text : List ℕ) (fd : ℤ) (s : Streams)
    → fd ≢ stderr_fileno
    → taken (append_at 2 text s) fd ≡ taken s fd
append_at-other text (pos n) s h = simp (other_number n (λ e. h (ap pos e)))
append_at-other text (negsuc n) s h = refl

pub system-IsLawful : IsLawful system
system-IsLawful = record {
  took = write_to-Took;
  opens = λ path mode s. refl;
  kept-close = λ a fd s. refl;
  kept-fsync = λ a fd s. refl;
  kept-vasprintf = λ text fd s. refl;
  kept-print_error = append_at-other;
}

pub system-IsComplete : IsComplete system (pos 3)
system-IsComplete = record { all_bytes = λ text s. refl; memory = λ text s. refl }

-- A device without space: no write takes a byte.
abbrev pub no_space : Os
no_space = record system { write = λ fd text s. (negsuc 0, s) }

pub no_space-IsLawful : IsLawful no_space
no_space-IsLawful = record {
  took = λ fd text s. refl;
  opens = λ path mode s. refl;
  kept-close = λ a fd s. refl;
  kept-fsync = λ a fd s. refl;
  kept-vasprintf = λ text fd s. refl;
  kept-print_error = append_at-other;
}

pub no_space-name :
    get_logname no_space (some (codes "a.c")) 0 (codes "ahaggar_ast.log") (λ n. [])
    ≡ (some (codes "a.c.000.ahaggar_ast.log"), (λ n. []))
unfolding get_logname
no_space-name = refl

pub three : pos 3 ≢ stderr_fileno
three e = absurd cc

report-whole_example :
    (report system (pos 3) (codes "a.c") (codes "found") (λ n. [])) 3 ≡ codes "a.c: report: found\n"
report-whole_example =
    report-whole system system-IsLawful (pos 3) three system-IsComplete (codes "a.c")
      (codes "found") (λ n. [])

report_lem_example :
    Reported system system-IsLawful
      (pos 3)
      three
      (codes "a.c")
      (codes "found")
      (λ n. [])
      (report system (pos 3) (codes "a.c") (codes "found") (λ n. []))
report_lem_example =
    report_lem system system-IsLawful (pos 3) three (codes "a.c") (codes "found") (λ n. [])

abbrev pub full_disk : Os
full_disk = disk opens_nothing

pub full_disk-name :
    get_logname full_disk (some (codes "a.c")) 0 (codes "ahaggar_ast.log") (λ n. [])
    ≡ (some (codes "a.c.000.ahaggar_ast.log"), (λ n. []))
unfolding get_logname
full_disk-name = refl

pub full_disk-open :
    open_log full_disk
      (codes "a.c.000.ahaggar_ast.log")
      (get_file_perms full_disk (some (codes "a.c")) (λ n. []))
      (λ n. [])
    ≡ (negsuc 0, (λ n. []))
unfolding open_log unlink_found
full_disk-open = refl
