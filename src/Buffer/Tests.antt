-- ===== src/Buffer/Tests.antt =====
-- Runs of the functions of buffer.c on two small buffers, and the theorems at them.
use ahaggar.Base.{
  ◌≡◌, refl, none, some, List, [], ◌∷◌, ok, arith, ◌==◌, if◌then◌else◌, take, codes, ◌+◌,
}
use ahaggar.Buffer.{OutputBuf}
use ahaggar.Buffer.Valid.{IsValid, text_of}
use ahaggar.Buffer.Growth.{HasRoom}
use ahaggar.Buffer.Cells.{Store, success, output_expand, output_base_copy, output_base_concat}
use ahaggar.Buffer.Cells.Single.{Updates, output_expand_lem}
use ahaggar.Buffer.Cells.Pairs.{
  Holds, Concatenated, output_base_concat_lem, output_base_copy_lem, output_base_copy_dangling,
}
use ahaggar.Buffer.Script.{
  Call, char, print, indent, flush, run_calls, meanings, total_cost, Wrote, run_calls-meanings,
}

abbrev greeting : OutputBuf
greeting = record { buf = b'h' ∷ b'i' ∷ 0 ∷ 7 ∷ []; offset = 2; size = 4; used = 2 }

abbrev mark : OutputBuf
mark = record { buf = b'!' ∷ 0 ∷ []; offset = 1; size = 2; used = 1 }

abbrev store : Store
store = record {
  cell = λ a. if a == 1 then some greeting else if a == 2 then some mark else none;
  next = 3;
  junk = λ i. i + 200;
}

greeting-IsValid : IsValid greeting
greeting-IsValid = record {
  allocated = refl;
  bounded = omega arith;
  room = omega arith;
  at_end = refl;
  terminated = refl;
}

mark-IsValid : IsValid mark
mark-IsValid = record {
  allocated = refl;
  bounded = omega arith;
  room = omega arith;
  at_end = refl;
  terminated = refl;
}

abbrev calls : List Call
calls = char b'!' ∷ flush ∷ print (codes "ab") ∷ indent 2 ∷ []

calls_meaning : meanings calls (codes "hi") ≡ codes "ab  "
calls_meaning = refl

run_calls-meanings_example :
    Updates store 1
      (Wrote greeting (meanings calls) (total_cost calls))
      tt
      (run_calls calls (some 1) store)
run_calls-meanings_example =
    run_calls-meanings calls store 1 refl greeting-IsValid (omega arith) (omega arith)

output_base_concat_lem_example :
    Updates store 1
      (Concatenated greeting mark)
      success
      (output_base_concat (some 1) (some 2) store)
output_base_concat_lem_example =
    output_base_concat_lem store 1 2 refl refl greeting-IsValid mark-IsValid (omega arith)

output_expand_lem_example :
    Updates store 1 (HasRoom greeting 9) (some 1) (output_expand (some 1) 9 store)
output_expand_lem_example = output_expand_lem store 1 refl greeting-IsValid 9 (omega arith)

output_base_copy_lem_example :
    Updates store 1
      (λ r. IsValid r × (text_of r ≡ take 1 (text_of mark)))
      success
      (output_base_copy (some 1) (some 2) 1 store)
output_base_copy_lem_example =
    output_base_copy_lem store 1 2 0 refl refl greeting-IsValid mark-IsValid (omega arith)
      (omega arith) (omega arith)

output_base_copy_dangling_example :
    (t : Store) × (output_base_copy (some 2) (some 1) 2 store ≡ ok (success, t))
    × (t.cell 2 ≡ none)
    × Holds t 3 (take 2 (text_of greeting))
output_base_copy_dangling_example =
    output_base_copy_dangling store 2 1 1 refl refl mark-IsValid greeting-IsValid (omega arith)
      (omega arith) (omega arith) (omega arith) (omega arith) (omega arith)
