-- ===== src/Examples/Positions.antt =====
-- local/postgres/lib/qpg/seqsync.py on two sequences, of which the second is ahead.
use qontinui_stack.Prelude.{◌≡◌, refl, true, false, some, List, [], ◌∷◌, map, All}
use qontinui_stack.Sequences.{
  Source, Setup, SeqResult, returns, run, margin_for, result_of, verdict_of,
}
use qontinui_stack.Sequences.Forward.{Target, IsReached, run-IsReached}
use qontinui_stack.Sequences.Covers.{Covers, run-Covers}

abbrev setup : Setup
setup = record {
  floor = 1000;
  samples = λ seq. record { at = 0; value = 40 } ∷ [];
  now = 300000000;
  dry_run = false;
  target_fails = false;
  samples_fail = false;
}

abbrev source : List Source
source =
    record { seq = "a"; value = some 1040; readable = true }
    ∷ record { seq = "b"; value = some 50; readable = true }
    ∷ []

abbrev target : Target
target = ("a", some 7) ∷ ("b", some 90000) ∷ []

-- A thousand in five minutes: the margin is three thousand.
margin_test :
    margin_for (record { at = 300000000; value = 1040 } ∷ record { at = 0; value = 40 } ∷ []) 1000
    ≡ 3000
unfolding margin_for
margin_test = refl

results : List SeqResult
unfolding verdict_of result_of
results = map (λ row. result_of target row (verdict_of setup target row)) source

moved_test : (run setup source target).target ≡ ("a", some 4040) ∷ ("b", some 90000) ∷ []
unfolding run
moved_test = refl

returns_test : (run setup source target).ending ≡ returns results
unfolding run results
returns_test = refl

run-IsReached_example : IsReached target (run setup source target).target
run-IsReached_example = run-IsReached setup target source

run-Covers_example : All (Covers setup target (run setup source target).target) source
run-Covers_example = run-Covers setup target source results (refl, (refl, tt)) refl returns_test
