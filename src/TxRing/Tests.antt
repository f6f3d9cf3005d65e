-- ===== src/TxRing/Tests.antt =====
-- The ring at concrete states.
use testings.Prelude.{◌≡◌, refl, List, [], ◌∷◌, arith, set, replicate}
use testings.TxRing.{TxRing, IsValid}
use testings.TxRing.Queue.{run, run_queue, run_refines, puts, gets, counts, Call}

-- One byte in the last slot: the next put goes to slot 0.
abbrev wrapping : TxRing
wrapping = record { buf = set (replicate 512 0) 511 9; head = 0; tail = 511 }

wrapping-IsValid : IsValid wrapping
wrapping-IsValid = record { storage = refl; head_in = omega arith; tail_in = omega arith }

abbrev script : List Call
script = puts 7 ∷ counts ∷ gets ∷ gets ∷ gets ∷ []

run_refines_example : run wrapping script ≡ run_queue (9 ∷ []) script
run_refines_example = run_refines script wrapping wrapping-IsValid
