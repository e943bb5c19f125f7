-- ===== src/Multicast/Queue/Tests.antt =====
-- Runs of the model of queue.c on small inputs.
use learningproject.Common.{ℕ, ◌-◌, ◌≡◌, refl, List, [], ◌∷◌, none, some, arith}
use learningproject.Multicast.Queue.{Queue, ok, failed, queue_init, queue_enter, queue_deq}
use learningproject.Multicast.Queue.Invariant.{IsValid, contents}
use learningproject.Multicast.Queue.Clients.{Call, enter, deq, run, run_spec, init-run}

abbrev three : Queue ℕ
three = record { arr = 0 ∷ 0 ∷ 0 ∷ []; front = 0; tail = 0; capacity = 3 }

-- 7, then 8, round the end of the array: no place is left
abbrev wrapped : Queue ℕ
wrapped = record { arr = 8 ∷ 0 ∷ 7 ∷ []; front = 2; tail = 1; capacity = 3 }

abbrev script : List (Call ℕ)
script = enter 1 ∷ enter 2 ∷ enter 3 ∷ deq ∷ enter 4 ∷ deq ∷ deq ∷ deq ∷ []

wrapped-IsValid : IsValid wrapped
wrapped-IsValid = omega arith

contents-wrapped : contents wrapped ≡ 7 ∷ 8 ∷ []
contents-wrapped = refl

run-three :
    run three script
    ≡ some (
        (ok, none)
        ∷ (ok, none)
        ∷ (failed, none)
        ∷ (ok, some 1)
        ∷ (ok, none)
        ∷ (ok, some 2)
        ∷ (ok, some 4)
        ∷ (failed, none)
        ∷ [])
unfolding run queue_enter queue_deq
run-three = refl

-- A queue of capacity 0 faults, and one of capacity 1 is full from the start.
capacity_0 : queue_enter {A = ℕ} (record { arr = []; front = 0; tail = 0; capacity = 0 }) 5 ≡ none
unfolding queue_enter
capacity_0 = refl

capacity_1 :
    queue_enter {A = ℕ} (record { arr = 0 ∷ []; front = 0; tail = 0; capacity = 1 }) 5
    ≡ some (failed, record { arr = 0 ∷ []; front = 0; tail = 0; capacity = 1 })
unfolding queue_enter
capacity_1 = refl

init-run_example : run three script ≡ some (run_spec (3 - 1) [] script)
unfolding queue_init
init-run_example = init-run 3 0 (omega arith) refl script
