-- ===== src/Multicast/Pool/Tests.antt =====
-- Runs of the model of 流媒体组播/server/pool/pool.c, with one caller.
use learningproject.Common.{
  ℕ, ◌+◌, ◌<◌, ◌≡◌, refl, true, false, List, [], ◌∷◌, ◌++◌, none, some, length, get_elem?,
  replicate, pos,
}
use learningproject.Multicast.Queue.{queue_init, queue_empty, queue_full, queue_enter, queue_deq}
use learningproject.Multicast.Queue.Invariant.{contents}
use learningproject.Multicast.Pool.{
  Pool, blank, worker, exited, undefined, releasing, thr_pool_init, get_free_pos, count_busy,
  set_state, set_tid,
}
use learningproject.Multicast.Pool.Worker.{worker_step, own_slot, is_surplus, retire}
use learningproject.Multicast.Pool.Admin.{admin_step, shrink, to_exit, enlist}
use learningproject.Multicast.Pool.Caller.{
  Choice, go, call_add, call_shutdown, begin, blank_rest, caller_step,
}
use learningproject.Multicast.Pool.System.{
  Reach, System, opening, turns, step, thread_step, here, turns-Reach,
}
use learningproject.Multicast.Pool.Invariant.{weigh, in_hands, holds_queue, worker_holds}
use learningproject.Multicast.Pool.Safety.{
  IsReached, accepted-in_order, accepted-once, queue_mut-excludes,
}
use learningproject.Multicast.Pool.Stopping.{shutdown-freezes}

-- a pool of 1 to `max` workers, with three places in the array of the queue
abbrev new_pool : ℕ → Pool ℕ
new_pool max = record {
  admin_thr = none;
  worker_thrs = replicate max (record { tid = 0; state = blank });
  working_locked = false;
  min_thrs = 1;
  max_thrs = max;
  live_thrs = pos 0;
  exit_thrs = 0;
  shutdown = false;
  task_queue = record { arr = 0 ∷ 0 ∷ 0 ∷ []; front = 0; tail = 0; capacity = 3 };
  queue_owner = none;
  published = false;
  accepted = [];
  taken = [];
  ran = [];
}

abbrev Schedule : Type 0
Schedule = List (ℕ × Choice ℕ)

-- `n` turns of thread `i`
abbrev go_on : ℕ → ℕ → Schedule
go_on n i = replicate n (i, go)

abbrev run_from : System ℕ → Schedule → System ℕ
run_from s schedule = elim (turns schedule s) [ none ↦ s | some t ↦ t ]

-- Thread 0 makes the manager (2) and a worker (3), thread 1 adds two tasks, and the worker takes one.
abbrev two_added : Schedule
two_added = go_on 5 0 ++ (1, call_add 7) ∷ (go_on 6 1 ++ (1, call_add 8) ∷ (go_on 6 1 ++ go_on 8 3))

abbrev one_taken : System ℕ
one_taken = run_from (opening 1 (new_pool 2)) two_added

-- Then thread 1 shuts the pool down.
abbrev stop_schedule : Schedule
stop_schedule = go_on 1 3 ++ (1, call_shutdown) ∷ go_on 4 1

abbrev stopped : System ℕ
stopped = run_from one_taken stop_schedule

one_taken-turns : turns two_added (opening 1 (new_pool 2)) ≡ some one_taken
unfolding turns step thread_step worker_step caller_step begin admin_step queue_full queue_enter
    queue_deq queue_empty enlist blank_rest own_slot is_surplus retire set_state set_tid
    get_free_pos
one_taken-turns = refl

stopped-turns : turns stop_schedule one_taken ≡ some stopped
unfolding turns step thread_step worker_step caller_step begin admin_step queue_full queue_enter
    queue_deq queue_empty enlist blank_rest own_slot is_surplus retire set_state set_tid
    get_free_pos
stopped-turns = refl

made_by_init : thr_pool_init true true true true 1 2 3 0 ≡ some (new_pool 2)
unfolding thr_pool_init queue_init
made_by_init = refl

one_taken-Reach : Reach (opening 1 (new_pool 2)) one_taken
one_taken-Reach = turns-Reach two_added here one_taken-turns

one_taken-IsReached : IsReached 1 one_taken
one_taken-IsReached = record {
  min = 1;
  max = 2;
  queue_size = 3;
  zeroes = 0;
  made = new_pool 2;
  by_init = made_by_init;
  reached = one_taken-Reach;
}

stopped-IsReached : IsReached 1 stopped
stopped-IsReached = record {
  min = 1;
  max = 2;
  queue_size = 3;
  zeroes = 0;
  made = new_pool 2;
  by_init = made_by_init;
  reached = turns-Reach stop_schedule one_taken-Reach stopped-turns;
}

-- 7 is in the worker's hands, and 8 in the queue.
one_taken-tasks :
    (one_taken.pool.accepted ≡ 7 ∷ 8 ∷ [])
    × (one_taken.pool.taken ≡ 7 ∷ [])
    × (contents one_taken.pool.task_queue ≡ 8 ∷ [])
    × (get_elem? one_taken.threads 3 ≡ some (worker (releasing (some 0) (some 7))))
unfolding turns step thread_step worker_step caller_step begin admin_step queue_full queue_enter
    queue_deq queue_empty enlist blank_rest own_slot is_surplus retire set_state set_tid
    get_free_pos
one_taken-tasks = (refl, refl, refl, refl)

accepted-in_order_example :
    let q = one_taken.pool.task_queue in
    (one_taken.pool.accepted ≡ one_taken.pool.taken ++ contents q)
    × (length (contents q) < q.capacity)
accepted-in_order_example = accepted-in_order 1 one_taken one_taken-IsReached

accepted-once_example :
    weigh (λ t. t) one_taken.pool.accepted
    ≡ weigh (λ t. t) one_taken.pool.ran
      + in_hands (λ t. t) one_taken.threads
      + weigh (λ t. t) (contents one_taken.pool.task_queue)
accepted-once_example = accepted-once 1 one_taken (λ t. t) one_taken-IsReached

abbrev the_worker : ℕ
the_worker = 3

queue_mut-excludes_example : the_worker ≡ the_worker
unfolding holds_queue worker_holds
queue_mut-excludes_example =
    queue_mut-excludes 1 one_taken the_worker the_worker (worker (releasing (some 0) (some 7)))
      (worker (releasing (some 0) (some 7))) one_taken-IsReached (one_taken-tasks.3)
      (one_taken-tasks.3) refl refl

-- The worker runs 7 and ends; 8 stays.
abbrev last_schedule : Schedule
last_schedule = go_on 6 3

abbrev ended : System ℕ
ended = run_from stopped last_schedule

ended-turns : turns last_schedule stopped ≡ some ended
unfolding turns step thread_step worker_step caller_step begin admin_step queue_full queue_enter
    queue_deq queue_empty enlist blank_rest own_slot is_surplus retire set_state set_tid
    get_free_pos
ended-turns = refl

stopped-flags : (stopped.pool.shutdown ≡ true) × (stopped.pool.queue_owner ≡ none)
unfolding turns step thread_step worker_step caller_step begin admin_step queue_full queue_enter
    queue_deq queue_empty enlist blank_rest own_slot is_surplus retire set_state set_tid
    get_free_pos
stopped-flags = (refl, refl)

shutdown-freezes_example :
    (ended.pool.accepted ≡ stopped.pool.accepted)
    × (ended.pool.taken ≡ stopped.pool.taken)
    × (ended.pool.task_queue ≡ stopped.pool.task_queue)
shutdown-freezes_example =
    shutdown-freezes 1 stopped ended stopped-IsReached stopped-flags.0 stopped-flags.1
      (turns-Reach last_schedule here ended-turns)

ended-tasks :
    (get_elem? ended.threads 3 ≡ some exited)
    × (ended.pool.ran ≡ 7 ∷ [])
    × (contents ended.pool.task_queue ≡ 8 ∷ [])
unfolding turns step thread_step worker_step caller_step begin admin_step queue_full queue_enter
    queue_deq queue_empty enlist blank_rest own_slot is_surplus retire set_state set_tid
    get_free_pos
ended-tasks = (refl, refl, refl)

-- nine live workers, of which one works: four are to go
abbrev nine_live : Pool ℕ
nine_live = record (new_pool 20) { live_thrs = pos 9 }

nine_live-shrink : (shrink 1 nine_live).exit_thrs ≡ 4
unfolding shrink to_exit
nine_live-shrink = refl

-- With places for one worker, the manager and thr_pool_init both make one.
abbrev both_make : Schedule
both_make = go_on 1 0 ++ (go_on 5 2 ++ (go_on 2 0 ++ (go_on 1 2 ++ go_on 1 0)))

too_many_live : (run_from (opening 1 (new_pool 1)) both_make).pool.live_thrs ≡ pos 2
unfolding turns step thread_step worker_step caller_step begin admin_step queue_full queue_enter
    queue_deq queue_empty enlist blank_rest own_slot is_surplus retire set_state set_tid
    get_free_pos count_busy shrink to_exit
too_many_live = refl

-- The manager makes a second worker while thr_pool_init is under way, which then marks its slot as blank:
-- a worker that was to go takes a task that is not there, and calls it.
abbrev blanked : Schedule
blanked =
    go_on 1 0
    ++ (go_on 4 2
        ++ (go_on 3 0
            ++ (go_on 2 2
                ++ (go_on 4 4
                    ++ (go_on 6 2 ++ (go_on 2 4 ++ (go_on 1 0 ++ (go_on 2 2 ++ go_on 6 4))))))))

calls_garbage : get_elem? (run_from (opening 1 (new_pool 2)) blanked).threads 4 ≡ some undefined
unfolding turns step thread_step worker_step caller_step begin admin_step queue_full queue_enter
    queue_deq queue_empty enlist blank_rest own_slot is_surplus retire set_state set_tid
    get_free_pos count_busy shrink to_exit
calls_garbage = refl
