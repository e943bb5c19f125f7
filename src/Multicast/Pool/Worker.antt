-- ===== src/Multicast/Pool/Worker.antt =====
-- A worker of the pool: worker_fun of 流媒体组播/server/pool/pool.c.
use learningproject.Common.{
  ℕ, suc, ◌-◌, Bool, false, ◌&&◌, not, List, [], ◌∷◌, ◌++◌, Option, none, some, if◌then◌else◌, ◌==◌,
  ltb,
}
use learningproject.Common.{pos, ◌-ℤ◌}
use learningproject.Multicast.Queue.{queue_empty, queue_deq}
use learningproject.Multicast.Pool.{
  Slot, Pool, Thread, exited, undefined, blank, free, busy, is_free, is_blank, state_at, set_state,
  is_none, lock_for, unlock, WorkerAct, worker, lock_queue, test_shutdown, find_slot, leaving,
  test_retire, test_wait, waiting, test_shutdown_again, test_retire_again, taking, releasing,
  marking, notifying, running, finishing,
}

-- the search for the worker's own slot
unfoldable pub own_slot : ℕ → List Slot → Option ℕ
own_slot me [] = none
own_slot me (s ∷ ss) =
    let rest = own_slot me ss in
    if not (is_blank s.state) && s.tid == me
    then some 0
    else elim rest [ none ↦ none | some i ↦ some (suc i) ]

module _ {A : Type 0} where
  -- whether the worker is idle and workers are to go
  unfoldable pub is_surplus : Option ℕ → Pool A → Bool
  is_surplus none p = false
  is_surplus (some k) p = is_free (state_at k p.worker_thrs) && ltb 0 p.exit_thrs

  unfoldable pub retire : Option ℕ → Pool A → Pool A
  retire none p = p
  retire (some k) p = record p {
    exit_thrs = p.exit_thrs - 1;
    live_thrs = p.live_thrs -ℤ pos 1;
    worker_thrs = set_state k blank p.worker_thrs;
  }

  abbrev pub as_list : Option A → List A
  as_list none = []
  as_list (some t) = t ∷ []

  -- One action of the worker that is thread `me`; `none` if it must wait for a mutex.
  unfoldable pub worker_step : ℕ → WorkerAct A → Pool A → Option (Pool A × Thread A)
  worker_step me lock_queue p =
      if is_none p.queue_owner then some (lock_for me p, worker test_shutdown) else none
  worker_step me test_shutdown p =
      if p.shutdown then some (unlock p, exited) else some (p, worker find_slot)
  worker_step me find_slot p = some (p, worker (test_retire (own_slot me p.worker_thrs)))
  worker_step me (test_retire my_pos) p =
      if is_surplus my_pos p
      then some (retire my_pos p, worker leaving)
      else some (p, worker (test_wait my_pos))
  worker_step me leaving p = some (unlock p, exited)
  worker_step me (test_wait my_pos) p =
      if queue_empty p.task_queue && not p.shutdown && not (is_surplus my_pos p)
      then some (unlock p, worker (waiting my_pos))
      else some (p, worker (test_shutdown_again my_pos))
  worker_step me (waiting my_pos) p =
      if is_none p.queue_owner then some (lock_for me p, worker (test_wait my_pos)) else none
  worker_step me (test_shutdown_again my_pos) p =
      if p.shutdown then some (unlock p, exited) else some (p, worker (test_retire_again my_pos))
  worker_step me (test_retire_again my_pos) p =
      if is_surplus my_pos p
      then some (retire my_pos p, worker leaving)
      else some (p, worker (taking my_pos))
  worker_step me (taking my_pos) p = elim (queue_deq p.task_queue) [
    | none ↦ some (p, undefined)
    | some (_, out, q) ↦
        some (
          record p { task_queue = q; taken = p.taken ++ as_list out },
          worker (releasing my_pos out),
        )
  ]
  worker_step me (releasing my_pos task) p = some (unlock p, worker (marking my_pos task))
  worker_step me (marking none task) p = some (p, worker (running none task))
  worker_step me (marking (some k) task) p =
      some (record p { worker_thrs = set_state k busy p.worker_thrs }, worker (notifying k task))
  worker_step me (notifying k task) p =
      if p.working_locked then none else some (p, worker (running (some k) task))
  worker_step me (running my_pos none) p = some (p, undefined)
  worker_step me (running my_pos (some t)) p =
      some (record p { ran = p.ran ++ t ∷ [] }, worker (finishing my_pos))
  worker_step me (finishing none) p = some (p, worker lock_queue)
  worker_step me (finishing (some k)) p =
      if p.working_locked
      then none
      else some (record p { worker_thrs = set_state k free p.worker_thrs }, worker lock_queue)
