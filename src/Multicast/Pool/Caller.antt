-- ===== src/Multicast/Pool/Caller.antt =====
-- The callers of the pool: thr_pool_init from its first thread on, thr_pool_add_task, thr_pool_shutdown and
-- thr_pool_destroy of 流媒体组播/server/pool/pool.c.
use learningproject.Common.{
  ℕ, zero, suc, Bool, true, false, ◌&&◌, ◌||◌, not, List, [], ◌∷◌, ◌++◌, Option, none, some,
  if◌then◌else◌, ltb, get_elem?,
}
use learningproject.Multicast.Queue.{queue_full, queue_enter}
use learningproject.Multicast.Pool.{
  Slot, Pool, Thread, undefined, blank, set_tid, is_blank, state_at, is_none, lock_for, unlock,
  caller, worker, admin, lock_queue, lock_working, CallerAct, init_admin, init_worker, init_mark,
  init_blank, cleanup, outside, add_test, add_lock, add_wait, add_blocked, add_check, add_enter,
  add_unlock, shutdown_test, shutdown_lock, shutdown_set, shutdown_unlock, join_admin, join_worker,
  destroyed,
}
use learningproject.Multicast.Pool.Admin.{enlist}

-- What is open in an action: nothing, that pthread_create fails, or which function is called next.
pub data Choice (A : Type 0) : Type 0 where
  go refuse : Choice A
  call_add : A → Choice A
  call_shutdown call_destroy : Choice A

abbrev pub grants : {A : Type 0} → Choice A → Bool
grants go = true
grants refuse = false
grants (call_add t) = true
grants call_shutdown = true
grants call_destroy = true

-- the loop over the slots from `min` on
unfoldable pub blank_rest : (min : ℕ) → List Slot → List Slot
blank_rest min [] = []
blank_rest zero (s ∷ ss) = record s { state = blank } ∷ blank_rest zero ss
blank_rest (suc n) (s ∷ ss) = s ∷ blank_rest n ss

abbrev pub tid_at : ℕ → List Slot → ℕ
tid_at i ss = elim (get_elem? ss i) [ none ↦ 0 | some s ↦ s.tid ]

module _ {A : Type 0} where
  -- where thr_pool_shutdown returns to
  abbrev pub after_shutdown : Bool → Thread A
  after_shutdown true = caller join_admin
  after_shutdown false = caller outside

  -- the choice of a thread that is in no call
  unfoldable pub begin : Choice A → Pool A → Option (Pool A × Thread A × List (Thread A))
  begin go p = none
  begin refuse p = none
  begin (call_add t) p = if p.published then some (p, caller (add_test t), []) else none
  begin call_shutdown p = if p.published then some (p, caller (shutdown_test false), []) else none
  begin call_destroy p = if p.published then some (p, caller (shutdown_test true), []) else none

  -- One action of thread `me`; `is_done` says which threads have ended, and `new` is the next thread.
  unfoldable pub caller_step :
      (new me : ℕ)
      → Choice A
      → (ℕ → Bool)
      → CallerAct A
      → Pool A
      → Option (Pool A × Thread A × List (Thread A))
  caller_step new me c is_done init_admin p =
      if grants c
      then some (record p { admin_thr = some new }, caller (init_worker 0), admin lock_working ∷ [])
      else some (p, caller cleanup, [])
  caller_step new me c is_done (init_worker i) p =
      if ltb i p.min_thrs
      then (if grants c
          then some (
            record p { worker_thrs = set_tid i new p.worker_thrs },
            caller (init_mark i),
            worker lock_queue ∷ [],
          )
          else some (p, caller cleanup, []))
      else some (p, caller init_blank, [])
  caller_step new me c is_done (init_mark i) p = some (enlist i p, caller (init_worker (suc i)), [])
  caller_step new me c is_done init_blank p = some (
    record p { worker_thrs = blank_rest p.min_thrs p.worker_thrs; published = true },
    caller outside,
    [],
  )
  caller_step new me c is_done cleanup p =
      some (record p { shutdown = true }, caller (shutdown_test true), [])
  caller_step new me c is_done outside p = begin c p
  caller_step new me c is_done (add_test t) p =
      if p.shutdown then some (p, caller outside, []) else some (p, caller (add_lock t), [])
  caller_step new me c is_done (add_lock t) p =
      if is_none p.queue_owner then some (lock_for me p, caller (add_wait t), []) else none
  caller_step new me c is_done (add_wait t) p = elim (queue_full p.task_queue) [
    | none ↦ some (p, undefined, [])
    | some full? ↦
        if full? && not p.shutdown
        then some (unlock p, caller (add_blocked t), [])
        else some (p, caller (add_check t), [])
  ]
  caller_step new me c is_done (add_blocked t) p =
      if is_none p.queue_owner then some (lock_for me p, caller (add_wait t), []) else none
  caller_step new me c is_done (add_check t) p =
      if p.shutdown then some (unlock p, caller outside, []) else some (p, caller (add_enter t), [])
  caller_step new me c is_done (add_enter t) p = elim (queue_enter p.task_queue t) [
    | none ↦ some (p, undefined, [])
    | some (_, q) ↦
        some (record p { task_queue = q; accepted = p.accepted ++ t ∷ [] }, caller add_unlock, [])
  ]
  caller_step new me c is_done add_unlock p = some (unlock p, caller outside, [])
  caller_step new me c is_done (shutdown_test destroys) p =
      if p.shutdown
      then some (p, after_shutdown destroys, [])
      else some (p, caller (shutdown_lock destroys), [])
  caller_step new me c is_done (shutdown_lock destroys) p =
      if is_none p.queue_owner
      then some (lock_for me p, caller (shutdown_set destroys), [])
      else none
  caller_step new me c is_done (shutdown_set destroys) p =
      some (record p { shutdown = true }, caller (shutdown_unlock destroys), [])
  caller_step new me c is_done (shutdown_unlock destroys) p =
      some (unlock p, after_shutdown destroys, [])
  caller_step new me c is_done join_admin p = elim p.admin_thr [
    | none ↦ some (p, undefined, [])
    | some k ↦ if is_done k then some (p, caller (join_worker 0), []) else none
  ]
  caller_step new me c is_done (join_worker i) p =
      if ltb i p.max_thrs
      then (if is_blank (state_at i p.worker_thrs) || is_done (tid_at i p.worker_thrs)
          then some (p, caller (join_worker (suc i)), [])
          else none)
      else some (record p { published = false }, caller destroyed, [])
  caller_step new me c is_done destroyed p = none
