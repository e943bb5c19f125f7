-- ===== src/Multicast/Pool.antt =====
-- The thread pool of the streaming server: 流媒体组播/server/pool/pool.c and pool.h. A task is a value of
-- any type `A`, a thread is known by a number.
--
-- The program of each thread is cut into actions of one or a few statements, and a thread stands in front
-- of one (Worker, Admin and Caller); an action takes effect at once, and the threads take turns in any
-- order. `accepted`, `taken` and `ran` are not in the code: they record the tasks that thr_pool_add_task
-- returned 0 for, that workers took from the queue, and that were run.
--
-- A thread that waits for a condition can go on at any time when the mutex is free, as POSIX allows it
-- to, so signals have no effect here.
pub mod Worker
pub mod Admin
pub mod Caller
pub mod System
pub mod Invariant
pub mod WorkerEffect
pub mod CallerEffect
pub mod Keeping
pub mod Safety
pub mod Stopping
pub mod Alone
pub mod Ending
pub mod Shrinking
mod Tests
use learningproject.Common.{
  ℕ, zero, suc, ◌+◌, ◌-◌, Bool, true, false, ◌&&◌, not, List, [], ◌∷◌, ◌++◌, Option, none, some,
  if◌then◌else◌, ◌==◌, ltb, leb, ◌||◌, replicate, get_elem?, set,
}
use learningproject.Common.{ℤ, pos, ◌+ℤ◌, ◌-ℤ◌}
use learningproject.Multicast.Queue.{Queue, queue_init}

-- `enum st`
pub data State : Type 0 where
  blank free busy : State

abbrev pub is_blank : State → Bool
is_blank blank = true
is_blank free = false
is_blank busy = false

abbrev pub is_free : State → Bool
is_free blank = false
is_free free = true
is_free busy = false

abbrev pub is_busy : State → Bool
is_busy blank = false
is_busy free = false
is_busy busy = true

-- `working_thr_t`
pub record Slot : Type 0 where
  pub tid : ℕ
  pub state : State

-- `thr_pool_t`. `queue_owner` is the thread that holds queue_mut. From one action to the next only the
-- manager holds working_mut: `working_locked`. `published` says that thr_pool_init has stored the pool
-- for its caller.
pub record Pool (A : Type 0) : Type 0 where
  pub admin_thr : Option ℕ
  pub worker_thrs : List Slot
  pub working_locked : Bool
  pub min_thrs : ℕ
  pub max_thrs : ℕ
  pub live_thrs : ℤ
  pub exit_thrs : ℕ
  pub shutdown : Bool
  pub task_queue : Queue A
  pub queue_owner : Option ℕ
  pub published : Bool
  pub accepted : List A
  pub taken : List A
  pub ran : List A

-- the actions of worker_fun, with the worker's `my_pos` and the task in its hands, which is `none` when
-- queue_deq has left it uninitialised
pub data WorkerAct (A : Type 0) : Type 0 where
  lock_queue test_shutdown find_slot leaving : WorkerAct A
  test_retire test_wait waiting test_shutdown_again test_retire_again taking finishing :
      Option ℕ → WorkerAct A
  releasing marking running : (my_pos : Option ℕ) (task : Option A) → WorkerAct A
  notifying : (my_pos : ℕ) (task : Option A) → WorkerAct A

-- the actions of admin_fun
pub data AdminAct : Type 0 where
  lock_working loop decide relock block wait_working : AdminAct
  grow : (busy : ℕ) → AdminAct
  create : (i : ℕ) → AdminAct
  created : (i at : ℕ) → AdminAct

-- the actions of thr_pool_init once the pool is allocated, of thr_pool_add_task, and of
-- thr_pool_shutdown and thr_pool_destroy, where the Boolean says that the former runs in the latter
pub data CallerAct (A : Type 0) : Type 0 where
  init_admin init_blank cleanup outside : CallerAct A
  init_worker init_mark : (i : ℕ) → CallerAct A
  add_test add_lock add_wait add_blocked add_check add_enter : (t : A) → CallerAct A
  add_unlock : CallerAct A
  shutdown_test shutdown_lock shutdown_set shutdown_unlock : (destroys : Bool) → CallerAct A
  join_admin destroyed : CallerAct A
  join_worker : (i : ℕ) → CallerAct A

-- `undefined` has run into undefined behaviour: a call of an uninitialised task, a fault in the queue, or a
-- join with a thread that was never made.
pub data Thread (A : Type 0) : Type 0 where
  worker : WorkerAct A → Thread A
  admin : AdminAct → Thread A
  caller : CallerAct A → Thread A
  exited undefined : Thread A

-- `__get_free_pos`
unfoldable pub get_free_pos : List Slot → Option ℕ
get_free_pos [] = none
get_free_pos (s ∷ ss) =
    let rest = get_free_pos ss in
    if is_blank s.state then some 0 else elim rest [ none ↦ none | some i ↦ some (suc i) ]

-- how many slots are busy
unfoldable pub count_busy : List Slot → ℕ
count_busy [] = 0
count_busy (s ∷ ss) = (if is_busy s.state then 1 else 0) + count_busy ss

abbrev pub state_at : ℕ → List Slot → State
state_at i ss = elim (get_elem? ss i) [ none ↦ blank | some s ↦ s.state ]

-- `worker_thrs[i].state = st`, and the `tid` that pthread_create stores
unfoldable pub set_state : ℕ → State → List Slot → List Slot
set_state i st [] = []
set_state zero st (s ∷ ss) = record s { state = st } ∷ ss
set_state (suc i) st (s ∷ ss) = s ∷ set_state i st ss

unfoldable pub set_tid : ℕ → ℕ → List Slot → List Slot
set_tid i tid [] = []
set_tid zero tid (s ∷ ss) = record s { tid = tid } ∷ ss
set_tid (suc i) tid (s ∷ ss) = s ∷ set_tid i tid ss

abbrev pub is_none : Option ℕ → Bool
is_none none = true
is_none (some i) = false

module _ {A : Type 0} where
  abbrev pub lock_for : ℕ → Pool A → Pool A
  lock_for me p = record p { queue_owner = some me }

  abbrev pub unlock : Pool A → Pool A
  unlock p = record p { queue_owner = none }

  -- thr_pool_init up to the first thread. The Booleans say which of its allocations succeed: two of its own
  -- and two of the queue's.
  unfoldable pub thr_pool_init :
      (pool_ok workers_ok malloc_ok calloc_ok : Bool) (min max queue_size : ℕ) → A → Option (Pool A)
  thr_pool_init pool_ok workers_ok malloc_ok calloc_ok min max queue_size zeroes =
      let made : Option (Queue A) = (queue_init malloc_ok calloc_ok queue_size zeroes).1 in
      if min == 0 || ltb max min || queue_size == 0
      then none
      else if not pool_ok || not workers_ok
      then none
      else elim made [
        | none ↦ none
        | some q ↦ some (record {
          admin_thr = none;
          worker_thrs = replicate max (record { tid = 0; state = blank });
          working_locked = false;
          min_thrs = min;
          max_thrs = max;
          live_thrs = pos 0;
          exit_thrs = 0;
          shutdown = false;
          task_queue = q;
          queue_owner = none;
          published = false;
          accepted = [];
          taken = [];
          ran = [];
        })
      ]
