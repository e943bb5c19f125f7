-- ===== src/Multicast/Pool/Stopping.antt =====
-- The pool after thr_pool_shutdown: 流媒体组播/server/pool/pool.c.
use learningproject.Common.{
  ℕ, zero, suc, ◌≡◌, refl, Bool, true, false, List, [], ◌∷◌, ◌++◌, Option, none, some, inl, inr,
  arith, length, get_elem?, set, Option-cases, Bool-cases,
}
use learningproject.Multicast.Queue.{queue_full}
use learningproject.Multicast.Pool.{
  Pool, Thread, worker, admin, caller, exited, undefined, WorkerAct, lock_queue, test_shutdown,
  find_slot, leaving, test_retire, test_wait, waiting, test_shutdown_again, test_retire_again,
  taking, finishing, releasing, marking, running, notifying, AdminAct, lock_working, create,
  CallerAct, outside, add_wait, add_enter, shutdown_test, shutdown_unlock,
}
use learningproject.Multicast.Pool.Worker.{worker_step, retire}
use learningproject.Multicast.Pool.Admin.{admin_step, shrink, enlist}
use learningproject.Multicast.Pool.Caller.{
  Choice, go, refuse, call_add, call_shutdown, call_destroy, begin, grants, caller_step,
}
use learningproject.Multicast.Pool.System.{System, thread_step, is_exited, Reach, here, later}
use learningproject.Multicast.Pool.Invariant.{holds_queue, worker_holds, caller_holds}
use learningproject.Multicast.Pool.Keeping.{step-cases}
use learningproject.Multicast.Pool.Safety.{IsReached, IsReached-IsSound}

module _ {A : Type 0} where
  -- whether a thread has passed its last test of `shutdown` before it uses the queue
  unfoldable pub past_test : Thread A → Bool
  past_test (worker (test_retire_again my_pos)) = true
  past_test (worker (taking my_pos)) = true
  past_test (caller (add_enter t)) = true
  past_test _ = false

  abbrev pub NonePast : List (Thread A) → Type 0
  NonePast [] = Unit
  NonePast (th ∷ ths) = (past_test th ≡ false) × NonePast ths

  -- The queue and its records are as in `o`.
  pub record IsFrozen (o p : Pool A) : Type 0 where
    pub stopped : p.shutdown ≡ true
    pub queue : p.task_queue ≡ o.task_queue
    pub accepted : p.accepted ≡ o.accepted
    pub taken : p.taken ≡ o.taken

  abbrev pub StaysFrozen : Pool A → Option (Pool A × Thread A × List (Thread A)) → Type 0
  StaysFrozen o none = Unit
  StaysFrozen o (some (p', th', made)) = IsFrozen o p' × (past_test th' ≡ false) × NonePast made

  worker_step-frozen :
      (new me : ℕ) (c : Choice A) (is_done : ℕ → Bool) (a : WorkerAct A) (o p : Pool A)
      → IsFrozen o p
      → past_test (worker a) ≡ false
      → StaysFrozen o (thread_step new me c is_done (worker a) p)
  unfolding thread_step worker_step retire past_test
  worker_step-frozen new me c is_done lock_queue o p f e = ground arith
  worker_step-frozen new me c is_done test_shutdown o p f e = ground arith
  worker_step-frozen new me c is_done find_slot o p f e = ground arith
  worker_step-frozen new me c is_done leaving o p f e = ground arith
  worker_step-frozen new me c is_done (test_retire none) o p f e = ground arith
  worker_step-frozen new me c is_done (test_retire (some k)) o p f e = ground arith
  worker_step-frozen new me c is_done (test_wait my_pos) o p f e = ground arith
  worker_step-frozen new me c is_done (waiting my_pos) o p f e = ground arith
  worker_step-frozen new me c is_done (test_shutdown_again my_pos) o p f e = ground arith
  worker_step-frozen new me c is_done (test_retire_again my_pos) o p f e = ground arith
  worker_step-frozen new me c is_done (taking my_pos) o p f e = ground arith
  worker_step-frozen new me c is_done (releasing my_pos task) o p f e = ground arith
  worker_step-frozen new me c is_done (marking none task) o p f e = ground arith
  worker_step-frozen new me c is_done (marking (some k) task) o p f e = ground arith
  worker_step-frozen new me c is_done (notifying k task) o p f e = ground arith
  worker_step-frozen new me c is_done (running my_pos none) o p f e = ground arith
  worker_step-frozen new me c is_done (running my_pos (some t)) o p f e = ground arith
  worker_step-frozen new me c is_done (finishing none) o p f e = ground arith
  worker_step-frozen new me c is_done (finishing (some k)) o p f e = ground arith

  admin_step-frozen :
      (new : ℕ) (made : Bool) (a : AdminAct) (o p : Pool A)
      → IsFrozen o p
      → StaysFrozen o (admin_step new made a p)
  unfolding admin_step shrink enlist past_test
  admin_step-frozen new made lock_working o p f = ground arith
  admin_step-frozen new made (create i) o p f = ground arith
  admin_step-frozen new made _ o p f = ground arith

  caller_step-frozen :
      (new me : ℕ) (c : Choice A) (is_done : ℕ → Bool) (a : CallerAct A) (o p : Pool A)
      → IsFrozen o p
      → past_test (caller a) ≡ false
      → StaysFrozen o (caller_step new me c is_done a p)
  unfolding caller_step begin enlist past_test
  caller_step-frozen new me go is_done outside o p f e = ground arith
  caller_step-frozen new me refuse is_done outside o p f e = ground arith
  caller_step-frozen new me (call_add t) is_done outside o p f e = ground arith
  caller_step-frozen new me call_shutdown is_done outside o p f e = ground arith
  caller_step-frozen new me call_destroy is_done outside o p f e = ground arith
  caller_step-frozen new me c is_done (add_wait t) o p f e =
      elim (Option-cases (queue_full p.task_queue)) [
        | inl full ↦ ground (arith, full)
        | inr (full?, full) ↦ ground (arith, full)
      ]
  caller_step-frozen new me c is_done (shutdown_test true) o p f e = ground arith
  caller_step-frozen new me c is_done (shutdown_test false) o p f e = ground arith
  caller_step-frozen new me c is_done (shutdown_unlock true) o p f e = ground arith
  caller_step-frozen new me c is_done (shutdown_unlock false) o p f e = ground arith
  caller_step-frozen new me c is_done _ o p f e = ground arith

  thread_step-frozen :
      (new me : ℕ) (c : Choice A) (is_done : ℕ → Bool) (th : Thread A) (o p : Pool A)
      → IsFrozen o p
      → past_test th ≡ false
      → StaysFrozen o (thread_step new me c is_done th p)
  unfolding thread_step
  thread_step-frozen new me c is_done (worker a) o p f e =
      worker_step-frozen new me c is_done a o p f e
  thread_step-frozen new me c is_done (admin a) o p f e = admin_step-frozen new (grants c) a o p f
  thread_step-frozen new me c is_done (caller a) o p f e =
      caller_step-frozen new me c is_done a o p f e
  thread_step-frozen new me c is_done exited o p f e = tt
  thread_step-frozen new me c is_done undefined o p f e = tt

  NonePast-set :
      (ths : List (Thread A)) (i : ℕ) (th : Thread A) (made : List (Thread A))
      → NonePast ths
      → past_test th ≡ false
      → NonePast made
      → NonePast (set ths i th ++ made)
  NonePast-set [] i th made n e m = m
  NonePast-set (x ∷ xs) zero th made n e m = (e, rest xs n.1)
    where
      rest : (ys : List (Thread A)) → NonePast ys → NonePast (ys ++ made)
      rest [] n = m
      rest (y ∷ ys) n = (n.0, rest ys n.1)
  NonePast-set (x ∷ xs) (suc i) th made n e m = (n.0, NonePast-set xs i th made n.1 e m)

  NonePast-at :
      (ths : List (Thread A)) (i : ℕ) (th : Thread A)
      → NonePast ths
      → get_elem? ths i ≡ some th
      → past_test th ≡ false
  NonePast-at [] i th n e = ground arith
  NonePast-at (x ∷ xs) zero th n e = ground arith
  NonePast-at (x ∷ xs) (suc i) th n e = NonePast-at xs i th n.1 e

  at-NonePast :
      (ths : List (Thread A))
      → ((i : ℕ) (th : Thread A) → get_elem? ths i ≡ some th → past_test th ≡ false)
      → NonePast ths
  at-NonePast [] h = tt
  at-NonePast (x ∷ xs) h = (h 0 x refl, at-NonePast xs (λ i th e. h (suc i) th e))

  Reach-IsFrozen :
      (o : Pool A) (s t : System A)
      → IsFrozen o s.pool
      → NonePast s.threads
      → Reach s t
      → IsFrozen o t.pool × NonePast t.threads
  Reach-IsFrozen o s _ f n here = (f, n)
  Reach-IsFrozen o s t f n (later {t = u} i c r e) =
      let (f', n') = Reach-IsFrozen o s u f n r in
      let (th, p', th', made, there, moved, result) = step-cases i c u t e in
      let done : ℕ → Bool = λ k. is_exited (get_elem? u.threads k) in
      let stays : StaysFrozen o (thread_step (length u.threads) i c done th u.pool) =
        thread_step-frozen (length u.threads) i c done th o u.pool f'
          (NonePast-at u.threads i th n' there) in
      let (frozen, not_past, none_new) = rw moved at stays in
      rw result (frozen, NonePast-set u.threads i th' made n' not_past none_new)

  past-holds : (th : Thread A) → past_test th ≡ true → holds_queue th ≡ true
  unfolding past_test holds_queue worker_holds caller_holds
  past-holds (worker (test_retire_again my_pos)) e = refl
  past-holds (worker (taking my_pos)) e = refl
  past-holds (caller (add_enter t)) e = refl
  past-holds _ e = ground arith

  -- Once the pool is shut down and queue_mut is free, thr_pool_add_task accepts no task and no worker takes
  -- one, whatever the threads do: the tasks in the queue stay there.
  pub shutdown-freezes :
      (callers : ℕ) (s t : System A)
      → IsReached callers s
      → s.pool.shutdown ≡ true
      → s.pool.queue_owner ≡ none
      → Reach s t
      → (t.pool.accepted ≡ s.pool.accepted)
        × (t.pool.taken ≡ s.pool.taken)
        × (t.pool.task_queue ≡ s.pool.task_queue)
  shutdown-freezes callers s t r stopped unlocked turns =
      let (f, _) = Reach-IsFrozen s.pool s t start (at-NonePast s.threads quiet) turns in
      (f.accepted, f.taken, f.queue)
    where
      start : IsFrozen s.pool s.pool
      start = record { stopped = stopped; queue = refl; accepted = refl; taken = refl }

      quiet : (i : ℕ) (th : Thread A) → get_elem? s.threads i ≡ some th → past_test th ≡ false
      quiet i th e = elim (Bool-cases (past_test th)) [
        | inl past ↦
            let owns = ((IsReached-IsSound callers s r).fits i th e).owns (past-holds th past) in
            ground (arith, owns, unlocked)
        | inr before ↦ before
      ]
