-- ===== src/Multicast/Pool/CallerEffect.antt =====
-- The actions of the manager and of callers keep what the pool relies on: admin_fun, thr_pool_init,
-- thr_pool_add_task, thr_pool_shutdown and thr_pool_destroy of 流媒体组播/server/pool/pool.c.
use mathlib.Core.List.{append_assoc}
use learningproject.Common.{
  ℕ, ◌≡◌, refl, sym, ap, ◌∙◌, Bool, true, false, [], ◌∷◌, ◌++◌, Option, none, some, inl, inr, arith,
  Option-cases,
}
use learningproject.Multicast.Queue.{queue_full}
use learningproject.Multicast.Queue.Invariant.{contents}
use learningproject.Multicast.Queue.Refinement.{enter_with_room}
use learningproject.Multicast.Pool.{
  Pool, admin, caller, AdminAct, lock_working, loop, decide, relock, block, wait_working, grow,
  create, created, CallerAct, init_admin, init_blank, cleanup, outside, init_worker, init_mark,
  add_test, add_lock, add_wait, add_blocked, add_check, add_enter, add_unlock, shutdown_test,
  shutdown_lock, shutdown_set, shutdown_unlock, join_admin, destroyed, join_worker,
}
use learningproject.Multicast.Pool.Admin.{admin_step, shrink, enlist}
use learningproject.Multicast.Pool.Caller.{
  Choice, go, refuse, call_add, call_shutdown, call_destroy, begin, caller_step,
}
use learningproject.Multicast.Pool.Invariant.{
  holds_queue, worker_holds, caller_holds, hand, worker_hand, room, caller_room, has_room, Before,
  Kept,
}

has_room-false : (full? : Option Bool) → has_room full? ≡ true → full? ≡ some false
has_room-false none e = ground arith
has_room-false (some true) e = ground arith
has_room-false (some false) e = refl

module _ {A : Type 0} where
  pub admin_step-Keeps :
      (new me : ℕ) (made : Bool) (a : AdminAct) (p : Pool A)
      → Before me p (admin a)
      → Kept me (admin a) p (admin_step new made a p)
  unfolding admin_step shrink enlist holds_queue worker_holds hand worker_hand room
  admin_step-Keeps new me made lock_working p b = ground arith
  admin_step-Keeps new me made loop p b = ground arith
  admin_step-Keeps new me made decide p b = ground arith
  admin_step-Keeps new me made (grow busy) p b = ground arith
  admin_step-Keeps new me made (create i) p b = ground arith
  admin_step-Keeps new me made (created i k) p b = ground arith
  admin_step-Keeps new me made relock p b = ground arith
  admin_step-Keeps new me made block p b = ground arith
  admin_step-Keeps new me made wait_working p b = ground arith

  add_enter-Keeps :
      (new me : ℕ) (c : Choice A) (is_done : ℕ → Bool) (t : A) (p : Pool A)
      → Before me p (caller (add_enter t))
      → Kept me (caller (add_enter t)) p (caller_step new me c is_done (add_enter t) p)
  unfolding caller_step holds_queue caller_holds hand room caller_room
  add_enter-Keeps new me c is_done t p b =
      let no_wait = has_room-false (queue_full p.task_queue) b.fits.finds_room in
      let (q', e, v', held) = enter_with_room p.task_queue t b.valid no_wait in
      rw (e, caller_step)
        (
          record {
            valid = v';
            in_order =
                ap (λ xs. xs ++ t ∷ []) b.in_order
                ∙ append_assoc p.taken (contents p.task_queue) (t ∷ [])
                ∙ ap (λ xs. p.taken ++ xs) (sym held);
            balance = λ f. refl;
            fits = ground arith;
            apart = ground arith;
            stays_shut = λ e. e;
          },
          tt,
        )

  pub caller_step-Keeps :
      (new me : ℕ) (c : Choice A) (is_done : ℕ → Bool) (a : CallerAct A) (p : Pool A)
      → Before me p (caller a)
      → Kept me (caller a) p (caller_step new me c is_done a p)
  unfolding caller_step begin enlist holds_queue worker_holds caller_holds hand worker_hand room
      caller_room
  caller_step-Keeps new me c is_done (add_enter t) p b = add_enter-Keeps new me c is_done t p b
  caller_step-Keeps new me c is_done init_admin p b = ground arith
  caller_step-Keeps new me c is_done init_blank p b = ground arith
  caller_step-Keeps new me c is_done cleanup p b = ground arith
  caller_step-Keeps new me go is_done outside p b = ground arith
  caller_step-Keeps new me refuse is_done outside p b = ground arith
  caller_step-Keeps new me (call_add t) is_done outside p b = ground arith
  caller_step-Keeps new me call_shutdown is_done outside p b = ground arith
  caller_step-Keeps new me call_destroy is_done outside p b = ground arith
  caller_step-Keeps new me c is_done (init_worker i) p b = ground arith
  caller_step-Keeps new me c is_done (init_mark i) p b = ground arith
  caller_step-Keeps new me c is_done (add_test t) p b = ground arith
  caller_step-Keeps new me c is_done (add_lock t) p b = ground arith
  caller_step-Keeps new me c is_done (add_wait t) p b =
      elim (Option-cases (queue_full p.task_queue)) [
        | inl e ↦ ground (arith, e)
        | inr (full?, e) ↦ ground (arith, e)
      ]
  caller_step-Keeps new me c is_done (add_blocked t) p b = ground arith
  caller_step-Keeps new me c is_done (add_check t) p b = ground arith
  caller_step-Keeps new me c is_done add_unlock p b = ground arith
  caller_step-Keeps new me c is_done (shutdown_test true) p b = ground arith
  caller_step-Keeps new me c is_done (shutdown_test false) p b = ground arith
  caller_step-Keeps new me c is_done (shutdown_lock destroys) p b = ground arith
  caller_step-Keeps new me c is_done (shutdown_set destroys) p b = ground arith
  caller_step-Keeps new me c is_done (shutdown_unlock true) p b = ground arith
  caller_step-Keeps new me c is_done (shutdown_unlock false) p b = ground arith
  caller_step-Keeps new me c is_done join_admin p b = ground arith
  caller_step-Keeps new me c is_done destroyed p b = ground arith
  caller_step-Keeps new me c is_done (join_worker i) p b = ground arith
