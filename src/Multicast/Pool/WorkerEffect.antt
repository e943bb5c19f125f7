-- ===== src/Multicast/Pool/WorkerEffect.antt =====
-- The actions of a worker keep what the pool relies on: worker_fun of 流媒体组播/server/pool/pool.c.
use learningproject.Common.{
  ℕ, ◌+◌, ◌≡◌, refl, sym, ap, ◌∙◌, List, [], ◌∷◌, ◌++◌, Option, none, some, arith,
}
use mathlib.Core.List.{append_assoc}
use learningproject.Multicast.Queue.{Queue, Status, queue_deq}
use learningproject.Multicast.Queue.Spec
use learningproject.Multicast.Queue.Invariant.{IsValid, contents}
use learningproject.Multicast.Queue.Refinement.{deq_refines}
use learningproject.Multicast.Pool.{
  Pool, Thread, worker, WorkerAct, lock_queue, test_shutdown, find_slot, leaving, test_retire,
  test_wait, waiting, test_shutdown_again, test_retire_again, taking, finishing, releasing, marking,
  running, notifying,
}
use learningproject.Multicast.Pool.Worker.{worker_step, retire, as_list}
use learningproject.Multicast.Pool.Invariant.{
  holds_queue, worker_holds, hand, worker_hand, weigh, weigh_task, room, Before, Effect,
}

module _ {A : Type 0} where
  -- an action that can be done keeps it
  abbrev pub WorkerKept : ℕ → WorkerAct A → Pool A → Option (Pool A × Thread A) → Type 0
  WorkerKept me a p none = Unit
  WorkerKept me a p (some (p', th')) = Effect me p (worker a) p' th'

  pub weigh-append : (f : A → ℕ) (xs ys : List A) → weigh f (xs ++ ys) ≡ weigh f xs + weigh f ys
  unfolding weigh
  weigh-append f [] ys = omega arith
  weigh-append f (x ∷ xs) ys = omega (arith, weigh-append f xs ys)

  weigh_one : (f : A → ℕ) (t : A) → weigh f (t ∷ []) ≡ f t
  unfolding weigh
  weigh_one f t = omega arith

  weigh_nil : (f : A → ℕ) → weigh f [] ≡ 0
  unfolding weigh
  weigh_nil f = refl

  -- queue_deq on a valid queue takes the first element off, or finds nothing.
  deq-cases :
      (q : Queue A)
      → IsValid q
      → (q' : Queue A) × (out : Option A) × (s : Status) × (queue_deq q ≡ some (s, out, q'))
        × IsValid q'
        × (contents q ≡ as_list out ++ contents q')
  unfolding Spec.deq
  deq-cases q v =
      let (q', e, v', _, held) = deq_refines q v in
      (
        q',
        (Spec.deq (contents q)).1,
        (Spec.deq (contents q)).0,
        e,
        v',
        rw held (split (contents q)),
      )
    where
      split : (xs : List A) → xs ≡ as_list (Spec.deq xs).1 ++ (Spec.deq xs).2
      split [] = refl
      split (x ∷ xs) = refl

  taking-Keeps :
      (me : ℕ) (my_pos : Option ℕ) (p : Pool A)
      → Before me p (worker (taking my_pos))
      → WorkerKept me (taking my_pos) p (worker_step me (taking my_pos) p)
  unfolding worker_step holds_queue worker_holds hand worker_hand room
  taking-Keeps me my_pos p b =
      let (q', out, s, e, v', held) = deq-cases p.task_queue b.valid in
      rw (e, worker_step)
        (record {
          valid = v';
          in_order =
              b.in_order
              ∙ ap (λ xs. p.taken ++ xs) held
              ∙ sym (append_assoc p.taken (as_list out) (contents q'));
          balance = λ f. balanced f out;
          fits = ground arith;
          apart = ground arith;
          stays_shut = λ e. e;
        })
    where
      balanced :
          (f : A → ℕ) (out : Option A)
          → weigh f (p.taken ++ as_list out) + weigh f p.ran + 0
            ≡ weigh f p.taken + weigh f p.ran + weigh_task f out
      balanced f none = omega (arith, weigh-append f p.taken [], weigh_nil f)
      balanced f (some t) = omega (arith, weigh-append f p.taken (t ∷ []), weigh_one f t)

  pub worker_step-Keeps :
      (me : ℕ) (a : WorkerAct A) (p : Pool A)
      → Before me p (worker a)
      → WorkerKept me a p (worker_step me a p)
  unfolding worker_step holds_queue worker_holds hand worker_hand room retire
  worker_step-Keeps me (taking my_pos) p b = taking-Keeps me my_pos p b
  worker_step-Keeps me (running my_pos (some t)) p b = record {
    valid = b.valid;
    in_order = b.in_order;
    balance = λ f. omega (arith, weigh-append f p.ran (t ∷ []), weigh_one f t);
    fits = ground arith;
    apart = ground arith;
    stays_shut = λ e. e;
  }
  worker_step-Keeps me lock_queue p b = ground arith
  worker_step-Keeps me test_shutdown p b = ground arith
  worker_step-Keeps me find_slot p b = ground arith
  worker_step-Keeps me leaving p b = ground arith
  worker_step-Keeps me (test_retire none) p b = ground arith
  worker_step-Keeps me (test_retire (some k)) p b = ground arith
  worker_step-Keeps me (test_wait my_pos) p b = ground arith
  worker_step-Keeps me (waiting my_pos) p b = ground arith
  worker_step-Keeps me (test_shutdown_again my_pos) p b = ground arith
  worker_step-Keeps me (test_retire_again none) p b = ground arith
  worker_step-Keeps me (test_retire_again (some k)) p b = ground arith
  worker_step-Keeps me (releasing my_pos task) p b = ground arith
  worker_step-Keeps me (marking none task) p b = ground arith
  worker_step-Keeps me (marking (some k) task) p b = ground arith
  worker_step-Keeps me (notifying k task) p b = ground arith
  worker_step-Keeps me (running my_pos none) p b = ground arith
  worker_step-Keeps me (finishing none) p b = ground arith
  worker_step-Keeps me (finishing (some k)) p b = ground arith
