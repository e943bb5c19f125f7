-- ===== src/Multicast/Pool/Safety.antt =====
-- What holds in every state of the pool: 流媒体组播/server/pool/pool.c.
use learningproject.Common.{
  ℕ, zero, suc, ◌+◌, ◌<◌, ◌≡◌, refl, ap, ◌∙◌, Bool, true, false, [], ◌∷◌, ◌++◌, Option, some, arith,
  length, get_elem?, replicate,
}
use learningproject.Multicast.Queue.{queue_full}
use learningproject.Multicast.Queue.Invariant.{
  IsValid, contents, length-contents, init-IsValid, init-empty, queue_init-IsSome,
}
use learningproject.Multicast.Pool.{Pool, Thread, caller, init_admin, outside, thr_pool_init}
use learningproject.Multicast.Pool.System.{System, opening, Reach, here, later}
use learningproject.Multicast.Pool.Invariant.{
  holds_queue, caller_holds, hand, weigh, in_hands, room, caller_room, IsSound,
}
use learningproject.Multicast.Pool.WorkerEffect.{weigh-append}
use learningproject.Multicast.Pool.Keeping.{step-IsSound}

-- A state that a pool of thr_pool_init comes to, with so many threads that will call it.
pub record IsReached {A : Type 0} (callers : ℕ) (s : System A) : Type 0 where
  pub min : ℕ
  pub max : ℕ
  pub queue_size : ℕ
  pub zeroes : A
  pub made : Pool A
  pub by_init : thr_pool_init true true true true min max queue_size zeroes ≡ some made
  pub reached : Reach (opening callers made) s

module _ {A : Type 0} where
  -- the pool as thr_pool_init leaves it to its first thread
  pub record IsFresh (p : Pool A) : Type 0 where
    pub valid : IsValid p.task_queue
    pub accepted_none : p.accepted ≡ []
    pub taken_none : p.taken ≡ []
    pub ran_none : p.ran ≡ []
    pub queued_none : contents p.task_queue ≡ []

  init-IsFresh :
      (min max queue_size : ℕ) (zeroes : A) (p : Pool A)
      → thr_pool_init true true true true min max queue_size zeroes ≡ some p
      → IsFresh p
  unfolding thr_pool_init
  init-IsFresh min max queue_size zeroes p e =
      let (q, made) = queue_init-IsSome queue_size zeroes in
      ground
        (arith, made, init-IsValid queue_size zeroes {q = q}, init-empty queue_size zeroes {q = q})

  outside-at :
      (callers i : ℕ) (th : Thread A)
      → get_elem? (caller init_admin ∷ replicate callers (caller outside)) i ≡ some th
      → (holds_queue th ≡ false) × ((b : Bool) (o : Option Bool) → room th b o ≡ true)
  unfolding holds_queue caller_holds room caller_room
  outside-at callers zero th e = ground arith
  outside-at zero (suc i) th e = ground arith
  outside-at (suc n) (suc zero) th e = ground arith
  outside-at (suc n) (suc (suc i)) th e = outside-at n (suc i) th e

  idle_hands : (f : A → ℕ) (callers : ℕ) → in_hands f (replicate callers (caller outside)) ≡ 0
  unfolding in_hands hand
  idle_hands f zero = refl
  idle_hands f (suc n) = omega (arith, idle_hands f n)

  opening-IsSound : (callers : ℕ) (p : Pool A) → IsFresh p → IsSound (opening callers p)
  unfolding in_hands hand weigh
  opening-IsSound callers p f = record {
    valid = f.valid;
    in_order = ground (arith, f);
    once = λ g. ground (arith, f, idle_hands g callers);
    fits = λ i th e.
        let (idle, roomy) = outside-at callers i th e in
        record {
          owns = ground (arith, idle);
          finds_room = roomy p.shutdown (queue_full p.task_queue);
        };
  }

  Reach-IsSound : (s t : System A) → IsSound s → Reach s t → IsSound t
  Reach-IsSound s _ h here = h
  Reach-IsSound s t h (later {t = u} i c r e) = step-IsSound i c u t (Reach-IsSound s u h r) e

  pub IsReached-IsSound : (callers : ℕ) (s : System A) → IsReached callers s → IsSound s
  IsReached-IsSound callers s r =
      let fresh = init-IsFresh r.min r.max r.queue_size r.zeroes r.made r.by_init in
      Reach-IsSound (opening callers r.made) s (opening-IsSound callers r.made fresh) r.reached

  -- In whatever order the threads take turns, the tasks for which thr_pool_add_task has returned 0 are those
  -- that workers have taken, in the same order, and then those in the queue, of which there are fewer than
  -- its capacity.
  pub accepted-in_order :
      (callers : ℕ) (s : System A)
      → IsReached callers s
      → let q = s.pool.task_queue in
        (s.pool.accepted ≡ s.pool.taken ++ contents q) × (length (contents q) < q.capacity)
  accepted-in_order callers s r =
      let h = IsReached-IsSound callers s r in
      (h.in_order, length-contents s.pool.task_queue h.valid)

  -- In whatever order the threads take turns, each task for which thr_pool_add_task has returned 0 was run
  -- once, or is in the hands of one worker, or is once in the queue, and no other task was run: whatever
  -- weight tasks are given, the weights agree.
  pub accepted-once :
      (callers : ℕ) (s : System A) (f : A → ℕ)
      → IsReached callers s
      → weigh f s.pool.accepted
        ≡ weigh f s.pool.ran + in_hands f s.threads + weigh f (contents s.pool.task_queue)
  accepted-once callers s f r =
      let h = IsReached-IsSound callers s r in
      ap (weigh f) h.in_order
      ∙ weigh-append f s.pool.taken (contents s.pool.task_queue)
      ∙ ap (λ n. n + weigh f (contents s.pool.task_queue)) (h.once f)

  -- In whatever order the threads take turns, no two of them are between a lock of queue_mut and the
  -- unlock.
  pub queue_mut-excludes :
      (callers : ℕ) (s : System A) (i j : ℕ) (th other : Thread A)
      → IsReached callers s
      → get_elem? s.threads i ≡ some th
      → get_elem? s.threads j ≡ some other
      → holds_queue th ≡ true
      → holds_queue other ≡ true
      → i ≡ j
  queue_mut-excludes callers s i j th other r at_i at_j h k =
      let sound = IsReached-IsSound callers s r in
      ground (arith, (sound.fits i th at_i).owns h, (sound.fits j other at_j).owns k)
