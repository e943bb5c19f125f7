-- ===== src/Multicast/Pool/Invariant.antt =====
-- What holds of the pool in each state: 流媒体组播/server/pool/pool.c.
use learningproject.Common.{
  ℕ, ◌+◌, ◌≡◌, ◌≢◌, Bool, true, false, not, ◌||◌, List, [], ◌∷◌, ◌++◌, Option, none, some,
  get_elem?,
}
use learningproject.Multicast.Queue.{queue_full}
use learningproject.Multicast.Queue.Invariant.{IsValid, contents}
use learningproject.Multicast.Pool.{
  Pool, Thread, worker, caller, WorkerAct, test_shutdown, find_slot, leaving, test_retire,
  test_wait, test_shutdown_again, test_retire_again, taking, releasing, marking, running, notifying,
  CallerAct, add_wait, add_check, add_enter, add_unlock, shutdown_set, shutdown_unlock,
}
use learningproject.Multicast.Pool.System.{System}

abbrev pub has_room : Option Bool → Bool
has_room none = false
has_room (some full?) = not full?

module _ {A : Type 0} where
  unfoldable pub worker_holds : WorkerAct A → Bool
  worker_holds test_shutdown = true
  worker_holds find_slot = true
  worker_holds leaving = true
  worker_holds (test_retire my_pos) = true
  worker_holds (test_wait my_pos) = true
  worker_holds (test_shutdown_again my_pos) = true
  worker_holds (test_retire_again my_pos) = true
  worker_holds (taking my_pos) = true
  worker_holds (releasing my_pos task) = true
  worker_holds _ = false

  unfoldable pub caller_holds : CallerAct A → Bool
  caller_holds (add_wait t) = true
  caller_holds (add_check t) = true
  caller_holds (add_enter t) = true
  caller_holds add_unlock = true
  caller_holds (shutdown_set destroys) = true
  caller_holds (shutdown_unlock destroys) = true
  caller_holds _ = false

  -- whether a thread is between a lock of queue_mut and the unlock
  unfoldable pub holds_queue : Thread A → Bool
  holds_queue (worker a) = worker_holds a
  holds_queue (caller a) = caller_holds a
  holds_queue _ = false

  abbrev pub weigh_task : (A → ℕ) → Option A → ℕ
  weigh_task f none = 0
  weigh_task f (some t) = f t

  unfoldable pub worker_hand : (A → ℕ) → WorkerAct A → ℕ
  worker_hand f (releasing my_pos task) = weigh_task f task
  worker_hand f (marking my_pos task) = weigh_task f task
  worker_hand f (notifying k task) = weigh_task f task
  worker_hand f (running my_pos task) = weigh_task f task
  worker_hand f _ = 0

  -- the weight of the task in a thread's hands
  unfoldable pub hand : (A → ℕ) → Thread A → ℕ
  hand f (worker a) = worker_hand f a
  hand f _ = 0

  unfoldable pub weigh : (A → ℕ) → List A → ℕ
  weigh f [] = 0
  weigh f (t ∷ ts) = f t + weigh f ts

  unfoldable pub in_hands : (A → ℕ) → List (Thread A) → ℕ
  in_hands f [] = 0
  in_hands f (th ∷ ths) = hand f th + in_hands f ths

  unfoldable pub caller_room : CallerAct A → (stopped : Bool) → Option Bool → Bool
  caller_room (add_check t) stopped full? = stopped || has_room full?
  caller_room (add_enter t) stopped full? = has_room full?
  caller_room _ stopped full? = true

  -- A caller that has left the wait of thr_pool_add_task finds room in the queue, or the pool shut down.
  unfoldable pub room : Thread A → (stopped : Bool) → Option Bool → Bool
  room (caller a) stopped full? = caller_room a stopped full?
  room _ stopped full? = true

  -- what each thread may rely on in front of its action
  pub record Fits (p : Pool A) (i : ℕ) (th : Thread A) : Type 0 where
    pub owns : holds_queue th ≡ true → p.queue_owner ≡ some i
    pub finds_room : room th p.shutdown (queue_full p.task_queue) ≡ true

  pub record IsSound (s : System A) : Type 0 where
    pub valid : IsValid s.pool.task_queue
    pub in_order : s.pool.accepted ≡ s.pool.taken ++ contents s.pool.task_queue
    pub once : (f : A → ℕ) → weigh f s.pool.taken ≡ weigh f s.pool.ran + in_hands f s.threads
    pub fits : (i : ℕ) (th : Thread A) → get_elem? s.threads i ≡ some th → Fits s.pool i th

  -- what is known in front of an action of thread `me`
  pub record Before (me : ℕ) (p : Pool A) (th : Thread A) : Type 0 where
    pub valid : IsValid p.task_queue
    pub in_order : p.accepted ≡ p.taken ++ contents p.task_queue
    pub fits : Fits p me th

  -- a thread that was just made
  pub record IsNew (th : Thread A) : Type 0 where
    pub holds_none : holds_queue th ≡ false
    pub empty_hand : (f : A → ℕ) → hand f th ≡ 0
    pub needs_none : (stopped : Bool) (full? : Option Bool) → room th stopped full? ≡ true

  abbrev pub AllNew : List (Thread A) → Type 0
  AllNew [] = Unit
  AllNew (th ∷ ths) = IsNew th × AllNew ths

  -- What an action of thread `me` does to the pool, as far as the other threads see it.
  pub record Effect (me : ℕ) (p : Pool A) (th : Thread A) (p' : Pool A) (th' : Thread A)
      : Type 0 where
    pub valid : IsValid p'.task_queue
    pub in_order : p'.accepted ≡ p'.taken ++ contents p'.task_queue
    pub balance :
        (f : A → ℕ)
        → weigh f p'.taken + weigh f p.ran + hand f th
          ≡ weigh f p.taken + weigh f p'.ran + hand f th'
    pub fits : Fits p' me th'
    pub apart :
        (i : ℕ)
        → i ≢ me
        → p.queue_owner ≡ some i
        → (p'.queue_owner ≡ some i) × (p'.task_queue ≡ p.task_queue)
    pub stays_shut : p.shutdown ≡ true → p'.shutdown ≡ true

  -- an action that can be done keeps what the pool relies on
  abbrev pub Kept : ℕ → Thread A → Pool A → Option (Pool A × Thread A × List (Thread A)) → Type 0
  Kept me th p none = Unit
  Kept me th p (some (p', th', made)) = Effect me p th p' th' × AllNew made
