-- ===== src/Multicast/Pool/Alone.antt =====
-- A worker of a pool that is shut down, while the other threads do nothing: worker_fun of
-- 流媒体组播/server/pool/pool.c.
use learningproject.Common.{
  ℕ, zero, suc, ◌≡◌, refl, ◌∙◌, true, false, List, [], ◌∷◌, ◌++◌, Option, none, some, inl, inr,
  arith, Bool-cases,
}
use learningproject.Multicast.Pool.{
  free, busy, unlock, set_state, lock_for, Pool, Thread, worker, exited, WorkerAct, lock_queue,
  test_shutdown, leaving, test_retire, test_wait, waiting, test_shutdown_again, finishing, marking,
  running, notifying, unlock, lock_for, set_state, free, busy,
}
use learningproject.Multicast.Pool.Worker.{worker_step, retire, is_surplus}

module _ {A : Type 0} where
  -- at most `n` actions of a worker, while the other threads do nothing
  unfoldable pub alone : (n me : ℕ) → Thread A → Pool A → Pool A × Thread A
  alone zero me th p = (p, th)
  alone (suc n) me (worker a) p = elim (worker_step me a p) [
    | none ↦ (p, worker a)
    | some (p', th) ↦ alone n me th p'
  ]
  alone (suc n) me th p = (p, th)

  -- The worker has exited, all that was run is `ran`, and queue_mut is free.
  abbrev pub Ends : List A → Pool A × Thread A → Type 0
  Ends ran (p, th) = (th ≡ exited) × (p.ran ≡ ran) × (p.queue_owner ≡ none)

  pub next-Ends :
      (n me : ℕ) (a : WorkerAct A) (p p' : Pool A) (th : Thread A) (ran : List A)
      → worker_step me a p ≡ some (p', th)
      → Ends ran (alone n me th p')
      → Ends ran (alone (suc n) me (worker a) p)
  unfolding alone
  next-Ends n me a p p' th ran e ends = rw (e, alone) ends

  exited-Ends : (n me : ℕ) (p : Pool A) → p.queue_owner ≡ none → Ends p.ran (alone n me exited p)
  unfolding alone
  exited-Ends zero me p e = (refl, refl, e)
  exited-Ends (suc n) me p e = (refl, refl, e)

  -- the acts that come to a test of `shutdown` in the critical section, with `p` shut down
  module _ (n me : ℕ) (p : Pool A) (stopped : p.shutdown ≡ true) where
    pub test_shutdown-Ends : Ends p.ran (alone (suc n) me (worker test_shutdown) p)
    unfolding worker_step
    test_shutdown-Ends =
        next-Ends n me test_shutdown p (unlock p) exited p.ran (ground arith)
          (exited-Ends n me (unlock p) refl)

    pub leaving-Ends : Ends p.ran (alone (suc n) me (worker leaving) p)
    unfolding worker_step
    leaving-Ends =
        next-Ends n me leaving p (unlock p) exited p.ran refl (exited-Ends n me (unlock p) refl)

    pub again-Ends :
        (my_pos : Option ℕ) → Ends p.ran (alone (suc n) me (worker (test_shutdown_again my_pos)) p)
    unfolding worker_step
    again-Ends my_pos =
        next-Ends n me (test_shutdown_again my_pos) p (unlock p) exited p.ran (ground arith)
          (exited-Ends n me (unlock p) refl)

  module _ (n me : ℕ) (my_pos : Option ℕ) (p : Pool A) (stopped : p.shutdown ≡ true) where
    pub wait-Ends : Ends p.ran (alone (suc (suc n)) me (worker (test_wait my_pos)) p)
    unfolding worker_step
    wait-Ends =
        next-Ends (suc n) me (test_wait my_pos) p p (worker (test_shutdown_again my_pos)) p.ran
          (ground arith) (again-Ends n me p stopped my_pos)

    retire-ran : ((retire my_pos p).ran ≡ p.ran) × ((retire my_pos p).shutdown ≡ p.shutdown)
    unfolding retire
    retire-ran =
        elim my_pos as (λ o. ((retire o p).ran ≡ p.ran) × ((retire o p).shutdown ≡ p.shutdown)) [
          | none ↦ (refl, refl)
          | some k ↦ (refl, refl)
        ]

    pub retire-Ends : Ends p.ran (alone (suc (suc (suc n))) me (worker (test_retire my_pos)) p)
    unfolding worker_step
    retire-Ends = elim (Bool-cases (is_surplus my_pos p)) [
      | inl surplus ↦
          let (ran, stays) = retire-ran in
          let (ends, all, unlocked) = leaving-Ends (suc n) me (retire my_pos p) (stays ∙ stopped) in
          next-Ends (suc (suc n)) me (test_retire my_pos) p (retire my_pos p) (worker leaving) p.ran
            (ground (arith, surplus)) (ends, all ∙ ran, unlocked)
      | inr stays ↦
          next-Ends (suc (suc n)) me (test_retire my_pos) p p (worker (test_wait my_pos)) p.ran
            (ground (arith, stays)) wait-Ends
    ]

  module _ (n me : ℕ) (p : Pool A) (stopped : p.shutdown ≡ true)
      (unlocked : p.queue_owner ≡ none) where
    pub lock_queue-Ends : Ends p.ran (alone (suc (suc n)) me (worker lock_queue) p)
    unfolding worker_step
    lock_queue-Ends =
        next-Ends (suc n) me lock_queue p (lock_for me p) (worker test_shutdown) p.ran
          (ground (arith, unlocked)) (test_shutdown-Ends n me (lock_for me p) stopped)

    pub waiting-Ends :
        (my_pos : Option ℕ) → Ends p.ran (alone (suc (suc (suc n))) me (worker (waiting my_pos)) p)
    unfolding worker_step
    waiting-Ends my_pos =
        next-Ends (suc (suc n)) me (waiting my_pos) p (lock_for me p) (worker (test_wait my_pos))
          p.ran (ground (arith, unlocked)) (wait-Ends n me my_pos (lock_for me p) stopped)

  module _ (n me : ℕ) (p : Pool A) (stopped : p.shutdown ≡ true) (unlocked : p.queue_owner ≡ none)
      (open_mut : p.working_locked ≡ false) where
    pub finishing-Ends :
        (my_pos : Option ℕ)
        → Ends p.ran (alone (suc (suc (suc n))) me (worker (finishing my_pos)) p)
    unfolding worker_step
    finishing-Ends none =
        next-Ends (suc (suc n)) me (finishing none) p p (worker lock_queue) p.ran refl
          (lock_queue-Ends n me p stopped unlocked)
    finishing-Ends (some k) =
        let p' : Pool A = record p { worker_thrs = set_state k free p.worker_thrs } in
        next-Ends (suc (suc n)) me (finishing (some k)) p p' (worker lock_queue) p.ran
          (ground (arith, open_mut)) (lock_queue-Ends n me p' stopped unlocked)

  module _ (n me : ℕ) (t : A) (p : Pool A) (stopped : p.shutdown ≡ true)
      (open_mut : p.working_locked ≡ false) where
    pub running-Ends :
        (my_pos : Option ℕ)
        → p.queue_owner ≡ none
        → Ends
            (p.ran ++ t ∷ [])
            (alone (suc (suc (suc (suc n)))) me (worker (running my_pos (some t))) p)
    unfolding worker_step
    running-Ends my_pos unlocked =
        let p' : Pool A = record p { ran = p.ran ++ t ∷ [] } in
        next-Ends (suc (suc (suc n))) me (running my_pos (some t)) p p' (worker (finishing my_pos))
          p'.ran refl (finishing-Ends n me p' stopped unlocked open_mut my_pos)

  module _ (n me : ℕ) (t : A) (p : Pool A) (stopped : p.shutdown ≡ true)
      (open_mut : p.working_locked ≡ false) where
    pub notifying-Ends :
        (k : ℕ)
        → p.queue_owner ≡ none
        → Ends
            (p.ran ++ t ∷ [])
            (alone (suc (suc (suc (suc (suc n))))) me (worker (notifying k (some t))) p)
    unfolding worker_step
    notifying-Ends k unlocked =
        next-Ends (suc (suc (suc (suc n)))) me (notifying k (some t)) p p
          (worker (running (some k) (some t))) (p.ran ++ t ∷ []) (ground (arith, open_mut))
          (running-Ends n me t p stopped open_mut (some k) unlocked)

  module _ (n me : ℕ) (t : A) (p : Pool A) (stopped : p.shutdown ≡ true)
      (open_mut : p.working_locked ≡ false) where
    pub marking-Ends :
        (my_pos : Option ℕ)
        → p.queue_owner ≡ none
        → Ends
            (p.ran ++ t ∷ [])
            (alone (suc (suc (suc (suc (suc (suc n)))))) me (worker (marking my_pos (some t))) p)
    unfolding worker_step
    marking-Ends none unlocked =
        next-Ends (suc (suc (suc (suc (suc n))))) me (marking none (some t)) p p
          (worker (running none (some t))) (p.ran ++ t ∷ []) refl
          (running-Ends (suc n) me t p stopped open_mut none unlocked)
    marking-Ends (some k) unlocked =
        let p' : Pool A = record p { worker_thrs = set_state k busy p.worker_thrs } in
        next-Ends (suc (suc (suc (suc (suc n))))) me (marking (some k) (some t)) p p'
          (worker (notifying k (some t))) (p.ran ++ t ∷ []) refl
          (notifying-Ends n me t p' stopped open_mut k unlocked)
