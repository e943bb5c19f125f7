-- ===== src/Multicast/Pool/Ending.antt =====
-- A worker comes to its end when the pool is shut down: worker_fun of 流媒体组播/server/pool/pool.c.
use learningproject.Common.{◌≡◌, false, List, [], ◌∷◌, Option, none, some}
use learningproject.Multicast.Pool.{
  unlock, Pool, WorkerAct, releasing, marking, running, notifying, unlock,
}
use learningproject.Multicast.Pool.Invariant.{worker_holds}

module _ {A : Type 0} where
  -- the task that a worker still has to run; `none` if that was never initialised
  unfoldable pub to_run : WorkerAct A → Option (List A)
  to_run (releasing my_pos none) = none
  to_run (marking my_pos none) = none
  to_run (notifying k none) = none
  to_run (running my_pos none) = none
  to_run (releasing my_pos (some t)) = some (t ∷ [])
  to_run (marking my_pos (some t)) = some (t ∷ [])
  to_run (notifying k (some t)) = some (t ∷ [])
  to_run (running my_pos (some t)) = some (t ∷ [])
  to_run _ = some []

  -- Both mutexes are free, but for queue_mut where the worker holds it.
  pub record IsFree (p : Pool A) (a : WorkerAct A) : Type 0 where
    pub queue_mut : worker_holds a ≡ false → p.queue_owner ≡ none
    pub working_mut : p.working_locked ≡ false
