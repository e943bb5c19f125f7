-- ===== src/Multicast/Pool/Admin.antt =====
-- The manager of the pool: admin_fun of 流媒体组播/server/pool/pool.c.
use learningproject.Common.{
  ℕ, suc, ◌*◌, ◌/◌, Bool, true, false, ◌&&◌, not, List, [], ◌∷◌, Option, none, some, if◌then◌else◌,
  ltb,
}
use learningproject.Common.{ℤ, pos, ◌+ℤ◌, ◌-ℤ◌, ltb_ℤ, pos_part}
use learningproject.Multicast.Pool.{
  Pool, Thread, exited, free, set_state, set_tid, get_free_pos, count_busy, AdminAct, admin, worker,
  lock_queue, lock_working, loop, decide, relock, block, wait_working, grow, create, created,
}

abbrev pub eq_ℤ : ℤ → ℤ → Bool
eq_ℤ a b = not (ltb_ℤ a b) && not (ltb_ℤ b a)

module _ {A : Type 0} where
  -- how many workers are to go, where `busy * 2 < live` and `min < live`
  unfoldable pub to_exit : (busy : ℕ) → Pool A → ℕ
  to_exit busy p =
      let some_idle = pos_part (p.live_thrs -ℤ pos busy) / 2 in
      if ltb_ℤ (p.live_thrs -ℤ pos some_idle) (pos p.min_thrs)
      then pos_part (p.live_thrs -ℤ pos p.min_thrs)
      else some_idle

  -- the decision to let idle workers go
  unfoldable pub shrink : (busy : ℕ) → Pool A → Pool A
  shrink busy p =
      if ltb_ℤ (pos (busy * 2)) p.live_thrs && ltb_ℤ (pos p.min_thrs) p.live_thrs
      then record p { exit_thrs = to_exit busy p }
      else p

  -- a slot is filled, with a worker that runs
  unfoldable pub enlist : ℕ → Pool A → Pool A
  enlist k p = record p {
    worker_thrs = set_state k free p.worker_thrs;
    live_thrs = p.live_thrs +ℤ pos 1;
  }

  -- One action; the list holds the thread that it makes, which is thread `new`. `made` says whether
  -- pthread_create succeeds.
  unfoldable pub admin_step :
      (new : ℕ) (made : Bool) → AdminAct → Pool A → Option (Pool A × Thread A × List (Thread A))
  admin_step new made lock_working p =
      if p.working_locked then none else some (record p { working_locked = true }, admin loop, [])
  admin_step new made loop p =
      if p.shutdown
      then some (record p { working_locked = false }, exited, [])
      else some (p, admin decide, [])
  admin_step new made decide p =
      let busy = count_busy p.worker_thrs in some (shrink busy p, admin (grow busy), [])
  admin_step new made (grow busy) p =
      if eq_ℤ (pos busy) p.live_thrs && ltb_ℤ p.live_thrs (pos p.max_thrs)
      then some (record p { working_locked = false }, admin (create 0), [])
      else some (p, admin block, [])
  admin_step new made (create i) p =
      if ltb i p.min_thrs && ltb_ℤ p.live_thrs (pos p.max_thrs)
      then elim (get_free_pos p.worker_thrs) [
        | none ↦ some (p, admin relock, [])
        | some k ↦
            if made
            then some (
              record p { worker_thrs = set_tid k new p.worker_thrs },
              admin (created i k),
              worker lock_queue ∷ [],
            )
            else some (p, admin (create (suc i)), [])
      ]
      else some (p, admin relock, [])
  admin_step new made (created i k) p = some (enlist k p, admin (create (suc i)), [])
  admin_step new made relock p =
      if p.working_locked then none else some (record p { working_locked = true }, admin block, [])
  admin_step new made block p = some (record p { working_locked = false }, admin wait_working, [])
  admin_step new made wait_working p =
      if p.working_locked then none else some (record p { working_locked = true }, admin loop, [])
