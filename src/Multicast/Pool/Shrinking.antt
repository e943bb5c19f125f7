-- ===== src/Multicast/Pool/Shrinking.antt =====
-- How many workers the manager lets go: admin_fun of 流媒体组播/server/pool/pool.c.
use learningproject.Common.{ℕ, ◌+◌, ◌*◌, ◌≤◌, ◌<◌, ◌≡◌, ◌⊎◌, inl, inr, arith, pos, dec_lt}
use learningproject.Multicast.Pool.{Pool}
use learningproject.Multicast.Pool.Admin.{shrink, to_exit}

module _ {A : Type 0} where
  -- With `live` workers of which `working` have a task, the manager asks at most half of the idle ones to
  -- go, and never so many that fewer than `min_thrs` would be left; it asks none to go, that were not
  -- asked before, unless fewer than half are busy and more than `min_thrs` are live.
  shrink_lem :
      (working live : ℕ) (p : Pool A)
      → p.live_thrs ≡ pos live
      → (((working * 2 < live) × (p.min_thrs < live))
          × ((shrink working p).exit_thrs + p.min_thrs ≤ live)
          × ((shrink working p).exit_thrs * 2 + working ≤ live))
        ⊎ (((live ≤ working * 2) ⊎ (live ≤ p.min_thrs)) × (shrink working p ≡ p))
  unfolding shrink to_exit
  shrink_lem working live p e = elim (dec_lt (working * 2) live) [
    | yes few ↦ elim (dec_lt p.min_thrs live) [
      | yes many ↦ inl (ground (arith, e, few, many))
      | no all ↦ inr (ground (arith, e, few, all))
    ]
    | no most ↦ inr (ground (arith, e, most))
  ]
