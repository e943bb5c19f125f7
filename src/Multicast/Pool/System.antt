-- ===== src/Multicast/Pool/System.antt =====
-- The threads of the pool together, in any order: 流媒体组播/server/pool/pool.c.
use learningproject.Common.{
  ℕ, ◌≡◌, Bool, true, false, List, [], ◌∷◌, ◌++◌, Option, none, some, ◌>>=◌, >>=-eq-some, arith,
  get_elem?, set, length, replicate,
}
use learningproject.Multicast.Pool.{
  Pool, Thread, worker, admin, caller, exited, undefined, init_admin, outside,
}
use learningproject.Multicast.Pool.Worker.{worker_step}
use learningproject.Multicast.Pool.Admin.{admin_step}
use learningproject.Multicast.Pool.Caller.{Choice, grants, caller_step}

module _ {A : Type 0} where
  abbrev pub is_exited : Option (Thread A) → Bool
  is_exited none = false
  is_exited (some (worker a)) = false
  is_exited (some (admin a)) = false
  is_exited (some (caller a)) = false
  is_exited (some exited) = true
  is_exited (some undefined) = false

  -- one action of a thread, with the threads that it makes
  unfoldable pub thread_step :
      (new me : ℕ)
      → Choice A
      → (ℕ → Bool)
      → Thread A
      → Pool A
      → Option (Pool A × Thread A × List (Thread A))
  thread_step new me c is_done (worker a) p = do (p', th) ← worker_step me a p; some (p', th, [])
  thread_step new me c is_done (admin a) p = admin_step new (grants c) a p
  thread_step new me c is_done (caller a) p = caller_step new me c is_done a p
  thread_step new me c is_done exited p = none
  thread_step new me c is_done undefined p = none

-- A thread's number is its index.
pub record System (A : Type 0) : Type 0 where
  pub pool : Pool A
  pub threads : List (Thread A)

module _ {A : Type 0} where
  unfoldable pub step : ℕ → Choice A → System A → Option (System A)
  step i c s = do
    th ← get_elem? s.threads i
    (p, th', made) ←
        thread_step (length s.threads) i c (λ k. is_exited (get_elem? s.threads k)) th s.pool
    some (record { pool = p; threads = set s.threads i th' ++ made })

  -- The first thread is in thr_pool_init, and `callers` others will use the pool.
  abbrev pub opening : (callers : ℕ) → Pool A → System A
  opening callers p = record {
    pool = p;
    threads = caller init_admin ∷ replicate callers (caller outside);
  }

  pub data Reach (s : System A) : System A → Type 0 where
    here : Reach s s
    later : {t u : System A} (i : ℕ) (c : Choice A) → Reach s t → step i c t ≡ some u → Reach s u

  -- the state after some turns
  unfoldable pub turns : List (ℕ × Choice A) → System A → Option (System A)
  turns [] s = some s
  turns ((i, c) ∷ more) s = do t ← step i c s; turns more t

  pub turns-Reach :
      (schedule : List (ℕ × Choice A)) {s t u : System A}
      → Reach s t
      → turns schedule t ≡ some u
      → Reach s u
  unfolding turns
  turns-Reach [] {t = t} {u = u} r e = let same : u ≡ t = ground arith in rw same r
  turns-Reach ((i, c) ∷ more) {t = t} r e =
      let (next, moved, rest) = >>=-eq-some (step i c t) (λ x. turns more x) e in
      turns-Reach more (later i c r moved) rest
