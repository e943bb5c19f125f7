-- ===== src/Multicast/Pool/Keeping.antt =====
-- Each action of each thread keeps what the pool relies on: 流媒体组播/server/pool/pool.c.
use learningproject.Common.{
  ℕ, zero, suc, ◌+◌, ◌≡◌, ◌≢◌, refl, ap, Bool, true, false, List, [], ◌∷◌, ◌++◌, Option, some, ◌⊎◌,
  inl, inr, arith, length, get_elem?, set, Option-cases, Bool-cases,
}
use learningproject.Multicast.Queue.{queue_full}
use learningproject.Multicast.Pool.{
  Pool, Thread, worker, admin, caller, exited, undefined, add_check, add_enter,
}
use learningproject.Multicast.Pool.Worker.{worker_step}
use learningproject.Multicast.Pool.Caller.{Choice, grants}
use learningproject.Multicast.Pool.System.{System, step, thread_step, is_exited}
use learningproject.Multicast.Pool.Invariant.{
  holds_queue, caller_holds, hand, in_hands, room, caller_room, Fits, IsSound, Before, IsNew,
  AllNew, Effect, Kept,
}
use learningproject.Multicast.Pool.WorkerEffect.{WorkerKept, worker_step-Keeps}
use learningproject.Multicast.Pool.CallerEffect.{admin_step-Keeps, caller_step-Keeps}

module _ {A : Type 0} where
  thread_step-Keeps :
      (new me : ℕ) (c : Choice A) (is_done : ℕ → Bool) (th : Thread A) (p : Pool A)
      → Before me p th
      → Kept me th p (thread_step new me c is_done th p)
  unfolding thread_step
  thread_step-Keeps new me c is_done (worker a) p b = elim (Option-cases (worker_step me a p)) [
    | inl e ↦ rw (e, thread_step) tt
    | inr ((p', th'), e) ↦
        let kept : WorkerKept me a p (worker_step me a p) = worker_step-Keeps me a p b in
        rw (e, thread_step) (rw e at kept, tt)
  ]
  thread_step-Keeps new me c is_done (admin a) p b = admin_step-Keeps new me (grants c) a p b
  thread_step-Keeps new me c is_done (caller a) p b = caller_step-Keeps new me c is_done a p b
  thread_step-Keeps new me c is_done exited p b = tt
  thread_step-Keeps new me c is_done undefined p b = tt

  room_idle :
      (th : Thread A) (b : Bool) (o : Option Bool) → holds_queue th ≡ false → room th b o ≡ true
  unfolding holds_queue caller_holds room caller_room
  room_idle (caller (add_check t)) b o e = ground arith
  room_idle (caller (add_enter t)) b o e = ground arith
  room_idle _ b o e = refl

  room_mono :
      (th : Thread A) (b b' : Bool) (o : Option Bool)
      → (b ≡ true → b' ≡ true)
      → room th b o ≡ true
      → room th b' o ≡ true
  unfolding room caller_room
  room_mono (caller (add_check t)) b b' o h e = ground arith
  room_mono (caller (add_enter t)) b b' o h e = e
  room_mono _ b b' o h e = refl

  -- The other threads may rely on what they did.
  apart-Fits :
      (me i : ℕ) (p p' : Pool A) (th th' x : Thread A)
      → Effect me p th p' th'
      → i ≢ me
      → Fits p i x
      → Fits p' i x
  apart-Fits me i p p' th th' x e ne f = elim (Bool-cases (holds_queue x)) [
    | inl holds ↦
        let (owner, same) = e.apart i ne (f.owns holds) in
        record {
          owns = λ h. owner;
          finds_room = rw same (
              room_mono x p.shutdown p'.shutdown (queue_full p.task_queue) e.stays_shut
                f.finds_room);
        }
    | inr idle ↦ record {
      owns = ground arith;
      finds_room = room_idle x p'.shutdown (queue_full p'.task_queue) idle;
    }
  ]

  new-Fits : (i : ℕ) (p : Pool A) (x : Thread A) → IsNew x → Fits p i x
  new-Fits i p x n = record {
    owns = ground arith;
    finds_room = n.needs_none p.shutdown (queue_full p.task_queue);
  }

  in_hands-new : (f : A → ℕ) (made : List (Thread A)) → AllNew made → in_hands f made ≡ 0
  unfolding in_hands
  in_hands-new f [] n = refl
  in_hands-new f (th ∷ ths) n = omega (arith, n.0.empty_hand f, in_hands-new f ths n.1)

  in_hands-set :
      (f : A → ℕ) (ths : List (Thread A)) (i : ℕ) (th th' : Thread A) (made : List (Thread A))
      → AllNew made
      → get_elem? ths i ≡ some th
      → in_hands f (set ths i th' ++ made) + hand f th ≡ in_hands f ths + hand f th'
  unfolding in_hands
  in_hands-set f [] i th th' made n e = ground arith
  in_hands-set f (x ∷ xs) zero th th' made n e = ground (arith, rest xs)
    where
      rest : (ys : List (Thread A)) → in_hands f (ys ++ made) ≡ in_hands f ys
      rest [] = in_hands-new f made n
      rest (y ∷ ys) = omega (arith, rest ys)
  in_hands-set f (x ∷ xs) (suc i) th th' made n e =
      omega (arith, in_hands-set f xs i th th' made n e)

  IsNew-elem :
      (made : List (Thread A)) (k : ℕ) (x : Thread A)
      → AllNew made
      → get_elem? made k ≡ some x
      → IsNew x
  IsNew-elem [] k x n e = ground arith
  IsNew-elem (th ∷ ths) zero x n e = ground arith
  IsNew-elem (th ∷ ths) (suc k) x n e = IsNew-elem ths k x n.1 e

  -- A thread after a step is the one that moved, one that did not, or a new one.
  elem-cases :
      (ths : List (Thread A)) (i : ℕ) (th th' : Thread A) (made : List (Thread A)) (k : ℕ)
      (x : Thread A)
      → AllNew made
      → get_elem? ths i ≡ some th
      → get_elem? (set ths i th' ++ made) k ≡ some x
      → ((k ≡ i) × (x ≡ th')) ⊎ (((k ≢ i) × (get_elem? ths k ≡ some x)) ⊎ IsNew x)
  elem-cases [] i th th' made k x n e at_k = ground arith
  elem-cases (y ∷ ys) zero th th' made zero x n e at_k = inl (refl, ground arith)
  elem-cases (y ∷ ys) zero th th' made (suc k) x n e at_k = old ys k at_k
    where
      old :
          (zs : List (Thread A)) (j : ℕ)
          → get_elem? (zs ++ made) j ≡ some x
          → ((suc k ≡ 0) × (x ≡ th')) ⊎ (((suc k ≢ 0) × (get_elem? zs j ≡ some x)) ⊎ IsNew x)
      old [] j e = inr (inr (IsNew-elem made j x n e))
      old (z ∷ zs) zero e = inr (inl (omega arith, e))
      old (z ∷ zs) (suc j) e = old zs j e
  elem-cases (y ∷ ys) (suc i) th th' made zero x n e at_k = inr (inl (omega arith, at_k))
  elem-cases (y ∷ ys) (suc i) th th' made (suc k) x n e at_k =
      elim (elem-cases ys i th th' made k x n e at_k) [
        | inl (p, q) ↦ inl (ap suc p, q)
        | inr (inl (p, q)) ↦ inr (inl (omega arith, q))
        | inr (inr q) ↦ inr (inr q)
      ]

  Effect-IsSound :
      (s : System A) (i : ℕ) (th : Thread A) (p' : Pool A) (th' : Thread A) (made : List (Thread A))
      → IsSound s
      → get_elem? s.threads i ≡ some th
      → Effect i s.pool th p' th'
      → AllNew made
      → IsSound (record { pool = p'; threads = set s.threads i th' ++ made })
  Effect-IsSound s i th p' th' made h at_i e n = record {
    valid = e.valid;
    in_order = e.in_order;
    once = λ f. omega (arith, h.once f, e.balance f, in_hands-set f s.threads i th th' made n at_i);
    fits = λ k x at_k. elim (elem-cases s.threads i th th' made k x n at_i at_k) [
      | inl (p, q) ↦ rw (p, q) e.fits
      | inr (inl (ne, old)) ↦ apart-Fits i k s.pool p' th th' x e ne (h.fits k x old)
      | inr (inr new) ↦ new-Fits k p' x new
    ];
  }

  pub step-cases :
      (i : ℕ) (c : Choice A) (s t : System A)
      → step i c s ≡ some t
      → (th : Thread A) × (p' : Pool A) × (th' : Thread A) × (made : List (Thread A)) × (get_elem?
            s.threads i
          ≡ some th)
        × (thread_step (length s.threads) i c (λ k. is_exited (get_elem? s.threads k)) th s.pool
            ≡ some (p', th', made))
        × (t ≡ record { pool = p'; threads = set s.threads i th' ++ made })
  unfolding step
  step-cases i c s t e = elim (Option-cases (get_elem? s.threads i)) [
    | inl none_there ↦ ground (arith, none_there)
    | inr (th, there) ↦
        elim (Option-cases
          (thread_step (length s.threads) i c (λ k. is_exited (get_elem? s.threads k)) th s.pool)) [
            | inl blocked ↦ ground (arith, there, blocked)
            | inr ((p', th', made), moved) ↦
                (th, p', th', made, there, moved, ground (arith, there, moved))
          ]
  ]

  pub step-IsSound :
      (i : ℕ) (c : Choice A) (s t : System A) → IsSound s → step i c s ≡ some t → IsSound t
  step-IsSound i c s t h e =
      let (th, p', th', made, there, moved, result) = step-cases i c s t e in
      let before : Before i s.pool th = record {
        valid = h.valid;
        in_order = h.in_order;
        fits = h.fits i th there;
      } in
      let done : ℕ → Bool = λ k. is_exited (get_elem? s.threads k) in
      let kept : Kept i th s.pool (thread_step (length s.threads) i c done th s.pool) =
        thread_step-Keeps (length s.threads) i c done th s.pool before in
      let (effect, new) = rw moved at kept in
      rw result (Effect-IsSound s i th p' th' made h there effect new)
