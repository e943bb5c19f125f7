-- ===== src/Multicast/Queue/Refinement.antt =====
-- A valid queue_t behaves as the bounded list of its contents.
use native.Mathlib.Nat.{mod-add-mod, mod-eq_of_lt, mod-eq-sub-mod, add-zero}
use learningproject.Common.{
  false, ℕ, zero, suc, ◌+◌, ◌-◌, ◌%◌, ◌≤◌, ◌<◌, ◌≡◌, ◌≢◌, refl, ap, ◌∙◌, List, [], ◌∷◌, ◌++◌, some,
  arith, length, get_elem?, get_elem?-IsSome, length-set, set, get_elem?-set_self, get_elem?-set_ne,
  dec_lt, ℕ_discrete, ◌↔◌,
}
use learningproject.Multicast.Queue.{ok, queue_full, Queue, queue_enter, queue_deq}
use learningproject.Multicast.Queue.Spec
use learningproject.Multicast.Queue.Invariant.{IsValid, size, window, contents, length-window}

-- Fewer than `c` steps round the ring do not come back to the start.
add-mod-ne : {c h k : ℕ} → h < c → suc k < c → (h + suc k) % c ≢ h
add-mod-ne {c} {h} {k} hh hk = elim (dec_lt (h + suc k) c) [
  | yes p ↦ omega (arith, mod-eq_of_lt p)
  | no p ↦ omega (
    arith,
    mod-eq-sub-mod {n = h + suc k} {m = c} (omega arith),
    mod-eq_of_lt {n = h + suc k - c} {m = c} (omega arith),
  )
]

next-lt : (c t : ℕ) → t + 1 < c → (t + 1) % c ≡ t + 1
next-lt c t h = mod-eq_of_lt h

next-last : (c t : ℕ) → t + 1 ≡ c → (t + 1) % c ≡ 0
next-last c t h = grind arith

size-le : (c h t : ℕ) → h < c → t < c → h ≤ t → (t + c - h) % c ≡ t - h
size-le c h t hh ht le = grind arith

size-wrap : (c h t : ℕ) → h < c → t < c → t < h → (t + c - h) % c ≡ t + c - h
size-wrap c h t hh ht lt = grind arith

-- `size` steps of the front reach the tail.
front-add-size : (c h t : ℕ) → h < c → t < c → (h + (t + c - h) % c) % c ≡ t
front-add-size c h t hh ht = grind arith

full_iff : (c h t : ℕ) → h < c → t < c → ((t + 1) % c ≡ h) ↔ ((t + c - h) % c ≡ c - 1)
full_iff c h t hh ht = grind arith

empty_iff : (c h t : ℕ) → h < c → t < c → (h ≡ t) ↔ ((t + c - h) % c ≡ 0)
empty_iff c h t hh ht = grind arith

size-enter :
    (c h t : ℕ) → h < c → t < c → (t + 1) % c ≢ h → ((t + 1) % c + c - h) % c ≡ (t + c - h) % c + 1
size-enter c h t hh ht ne = elim (dec_lt (t + 1) c) [
  | yes p ↦ rw (next-lt c t p) (elim (dec_lt t h) [
    | yes q ↦
        let apart : t + 1 < h = omega (arith, next-lt c t p) in
        omega (arith, size-wrap c h t hh ht q, size-wrap c h (t + 1) hh p apart)
    | no q ↦
        omega (arith, size-le c h t hh ht (omega arith), size-le c h (t + 1) hh p (omega arith))
  ])
  | no p ↦
      let e : t + 1 ≡ c = omega arith in
      let pos : 0 < h = omega (arith, next-last c t e) in
      rw (next-last c t e)
        (omega (arith, size-le c h t hh ht (omega arith), size-wrap c h 0 hh (omega arith) pos))
]

size-deq : (c h t : ℕ) → h < c → t < c → h ≢ t → (t + c - h) % c ≡ suc ((t + c - (h + 1) % c) % c)
size-deq c h t hh ht ne = elim (dec_lt (h + 1) c) [
  | yes p ↦ rw (next-lt c h p) (elim (dec_lt t h) [
    | yes q ↦ omega (arith, size-wrap c h t hh ht q, size-wrap c (h + 1) t p ht (omega arith))
    | no q ↦
        omega (arith, size-le c h t hh ht (omega arith), size-le c (h + 1) t p ht (omega arith))
  ])
  | no p ↦
      let e : h + 1 ≡ c = omega arith in
      rw (next-last c h e) (
        omega (
          arith,
          size-wrap c h t hh ht (omega arith),
          size-le c 0 t (omega arith) ht (omega arith),
        ))
]

module _ {A : Type 0} where
  -- Writing just past a window extends it by that element.
  window-set :
      (xs : List A) (c : ℕ) (x : A) (n h i : ℕ)
      → length xs ≡ c
      → h < c
      → n < c
      → i ≡ (h + n) % c
      → window (set xs i x) c h (suc n) ≡ window xs c h n ++ (x ∷ [])
  window-set xs c x zero h i hs hh hn e =
      rw (e, add-zero, mod-eq_of_lt hh, get_elem?-set_self xs h x (omega arith))
  window-set xs c x (suc n) h i hs hh hn e =
      let (y, here) = get_elem?-IsSome xs h (omega arith) in
      let ne : i ≢ h = rw e (add-mod-ne hh hn) in
      let rest = window-set xs c x n ((h + 1) % c) i hs (omega arith) (omega arith) (e ∙ shift) in
      rw (get_elem?-set_ne xs x ne, here) (ap (λ r. y ∷ r) rest)
    where
      shift : (h + suc n) % c ≡ ((h + 1) % c + n) % c
      shift = rw mod-add-mod (ap (λ k. k % c) (omega arith))

  window_of_some :
      (xs : List A) (c h n : ℕ) (x : A)
      → get_elem? xs h ≡ some x
      → window xs c h (suc n) ≡ x ∷ window xs c ((h + 1) % c) n
  window_of_some xs c h n x e = rw e

  -- `queue_enter` on a valid queue does not fault, keeps the invariant and the capacity, and gives the
  -- status and the contents that the bounded list of `capacity - 1` places gives.
  pub enter_refines :
      (q : Queue A) (x : A)
      → IsValid q
      → (q' : Queue A) × (queue_enter q x
          ≡ some ((Spec.enter (q.capacity - 1) (contents q) x).0, q'))
        × IsValid q'
        × (q'.capacity ≡ q.capacity)
        × (contents q' ≡ (Spec.enter (q.capacity - 1) (contents q) x).1)
  unfolding queue_enter Spec.enter
  enter_refines q x v = elim (ℕ_discrete ((q.tail + 1) % q.capacity) q.front) [
    | yes e ↦ (
      q,
      ground (arith, full, length-window q.arr q.capacity q.front (size q)),
      v,
      refl,
      ground (arith, full, length-window q.arr q.capacity q.front (size q)),
    )
    | no ne ↦ (
      record q { arr = set q.arr q.tail x; tail = (q.tail + 1) % q.capacity },
      ground (arith, full, length-window q.arr q.capacity q.front (size q)),
      ground (arith, length-set q.arr q.tail x),
      refl,
      ground (
        arith,
        full,
        length-window q.arr q.capacity q.front (size q),
        size-enter q.capacity q.front q.tail,
        front-add-size q.capacity q.front q.tail,
        window-set q.arr q.capacity x (size q) q.front q.tail,
      ),
    )
  ]
    where
      full : ((q.tail + 1) % q.capacity ≡ q.front) ↔ (size q ≡ q.capacity - 1)
      full = full_iff q.capacity q.front q.tail v.front_in v.tail_in

  -- queue_deq on a valid queue: its status and value are those of taking the first element off the
  -- contents, and the queue stays valid with the rest as contents.
  pub deq_refines :
      (q : Queue A)
      → IsValid q
      → (q' : Queue A) × (queue_deq q
          ≡ some ((Spec.deq (contents q)).0, (Spec.deq (contents q)).1, q'))
        × IsValid q'
        × (q'.capacity ≡ q.capacity)
        × (contents q' ≡ (Spec.deq (contents q)).2)
  unfolding queue_deq Spec.deq
  deq_refines q v = elim (ℕ_discrete q.front q.tail) [
    | yes e ↦ (q, ground (arith, empty), v, refl, ground (arith, empty))
    | no ne ↦
        let (x, here) = get_elem?-IsSome q.arr q.front (ground arith) in
        (
          record q { front = (q.front + 1) % q.capacity },
          ground (arith, step, window_of_some q.arr q.capacity q.front (size' q) x here),
          ground arith,
          refl,
          ground (arith, step, window_of_some q.arr q.capacity q.front (size' q) x here),
        )
  ]
    where
      empty : (q.front ≡ q.tail) ↔ (size q ≡ 0)
      empty = empty_iff q.capacity q.front q.tail v.front_in v.tail_in

      size' : Queue A → ℕ
      size' q = (q.tail + q.capacity - (q.front + 1) % q.capacity) % q.capacity

      step : q.front ≢ q.tail → size q ≡ suc (size' q)
      step ne = size-deq q.capacity q.front q.tail v.front_in v.tail_in ne

  -- queue_enter puts an element behind the others of a valid queue that is not full.
  pub enter_with_room :
      (q : Queue A) (x : A)
      → IsValid q
      → queue_full q ≡ some false
      → (q' : Queue A) × (queue_enter q x ≡ some (ok, q'))
        × IsValid q'
        × (contents q' ≡ contents q ++ x ∷ [])
  unfolding queue_enter Spec.enter
  enter_with_room q x v free_place =
      let (q', e, v', _, held) = enter_refines q x v in (q', ground arith, v', ground arith)
