-- ===== src/Multicast/Queue/Invariant.antt =====
-- The representation invariant of `queue_t`, and the elements that it holds.
use learningproject.Common.{
  ℕ, zero, suc, ◌+◌, ◌-◌, ◌%◌, ◌<◌, ◌≡◌, refl, ap, List, [], ◌∷◌, Option, none, some, arith, length,
  get_elem?, get_elem?-IsSome, length-replicate, true,
}
use learningproject.Multicast.Queue.{Queue, ok, queue_init}

zero_size : (c : ℕ) → 0 < c → (0 + c - 0) % c ≡ 0
zero_size c h = grind arith

module _ {A : Type 0} where
  pub record IsValid (q : Queue A) : Type 0 where
    pub positive : 0 < q.capacity
    pub storage : length q.arr ≡ q.capacity
    pub front_in : q.front < q.capacity
    pub tail_in : q.tail < q.capacity

  -- how many elements are queued
  abbrev pub size : Queue A → ℕ
  size q = (q.tail + q.capacity - q.front) % q.capacity

  -- a cell of the array in front of a list
  abbrev pub cell : Option A → List A → List A
  cell none xs = xs
  cell (some x) xs = x ∷ xs

  -- the `n` cells from index `h` on, going round at `cap`
  abbrev pub window : List A → ℕ → ℕ → ℕ → List A
  window xs cap h zero = []
  window xs cap h (suc n) = cell (get_elem? xs h) (window xs cap ((h + 1) % cap) n)

  abbrev pub contents : Queue A → List A
  contents q = window q.arr q.capacity q.front (size q)

  pub length-window :
      (xs : List A) (cap h n : ℕ) → length xs ≡ cap → h < cap → length (window xs cap h n) ≡ n
  length-window xs cap h zero e b = refl
  length-window xs cap h (suc n) e b =
      let (x, here) = get_elem?-IsSome xs h (omega arith) in
      rw here (ap suc (length-window xs cap ((h + 1) % cap) n e (omega arith)))

  pub init-IsValid :
      (capacity : ℕ) (blank : A) {q : Queue A}
      → 0 < capacity
      → queue_init true true capacity blank ≡ (ok, some q)
      → IsValid q
  unfolding queue_init
  init-IsValid capacity blank h e = ground (arith, length-replicate capacity blank)

  pub length-contents : (q : Queue A) → IsValid q → length (contents q) < q.capacity
  length-contents q v =
      omega
        (arith, length-window q.arr q.capacity q.front (size q) v.storage v.front_in, v.positive)

  -- A queue that queue_init makes holds nothing.
  pub init-empty :
      (capacity : ℕ) (blank : A) {q : Queue A}
      → 0 < capacity
      → queue_init true true capacity blank ≡ (ok, some q)
      → contents q ≡ []
  unfolding queue_init
  init-empty capacity blank h e = ground (arith, zero_size capacity h)

  pub queue_init-IsSome :
      (capacity : ℕ) (blank : A)
      → (q : Queue A) × (queue_init true true capacity blank ≡ (ok, some q))
  unfolding queue_init
  queue_init-IsSome capacity blank = (_, refl)
