-- ===== src/Multicast/Queue.antt =====
-- The circular queue of the thread pool: 流媒体组播/server/pool/queue/queue.c and queue.h.
-- Index `i` of `arr` stands for the `size` bytes from `arr + i * size`, which the code only copies, so
-- an element is a value of any type `A`. `none` is undefined behaviour: a division by zero, or a copy
-- outside the array.
pub mod Spec
pub mod Invariant
pub mod Refinement
pub mod Clients
mod Tests
use learningproject.Common.{
  ℕ, ◌+◌, ◌%◌, Bool, true, false, List, Option, none, some, ◌>>=◌, if◌then◌else◌, ◌==◌, ltb, set,
  length, get_elem?, replicate,
}

pub data Status : Type 0 where
  ok failed : Status

-- `queue_t`
pub record Queue (A : Type 0) : Type 0 where
  pub arr : List A
  pub front : ℕ
  pub tail : ℕ
  pub capacity : ℕ

-- `(i + 1) % capacity`, which traps at capacity 0.
abbrev pub next_index : ℕ → ℕ → Option ℕ
next_index i capacity = if capacity == 0 then none else some ((i + 1) % capacity)

module _ {A : Type 0} where
  -- `memcpy` into cell `i`
  abbrev pub store : List A → ℕ → A → Option (List A)
  store xs i v = if ltb i (length xs) then some (set xs i v) else none

  -- The two Booleans say whether `malloc` and `calloc` succeed; `blank` is a cell of zero bytes.
  -- The answer is what `*q` holds on return, with the code.
  unfoldable pub queue_init : Bool → Bool → ℕ → A → Status × Option (Queue A)
  queue_init malloc_ok calloc_ok capacity blank =
      if malloc_ok
      then (if calloc_ok
          then (
            ok,
            some (record {
              arr = replicate capacity blank;
              front = 0;
              tail = 0;
              capacity = capacity;
            }),
          )
          else (failed, none))
      else (failed, none)

  unfoldable pub queue_empty : Queue A → Bool
  queue_empty q = q.front == q.tail

  unfoldable pub queue_full : Queue A → Option Bool
  queue_full q = do n ← next_index q.tail q.capacity; some (n == q.front)

  unfoldable pub queue_enter : Queue A → A → Option (Status × Queue A)
  unfolding queue_full
  queue_enter q x = do
    full ← queue_full q
    if full then some (failed, q) else (do
      arr ← store q.arr q.tail x
      tail ← next_index q.tail q.capacity
      some (ok, record q { arr = arr; tail = tail }))

  -- The option in the answer is what went through `data`.
  unfoldable pub queue_deq : Queue A → Option (Status × Option A × Queue A)
  unfolding queue_empty
  queue_deq q = if queue_empty q then some (failed, none, q) else (do
    x ← get_elem? q.arr q.front
    front ← next_index q.front q.capacity
    some (ok, some x, record q { front = front }))

-- `queue_destroy` frees both blocks and leaves `*q` null.
pub queue_destroy : {A : Type 0} → Queue A → Option (Queue A)
queue_destroy q = none
