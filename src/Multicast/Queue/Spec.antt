-- ===== src/Multicast/Queue/Spec.antt =====
-- What queue.c promises: a first-in first-out list of at most `room` elements.
use learningproject.Common.{ℕ, List, [], ◌∷◌, ◌++◌, Option, none, some, if◌then◌else◌, ◌==◌, length}
use learningproject.Multicast.Queue.{Status, ok, failed}

module _ {A : Type 0} where
  unfoldable pub enter : ℕ → List A → A → Status × List A
  enter room xs x = if length xs == room then (failed, xs) else (ok, xs ++ x ∷ [])

  unfoldable pub deq : List A → Status × Option A × List A
  deq [] = (failed, none, [])
  deq (x ∷ xs) = (ok, some x, xs)
