-- ===== src/Multicast/Queue/Clients.antt =====
-- Sequences of calls of queue.c, against the same calls of the bounded list.
use learningproject.Common.{
  ℕ, ◌-◌, ◌<◌, ◌≡◌, refl, List, [], ◌∷◌, Option, none, some, ◌>>=◌, arith, true, ap₂, ◌∙◌,
}
use learningproject.Multicast.Queue.{Queue, Status, ok, queue_init, queue_enter, queue_deq}
use learningproject.Multicast.Queue.Spec
use learningproject.Multicast.Queue.Invariant.{IsValid, contents, init-IsValid, init-empty}
use learningproject.Multicast.Queue.Refinement.{enter_refines, deq_refines}

-- A call that changes the queue, and what its caller sees.
pub data Call (A : Type 0) : Type 0 where
  enter : A → Call A
  deq : Call A

module _ {A : Type 0} where
  -- `none` if one of the calls faults
  unfoldable pub run : Queue A → List (Call A) → Option (List (Status × Option A))
  run q [] = some []
  run q (enter x ∷ calls) = do
    (s, q') ← queue_enter q x
    rest ← run q' calls
    some ((s, none) ∷ rest)
  run q (deq ∷ calls) = do (s, out, q') ← queue_deq q; rest ← run q' calls; some ((s, out) ∷ rest)

  pub run_spec : ℕ → List A → List (Call A) → List (Status × Option A)
  run_spec room xs [] = []
  run_spec room xs (enter x ∷ calls) =
      let (s, xs') = Spec.enter room xs x in (s, none) ∷ run_spec room xs' calls
  run_spec room xs (deq ∷ calls) =
      let (s, out, xs') = Spec.deq xs in (s, out) ∷ run_spec room xs' calls

  run_refines :
      (q : Queue A) (calls : List (Call A))
      → IsValid q
      → run q calls ≡ some (run_spec (q.capacity - 1) (contents q) calls)
  unfolding run run_spec
  run_refines q [] v = refl
  run_refines q (enter x ∷ calls) v =
      let (q', run', v', same, held) = enter_refines q x v in
      ground (arith, run', same, held, run_refines q' calls v')
  run_refines q (deq ∷ calls) v =
      let (q', run', v', same, held) = deq_refines q v in
      ground (arith, run', same, held, run_refines q' calls v')

  -- A queue that `queue_init` makes with a positive capacity answers every sequence of calls, without a
  -- fault, as an empty list of at most `capacity - 1` elements does: first in, first out.
  pub init-run :
      (capacity : ℕ) (blank : A) {q : Queue A}
      → 0 < capacity
      → queue_init true true capacity blank ≡ (ok, some q)
      → (calls : List (Call A)) → run q calls ≡ some (run_spec (capacity - 1) [] calls)
  unfolding queue_init
  init-run capacity blank {q} h e calls =
      let empty = init-empty capacity blank h e in
      run_refines q calls (init-IsValid capacity blank h e)
      ∙ ap₂ (λ c xs. some (run_spec (c - 1) xs calls)) cap empty
    where
      cap : q.capacity ≡ capacity
      cap = ground arith
