-- ===== src/LinkedList/Deque/Witness.antt =====
-- A double-ended queue that starts as a list with no slots.
use cutil.Prelude.{ℕ, List, [], ◌∷◌, ◌≡◌, refl, arith, some, Returns}
use cutil.LinkedList.Lifecycle.{bare, bare-IsValid}
use cutil.LinkedList.Valid.{IsValid, contents}
use cutil.LinkedList.Deque.{
  DequeOp, push_head, push_tail, pop_head, pop_tail, deque_run, split_last, queue_step, queue_run,
}
use cutil.LinkedList.Deque.Laws.{deque_run-queue_run}

abbrev ops : List DequeOp
ops = push_tail 10 ∷ push_tail 20 ∷ push_head 5 ∷ pop_tail ∷ push_tail 30 ∷ pop_head ∷ []

queue_result : queue_run [] ops ≡ some (20 ∷ 5 ∷ [], 10 ∷ 30 ∷ [])
unfolding queue_run queue_step split_last
queue_result = refl

deque_run-queue_run_example : Returns (deque_run (bare 0) ops) λ r.
    (r.0 ≡ 20 ∷ 5 ∷ [])
    × (us' : List ℕ) × (fs' : List ℕ) × IsValid r.1 us' fs'
    × (contents r.1 us' ≡ 10 ∷ 30 ∷ [])
deque_run-queue_run_example =
    deque_run-queue_run ops (bare 0) [] [] (20 ∷ 5 ∷ [], 10 ∷ 30 ∷ []) (bare-IsValid 0)
      (omega arith) (omega arith) queue_result
