-- ===== src/LinkedList/Deque.antt =====
-- The macros `list_push_head`, `list_push_tail`, `list_get_head`, `list_get_tail`, `list_pop_head`
-- and `list_pop_tail` of src/list.h, and a double-ended queue that is used through them.
pub mod Laws
mod Witness
use cutil.Prelude.{ℕ, Bool, true, Option, none, some, List, [], ◌∷◌, ◌++◌, Result, ok, ◌>>=◌, ℤ}
use cutil.ListItem.{itr_end}
use cutil.LinkedList.{ListT, list_itr_begin, list_itr_tail, list_get}
use cutil.LinkedList.Edit.{list_push, list_pop}

pub list_push_head : Bool → ListT → ℕ → Result (Bool × ListT)
list_push_head alloc l x = list_push alloc l x (list_itr_begin l)

pub list_push_tail : Bool → ListT → ℕ → Result (Bool × ListT)
list_push_tail alloc l x = list_push alloc l x itr_end

pub list_get_head : ListT → Result ℕ
list_get_head l = list_get l (list_itr_begin l)

pub list_get_tail : ListT → Result ℕ
list_get_tail l = do itr ← list_itr_tail l; list_get l itr

pub list_pop_head : ListT → Result (ℤ × ListT)
list_pop_head l = list_pop l (list_itr_begin l)

pub list_pop_tail : ListT → Result (ℤ × ListT)
list_pop_tail l = list_pop l itr_end

pub data DequeOp : Type 0 where
  push_head push_tail : ℕ → DequeOp
  pop_head pop_tail : DequeOp

-- A pop reads the datum that it takes off; the list has the data that were read.
pub deque_step : ListT → DequeOp → Result (List ℕ × ListT)
deque_step l (push_head x) = do (_, l') ← list_push_head true l x; ok ([], l')
deque_step l (push_tail x) = do (_, l') ← list_push_tail true l x; ok ([], l')
deque_step l pop_head = do x ← list_get_head l; (_, l') ← list_pop_head l; ok (x ∷ [], l')
deque_step l pop_tail = do x ← list_get_tail l; (_, l') ← list_pop_tail l; ok (x ∷ [], l')

pub deque_run : ListT → List DequeOp → Result (List ℕ × ListT)
deque_run l [] = ok ([], l)
deque_run l (op ∷ ops) = do
  (read, l') ← deque_step l op
  (more, l'') ← deque_run l' ops
  ok (read ++ more, l'')

-- What a double-ended queue is: a sequence, of which one can take the first and the last.
pub split_last : List ℕ → Option (ℕ × List ℕ)
split_last [] = none
split_last (x ∷ xs) = elim (split_last xs) [ none ↦ some (x, []) | some r ↦ some (r.0, x ∷ r.1) ]

pub queue_step : List ℕ → DequeOp → Option (List ℕ × List ℕ)
queue_step xs (push_head x) = some ([], x ∷ xs)
queue_step xs (push_tail x) = some ([], xs ++ x ∷ [])
queue_step xs pop_head = elim xs [ [] ↦ none | x ∷ rest ↦ some (x ∷ [], rest) ]
queue_step xs pop_tail = elim (split_last xs) [ none ↦ none | some r ↦ some (r.0 ∷ [], r.1) ]

-- A pop of the empty sequence has no result.
pub queue_run : List ℕ → List DequeOp → Option (List ℕ × List ℕ)
queue_run xs [] = some ([], xs)
queue_run xs (op ∷ ops) = elim (queue_step xs op) [
  | none ↦ none
  | some r ↦ elim (queue_run r.1 ops) [ none ↦ none | some w ↦ some (r.0 ++ w.0, w.1) ]
]
