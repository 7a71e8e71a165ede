-- ===== src/LinkedList/Deque/Laws.antt =====
-- A list that is used as a double-ended queue does what a sequence does.
use mathlib.Core.Option.{some-injective, none-ne-some}
use cutil.Prelude.{
  ℕ, max, ◌+◌, ◌*◌, ◌^◌, ◌≤◌, ◌<◌, ◌≡◌, ◌⊎◌, inl, inr, refl, sym, ap, ap₂, ◌∙◌, subst, Bool, some,
  Option-cases, List, [], ◌∷◌, ◌++◌, map-append, length, length-append, length-map, arith, Result,
  Returns,
}
use cutil.ListItem.Fields.{payload_of}
use cutil.ListItem.Ring.{count, count-append}
use cutil.LinkedList.{ListT}
use cutil.LinkedList.Iterate.{list_itr_begin-head, list_itr_tail-last, list_get-payload}
use cutil.LinkedList.Iterate.Walk.{last_of-append}
use cutil.LinkedList.Push.Laws.{list_push-at, list_push-end}
use cutil.LinkedList.Pop.Laws.{list_pop-at, list_pop-tail}
use cutil.LinkedList.Valid.{IsValid, contents}
use cutil.LinkedList.Deque.{
  DequeOp, push_head, push_tail, pop_head, pop_tail, list_push_head, list_push_tail, list_get_head,
  list_get_tail, list_pop_head, list_pop_tail, deque_step, deque_run, split_last, queue_step,
  queue_run,
}

split_last-append : (xs : List ℕ) (y : ℕ) → split_last (xs ++ y ∷ []) ≡ some (y, xs)
unfolding split_last
split_last-append [] y = refl
split_last-append (x ∷ xs) y = rw (split_last-append xs y)

-- A list is empty or has a last element.
last-cases : (xs : List ℕ) → (xs ≡ []) ⊎ ((ys : List ℕ) × (b : ℕ) × (xs ≡ ys ++ b ∷ []))
last-cases [] = inl refl
last-cases (x ∷ xs) = inr (elim (last-cases xs) [
  | inl e ↦ ([], x, ap (λ zs. x ∷ zs) e)
  | inr (ys, b, e) ↦ (x ∷ ys, b, ap (λ zs. x ∷ zs) e)
])

-- `l'` stands for `w`, after a step from `l`.
record Stepped (l : ListT) (w : List ℕ × List ℕ) (r : List ℕ × ListT) (us fs : List ℕ)
    : Type 0 where
  valid : IsValid r.1 us fs
  read : r.0 ≡ w.0
  same : contents r.1 us ≡ w.1
  doubled : r.1.size ≤ max l.size (2 * l.count + 1)
  many : r.1.count ≤ l.count + 1

Steps : ListT → List ℕ × List ℕ → Result (List ℕ × ListT) → Type 0
Steps l w result = Returns result λ r. (us : List ℕ) × (fs : List ℕ) × Stepped l w r us fs

-- As many items as data.
count-contents :
    {l : ListT} {us fs : List ℕ} (xs : List ℕ)
    → IsValid l us fs
    → contents l us ≡ xs
    → l.count ≡ length xs
count-contents {l} {us} xs v same =
    omega (arith, v.counted, length-map (payload_of l.items) us, ap length same)

-- A push leads to `w`, which is one longer.
pushed :
    {l : ListT} {us fs : List ℕ} (r : Bool × ListT) (us' fs' w : List ℕ)
    → IsValid l us fs
    → IsValid r.1 us' fs'
    → contents r.1 us' ≡ w
    → length w ≡ length (contents l us) + 1
    → r.1.size ≤ max l.size (2 * l.count + 1)
    → Stepped l ([], w) ([], r.1) us' fs'
pushed {l} {us} r us' fs' w v v' same longer size = record {
  valid = v';
  read = refl;
  same = same;
  doubled = size;
  many = omega (arith, count-contents w v' same, count-contents (contents l us) v refl);
}

push_head-Steps :
    (l : ListT) (us fs : List ℕ) (x : ℕ)
    → IsValid l us fs
    → l.size + 1 ≤ 2 ^ 63
    → Steps l ([], x ∷ contents l us) (deque_step l (push_head x))
unfolding Steps deque_step list_push_head
push_head-Steps l [] fs x v small =
    let (r, run, (_, us', fs', v', same, size)) = list_push-end l [] fs x v small in
    (
      ([], r.1),
      rw (list_itr_begin-head v, run),
      (us', fs', pushed r us' fs' _ v v' same (omega arith) size),
    )
push_head-Steps l (u ∷ us) fs x v small =
    let (r, run, (_, us', fs', v', same, size)) = list_push-at l [] u us fs x v small in
    (
      ([], r.1),
      rw (list_itr_begin-head v, run),
      (us', fs', pushed r us' fs' _ v v' same (omega arith) size),
    )

push_tail-Steps :
    (l : ListT) (us fs : List ℕ) (x : ℕ)
    → IsValid l us fs
    → l.size + 1 ≤ 2 ^ 63
    → Steps l ([], contents l us ++ x ∷ []) (deque_step l (push_tail x))
unfolding Steps deque_step list_push_tail
push_tail-Steps l us fs x v small =
    let (r, run, (_, us', fs', v', same, size)) = list_push-end l us fs x v small in
    (
      ([], r.1),
      rw run,
      (
        us',
        fs',
        pushed r us' fs' _ v v' same (omega (arith, length-append (contents l us) (x ∷ []))) size,
      ),
    )

-- A pop leaves `us'`, one shorter.
popped :
    {l : ListT} {us fs : List ℕ} (l' : ListT) (x b : ℕ) (us' w : List ℕ)
    → IsValid l us fs
    → IsValid l' us' (fs ++ b ∷ [])
    → length us ≡ length us' + 1
    → contents l' us' ≡ w
    → Stepped l (x ∷ [], w) (x ∷ [], l') us' (fs ++ b ∷ [])
popped {l} {us} {fs} l' x b us' w v v' shorter same = record {
  valid = v';
  read = refl;
  same = same;
  doubled = omega (arith, v.total, v'.total, length-append fs (b ∷ []));
  many = omega (arith, v.counted, v'.counted);
}

pop_head-Steps :
    (l : ListT) (u : ℕ) (us fs : List ℕ)
    → IsValid l (u ∷ us) fs
    → Steps l (payload_of l.items u ∷ [], contents l us) (deque_step l pop_head)
unfolding Steps deque_step list_pop_head list_get_head
pop_head-Steps l u us fs v =
    let (r, run, (_, v', same)) = list_pop-at l [] u us fs v in
    (
      (payload_of l.items u ∷ [], r.1),
      rw (list_itr_begin-head v, list_get-payload v u (ground arith), run),
      (us, fs ++ u ∷ [], popped r.1 (payload_of l.items u) u us _ v v' (omega arith) same),
    )

pop_tail-Steps :
    (l : ListT) (us : List ℕ) (b : ℕ) (fs : List ℕ)
    → IsValid l (us ++ b ∷ []) fs
    → Steps l (payload_of l.items b ∷ [], contents l us) (deque_step l pop_tail)
unfolding Steps deque_step list_pop_tail list_get_tail
pop_tail-Steps l us b fs v =
    let (r, run, (_, v', same)) = list_pop-tail l us b fs v in
    let held : 0 < count b (us ++ b ∷ []) = ground (arith, count-append b us (b ∷ [])) in
    (
      (payload_of l.items b ∷ [], r.1),
      rw (list_itr_tail-last v, last_of-append us b, list_get-payload v b held, run),
      (
        us,
        fs ++ b ∷ [],
        popped r.1 (payload_of l.items b) b us _ v v' (omega (arith, length-append us (b ∷ [])))
            same,
      ),
    )

queue_step-last : (xs : List ℕ) (y : ℕ) → queue_step (xs ++ y ∷ []) pop_tail ≡ some (y ∷ [], xs)
unfolding queue_step
queue_step-last xs y = rw (queue_step, split_last-append xs y)

deque_step-Steps :
    (l : ListT) (us fs : List ℕ) (op : DequeOp) (w : List ℕ × List ℕ)
    → IsValid l us fs
    → l.size + 1 ≤ 2 ^ 63
    → queue_step (contents l us) op ≡ some w
    → Steps l w (deque_step l op)
unfolding queue_step split_last
deque_step-Steps l us fs (push_head x) w v small e =
    subst (λ w. Steps l w (deque_step l (push_head x))) (some-injective _ w e)
      (push_head-Steps l us fs x v small)
deque_step-Steps l us fs (push_tail x) w v small e =
    subst (λ w. Steps l w (deque_step l (push_tail x))) (some-injective _ w e)
      (push_tail-Steps l us fs x v small)
deque_step-Steps l [] fs pop_head w v small e = absurd (none-ne-some w e)
deque_step-Steps l (u ∷ us) fs pop_head w v small e =
    subst (λ w. Steps l w (deque_step l pop_head)) (some-injective _ w e)
      (pop_head-Steps l u us fs v)
deque_step-Steps l us fs pop_tail w v small e = elim (last-cases us) [
  | inl empty ↦
      absurd (none-ne-some w (subst (λ us. queue_step (contents l us) pop_tail ≡ some w) empty e))
  | inr (ys, b, whole) ↦
      let split = map-append (payload_of l.items) ys (b ∷ []) in
      let e' : queue_step (contents l ys ++ payload_of l.items b ∷ []) pop_tail ≡ some w =
        ap (λ xs. queue_step xs pop_tail) (sym split)
        ∙ ap (λ us. queue_step (contents l us) pop_tail) (sym whole)
        ∙ e in
      subst (λ w. Steps l w (deque_step l pop_tail))
        (some-injective _ w (sym (queue_step-last (contents l ys) (payload_of l.items b)) ∙ e'))
        (pop_tail-Steps l ys b fs (subst (λ us. IsValid l us fs) whole v))
]

-- When CALLOC succeeds, on a valid list of at most 2^63 - 1 slots, a sequence of list_push_head,
-- list_push_tail, list_pop_head and list_pop_tail, with list_get_head or list_get_tail before each
-- pop, that no pop finds empty and that is short enough that the items and the operations are
-- fewer than 2^62, ends without a fault, reads what the same operations on a plain sequence of the
-- contents read, and leaves a valid list whose contents are what is left of that sequence.
pub deque_run-queue_run :
    (ops : List DequeOp) (l : ListT) (us fs : List ℕ) (w : List ℕ × List ℕ)
    → IsValid l us fs
    → l.size + 1 ≤ 2 ^ 63
    → l.count + length ops < 2 ^ 62
    → queue_run (contents l us) ops ≡ some w
    → Returns (deque_run l ops) λ r.
      (r.0 ≡ w.0) × (us' : List ℕ) × (fs' : List ℕ) × IsValid r.1 us' fs' × (contents r.1 us' ≡ w.1)
unfolding deque_run queue_run Steps
deque_run-queue_run [] l us fs w v small few e =
    let e' = some-injective _ w e in
    (
      ([], l),
      refl,
      (ap (λ (w : List ℕ × List ℕ). w.0) e', us, fs, v, ap (λ (w : List ℕ × List ℕ). w.1) e'),
    )
deque_run-queue_run (op ∷ ops) l us fs w v small few e =
    elim (Option-cases (queue_step (contents l us) op)) [
      | inl stuck ↦ absurd (none-ne-some w (rw (queue_run, stuck) at e))
      | inr (m, step) ↦ elim (Option-cases (queue_run m.1 ops)) [
        | inl stuck ↦ absurd (none-ne-some w (rw (queue_run, step, stuck) at e))
        | inr (t, rest) ↦
            let (r, run, (us₁, fs₁, s)) = deque_step-Steps l us fs op m v small step in
            let (q, run', (read, us', fs', v', same)) =
              deque_run-queue_run ops r.1 us₁ fs₁ t s.valid
                (omega (arith, s.doubled, v.counted, v.total)) (omega (arith, s.many))
                (ap (λ xs. queue_run xs ops) s.same ∙ rest) in
            let e' = some-injective (m.0 ++ t.0, t.1) w (rw (queue_run, step, rest) at e) in
            (
              (r.0 ++ q.0, q.1),
              rw (run, run'),
              (
                ap₂ ◌++◌ s.read read ∙ ap (λ (w : List ℕ × List ℕ). w.0) e',
                us',
                fs',
                v',
                same ∙ ap (λ (w : List ℕ × List ℕ). w.1) e',
              ),
            )
      ]
    ]
