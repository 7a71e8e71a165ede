-- ===== src/LinkedList/Grow.antt =====
-- `list_grow`: the new array is made one free list, and the items move over in order.
pub mod Size
pub mod Laws
use cutil.Prelude.{
  ℕ, zero, suc, ◌+◌, ◌^◌, ◌≤◌, ◌<◌, ◌≡◌, refl, sym, ap, ap₂, ◌∙◌, Bool, true, false, List, [], ◌∷◌,
  ◌++◌, map, map-append, append_assoc, append-nil, ltb, ◌==◌, if◌then◌else◌, length, length-append,
  arith, ok, Returns, ℤ, pos, ◌==ℤ◌, ◌>>=◌, subst,
}
use cutil.ListItem.{Item, itr_end, insert_item, remove_item}
use cutil.ListItem.Fields.{used_of, payload_of, SameData, SameData-refl, SameData-trans}
use cutil.ListItem.Ring.{count, count-append, Ring, head_of, map-congr, Ring-frame}
use cutil.ListItem.Ring.Insert.{insert_item-append}
use cutil.LinkedList.{ListT, init_free, move_items}
use cutil.LinkedList.Iterate.{item-used, used_mark, list_itr_next-at}
use cutil.LinkedList.Take.{filled, fill-ok, filled-Filled, Ring-Filled, remove_free}
use cutil.LinkedList.Valid.{IsValid, contents}

-- The result of the first loop: every slot is on the free list.
pub record AllFree (items : List Item) (us : List ℕ) (r : ℤ × List Item) : Type 0 where
  pub ring : Ring r.1 us r.0
  pub each : (j : ℕ) → count j us ≡ (if ltb j (length items) then 1 else 0)
  pub many : length us ≡ length items
  pub same : SameData items r.1

pub init_free-AllFree :
    (rounds i : ℕ) (head : ℤ) (items : List Item) (us : List ℕ)
    → Ring items us head
    → ((j : ℕ) → count j us ≡ (if ltb j i then 1 else 0))
    → length us ≡ i
    → i + rounds ≡ length items
    → Returns (init_free rounds i head items) λ r. (vs : List ℕ) × AllFree items vs r
unfolding init_free
init_free-AllFree zero i head items us ring each many e =
    let e' : i ≡ length items = omega arith in
    (
      (head, items),
      refl,
      (
        us,
        record {
          ring = ring;
          each = λ j. each j ∙ ap (λ n. if ltb j n then 1 else 0) e';
          many = many ∙ e';
          same = SameData-refl items;
        },
      ),
    )
init_free-AllFree (suc rounds) i head items us ring each many e =
    let (q, run, (same, ring', away)) =
      insert_item-append items us head i ring
        (λ j. (ground (arith, each j), λ h. ground (arith, each j))) (ground (arith, each i))
        (omega arith) in
    let (r, run', (vs, all)) =
      init_free-AllFree rounds (i + 1) q.0 q.1 (us ++ i ∷ []) ring'
        (λ j. rw count-append (ground (arith, each j))) (omega (arith, length-append us (i ∷ [])))
        (omega (arith, same.size)) in
    (
      r,
      rw run run',
      (
        vs,
        record {
          ring = all.ring;
          each = λ j. all.each j ∙ ap (λ n. if ltb j n then 1 else 0) same.size;
          many = all.many ∙ same.size;
          same = SameData-trans same all.same;
        },
      ),
    )

-- A list in the making: an array, its size, and the two heads.
abbrev pub shape : ℕ → List Item → ℤ → ℤ → ℕ → ListT
shape n t used_head free_head k = record {
  dfn = 0;
  size = n;
  count = k;
  used_head = used_head;
  free_head = free_head;
  items = t;
}

-- One round of the second loop: the first free item is filled and goes to the end.
record Next (n : ℕ) (t : List Item) (used_head : ℤ) (us : List ℕ) (f : ℕ) (fs : List ℕ) (value : ℕ)
    (r q : ℤ × List Item) : Type 0 where
  taken : remove_item t (pos f) ≡ ok r
  inside : f < length r.1
  put : insert_item (filled r.1 f value true) used_head (pos f) ≡ ok q
  valid : IsValid (shape n q.1 q.0 r.0 (length (us ++ f ∷ []))) (us ++ f ∷ []) fs
  values : map (payload_of q.1) (us ++ f ∷ []) ≡ map (payload_of t) us ++ value ∷ []

move_one :
    (n : ℕ) (t : List Item) (used_head free_head : ℤ) (us : List ℕ) (f : ℕ) (fs : List ℕ)
    (value : ℕ)
    → IsValid (shape n t used_head free_head (length us)) us (f ∷ fs)
    → (r : ℤ × List Item) × (q : ℤ × List Item) × Next n t used_head us f fs value r q
move_one n t used_head free_head us f fs value v =
    let (r, run, (same, free, used)) = remove_free f fs v in
    let hf : f < length r.1 = ground (arith, same.size, v.slots, v.owned f) in
    let w = filled-Filled r.1 f value true hf in
    let t₃ = filled r.1 f value true in
    let slots : length t₃ ≡ n = w.size ∙ same.size ∙ v.slots in
    let new : count f us ≡ 0 = ground (arith, v.owned f) in
    let (q, run', (same', ring, away)) =
      insert_item-append t₃ us used_head f (Ring-Filled us used_head w used)
        (λ j. (ground (arith, v.owned j), λ h. ground (arith, v.owned j, slots))) new
        (rw w.size hf) in
    let c = λ (j : ℕ). count-append j us (f ∷ []) in
    let long = length-append us (f ∷ []) in
    let p : (j : ℕ) → payload_of q.1 j ≡ (if f == j then value else payload_of t j) =
      λ j. ground (arith, same'.payload j, w.payload j, same.payload j) in
    (
      r,
      q,
      record {
        taken = run;
        inside = hf;
        put = run';
        valid = record {
          slots = same'.size ∙ slots;
          counted = refl;
          total = omega (arith, v.total, long);
          fits = v.fits;
          used = ring;
          free =
              Ring-frame t₃ q.1 fs r.0 (Ring-Filled fs r.0 w free)
                (λ j h. away j (ground (arith, v.owned j)));
          owned = λ j. omega (arith, v.owned j, c j);
          flagged =
              λ j. ground (arith, same'.used j, w.used j, same.used j, v.flagged j, c j, v.owned j);
        };
        values =
            map-append (payload_of q.1) us (f ∷ [])
            ∙ ap₂ ◌++◌
                (map-congr (payload_of q.1) (payload_of t) us
                  (λ j h. ground (arith, p j, v.owned j)))
                (ap (λ x. x ∷ []) (ground (arith, p f)));
      },
    )

-- The result of the second loop: the old contents at new indices.
pub record Moved (l : ListT) (us₀ : List ℕ) (n : ℕ) (us fs : List ℕ) (r : ℤ × ℤ × List Item)
    : Type 0 where
  pub valid : IsValid (shape n r.2 r.0 r.1 (length us)) us fs
  pub values : map (payload_of r.2) us ≡ contents l us₀
  pub many : length us ≡ length us₀

pub move_items-Moved :
    (fuel : ℕ) (l : ListT) (ys zs fs₀ : List ℕ) (n : ℕ) (t : List Item) (used_head free_head : ℤ)
    (us fs : List ℕ)
    → IsValid l (ys ++ zs) fs₀
    → IsValid (shape n t used_head free_head (length us)) us fs
    → map (payload_of t) us ≡ contents l ys
    → length us ≡ length ys
    → length (ys ++ zs) ≤ n
    → length zs < fuel
    → Returns
        (move_items fuel l (head_of zs) used_head free_head t)
        λ r. (vs : List ℕ) × (gs : List ℕ) × Moved l (ys ++ zs) n vs gs r
unfolding move_items
move_items-Moved zero l ys zs fs₀ n t uh fh us fs v w values many room fuel = absurd (omega arith)
move_items-Moved (suc k) l ys [] fs₀ n t uh fh us fs v w values many room fuel = (
  (uh, fh, t),
  refl,
  (us, fs, record { valid = w; values = rw append-nil values; many = rw append-nil many }),
)
move_items-Moved (suc k) l ys (z ∷ zs) fs₀ n t uh fh us [] v w values many room fuel =
    absurd (omega (arith, w.total, length-append ys (z ∷ zs)))
move_items-Moved (suc k) l ys (z ∷ zs) fs₀ n t uh fh us (f ∷ fs) v w values many room fuel =
    let h : 0 < count z (ys ++ z ∷ zs) = ground (arith, count-append z ys (z ∷ zs)) in
    let assoc = append_assoc ys (z ∷ []) zs in
    let (r, q, next) = move_one n t uh fh us f fs (payload_of l.items z) w in
    let (out, run, (vs, gs, moved)) =
      move_items-Moved k l (ys ++ z ∷ []) zs fs₀ n q.1 q.0 r.0 (us ++ f ∷ []) fs (rw assoc v)
        next.valid (next.values ∙ rw (values, map-append))
        (omega (arith, many, length-append us (f ∷ []), length-append ys (z ∷ []))) (rw assoc room)
        (omega arith) in
    (
      out,
      rw (w.free.0, next.taken, item-used v z h, used_mark v z h)
          (fill-ok r.1 f (payload_of l.items z) true next.inside _
            ∙ rw (next.put, list_itr_next-at ys z zs v) run),
      (vs, gs, rw assoc at moved),
    )
