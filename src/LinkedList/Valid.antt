-- ===== src/LinkedList/Valid.antt =====
-- The well-formedness of a list: its items are split between two circular lists, the used one,
-- whose indices are `us`, and the free one, `fs`.
use cutil.Prelude.{ℕ, ◌+◌, ◌^◌, ◌<◌, ◌≡◌, List, map, ltb, if◌then◌else◌, length, arith}
use cutil.ListItem.Fields.{used_of, payload_of}
use cutil.ListItem.Ring.{count, Ring, Distinct}
use cutil.LinkedList.{ListT}

pub record IsValid (l : ListT) (us fs : List ℕ) : Type 0 where
  pub slots : length l.items ≡ l.size
  pub counted : length us ≡ l.count
  pub total : length us + length fs ≡ l.size
  pub fits : l.size < 2 ^ 64
  pub used : Ring l.items us l.used_head
  pub free : Ring l.items fs l.free_head
  pub owned : (j : ℕ) → count j us + count j fs ≡ (if ltb j l.size then 1 else 0)
  pub flagged : (j : ℕ) → used_of l.items j ≡ ltb 0 (count j us)

-- The data of the list, in order.
abbrev pub contents : ListT → List ℕ → List ℕ
contents l us = map (payload_of l.items) us

module _ {l : ListT} {us fs : List ℕ} (v : IsValid l us fs) where
  pub used-Distinct : Distinct (length l.items) us
  used-Distinct j = (ground (arith, v.owned j), λ h. ground (arith, v.owned j, v.slots))

  pub free-Distinct : Distinct (length l.items) fs
  free-Distinct j = (ground (arith, v.owned j), λ h. ground (arith, v.owned j, v.slots))
