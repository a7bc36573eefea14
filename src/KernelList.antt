-- ===== src/KernelList.antt =====
-- workshop/lib/kernel/list.c and list.h: doubly linked lists through nodes in memory.
--
-- A node is an address; `prev` and `next` are its two pointers. A `struct list` at p is its node
-- head at p and its node tail behind it, at p + 8. A loop takes fuel, the nodes it may visit.
pub mod Chain
pub mod Insert
pub mod Remove
pub mod Loops
mod Tests
use restore_the_operating_sy.Base.{ℕ, zero, suc, ◌+◌, Bool, true, false, if◌then◌else◌, ◌==◌}
use restore_the_operating_sy.Base.Word.{null, u32, Outcome, ok, hang}
use restore_the_operating_sy.Interrupt.{intr_disable, intr_set_status}

-- The pointers of all nodes, and the interrupt flag.
pub record Store : Type 0 where
  pub prev : ℕ → ℕ
  pub next : ℕ → ℕ
  pub flag : Bool

-- `&plist->tail`
abbrev pub tail : ℕ → ℕ
tail plist = plist + 8

abbrev pub set_next : Store → ℕ → ℕ → Store
set_next s a v = record s { next = λ i. if i == a then v else s.next i }

abbrev pub set_prev : Store → ℕ → ℕ → Store
set_prev s a v = record s { prev = λ i. if i == a then v else s.prev i }

unfoldable pub list_init : Store → ℕ → Store
list_init s list =
    let s = set_prev s list null in
    let s = set_next s list (tail list) in
    let s = set_prev s (tail list) list in set_next s (tail list) null

unfoldable pub list_insert_before : Store → ℕ → ℕ → Store
list_insert_before s before elem =
    let (old_status, off) = intr_disable s.flag in
    let s = record s { flag = off } in
    let s = set_next s (s.prev before) elem in
    let s = set_prev s elem (s.prev before) in
    let s = set_next s elem before in
    let s = set_prev s before elem in record s { flag = (intr_set_status old_status s.flag).1 }

unfoldable pub list_push : Store → ℕ → ℕ → Store
list_push s plist elem = list_insert_before s (s.next plist) elem

unfoldable pub list_append : Store → ℕ → ℕ → Store
list_append s plist elem = list_insert_before s (tail plist) elem

unfoldable pub list_remove : Store → ℕ → Store
list_remove s pelem =
    let (old_status, off) = intr_disable s.flag in
    let s = record s { flag = off } in
    let s = set_next s (s.prev pelem) (s.next pelem) in
    let s = set_prev s (s.next pelem) (s.prev pelem) in
    record s { flag = (intr_set_status old_status s.flag).1 }

unfoldable pub list_pop : Store → ℕ → Store × ℕ
list_pop s plist = let elem = s.next plist in (list_remove s elem, elem)

unfoldable pub find_from : ℕ → Store → ℕ → ℕ → ℕ → Outcome Bool
find_from zero s end obj_elem elem = hang
find_from (suc fuel) s end obj_elem elem =
    let rest = find_from fuel s end obj_elem (s.next elem) in
    if elem == end then ok false else if elem == obj_elem then ok true else rest

unfoldable pub elem_find : ℕ → Store → ℕ → ℕ → Outcome Bool
elem_find fuel s plist obj_elem = find_from fuel s (tail plist) obj_elem (s.next plist)

unfoldable pub list_empty : Store → ℕ → Bool
list_empty s plist = s.next plist == tail plist

-- The callback gets the node and the argument, and works on a state of its own.
module _ {A : Type 0} (func : ℕ → ℕ → A → A × Bool) (arg : ℕ) where
  unfoldable pub traverse_from : ℕ → Store → ℕ → ℕ → A → Outcome (A × ℕ)
  traverse_from zero s end elem a = hang
  traverse_from (suc fuel) s end elem a =
      let (a', hit) = func elem arg a in
      let rest = traverse_from fuel s end (s.next elem) a' in
      if elem == end then ok (a, null) else if hit then ok (a', elem) else rest

  unfoldable pub list_traversal : ℕ → Store → ℕ → A → Outcome (A × ℕ)
  list_traversal fuel s plist a =
      if list_empty s plist
      then ok (a, null)
      else traverse_from fuel s (tail plist) (s.next plist) a

unfoldable pub length_from : ℕ → Store → ℕ → ℕ → ℕ → Outcome ℕ
length_from zero s end elem length = hang
length_from (suc fuel) s end elem length =
    let rest = length_from fuel s end (s.next elem) (u32 (length + 1)) in
    if elem == end then ok length else rest

unfoldable pub list_len : ℕ → Store → ℕ → Outcome ℕ
list_len fuel s plist = length_from fuel s (tail plist) (s.next plist) 0
