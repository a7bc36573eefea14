-- ===== src/KernelList/Tests.antt =====
-- The theorems about list.c at a list of two nodes.
use restore_the_operating_sy.Base.{
  ℕ, ◌+◌, ◌≡◌, List, [], ◌∷◌, Bool, true, false, if◌then◌else◌, ◌==◌, arith,
}
use restore_the_operating_sy.Base.Word.{ok}
use restore_the_operating_sy.KernelList.{
  Store, list_init, list_append, list_push, list_remove, list_pop, elem_find, list_len, list_empty,
  list_traversal,
}
use restore_the_operating_sy.KernelList.Chain.{IsList}
use restore_the_operating_sy.KernelList.Insert.{
  IsOutside, list_append_lem, list_push_lem, list_init_lem,
}
use restore_the_operating_sy.KernelList.Remove.{list_remove_lem, list_pop_lem}
use restore_the_operating_sy.KernelList.Loops.{
  elem_find-contains, list_len-length, list_traversal-first_hit, list_empty_lem,
}

-- The list at 100 with the nodes 10 and 20.
abbrev two : Store
two = record {
  next = λ i. if i == 100 then 10 else if i == 10 then 20 else if i == 20 then 108 else 0;
  prev = λ i. if i == 108 then 20 else if i == 20 then 10 else if i == 10 then 100 else 0;
  flag = true;
}

abbrev nodes : List ℕ
nodes = 10 ∷ 20 ∷ []

two-IsList : IsList two 100 nodes
two-IsList = record {
  chain = omega arith;
  distinct = omega arith;
  head_fresh = omega arith;
  tail_fresh = omega arith;
}

outside : IsOutside 100 nodes 30
outside = record { fresh = omega arith; ne_head = omega arith; ne_tail = omega arith }

list_append_lem_example :
    IsList (list_append two 100 30) 100 (10 ∷ 20 ∷ 30 ∷ []) × ((list_append two 100 30).flag ≡ true)
list_append_lem_example = list_append_lem 30 two-IsList outside

list_push_lem_example :
    IsList (list_push two 100 30) 100 (30 ∷ 10 ∷ 20 ∷ []) × ((list_push two 100 30).flag ≡ true)
list_push_lem_example = list_push_lem 30 two-IsList outside

list_remove_lem_example :
    IsList (list_remove two 10) 100 (20 ∷ []) × ((list_remove two 10).flag ≡ true)
list_remove_lem_example = list_remove_lem [] 10 (20 ∷ []) two-IsList

list_pop_lem_example :
    IsList (list_pop two 100).0 100 (20 ∷ [])
    × ((list_pop two 100).1 ≡ 10)
    × ((list_pop two 100).0.flag ≡ true)
list_pop_lem_example = list_pop_lem two-IsList

list_init_lem_test : IsList (list_init two 200) 200 []
list_init_lem_test = list_init_lem two 200

elem_find-contains_example : elem_find 3 two 100 20 ≡ ok true
elem_find-contains_example = elem_find-contains 3 20 two-IsList (omega arith)

list_len-length_example : list_len 3 two 100 ≡ ok 2
list_len-length_example = list_len-length 3 two-IsList (omega arith) (omega arith)

list_empty_lem_example : list_empty two 100 ≡ false
list_empty_lem_example = list_empty_lem nodes two-IsList

-- A callback that counts its calls and accepts the node that it is told.
abbrev counting : ℕ → ℕ → ℕ → ℕ × Bool
counting elem arg n = (n + 1, elem == arg)

list_traversal-first_hit_example : list_traversal counting 20 3 two 100 0 ≡ ok (2, 20)
list_traversal-first_hit_example = list_traversal-first_hit counting 20 3 0 two-IsList (omega arith)
