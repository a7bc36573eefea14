-- ===== src/KernelList/Loops.antt =====
-- elem_find, list_len, list_empty and list_traversal against the sequence of nodes.
use restore_the_operating_sy.Base.{
  ℕ, zero, suc, ◌+◌, ◌<◌, ◌^◌, ◌≡◌, refl, ap, ◌∙◌, List, [], ◌∷◌, length, Bool, true, false,
  if◌then◌else◌, ◌==◌, arith, eq→==, ne→==, Bool-cases, inl, inr,
}
use restore_the_operating_sy.Base.Word.{null, ok, u32}
use restore_the_operating_sy.KernelList.{
  Store, tail, find_from, elem_find, list_empty, length_from, list_len, traverse_from,
  list_traversal,
}
use restore_the_operating_sy.KernelList.Chain.{Chain, Fresh, IsList}

abbrev pub contains : ℕ → List ℕ → Bool
contains e [] = false
contains e (x ∷ xs) = if x == e then true else contains e xs

find_from_lem :
    (fuel : ℕ) (s : Store) (a : ℕ) (xs : List ℕ) (b e : ℕ)
    → Chain s a xs b
    → Fresh b xs
    → length xs < fuel
    → find_from fuel s b e (s.next a) ≡ ok (contains e xs)
unfolding find_from
find_from_lem zero s a xs b e c f lt = absurd (omega arith)
find_from_lem (suc fuel) s a [] b e c f lt = rw (c.0, eq→== b b refl)
find_from_lem (suc fuel) s a (x ∷ xs) b e c f lt =
    rw (c.0, ne→== x b f.0, find_from_lem fuel s x xs b e c.2 f.1 (omega arith)) (ground arith)

-- elem_find says whether the node is in the list.
pub elem_find-contains :
    (fuel : ℕ) {s : Store} {plist : ℕ} {xs : List ℕ} (e : ℕ)
    → IsList s plist xs
    → length xs < fuel
    → elem_find fuel s plist e ≡ ok (contains e xs)
unfolding elem_find
elem_find-contains fuel {s} {plist} {xs} e l lt =
    find_from_lem fuel s plist xs (tail plist) e l.chain l.tail_fresh lt

length_from_lem :
    (fuel : ℕ) (s : Store) (a : ℕ) (xs : List ℕ) (b n : ℕ)
    → Chain s a xs b
    → Fresh b xs
    → length xs < fuel
    → n + length xs < 2 ^ 32
    → length_from fuel s b (s.next a) n ≡ ok (n + length xs)
unfolding length_from
length_from_lem zero s a xs b n c f lt small = absurd (omega arith)
length_from_lem (suc fuel) s a [] b n c f lt small = rw (c.0, eq→== b b refl) (ap ok (omega arith))
length_from_lem (suc fuel) s a (x ∷ xs) b n c f lt small =
    let up : u32 (n + 1) ≡ n + 1 = omega arith in
    rw (c.0, ne→== x b f.0, up)
      (length_from_lem fuel s x xs b (n + 1) c.2 f.1 (omega arith) (omega arith)
        ∙ ap ok (omega arith))

-- list_len is the number of nodes.
pub list_len-length :
    (fuel : ℕ) {s : Store} {plist : ℕ} {xs : List ℕ}
    → IsList s plist xs
    → length xs < fuel
    → length xs < 2 ^ 32
    → list_len fuel s plist ≡ ok (length xs)
unfolding list_len
list_len-length fuel {s} {plist} {xs} l lt small =
    length_from_lem fuel s plist xs (tail plist) 0 l.chain l.tail_fresh lt (omega arith)
    ∙ ap ok (omega arith)

abbrev pub is_nil : List ℕ → Bool
is_nil [] = true
is_nil (x ∷ xs) = false

-- list_empty is true exactly for the list without nodes.
pub list_empty_lem :
    {s : Store} {plist : ℕ} (xs : List ℕ) → IsList s plist xs → list_empty s plist ≡ is_nil xs
unfolding list_empty
list_empty_lem {plist} [] l = rw (l.chain.0, eq→== (tail plist) (tail plist) refl)
list_empty_lem {plist} (x ∷ xs) l = rw (l.chain.0, ne→== x (tail plist) l.tail_fresh.0)

module _ {A : Type 0} (func : ℕ → ℕ → A → A × Bool) (arg : ℕ) where
  -- The callback on the nodes in order, up to the first that it accepts.
  abbrev pub first_hit : List ℕ → A → A × ℕ
  first_hit [] a = (a, null)
  first_hit (x ∷ xs) a =
      if (func x arg a).1 then ((func x arg a).0, x) else first_hit xs (func x arg a).0

  traverse_from_lem :
      (fuel : ℕ) (s : Store) (p : ℕ) (xs : List ℕ) (b : ℕ) (a : A)
      → Chain s p xs b
      → Fresh b xs
      → length xs < fuel
      → traverse_from func arg fuel s b (s.next p) a ≡ ok (first_hit xs a)
  unfolding traverse_from
  traverse_from_lem zero s p xs b a c f lt = absurd (omega arith)
  traverse_from_lem (suc fuel) s p [] b a c f lt = rw (c.0, eq→== b b refl)
  traverse_from_lem (suc fuel) s p (x ∷ xs) b a c f lt =
      rw
        (c.0, ne→== x b f.0, traverse_from_lem fuel s x xs b (func x arg a).0 c.2 f.1 (omega arith))
        (elim (Bool-cases (func x arg a).1) [ inl e ↦ rw e | inr e ↦ rw e ])

  -- list_traversal calls the callback on the nodes in order, each with the state that the call
  -- before left, up to the first that it accepts; it returns that node, or null.
  pub list_traversal-first_hit :
      (fuel : ℕ) {s : Store} {plist : ℕ} {xs : List ℕ} (a : A)
      → IsList s plist xs
      → length xs < fuel
      → list_traversal func arg fuel s plist a ≡ ok (first_hit xs a)
  unfolding list_traversal
  list_traversal-first_hit fuel {s} {plist} {xs = []} a l lt = rw (list_empty_lem [] l)
  list_traversal-first_hit fuel {s} {plist} {xs = x ∷ xs} a l lt =
      rw (list_empty_lem (x ∷ xs) l)
        (traverse_from_lem fuel s plist (x ∷ xs) (tail plist) a l.chain l.tail_fresh lt)
