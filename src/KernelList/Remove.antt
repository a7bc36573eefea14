-- ===== src/KernelList/Remove.antt =====
-- list_remove and list_pop against the sequence of nodes.
use restore_the_operating_sy.Base.{
  ℕ, ◌≡◌, ◌≢◌, refl, sym, List, [], ◌∷◌, ◌++◌, All, All-append, if◌then◌else◌, ◌==◌, arith,
}
use restore_the_operating_sy.Interrupt.{intr_disable, disable-restore}
use restore_the_operating_sy.KernelList.{Store, tail, list_remove, list_pop}
use restore_the_operating_sy.KernelList.Chain.{
  Chain, Fresh, Distinct, IsList, last-ne, prev-last, Chain-split, Chain-frame, Fresh-append,
  Distinct-split,
}

-- What list_remove writes.
pub record Removed (s : Store) (e : ℕ) (t : Store) : Type 0 where
  pub flag : t.flag ≡ s.flag
  pub next : (i : ℕ) → t.next i ≡ (if i == s.prev e then s.next e else s.next i)
  pub prev : (i : ℕ) → t.prev i ≡ (if i == s.next e then s.prev e else s.prev i)

remove_lem : (s : Store) (e : ℕ) → Removed s e (list_remove s e)
unfolding list_remove
remove_lem s e = record {
  flag = (disable-restore s.flag (intr_disable s.flag).1).1;
  next = λ i. refl;
  prev = λ i. ground arith;
}

-- Behind the node that goes.
remove_back :
    (s t : Store) (a e : ℕ) (ys : List ℕ) (b : ℕ)
    → Removed s e t
    → s.prev e ≡ a
    → Chain s e ys b
    → Fresh a ys
    → Distinct ys
    → Fresh b ys
    → Chain t a ys b
remove_back s t a e [] b w p c fa d fb = (ground (arith, w.next a), ground (arith, w.prev b))
remove_back s t a e (y ∷ ys) b w p c fa d fb = (
  ground (arith, w.next a),
  ground (arith, w.prev y),
  Chain-frame s t y ys b c.2 (ground (arith, w.next y)) (rest ys fa.1 d.0)
      (ground (arith, w.prev b)),
)
  where
    rest :
        (zs : List ℕ)
        → Fresh a zs
        → Fresh y zs
        → All (λ z. (t.next z ≡ s.next z) × (t.prev z ≡ s.prev z)) zs
    rest [] f g = tt
    rest (z ∷ zs) f g = ((ground (arith, w.next z), ground (arith, w.prev z)), rest zs f.1 g.1)

remove-Chain :
    (s t : Store) (a : ℕ) (xs : List ℕ) (e : ℕ) (ys : List ℕ) (b : ℕ)
    → Removed s e t
    → Chain s a xs e
    → Chain s e ys b
    → Distinct (a ∷ xs ++ ys)
    → Fresh b (xs ++ ys)
    → s.next e ≢ a
    → Fresh (s.next e) xs
    → Chain t a (xs ++ ys) b
remove-Chain s t a [] e ys b w c k d fb n fn = remove_back s t a e ys b w c.1 k d.0 d.1 fb
remove-Chain s t a (x ∷ xs) e ys b w c k d fb n fn =
    let away : s.prev e ≢ a =
      rw (prev-last s x xs e c.2) (last-ne a x xs d.0.0 (Fresh-append a xs ys d.0.1).0) in
    (
      ground (arith, w.next a),
      ground (arith, w.prev x),
      remove-Chain s t x xs e ys b w c.2 k d.1 fb.1 (λ h. fn.0 (sym h)) fn.1,
    )

-- The node behind e is none of those before e.
next-Fresh :
    (s : Store) (zs : List ℕ) (e : ℕ) (ys : List ℕ) (b : ℕ)
    → Chain s e ys b
    → Distinct (zs ++ ys)
    → Fresh b zs
    → Fresh (s.next e) zs
next-Fresh s zs e [] b c d f = rw c.0 f
next-Fresh s zs e (y ∷ ys) b c d f = rw c.0 (Distinct-split zs y ys d).0

-- list_remove takes exactly the node it is given out of the list, and restores the interrupt flag.
pub list_remove_lem :
    {s : Store} {plist : ℕ} (xs : List ℕ) (e : ℕ) (ys : List ℕ)
    → IsList s plist (xs ++ e ∷ ys)
    → IsList (list_remove s e) plist (xs ++ ys) × ((list_remove s e).flag ≡ s.flag)
list_remove_lem {s} {plist} xs e ys l =
    let w = remove_lem s e in
    let (c, k) = Chain-split s plist xs e ys (tail plist) l.chain in
    let (hx, hy) = Fresh-append plist xs (e ∷ ys) l.head_fresh in
    let (tx, ty) = Fresh-append (tail plist) xs (e ∷ ys) l.tail_fresh in
    let d = (Distinct-split xs e ys l.distinct).4 in
    let heads : Distinct (plist ∷ xs ++ ys) = (All-append _ xs ys hx hy.1, d) in
    let behind =
      next-Fresh s (plist ∷ xs) e ys (tail plist) k heads ((λ h. absurd (omega arith)), tx) in
    (
      record {
        chain =
            remove-Chain s _ plist xs e ys (tail plist) w c k heads (All-append _ xs ys tx ty.1)
              (λ h. behind.0 (sym h)) behind.1;
        distinct = d;
        head_fresh = heads.0;
        tail_fresh = All-append _ xs ys tx ty.1;
      },
      w.flag,
    )

-- list_pop returns the first node of a list and leaves the others.
pub list_pop_lem :
    {s : Store} {plist x : ℕ} {xs : List ℕ}
    → IsList s plist (x ∷ xs)
    → IsList (list_pop s plist).0 plist xs
      × ((list_pop s plist).1 ≡ x)
      × ((list_pop s plist).0.flag ≡ s.flag)
unfolding list_pop
list_pop_lem {s} {plist} {x} {xs} l =
    let (m, f) = list_remove_lem [] x xs l in rw l.chain.0 (m, refl, f)
