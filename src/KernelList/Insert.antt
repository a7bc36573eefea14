-- ===== src/KernelList/Insert.antt =====
-- list_init, list_push and list_append against the sequence of nodes.
use restore_the_operating_sy.Base.{
  ℕ, ◌≡◌, ◌≢◌, refl, sym, List, [], ◌∷◌, ◌++◌, All, All-append, if◌then◌else◌, ◌==◌, arith,
}
use restore_the_operating_sy.Interrupt.{intr_disable, disable-restore}
use restore_the_operating_sy.KernelList.{
  Store, tail, list_init, list_insert_before, list_push, list_append,
}
use restore_the_operating_sy.KernelList.Chain.{
  Chain, Fresh, Distinct, IsList, last, last-ne, prev-last, Chain-frame, Distinct-append_one,
}

-- What list_insert_before writes.
pub record Inserted (s : Store) (before elem : ℕ) (t : Store) : Type 0 where
  pub flag : t.flag ≡ s.flag
  pub next :
      (i : ℕ)
      → t.next i ≡ (if i == elem then before else if i == s.prev before then elem else s.next i)
  pub prev :
      (i : ℕ)
      → t.prev i ≡ (if i == before then elem else if i == elem then s.prev before else s.prev i)

insert_lem :
    (s : Store) (before elem : ℕ) → Inserted s before elem (list_insert_before s before elem)
unfolding list_insert_before
insert_lem s before elem = record {
  flag = (disable-restore s.flag (intr_disable s.flag).1).1;
  next = λ i. refl;
  prev = λ i. refl;
}

-- `elem` behind the last node of a chain.
insert_last :
    (s t : Store) (a : ℕ) (xs : List ℕ) (b e : ℕ)
    → Inserted s b e t
    → s.prev b ≡ last a xs
    → Chain s a xs b
    → Fresh e (a ∷ xs)
    → Distinct (a ∷ xs)
    → Fresh b (a ∷ xs)
    → b ≢ e
    → Chain t a (xs ++ e ∷ []) b
insert_last s t a [] b e w p c f d g ne = (
  ground (arith, w.next a),
  ground (arith, w.prev e),
  (ground (arith, w.next e), ground (arith, w.prev b)),
)
insert_last s t a (x ∷ xs) b e w p c f d g ne =
    let away : last x xs ≢ a = last-ne a x xs d.0.0 d.0.1 in
    (
      ground (arith, w.next a),
      ground (arith, w.prev x),
      insert_last s t x xs b e w p c.2 f.1 d.1 g.1 ne,
    )

-- Behind the node before `y`, in the middle of a chain.
insert_first :
    (s t : Store) (a y : ℕ) (ys : List ℕ) (b e : ℕ)
    → Inserted s y e t
    → s.prev y ≡ a
    → Chain s y ys b
    → Fresh e (y ∷ ys)
    → b ≢ e
    → Fresh a (y ∷ ys)
    → Fresh y ys
    → b ≢ y
    → Chain t y ys b
insert_first s t a y ys b e w p c f ne g fy nb =
    Chain-frame s t y ys b c (ground (arith, w.next y)) (rest ys f.1 g.1 fy)
      (ground (arith, w.prev b))
  where
    rest :
        (zs : List ℕ)
        → Fresh e zs
        → Fresh a zs
        → Fresh y zs
        → All (λ z. (t.next z ≡ s.next z) × (t.prev z ≡ s.prev z)) zs
    rest [] f g h = tt
    rest (z ∷ zs) f g h =
        ((ground (arith, w.next z), ground (arith, w.prev z)), rest zs f.1 g.1 h.1)

-- `elem` is no node of the list, nor its head or tail.
pub record IsOutside (plist : ℕ) (xs : List ℕ) (elem : ℕ) : Type 0 where
  pub fresh : Fresh elem xs
  pub ne_head : elem ≢ plist
  pub ne_tail : elem ≢ tail plist

-- list_append puts a node behind the last one, and restores the interrupt flag.
pub list_append_lem :
    {s : Store} {plist : ℕ} {xs : List ℕ} (elem : ℕ)
    → IsList s plist xs
    → IsOutside plist xs elem
    → IsList (list_append s plist elem) plist (xs ++ elem ∷ [])
      × ((list_append s plist elem).flag ≡ s.flag)
unfolding list_append
list_append_lem {s} {plist} {xs} elem l o =
    let w = insert_lem s (tail plist) elem in
    (
      record {
        chain =
            insert_last s _ plist xs (tail plist) elem w (prev-last s plist xs (tail plist) l.chain)
              l.chain ((λ e. o.ne_head (sym e)), o.fresh) (l.head_fresh, l.distinct)
              ((λ e. absurd (omega arith)), l.tail_fresh) (λ e. o.ne_tail (sym e));
        distinct = Distinct-append_one xs elem l.distinct o.fresh;
        head_fresh = All-append _ xs (elem ∷ []) l.head_fresh (o.ne_head, tt);
        tail_fresh = All-append _ xs (elem ∷ []) l.tail_fresh (o.ne_tail, tt);
      },
      w.flag,
    )

push-Chain :
    (s t : Store) (p : ℕ) (xs : List ℕ) (b e : ℕ)
    → p ≢ b
    → Inserted s (s.next p) e t
    → Chain s p xs b
    → Distinct xs
    → Fresh p xs
    → Fresh b xs
    → Fresh e xs
    → e ≢ p
    → e ≢ b
    → Chain t p (e ∷ xs) b
push-Chain s t p [] b e apart w c d hf tf f np nb =
    insert_last s t p [] b e (rw c.0 at w) c.1 c ((λ h. np (sym h)), tt) (tt, tt) (apart, tt)
      (λ h. nb (sym h))
push-Chain s t p (x ∷ xs) b e apart w c d hf tf f np nb =
    let w' : Inserted s x e t = rw c.0 at w in
    (
      ground (arith, w'.next p),
      ground (arith, w'.prev e),
      (
        ground (arith, w'.next e),
        ground (arith, w'.prev x),
        insert_first s t p x xs b e w' c.1 c.2 f (λ h. nb (sym h)) hf d.0 (λ h. tf.0 (sym h)),
      ),
    )

-- list_push puts a node before the first one, and restores the interrupt flag.
pub list_push_lem :
    {s : Store} {plist : ℕ} {xs : List ℕ} (elem : ℕ)
    → IsList s plist xs
    → IsOutside plist xs elem
    → IsList (list_push s plist elem) plist (elem ∷ xs) × ((list_push s plist elem).flag ≡ s.flag)
unfolding list_push
list_push_lem {s} {plist} {xs} elem l o =
    let w = insert_lem s (s.next plist) elem in
    (
      record {
        chain =
            push-Chain s _ plist xs (tail plist) elem (λ e. absurd (omega arith)) w l.chain
              l.distinct l.head_fresh l.tail_fresh o.fresh o.ne_head o.ne_tail;
        distinct = (o.fresh, l.distinct);
        head_fresh = (o.ne_head, l.head_fresh);
        tail_fresh = (o.ne_tail, l.tail_fresh);
      },
      w.flag,
    )

-- list_init makes an empty list.
pub list_init_lem : (s : Store) (plist : ℕ) → IsList (list_init s plist) plist []
unfolding list_init
list_init_lem s plist = record {
  chain = (ground arith, ground arith);
  distinct = tt;
  head_fresh = tt;
  tail_fresh = tt;
}
