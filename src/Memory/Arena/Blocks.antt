-- ===== src/Memory/Arena/Blocks.antt =====
-- The blocks of an arena lie in its page, apart from one another, and lead back to it.
use restore_the_operating_sy.Base.{
  ℕ, zero, suc, ◌+◌, ◌*◌, ◌/◌, ◌%◌, ◌^◌, ◌≤◌, ◌<◌, ◌≡◌, refl, false, not, List, [], ◌∷◌, ◌++◌, All,
  arith, Bool-cases, append-nil, ◌⊎◌, inl, inr, leb, Option, some, none, ap, append_assoc,
  All-append, sym, subst,
}
use restore_the_operating_sy.Base.Word.{Returns, Returns-assert}
use native.Mathlib.Nat.{mul-le-mul_right, div-mul-le_self}
use restore_the_operating_sy.Memory.Arena.{
  MemBlockDesc, block_desc_init, init_descs, find_desc, arena2block, block2arena, cut_arena,
  in_list,
}

-- A descriptor whose blocks fill a page behind the header of the arena.
pub record IsDesc (d : MemBlockDesc) : Type 0 where
  pub count : d.blocks_per_arena ≡ 4084 / d.block_size
  pub least : 16 ≤ d.block_size

-- What sys_malloc picks for `size` bytes: a descriptor whose blocks hold them, less than twice as
-- large unless they are of the smallest kind.
abbrev pub Fits : ℕ → Option MemBlockDesc → Type 0
Fits size none = ⊥
Fits size (some d) =
    IsDesc d × (size ≤ d.block_size) × ((d.block_size ≡ 16) ⊎ (d.block_size < 2 * size))

-- The first descriptor fits, or the search goes on.
find_step :
    (d : MemBlockDesc) (descs : List MemBlockDesc) (size : ℕ)
    → IsDesc d
    → (d.block_size ≡ 16) ⊎ (d.block_size < 2 * size)
    → (d.block_size < size → Fits size (find_desc descs size))
    → Fits size (find_desc (d ∷ descs) size)
unfolding find_desc
find_step d descs size h tight next = elim (Bool-cases (leb size d.block_size)) [
  | inl e ↦ rw e (h, ground arith, tight)
  | inr e ↦ rw e (next (ground arith))
]

-- For at most 1024 bytes the loop of sys_malloc over the descriptors of block_desc_init finds one
-- whose blocks hold the bytes and are less than twice as large, unless they are the smallest, of 16
-- bytes; its blocks per arena are as many as fit into a page behind the header.
pub find_desc-Fits : (size : ℕ) → size ≤ 1024 → Fits size (find_desc block_desc_init size)
unfolding block_desc_init init_descs
find_desc-Fits size h =
    find_step _ _ size (record { count = refl; least = omega arith }) (inl refl)
      λ a.
        find_step _ _ size (record { count = refl; least = omega arith }) (inr (omega arith))
          λ b.
            find_step _ _ size (record { count = refl; least = omega arith }) (inr (omega arith))
              λ c.
                find_step _ _ size (record { count = refl; least = omega arith })
                  (inr (omega arith))
                  λ d.
                    find_step _ _ size (record { count = refl; least = omega arith })
                      (inr (omega arith))
                      λ e.
                        find_step _ _ size (record { count = refl; least = omega arith })
                          (inr (omega arith))
                          λ f.
                            find_step _ _ size (record { count = refl; least = omega arith })
                              (inr (omega arith)) λ g. absurd (omega arith)

-- The end of block idx, before the end of the page.
block_end :
    (d : MemBlockDesc) (idx : ℕ)
    → IsDesc d
    → idx < d.blocks_per_arena
    → idx * d.block_size + d.block_size ≤ 4084
block_end d idx h lt =
    let up : (idx + 1) * d.block_size ≤ 4084 / d.block_size * d.block_size =
      mul-le-mul_right d.block_size (omega (arith, h.count)) in
    let top = div-mul-le_self 4084 d.block_size in omega arith

-- Block idx of an arena at a page-aligned address: where it lies, and that it leads back.
pub record IsBlock (d : MemBlockDesc) (a idx b : ℕ) : Type 0 where
  pub address : b ≡ a + 12 + idx * d.block_size
  pub ends : b + d.block_size ≤ a + 4096
  pub arena : block2arena b ≡ a

-- arena2block gives for each of the blocks of an arena, at a page-aligned address below 2 ^ 32, a run
-- of block_size bytes at its place behind the header, within the page; block2arena of it is the arena.
pub arena2block-IsBlock :
    (d : MemBlockDesc) (a idx : ℕ)
    → IsDesc d
    → a % 4096 ≡ 0
    → a < 2 ^ 32
    → idx < d.blocks_per_arena
    → IsBlock d a idx (arena2block d a idx)
unfolding arena2block block2arena
arena2block-IsBlock d a idx h al lt inside =
    let end = block_end d idx h inside in
    let least = h.least in
    let value : arena2block d a idx ≡ a + 12 + idx * d.block_size = omega arith in
    record { address = value; ends = omega arith; arena = omega arith }

-- The addresses of `left` blocks from block idx on.
abbrev pub blocks : MemBlockDesc → ℕ → ℕ → ℕ → List ℕ
blocks d a zero idx = []
blocks d a (suc left) idx = (a + 12 + idx * d.block_size) ∷ blocks d a left (idx + 1)

below_not_in : (b : ℕ) (l : List ℕ) → All (λ x. x < b) l → in_list b l ≡ false
below_not_in b [] h = refl
below_not_in b (x ∷ l) (lt, h) = ground (arith, below_not_in b l h)

All-below : (b c : ℕ) (l : List ℕ) → b ≤ c → All (λ x. x < b) l → All (λ x. x < c) l
All-below b c [] le h = tt
All-below b c (x ∷ l) le (lt, h) = (omega arith, All-below b c l le h)

-- The loop appends the blocks that are left, whatever free blocks lie below them.
cut_from :
    (d : MemBlockDesc) (a left idx : ℕ) (free : List ℕ)
    → IsDesc d
    → a % 4096 ≡ 0
    → a < 2 ^ 32
    → idx + left ≡ d.blocks_per_arena
    → All (λ x. x < a + 12 + idx * d.block_size) free
    → Returns (λ l. l ≡ free ++ blocks d a left idx) (cut_arena d a left idx free)
unfolding cut_arena
cut_from d a zero idx free h al lt n low = sym (append-nil free)
cut_from d a (suc left) idx free h al lt n low =
    let at = (arena2block-IsBlock d a idx h al lt (omega arith)).address in
    let b = a + 12 + idx * d.block_size in
    let least = h.least in
    rw at (
      Returns-assert _ (not (in_list b free)) _ (ap not (below_not_in b free low)) (
        subst (λ q. Returns (λ l. l ≡ q) (cut_arena d a left (idx + 1) (free ++ b ∷ [])))
          (append_assoc free (b ∷ []) (blocks d a left (idx + 1)))
          (cut_from d a left (idx + 1) (free ++ b ∷ []) h al lt (omega arith)
            (All-append _ free (b ∷ []) (All-below b _ free (omega arith) low) (omega arith, tt)))))

-- Cutting a new arena, at a page-aligned address below 2 ^ 32, for an empty free list passes its
-- ASSERTs and puts every block of the arena on the list, in the order of their addresses.
pub cut_arena-blocks :
    (d : MemBlockDesc) (a : ℕ)
    → IsDesc d
    → a % 4096 ≡ 0
    → a < 2 ^ 32
    → Returns (λ l. l ≡ blocks d a d.blocks_per_arena 0) (cut_arena d a d.blocks_per_arena 0 [])
cut_arena-blocks d a h al lt = cut_from d a d.blocks_per_arena 0 [] h al lt (omega arith) tt
