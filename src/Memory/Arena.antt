-- ===== src/Memory/Arena.antt =====
-- The small blocks of sys_malloc in workshop/kernel/memory.c: the block descriptors, the choice among
-- them, and the cutting of a page, an arena, into blocks.
--
-- `struct arena` is 12 bytes: a pointer, a uint32_t and a bool, which is an int. A free list is the
-- sequence of its blocks' addresses; list.c, which keeps it, is proved in KernelList.
pub mod Blocks
mod Tests
use restore_the_operating_sy.Base.{
  ℕ, zero, suc, ◌+◌, ◌-◌, ◌*◌, ◌/◌, ◌%◌, ◌^◌, Bool, true, false, not, ◌||◌, List, [], ◌∷◌, ◌++◌,
  Option, none, some, if◌then◌else◌, ◌==◌, leb,
}
use restore_the_operating_sy.Base.Word.{u32, Outcome, ok, ◌>>◌, assert}
use restore_the_operating_sy.Memory.{pg_size}

-- `struct mem_block_desc`
pub record MemBlockDesc : Type 0 where
  pub block_size : ℕ
  pub blocks_per_arena : ℕ
  pub free_list : List ℕ

abbrev pub desc_cnt : ℕ
desc_cnt = 7

abbrev pub sizeof_arena : ℕ
sizeof_arena = 12

-- The loop of block_desc_init, with block_size a uint16_t.
unfoldable pub init_descs : ℕ → ℕ → List MemBlockDesc
init_descs zero block_size = []
init_descs (suc left) block_size =
    record {
      block_size = block_size;
      blocks_per_arena = (pg_size - sizeof_arena) / block_size;
      free_list = [];
    }
    ∷ init_descs left (block_size * 2 % 2 ^ 16)

unfoldable pub block_desc_init : List MemBlockDesc
block_desc_init = init_descs desc_cnt 16

-- The loop that picks a descriptor in sys_malloc; it has none for a size above the last one's.
unfoldable pub find_desc : List MemBlockDesc → ℕ → Option MemBlockDesc
find_desc [] size = none
find_desc (desc ∷ descs) size =
    let rest = find_desc descs size in if leb size desc.block_size then some desc else rest

-- The address of block idx of the arena a, whose descriptor is desc.
unfoldable pub arena2block : MemBlockDesc → ℕ → ℕ → ℕ
arena2block desc a idx = u32 (a + sizeof_arena + idx * desc.block_size)

unfoldable pub block2arena : ℕ → ℕ
block2arena b = b / pg_size * pg_size

abbrev pub in_list : ℕ → List ℕ → Bool
in_list b [] = false
in_list b (x ∷ xs) = (x == b) || in_list b xs

-- The loop of sys_malloc that puts the blocks of a new arena on the free list, with `left` blocks to
-- go from block_idx on.
unfoldable pub cut_arena : MemBlockDesc → ℕ → ℕ → ℕ → List ℕ → Outcome (List ℕ)
cut_arena desc a zero block_idx free = ok free
cut_arena desc a (suc left) block_idx free =
    let b = arena2block desc a block_idx in
    assert (not (in_list b free)) >> cut_arena desc a left (block_idx + 1) (free ++ b ∷ [])
