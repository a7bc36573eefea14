-- ===== src/Memory/Tests.antt =====
-- The theorems about memory.c at two pools of eight pages.
use restore_the_operating_sy.Base.{
  ℕ, ◌+◌, ◌*◌, ◌/◌, ◌≡◌, ◌≢◌, ◌↔◌, refl, false, if◌then◌else◌, ◌==◌, leb, ltb, ◌&&◌, arith,
}
use restore_the_operating_sy.Base.Word.{Returns, ok}
use restore_the_operating_sy.Bitmap.{
  Bitmap, bitmap_scan, bitmap_set, skip_full_bytes, skip_set_bits,
}
use restore_the_operating_sy.Bitmap.Set.{is_used, IsBytes}
use restore_the_operating_sy.Memory.{
  Memory, Pool, VirtualAddr, palloc, pfree, set_range, vaddr_take, vaddr_drop, pte_ptr, pde_ptr,
  is_present, page_table_pte_remove,
}
use restore_the_operating_sy.Memory.Init.{mem_pool_init}
use restore_the_operating_sy.Memory.Layout.{IsLaidOut, mem_pool_init-IsLaidOut}
use restore_the_operating_sy.Memory.Pages.{
  ArePools, Allocates, SameUse, palloc-Allocates, pfree-palloc_user, pfree-palloc_kernel,
}
use restore_the_operating_sy.Memory.Range.{IsRange, set_range-IsRange, vaddr_drop-vaddr_take}
use restore_the_operating_sy.Memory.PageTable.{
  page_table_pte_remove_lem, pde_ptr-eq-pte_ptr, pte_ptr-injective,
}

-- Page 0 of eight is in use.
abbrev bitmap : ℕ → Bitmap
bitmap first = record { btmp_bytes_len = 1; bits = λ i. if i == 0 then first else 0 }

abbrev memory : Memory
memory = record {
  kernel_pool = record { pool_bitmap = bitmap 1; phy_addr_start = 0x200000; pool_size = 0x8000 };
  user_pool = record { pool_bitmap = bitmap 1; phy_addr_start = 0x208000; pool_size = 0x8000 };
  kernel_vaddr = record { vaddr_bitmap = bitmap 1; vaddr_start = 0xc0100000 };
  userprog_vaddr = record { vaddr_bitmap = bitmap 1; vaddr_start = 0x8048000 };
  entry = λ a. 0;
}

bytes : IsBytes (bitmap 1)
bytes i = ground arith

pools : ArePools memory
pools = record {
  kernel = record {
    bytes = bytes;
    small = omega arith;
    positive = omega arith;
    fits = omega arith;
  };
  user = record { bytes = bytes; small = omega arith; positive = omega arith; fits = omega arith };
  apart = omega arith;
}

abbrev taken_from : Pool → Bitmap → Pool
taken_from p b = record p { pool_bitmap = b }

abbrev second_bit : Bitmap
second_bit = record {
  btmp_bytes_len = 1;
  bits = λ i. if i == 0 then 3 else if i == 0 then 1 else 0;
}

palloc-Allocates_example : Allocates memory.kernel_pool (palloc memory.kernel_pool)
palloc-Allocates_example = palloc-Allocates memory.kernel_pool pools.kernel

user_page : palloc memory.user_pool ≡ ok (taken_from memory.user_pool second_bit, 0x209000)
unfolding palloc bitmap_scan skip_full_bytes skip_set_bits bitmap_set
user_page = refl

kernel_page : palloc memory.kernel_pool ≡ ok (taken_from memory.kernel_pool second_bit, 0x201000)
unfolding palloc bitmap_scan skip_full_bytes skip_set_bits bitmap_set
kernel_page = refl

pfree-palloc_user_example :
    Returns
      (λ n. SameUse memory.user_pool n.user_pool × (n.kernel_pool ≡ memory.kernel_pool))
      (pfree (record memory { user_pool = taken_from memory.user_pool second_bit }) 0x209000)
pfree-palloc_user_example =
    pfree-palloc_user memory (taken_from memory.user_pool second_bit) 0x209000 pools user_page

pfree-palloc_kernel_example :
    Returns
      (λ n. SameUse memory.kernel_pool n.kernel_pool × (n.user_pool ≡ memory.user_pool))
      (pfree (record memory { kernel_pool = taken_from memory.kernel_pool second_bit }) 0x201000)
pfree-palloc_kernel_example =
    pfree-palloc_kernel memory (taken_from memory.kernel_pool second_bit) 0x201000 pools kernel_page

set_range-IsRange_example : Returns (IsRange (bitmap 1) 2 3 1) (set_range (bitmap 1) 2 3 1)
set_range-IsRange_example = set_range-IsRange (bitmap 1) 2 3 1 bytes (omega arith) (omega arith)

scan_at : bitmap_scan (bitmap 1) 1 ≡ ok 1
unfolding bitmap_scan skip_full_bytes skip_set_bits
scan_at = refl

abbrev marked : VirtualAddr
marked = record { vaddr_bitmap = second_bit; vaddr_start = 0xc0100000 }

take_at : vaddr_take memory.kernel_vaddr 1 ≡ ok (marked, 0xc0101000)
unfolding vaddr_take bitmap_scan skip_full_bytes skip_set_bits set_range bitmap_set
take_at = refl

vaddr_drop-vaddr_take_example :
    (◌≡◌ {A = ℕ} 0xc0101000 (0xc0100000 + 1 * 4096))
    × Returns
        (λ x.
          (j : ℕ)
          → is_used x.vaddr_bitmap j
            ≡ (if leb 1 j && ltb j (1 + 1) then false else is_used (bitmap 1) j))
        (vaddr_drop marked 0xc0101000 1)
vaddr_drop-vaddr_take_example =
    vaddr_drop-vaddr_take memory.kernel_vaddr 1 1 marked 0xc0101000 bytes scan_at (omega arith)
      (omega arith) take_at

page_table_pte_remove_lem_example :
    (is_present ((page_table_pte_remove memory 0x8048000).entry (pte_ptr 0x8048000)) ≡ false)
    × (0x8048000 / 4096 ≢ 0x8049000 / 4096
        → (page_table_pte_remove memory 0x8048000).entry (pte_ptr 0x8049000)
          ≡ memory.entry (pte_ptr 0x8049000))
page_table_pte_remove_lem_example =
    page_table_pte_remove_lem memory 0x8048000 0x8049000 (omega arith) (omega arith)

pde_ptr-eq-pte_ptr_example : pde_ptr 0x8048000 ≡ pte_ptr (pte_ptr 0x8048000)
pde_ptr-eq-pte_ptr_example = pde_ptr-eq-pte_ptr 0x8048000 (omega arith)

pte_ptr-injective_example :
    (pte_ptr 0x8048000 ≡ pte_ptr 0x8048123) ↔ (0x8048000 / 4096 ≡ 0x8048123 / 4096)
pte_ptr-injective_example = pte_ptr-injective 0x8048000 0x8048123 (omega arith) (omega arith)

-- 32 MB.
mem_pool_init-IsLaidOut_example : IsLaidOut 0x2000000 (mem_pool_init memory 0x2000000)
mem_pool_init-IsLaidOut_example =
    mem_pool_init-IsLaidOut memory 0x2000000 (omega arith) (omega arith)
