-- ===== src/Memory/Layout.antt =====
-- The pools that mem_pool_init makes.
use restore_the_operating_sy.Base.{
  ℕ, ◌+◌, ◌-◌, ◌*◌, ◌/◌, ◌≤◌, ◌<◌, ◌≡◌, ◌∙◌, refl, false, lt→ltb, arith,
}
use restore_the_operating_sy.Base.Word.{u32}
use restore_the_operating_sy.Bitmap.{Bitmap, bitmap_init}
use restore_the_operating_sy.Bitmap.Set.{is_used, bitmap_init_lem}
use restore_the_operating_sy.Memory.{Memory, pg_size}
use restore_the_operating_sy.Memory.Init.{
  kernel_free_pages, used_mem, all_free_pages, init_pool, mem_pool_init,
}

-- The pages that a bitmap has bits for.
abbrev pub pages_of : Bitmap → ℕ
pages_of b = b.btmp_bytes_len * 8

-- No page is in use.
abbrev pub AllFree : Bitmap → Type 0
AllFree b = (i : ℕ) → i < pages_of b → is_used b i ≡ false

-- The pages of the kernel lie behind the page tables and in front of those of the user, and these in
-- the memory; both pools are free, and the kernel's addresses are as many as its pages.
pub record IsLaidOut (all_mem : ℕ) (m : Memory) : Type 0 where
  pub kernel_start : m.kernel_pool.phy_addr_start ≡ 0x200000
  pub kernel_end :
      m.kernel_pool.phy_addr_start + pages_of m.kernel_pool.pool_bitmap * 4096
      ≤ m.user_pool.phy_addr_start
  pub user_end : m.user_pool.phy_addr_start + pages_of m.user_pool.pool_bitmap * 4096 ≤ all_mem
  pub lost :
      all_mem < m.user_pool.phy_addr_start + pages_of m.user_pool.pool_bitmap * 4096 + 8 * 4096
  pub kernel_free : AllFree m.kernel_pool.pool_bitmap
  pub user_free : AllFree m.user_pool.pool_bitmap
  pub addresses_free : AllFree m.kernel_vaddr.vaddr_bitmap
  pub addresses : pages_of m.kernel_vaddr.vaddr_bitmap ≡ pages_of m.kernel_pool.pool_bitmap

init-AllFree : (b : Bitmap) (len : ℕ) → AllFree (bitmap_init (record b { btmp_bytes_len = len }))
unfolding bitmap_init
init-AllFree b len i lt =
    bitmap_init_lem (record b { btmp_bytes_len = len }) i ∙ rw (lt→ltb i (len * 8) lt) refl

-- mem_pool_init of a memory of at least 2 MB, the page tables included, and less than 258 MB lays the
-- pools out: the pages that the bitmaps have bits for lie in the memory behind the page tables and
-- apart from each other, those of the user behind those of the kernel, none is in use, and fewer than
-- eight pages at the end of the memory belong to no pool.
pub mem_pool_init-IsLaidOut :
    (m : Memory) (all_mem : ℕ)
    → 0x200000 ≤ all_mem
    → all_mem < 0x10200000
    → IsLaidOut all_mem (mem_pool_init m all_mem)
unfolding mem_pool_init init_pool bitmap_init
mem_pool_init-IsLaidOut m all_mem lo hi =
    let pages : all_free_pages all_mem ≡ (all_mem - 0x200000) / 4096 = omega arith in
    let start : u32 (used_mem + kernel_free_pages all_mem * pg_size)
        ≡ 0x200000 + (all_mem - 0x200000) / 4096 / 2 * 4096 =
      omega (arith, pages) in
    record {
      kernel_start = refl;
      kernel_end = omega (arith, start, pages);
      user_end = omega (arith, start, pages);
      lost = omega (arith, start, pages);
      kernel_free = init-AllFree m.kernel_pool.pool_bitmap (kernel_free_pages all_mem / 8);
      user_free =
          init-AllFree m.user_pool.pool_bitmap
            ((all_free_pages all_mem - kernel_free_pages all_mem) / 8);
      addresses_free = init-AllFree m.kernel_vaddr.vaddr_bitmap (kernel_free_pages all_mem / 8);
      addresses = refl;
    }
