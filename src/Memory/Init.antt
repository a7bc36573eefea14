-- ===== src/Memory/Init.antt =====
-- mem_pool_init of workshop/kernel/memory.c: how the memory is divided.
--
-- The bytes at the places of the bitmaps are those that `m` has there before; the addresses of the
-- bitmaps are left out.
use restore_the_operating_sy.Base.{ℕ, ◌+◌, ◌-◌, ◌*◌, ◌/◌, ◌%◌, ◌^◌}
use restore_the_operating_sy.Base.Word.{u32, sub_u32}
use restore_the_operating_sy.Bitmap.{bitmap_init}
use restore_the_operating_sy.Memory.{Memory, Pool, pg_size}

abbrev pub k_heap_start : ℕ
k_heap_start = 0xc0100000

-- The low megabyte and 256 pages for the page tables.
abbrev pub used_mem : ℕ
used_mem = pg_size * 256 + 0x100000

-- The page counts are uint16_t.
abbrev pub all_free_pages : ℕ → ℕ
all_free_pages all_mem = sub_u32 all_mem used_mem / pg_size % 2 ^ 16

abbrev pub kernel_free_pages : ℕ → ℕ
kernel_free_pages all_mem = all_free_pages all_mem / 2

-- A pool of the given pages, and its bitmap.
unfoldable pub init_pool : Pool → ℕ → ℕ → Pool
init_pool p start pages = record {
  pool_bitmap = bitmap_init (record p.pool_bitmap { btmp_bytes_len = pages / 8 });
  phy_addr_start = start;
  pool_size = u32 (pages * pg_size);
}

unfoldable pub mem_pool_init : Memory → ℕ → Memory
mem_pool_init m all_mem =
    let kernel_pages = kernel_free_pages all_mem in
    let user_pages = all_free_pages all_mem - kernel_pages in
    record m {
      kernel_pool = init_pool m.kernel_pool used_mem kernel_pages;
      user_pool = init_pool m.user_pool (u32 (used_mem + kernel_pages * pg_size)) user_pages;
      kernel_vaddr = record {
        vaddr_bitmap =
            bitmap_init (record m.kernel_vaddr.vaddr_bitmap { btmp_bytes_len = kernel_pages / 8 });
        vaddr_start = k_heap_start;
      };
    }
