-- ===== src/Memory.antt =====
-- The page allocator of workshop/kernel/memory.c: the physical pools, the virtual address pools and
-- the page table.
--
-- `x & 0xfffff000` is x / 4096 * 4096, `x & 0x00000fff` is x % 4096, `x | 7` is x / 8 * 8 + 7,
-- `x & 1` is x % 2 and `x & ~1` is x / 2 * 2. The user process whose virtual pool is used is the
-- running one. Locks are taken by the callers of what stands here.
pub mod Pages
pub mod Range
pub mod PageTable
pub mod Arena
pub mod Init
pub mod Layout
mod Tests
use restore_the_operating_sy.Base.{
  ℕ, zero, suc, ◌+◌, ◌-◌, ◌*◌, ◌/◌, ◌%◌, ◌^◌, Bool, true, false, not, ◌&&◌, if◌then◌else◌, ◌==◌,
  ltb, leb,
}
use restore_the_operating_sy.Base.Word.{
  u32, sub_u32, minus_one, null, Outcome, ok, panic, ◌>>=◌, ◌>>◌, assert,
}
use restore_the_operating_sy.Bitmap.{Bitmap, bitmap_scan, bitmap_set}

abbrev pub pg_size : ℕ
pg_size = 4096

-- `enum pool_flags`
pub data PoolFlags : Type 0 where
  pf_kernel pf_user : PoolFlags

-- `struct pool` without its lock.
pub record Pool : Type 0 where
  pub pool_bitmap : Bitmap
  pub phy_addr_start : ℕ
  pub pool_size : ℕ

-- `struct virtual_addr`
pub record VirtualAddr : Type 0 where
  pub vaddr_bitmap : Bitmap
  pub vaddr_start : ℕ

-- `entry a` is the word at the virtual address a of a page table or directory entry.
pub record Memory : Type 0 where
  pub kernel_pool : Pool
  pub user_pool : Pool
  pub kernel_vaddr : VirtualAddr
  pub userprog_vaddr : VirtualAddr
  pub entry : ℕ → ℕ

-- The loops `bitmap_set(…, bit_idx_start + cnt ++, value)`.
unfoldable pub set_range : Bitmap → ℕ → ℕ → ℕ → Outcome Bitmap
set_range b start zero value = ok b
set_range b start (suc left) value =
    bitmap_set b start value >>= λ b'. set_range b' (u32 (start + 1)) left value

-- One branch of vaddr_get: the pool with `pg_cnt` pages taken, and their address or NULL.
unfoldable pub vaddr_take : VirtualAddr → ℕ → Outcome (VirtualAddr × ℕ)
vaddr_take v pg_cnt = do
  bit_idx_start ← bitmap_scan v.vaddr_bitmap pg_cnt
  if bit_idx_start == minus_one
      then ok (v, null)
      else set_range v.vaddr_bitmap bit_idx_start pg_cnt 1
        >>= (λ b. ok (record v { vaddr_bitmap = b }, u32 (v.vaddr_start + bit_idx_start * pg_size)))

unfoldable pub vaddr_get : Memory → PoolFlags → ℕ → Outcome (Memory × ℕ)
vaddr_get m pf_kernel pg_cnt = do
  (v, vaddr_start) ← vaddr_take m.kernel_vaddr pg_cnt
  ok (record m { kernel_vaddr = v }, vaddr_start)
vaddr_get m pf_user pg_cnt = do
  (v, vaddr_start) ← vaddr_take m.userprog_vaddr pg_cnt
  assert (ltb vaddr_start (0xc0000000 - pg_size))
  ok (record m { userprog_vaddr = v }, vaddr_start)

-- One branch of vaddr_remove.
unfoldable pub vaddr_drop : VirtualAddr → ℕ → ℕ → Outcome VirtualAddr
vaddr_drop v vaddr pg_cnt =
    set_range v.vaddr_bitmap (sub_u32 vaddr v.vaddr_start / pg_size) pg_cnt 0
    >>= (λ b. ok (record v { vaddr_bitmap = b }))

unfoldable pub vaddr_remove : Memory → PoolFlags → ℕ → ℕ → Outcome Memory
vaddr_remove m pf_kernel vaddr pg_cnt =
    vaddr_drop m.kernel_vaddr vaddr pg_cnt >>= (λ v. ok (record m { kernel_vaddr = v }))
vaddr_remove m pf_user vaddr pg_cnt =
    vaddr_drop m.userprog_vaddr vaddr pg_cnt >>= (λ v. ok (record m { userprog_vaddr = v }))

unfoldable pub palloc : Pool → Outcome (Pool × ℕ)
palloc m_pool = do
  bit_idx ← bitmap_scan m_pool.pool_bitmap 1
  if bit_idx == minus_one
      then ok (m_pool, null)
      else bitmap_set m_pool.pool_bitmap bit_idx 1 >>= (λ b.
        ok (record m_pool { pool_bitmap = b }, u32 (bit_idx * pg_size + m_pool.phy_addr_start)))

-- One branch of pfree.
unfoldable pub free_page : Pool → ℕ → Outcome Pool
free_page p pg_phy_addr =
    bitmap_set p.pool_bitmap (sub_u32 pg_phy_addr p.phy_addr_start / pg_size) 0
    >>= (λ b. ok (record p { pool_bitmap = b }))

unfoldable pub pfree : Memory → ℕ → Outcome Memory
pfree m pg_phy_addr =
    if leb m.user_pool.phy_addr_start pg_phy_addr
    then free_page m.user_pool pg_phy_addr >>= (λ p. ok (record m { user_pool = p }))
    else free_page m.kernel_pool pg_phy_addr >>= (λ p. ok (record m { kernel_pool = p }))

unfoldable pub pte_ptr : ℕ → ℕ
pte_ptr vaddr = u32 (0xffc00000 + vaddr / 2 ^ 22 * 2 ^ 22 / 2 ^ 10 + vaddr / 2 ^ 12 % 2 ^ 10 * 4)

unfoldable pub pde_ptr : ℕ → ℕ
pde_ptr vaddr = u32 (0xfffff000 + vaddr / 2 ^ 22 * 4)

-- PG_US_U | PG_RW_W | PG_P_1 put to an address.
abbrev pub with_flags : ℕ → ℕ
with_flags a = a / 8 * 8 + 7

abbrev pub is_present : ℕ → Bool
is_present e = e % 2 == 1

abbrev pub set_entry : (ℕ → ℕ) → ℕ → ℕ → ℕ → ℕ
set_entry m a v i = if i == a then v else m i

-- memset of the page table that holds the entry at pte.
abbrev pub clear_table : (ℕ → ℕ) → ℕ → ℕ → ℕ
clear_table m pte i = if i / pg_size == pte / pg_size then 0 else m i

unfoldable pub page_table_add : Memory → ℕ → ℕ → Outcome Memory
page_table_add m vaddr page_phyaddr =
    let pde = pde_ptr vaddr in
    let pte = pte_ptr vaddr in
    if is_present (m.entry pde)
    then assert (not (is_present (m.entry pte)))
      >> ok (record m { entry = set_entry m.entry pte (with_flags page_phyaddr) })
    else palloc m.kernel_pool >>= (λ (p, pde_phyaddr).
      let cleared = clear_table (set_entry m.entry pde (with_flags pde_phyaddr)) pte in
      assert (not (is_present (cleared pte)))
      >> ok (record m { kernel_pool = p; entry = set_entry cleared pte (with_flags page_phyaddr) }))

unfoldable pub addr_v2p : Memory → ℕ → ℕ
addr_v2p m vaddr = u32 (m.entry (pte_ptr vaddr) / pg_size * pg_size + vaddr % pg_size)

unfoldable pub page_table_pte_remove : Memory → ℕ → Memory
page_table_pte_remove m vaddr =
    let pte = pte_ptr vaddr in record m { entry = set_entry m.entry pte (m.entry pte / 2 * 2) }
