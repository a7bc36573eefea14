-- ===== src/Memory/PageTable.antt =====
-- The page table: the addresses of its entries, adding, translating and removing.
use restore_the_operating_sy.Base.{
  sym, false, ◌⊎◌, refl, eq→==, ne→==, ◌≢◌, true, ◌%◌, ℕ, ◌+◌, ◌*◌, ◌/◌, ◌^◌, ◌<◌, ◌≡◌, ◌↔◌, arith,
}
use restore_the_operating_sy.Bitmap.Set.{is_used}
use restore_the_operating_sy.Memory.{
  page_table_pte_remove, addr_v2p, is_present, Memory, pte_ptr, pde_ptr,
}
use restore_the_operating_sy.Base.Word.{Outcome, ok, panic, hang}

-- The directory entry's address is the page table entry's address of that page table entry: the last
-- directory entry maps the directory itself.
pub pde_ptr-eq-pte_ptr : (v : ℕ) → v < 2 ^ 32 → pde_ptr v ≡ pte_ptr (pte_ptr v)
unfolding pde_ptr pte_ptr
pde_ptr-eq-pte_ptr v h = omega arith

pte_value : (v : ℕ) → v < 2 ^ 32 → pte_ptr v ≡ 0xffc00000 + v / 4096 * 4
unfolding pte_ptr
pte_value v h = omega arith

-- Two addresses share a page table entry exactly when they lie in one page.
pub pte_ptr-injective :
    (v w : ℕ) → v < 2 ^ 32 → w < 2 ^ 32 → (pte_ptr v ≡ pte_ptr w) ↔ (v / 4096 ≡ w / 4096)
pte_ptr-injective v w h k = (
  (λ e. omega (arith, pte_value v h, pte_value w k)),
  (λ e. omega (arith, pte_value v h, pte_value w k)),
)

-- The addresses of the directory entry and of the page table entry of v.
abbrev pub directory_entry : ℕ → ℕ
directory_entry v = 0xfffff000 + v / 4194304 * 4

abbrev pub table_entry : ℕ → ℕ
table_entry v = 0xffc00000 + v / 4096 * 4

-- The virtual page of v, whose entries have the addresses d and t, leads to the physical page p: both
-- entries are present, that of the table has p with the flags of a writable page of the user, and
-- translating v gives the address in p.
pub record Maps (m : Memory) (v p d t : ℕ) : Type 0 where
  pub directory : m.entry d % 2 ≡ 1
  pub table : m.entry t ≡ p + 7
  pub translates : addr_v2p m v ≡ p + v % 4096

-- The entries other than that of v: they are as they were, if the directory had a table. Otherwise the
-- new table is empty, and outside it only the directory entry has changed.
abbrev pub Others : Memory → ℕ → ℕ → Memory → Type 0
Others m d t n =
    ((m.entry d % 2 ≡ 1) × ((i : ℕ) → i ≢ t → n.entry i ≡ m.entry i))
    ⊎ ((m.entry d % 2 ≡ 0)
        × ((i : ℕ) → i / 4096 ≡ t / 4096 → i ≢ t → n.entry i ≡ 0)
        × ((i : ℕ) → i / 4096 ≢ t / 4096 → i ≢ d → n.entry i ≡ m.entry i))

-- What adding the page p at v to m comes to.
abbrev pub Adds : Memory → ℕ → ℕ → ℕ → ℕ → Outcome Memory → Type 0
Adds m v p d t (ok n) = Maps n v p d t × Others m d t n
Adds m v p d t panic =
    ((m.entry d % 2 ≡ 1) × (m.entry t % 2 ≡ 1))
    ⊎ ((j : ℕ)
        → j < m.kernel_pool.pool_bitmap.btmp_bytes_len * 8
        → is_used m.kernel_pool.pool_bitmap j ≡ true)
Adds m v p d t hang = ⊥

-- page_table_pte_remove unmaps the page of v and leaves the entry of every other page as it was.
pub page_table_pte_remove_lem :
    (m : Memory) (v w : ℕ)
    → v < 2 ^ 32
    → w < 2 ^ 32
    → (is_present ((page_table_pte_remove m v).entry (pte_ptr v)) ≡ false)
      × (v / 4096 ≢ w / 4096 → (page_table_pte_remove m v).entry (pte_ptr w) ≡ m.entry (pte_ptr w))
unfolding page_table_pte_remove
page_table_pte_remove_lem m v w h k = (
  rw (eq→== (pte_ptr v) (pte_ptr v) refl) (ne→== _ 1 (omega arith)),
  λ ne. rw (ne→== (pte_ptr w) (pte_ptr v) (λ e. ne (sym ((pte_ptr-injective w v k h).0 e)))),
)
