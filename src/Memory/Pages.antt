-- ===== src/Memory/Pages.antt =====
-- palloc and pfree: a page is handed out once, and freeing gives it back.
use restore_the_operating_sy.Base.{
  ◌/◌, leb, subst, false, ℕ, ◌+◌, ◌*◌, ◌^◌, ◌≤◌, ◌<◌, ◌≡◌, refl, true, if◌then◌else◌, ◌==◌, arith,
  ne→==,
}
use restore_the_operating_sy.Base.Word.{
  Returns-bind, sub_u32, Returns-mono, u32, minus_one, null, Outcome, ok, panic, hang, ◌>>=◌,
  Returns,
}
use restore_the_operating_sy.Bitmap.{Bitmap, bitmap_scan, bitmap_set}
use restore_the_operating_sy.Bitmap.Set.{is_used, IsBytes, IsUpdate, bitmap_set-IsUpdate}
use restore_the_operating_sy.Bitmap.Scan.{IsFirstFree, ScansOne, bitmap_scan_one}
use restore_the_operating_sy.Memory.{pfree, Memory, free_page, pg_size, Pool, palloc}

-- A pool whose pages lie, page by page, in the address space, above page 0.
pub record IsPool (p : Pool) : Type 0 where
  pub bytes : IsBytes p.pool_bitmap
  pub small : p.pool_bitmap.btmp_bytes_len < 2 ^ 28
  pub positive : 0 < p.phy_addr_start
  pub fits : p.phy_addr_start + p.pool_bitmap.btmp_bytes_len * 8 * 4096 ≤ 2 ^ 32

-- The address of page i.
abbrev pub page : Pool → ℕ → ℕ
page p i = p.phy_addr_start + i * 4096

-- The pool `q` and the address `a` are the result of taking page i of p, the first free one.
pub record IsTaken (p : Pool) (i : ℕ) (q : Pool) (a : ℕ) : Type 0 where
  pub first : IsFirstFree p.pool_bitmap i
  pub address : a ≡ page p i
  pub update : IsUpdate p.pool_bitmap i true q.pool_bitmap
  pub start : q.phy_addr_start ≡ p.phy_addr_start

abbrev pub Allocates : Pool → Outcome (Pool × ℕ) → Type 0
Allocates p (ok (q, a)) = (i : ℕ) × IsTaken p i q a
Allocates p panic = (j : ℕ) → j < p.pool_bitmap.btmp_bytes_len * 8 → is_used p.pool_bitmap j ≡ true
Allocates p hang = ⊥

take_page :
    (p : Pool) (i : ℕ) (o : Outcome Bitmap)
    → IsPool p
    → IsFirstFree p.pool_bitmap i
    → Returns (IsUpdate p.pool_bitmap i true) o
    → Allocates p
        (o >>= λ b. ok (record p { pool_bitmap = b }, u32 (i * pg_size + p.phy_addr_start)))
take_page p i (ok b) h f u =
    let inside = f.inside in
    let fits = h.fits in (i, record { first = f; address = omega arith; update = u; start = refl })
take_page p i panic h f u = absurd u
take_page p i hang h f u = absurd u

from_scan :
    (p : Pool) (o : Outcome ℕ)
    → IsPool p
    → ScansOne p.pool_bitmap o
    → Allocates p (
        o >>= λ i.
        if i == minus_one
        then ok (p, null)
        else bitmap_set p.pool_bitmap i 1 >>= λ b.
            ok (record p { pool_bitmap = b }, u32 (i * pg_size + p.phy_addr_start)))
from_scan p (ok i) h f =
    let inside = f.inside in
    let small = h.small in
    rw (ne→== i minus_one (omega arith)) (
      take_page p i (bitmap_set p.pool_bitmap i 1) h f
        (bitmap_set-IsUpdate p.pool_bitmap i 1 h.bytes (omega arith)))
from_scan p panic h f = f
from_scan p hang h f = f

-- palloc on a well-formed pool hands out the first free page, marks it and no other, and returns its
-- address, which lies in the pool; the machine stops exactly when no page of the pool is free.
pub palloc-Allocates : (p : Pool) → IsPool p → Allocates p (palloc p)
unfolding palloc
palloc-Allocates p h =
    from_scan p (bitmap_scan p.pool_bitmap 1) h (bitmap_scan_one p.pool_bitmap h.bytes h.small)

-- Freeing the address of page i clears bit i and no other.
free_page-IsUpdate :
    (p : Pool) (i : ℕ)
    → IsPool p
    → i < p.pool_bitmap.btmp_bytes_len * 8
    → Returns
        (λ q. IsUpdate p.pool_bitmap i false q.pool_bitmap × (q.phy_addr_start ≡ p.phy_addr_start))
        (free_page p (page p i))
unfolding free_page
free_page-IsUpdate p i h lt =
    let fits = h.fits in
    let index : sub_u32 (page p i) p.phy_addr_start / pg_size ≡ i = omega arith in
    rw index (
      Returns-bind
        (λ (q : Pool).
          IsUpdate p.pool_bitmap i false q.pool_bitmap × (q.phy_addr_start ≡ p.phy_addr_start))
        (bitmap_set p.pool_bitmap i 0) (λ (b : Bitmap). ok (record p { pool_bitmap = b }))
        (bitmap_set-IsUpdate p.pool_bitmap i 0 h.bytes (omega arith)) λ b u. (u, refl))

-- The kernel's pages lie below the user's.
pub record ArePools (m : Memory) : Type 0 where
  pub kernel : IsPool m.kernel_pool
  pub user : IsPool m.user_pool
  pub apart :
      page m.kernel_pool (m.kernel_pool.pool_bitmap.btmp_bytes_len * 8) ≤ m.user_pool.phy_addr_start

-- The same pages of the two pools are in use.
abbrev pub SameUse : Pool → Pool → Type 0
SameUse p q = (j : ℕ) → is_used q.pool_bitmap j ≡ is_used p.pool_bitmap j

IsTaken-IsPool : (p q : Pool) (i a : ℕ) → IsPool p → IsTaken p i q a → IsPool q
IsTaken-IsPool p q i a h t = record {
  bytes = t.update.bytes;
  small = rw t.update.len h.small;
  positive = rw t.start h.positive;
  fits = rw (t.start, t.update.len) h.fits;
}

-- Taking a page and freeing it restores the pool's pages.
back :
    (p q : Pool) (i a : ℕ) → IsPool p → IsTaken p i q a → Returns (λ r. SameUse p r) (free_page q a)
back p q i a h t =
    let inside : i < q.pool_bitmap.btmp_bytes_len * 8 = rw t.update.len t.first.inside in
    let at : a ≡ page q i = rw t.start t.address in
    rw at (
      Returns-mono (λ r. SameUse p r) (free_page q (page q i))
        (free_page-IsUpdate q i (IsTaken-IsPool p q i a h t) inside)
        λ r u j. ground (arith, u.0.bit j, t.update.bit j, t.first.free))

-- pfree of a page that palloc has just taken from the user pool returns it to that pool, with the
-- same pages in use as before, and leaves the kernel pool alone.
pub pfree-palloc_user :
    (m : Memory) (q : Pool) (a : ℕ)
    → ArePools m
    → palloc m.user_pool ≡ ok (q, a)
    → Returns
        (λ n. SameUse m.user_pool n.user_pool × (n.kernel_pool ≡ m.kernel_pool))
        (pfree (record m { user_pool = q }) a)
unfolding pfree
pfree-palloc_user m q a h e =
    let (i, t) = subst (Allocates m.user_pool) e (palloc-Allocates m.user_pool h.user) in
    let above : leb q.phy_addr_start a ≡ true = ground (arith, t.address, t.start) in
    rw above (
      Returns-bind
        (λ (n : Memory). SameUse m.user_pool n.user_pool × (n.kernel_pool ≡ m.kernel_pool))
        (free_page q a) (λ (p : Pool). ok (record m { user_pool = p }))
        (back m.user_pool q i a h.user t) λ r s. (s, refl))

-- pfree of a page that palloc has just taken from the kernel pool returns it to that pool, with the
-- same pages in use as before, and leaves the user pool alone.
pub pfree-palloc_kernel :
    (m : Memory) (q : Pool) (a : ℕ)
    → ArePools m
    → palloc m.kernel_pool ≡ ok (q, a)
    → Returns
        (λ n. SameUse m.kernel_pool n.kernel_pool × (n.user_pool ≡ m.user_pool))
        (pfree (record m { kernel_pool = q }) a)
unfolding pfree
pfree-palloc_kernel m q a h e =
    let (i, t) = subst (Allocates m.kernel_pool) e (palloc-Allocates m.kernel_pool h.kernel) in
    let inside = t.first.inside in
    let apart = h.apart in
    let at = t.address in
    let below : leb m.user_pool.phy_addr_start a ≡ false = ground arith in
    rw below (
      Returns-bind
        (λ (n : Memory). SameUse m.kernel_pool n.kernel_pool × (n.user_pool ≡ m.user_pool))
        (free_page q a) (λ (p : Pool). ok (record m { kernel_pool = p }))
        (back m.kernel_pool q i a h.kernel t) λ r s. (s, refl))
