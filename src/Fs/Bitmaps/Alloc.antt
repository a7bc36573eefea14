-- ===== src/Fs/Bitmaps/Alloc.antt =====
-- inode_bitmap_alloc and block_bitmap_alloc hand out free numbers.
use restore_the_operating_sy.Base.{
  ne→==, ◌==◌, if◌then◌else◌, ℕ, ◌+◌, ◌*◌, ◌<◌, ◌^◌, ◌≡◌, refl, true, arith,
}
use restore_the_operating_sy.Base.Word.{u32, minus_one, Outcome, ok, panic, hang, ◌>>=◌, Returns}
use restore_the_operating_sy.Bitmap.{Bitmap, bitmap_scan, bitmap_set}
use restore_the_operating_sy.Bitmap.Set.{is_used, IsBytes, IsUpdate, bitmap_set-IsUpdate}
use restore_the_operating_sy.Bitmap.Scan.{IsFirstFree, ScansOne, bitmap_scan_one}
use restore_the_operating_sy.Fs.{Partition}
use restore_the_operating_sy.Fs.Bitmaps.{inode_bitmap_alloc, block_bitmap_alloc}

-- A bitmap of the sizes that the file system uses.
pub record IsMap (b : Bitmap) : Type 0 where
  pub bytes : IsBytes b
  pub small : b.btmp_bytes_len < 2 ^ 28

-- The outcome of taking a bit of b: the bitmap with the first free bit marked and the number made of
-- that bit, or the machine stops with no bit free.
abbrev pub Takes : {A : Type 0} → Bitmap → (A → Bitmap) → (ℕ → ℕ) → Outcome (A × ℕ) → Type 0
Takes b map_of number (ok (q, a)) =
    (i : ℕ) × IsFirstFree b i × (a ≡ number i) × IsUpdate b i true (map_of q)
Takes b map_of number panic = (j : ℕ) → j < b.btmp_bytes_len * 8 → is_used b j ≡ true
Takes b map_of number hang = ⊥

take_bit :
    {A : Type 0} (b : Bitmap) (full : A) (give : Bitmap → A) (map_of : A → Bitmap) (number : ℕ → ℕ)
    (o : Outcome ℕ)
    → IsMap b
    → ((c : Bitmap) → map_of (give c) ≡ c)
    → ScansOne b o
    → Takes b map_of number (
        o >>= λ i.
        if i == minus_one
        then ok (full, minus_one)
        else bitmap_set b i 1 >>= λ c. ok (give c, number i))
take_bit b full give map_of number (ok i) h back f =
    let inside = f.inside in
    let small = h.small in
    rw (ne→== i minus_one (omega arith))
      (marked (bitmap_set b i 1) (bitmap_set-IsUpdate b i 1 h.bytes (omega arith)))
  where
    marked :
        (o : Outcome Bitmap)
        → Returns (IsUpdate b i true) o
        → Takes b map_of number (o >>= λ c. ok (give c, number i))
    marked (ok c) u = (i, f, refl, rw (back c) u)
    marked panic u = absurd u
    marked hang u = absurd u
take_bit b full give map_of number panic h back f = f
take_bit b full give map_of number hang h back f = f

-- block_bitmap_alloc marks the first free block of the partition and no other, and gives the sector
-- address of that block; the machine stops exactly when no block is free.
pub block_bitmap_alloc-Takes :
    (part : Partition)
    → IsMap part.block_bitmap
    → Takes part.block_bitmap
        (λ q. q.block_bitmap)
        (λ i. u32 (part.sb.data_start_lba + i))
        (block_bitmap_alloc part)
unfolding block_bitmap_alloc
block_bitmap_alloc-Takes part h =
    take_bit part.block_bitmap part (λ b. record part { block_bitmap = b }) (λ q. q.block_bitmap)
      (λ i. u32 (part.sb.data_start_lba + i)) (bitmap_scan part.block_bitmap 1) h (λ c. refl)
      (bitmap_scan_one part.block_bitmap h.bytes h.small)

-- inode_bitmap_alloc marks the first free inode of the partition and no other, and gives its number;
-- the machine stops exactly when no inode is free.
pub inode_bitmap_alloc-Takes :
    (part : Partition)
    → IsMap part.inode_bitmap
    → Takes part.inode_bitmap (λ q. q.inode_bitmap) (λ i. i) (inode_bitmap_alloc part)
unfolding inode_bitmap_alloc
inode_bitmap_alloc-Takes part h =
    take_bit part.inode_bitmap part (λ b. record part { inode_bitmap = b }) (λ q. q.inode_bitmap)
      (λ i. i) (bitmap_scan part.inode_bitmap 1) h (λ c. refl)
      (bitmap_scan_one part.inode_bitmap h.bytes h.small)
