-- ===== src/Fs/Bitmaps/Sync.antt =====
-- What bitmap_sync puts on the disk.
use restore_the_operating_sy.Base.{ap, ◌⊎◌, true, ℕ, ◌+◌, ◌-◌, ◌*◌, ◌/◌, ◌≤◌, ◌<◌, ◌≡◌, refl, arith}
use restore_the_operating_sy.Base.Word.{ok, ◌>>=◌, Returns}
use restore_the_operating_sy.Disk.{Drive}
use restore_the_operating_sy.Disk.Transfer.{stored, ide_write-stored}
use restore_the_operating_sy.Fs.{Partition, FileSystem}
use restore_the_operating_sy.Fs.Bitmaps.{
  BitmapType, inode_map, block_map, sync_lba, sync_buffer, bitmap_sync,
}

-- One sector, where the bitmap lies on a drive that answers.
pub bitmap_sync-stored :
    (fs : FileSystem) (part : Partition) (i : ℕ) (t : BitmapType)
    → fs.my_disk.ready ≡ true
    → sync_lba part i t + 1 ≤ 163840
    → bitmap_sync fs part i t
      ≡ ok
          (record fs { my_disk = stored fs.my_disk (sync_lba part i t) (sync_buffer part i t) 0 1 })
unfolding bitmap_sync
bitmap_sync-stored fs part i t ready small =
    ap (λ o. o >>= λ hd. ok (record fs { my_disk = hd }))
      (ide_write-stored fs.my_disk (sync_lba part i t) (sync_buffer part i t) 1 ready (omega arith)
        small)

-- The sector at `lba` holds the bytes of `b` from `from` on, and the other sectors are as before.
abbrev pub Holds : Drive → Drive → ℕ → (ℕ → ℕ) → ℕ → Type 0
Holds old new lba b from =
    ((i : ℕ) → i < 512 → new.bytes (lba * 512 + i) ≡ b (from + i))
    × ((p : ℕ) → (p < lba * 512) ⊎ (lba * 512 + 512 ≤ p) → new.bytes p ≡ old.bytes p)

synced_sector :
    (fs : FileSystem) (part : Partition) (i : ℕ) (t : BitmapType) (lba : ℕ)
    → fs.my_disk.ready ≡ true
    → sync_lba part i t ≡ lba
    → lba < 163840
    → ((j : ℕ) → sync_buffer part i t j ≡ part.block_bitmap.bits (i / 4096 + j))
    → Returns
        (λ fs'. Holds fs.my_disk fs'.my_disk lba part.block_bitmap.bits (i / 4096))
        (bitmap_sync fs part i t)
synced_sector fs part i t lba ready e small same =
    rw (bitmap_sync-stored fs part i t ready (omega arith), e)
      (
        (λ j lt. let at : lba * 512 + j - lba * 512 ≡ j = omega arith in ground (arith, same j)),
        (λ p out. ground arith),
      )

-- bitmap_sync of a bit of the block bitmap below 4096 puts the first 512 bytes of that bitmap to its
-- first sector, and changes no other sector.
pub bitmap_sync-block_map :
    (fs : FileSystem) (part : Partition) (i : ℕ)
    → fs.my_disk.ready ≡ true
    → part.sb.block_bitmap_lba < 163840
    → i < 4096
    → Returns
        (λ fs'. Holds fs.my_disk fs'.my_disk part.sb.block_bitmap_lba part.block_bitmap.bits 0)
        (bitmap_sync fs part i block_map)
unfolding sync_lba sync_buffer
bitmap_sync-block_map fs part i ready small lt =
    let e : i / 4096 ≡ 0 = omega arith in
    rw e at (
      synced_sector fs part i block_map part.sb.block_bitmap_lba ready (omega arith) small
        (λ j. refl))

-- bitmap_sync of the inode bitmap writes bytes of the block bitmap to the inode bitmap's sector,
-- whatever the inode bitmap is.
pub bitmap_sync-inode_map :
    (fs : FileSystem) (part : Partition) (i : ℕ)
    → fs.my_disk.ready ≡ true
    → part.sb.inode_bitmap_lba < 163840
    → i < 4096
    → Returns
        (λ fs'. Holds fs.my_disk fs'.my_disk part.sb.inode_bitmap_lba part.block_bitmap.bits 0)
        (bitmap_sync fs part i inode_map)
unfolding sync_lba sync_buffer
bitmap_sync-inode_map fs part i ready small lt =
    let e : i / 4096 ≡ 0 = omega arith in
    rw e at (
      synced_sector fs part i inode_map part.sb.inode_bitmap_lba ready (omega arith) small
        (λ j. refl))

-- bitmap_sync of a bit of the block bitmap from 4096 on writes to the right sector the bytes that
-- begin one byte, not one sector, further for each sector: from byte i / 4096 on.
pub bitmap_sync-far_bit :
    (fs : FileSystem) (part : Partition) (i : ℕ)
    → fs.my_disk.ready ≡ true
    → part.sb.block_bitmap_lba + i / 4096 < 163840
    → Returns
        (λ fs'.
          Holds fs.my_disk fs'.my_disk
            (part.sb.block_bitmap_lba + i / 4096)
            part.block_bitmap.bits
            (i / 4096))
        (bitmap_sync fs part i block_map)
unfolding sync_lba sync_buffer
bitmap_sync-far_bit fs part i ready small =
    synced_sector fs part i block_map (part.sb.block_bitmap_lba + i / 4096) ready (omega arith)
      small (λ j. refl)
