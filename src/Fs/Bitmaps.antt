-- ===== src/Fs/Bitmaps.antt =====
-- inode_bitmap_alloc, block_bitmap_alloc and bitmap_sync of workshop/fs/file.c.
pub mod Sync
pub mod Alloc
mod Tests
use restore_the_operating_sy.Base.{ℕ, ◌+◌, ◌/◌, if◌then◌else◌, ◌==◌}
use restore_the_operating_sy.Base.Word.{u32, minus_one, Outcome, ok, ◌>>=◌}
use restore_the_operating_sy.Bitmap.{bitmap_scan, bitmap_set}
use restore_the_operating_sy.Disk.{Buffer, ide_write}
use restore_the_operating_sy.Fs.{FileSystem, Partition}

-- `enum bitmap_type`
pub data BitmapType : Type 0 where
  inode_map block_map : BitmapType

abbrev pub set_part : FileSystem → Partition → FileSystem
set_part fs part = record fs { cur_part = part }

unfoldable pub inode_bitmap_alloc : Partition → Outcome (Partition × ℕ)
inode_bitmap_alloc part = do
  bit_idx ← bitmap_scan part.inode_bitmap 1
  if bit_idx == minus_one
      then ok (part, minus_one)
      else bitmap_set part.inode_bitmap bit_idx 1
        >>= (λ b. ok (record part { inode_bitmap = b }, bit_idx))

unfoldable pub block_bitmap_alloc : Partition → Outcome (Partition × ℕ)
block_bitmap_alloc part = do
  bit_idx ← bitmap_scan part.block_bitmap 1
  if bit_idx == minus_one
      then ok (part, minus_one)
      else bitmap_set part.block_bitmap bit_idx 1
        >>= (λ b. ok (record part { block_bitmap = b }, u32 (part.sb.data_start_lba + bit_idx)))

-- The sector that bitmap_sync writes to, and the buffer that it writes: for either kind of bitmap the
-- bytes of the block bitmap, from `off_sec` on.
unfoldable pub sync_lba : Partition → ℕ → BitmapType → ℕ
sync_lba part bit_idx inode_map = u32 (part.sb.inode_bitmap_lba + bit_idx / 4096)
sync_lba part bit_idx block_map = u32 (part.sb.block_bitmap_lba + bit_idx / 4096)

unfoldable pub sync_buffer : Partition → ℕ → BitmapType → Buffer
sync_buffer part bit_idx inode_map i = part.block_bitmap.bits (bit_idx / 4096 + i)
sync_buffer part bit_idx block_map i = part.block_bitmap.bits (bit_idx / 4096 + i)

unfoldable pub bitmap_sync : FileSystem → Partition → ℕ → BitmapType → Outcome FileSystem
bitmap_sync fs part bit_idx btmp =
    ide_write fs.my_disk (sync_lba part bit_idx btmp) (sync_buffer part bit_idx btmp) 1
    >>= (λ hd. ok (record fs { my_disk = hd }))
