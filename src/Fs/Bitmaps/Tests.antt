-- ===== src/Fs/Bitmaps/Tests.antt =====
-- Bitmaps of a small file system.
use restore_the_operating_sy.Base.{refl, arith}
use restore_the_operating_sy.Base.Word.{Returns}
use restore_the_operating_sy.Fs.Examples.{fs, part, drive, bitmap}
use restore_the_operating_sy.Fs.Bitmaps.{bitmap_sync, inode_map}
use restore_the_operating_sy.Fs.Bitmaps.Sync.{Holds, bitmap_sync-inode_map}

bitmap_sync-inode_map_example :
    Returns (λ fs'. Holds drive fs'.my_disk 8 bitmap.bits 0) (bitmap_sync fs part 5 inode_map)
bitmap_sync-inode_map_example = bitmap_sync-inode_map fs part 5 refl (omega arith) (omega arith)
