-- ===== src/Fs/Dirs/Delete.antt =====
-- delete_dir_entry and dir_remove of workshop/fs/dir.c.
use restore_the_operating_sy.Base.Word.{minus_one, ◌>>◌, assert, ok, ◌>>=◌, sub_u32, Outcome}
use restore_the_operating_sy.Base.{
  not, ◌/◌, ◌*◌, ◌%◌, ◌&&◌, ◌-◌, leb, ◌+◌, Bool, ltb, ◌==◌, Option, ℕ, if◌then◌else◌, zero, suc,
  true, false, some, none,
}
use restore_the_operating_sy.Disk.{Buffer, ide_read, ide_write}
use restore_the_operating_sy.Bitmap.{bitmap_set}
use restore_the_operating_sy.Fs.{set_inode, set_sector, Inode, Partition, FileSystem, update}
use restore_the_operating_sy.Fs.Bitmaps.{block_map, bitmap_sync, set_part}
use restore_the_operating_sy.Fs.Inodes.{inode_sync, inode_release}
use restore_the_operating_sy.Fs.Dirs.{
  Outcome, Dir, entry_at, entry_no, entry_type, dir_blocks, same_name,
}
use restore_the_operating_sy.Fs.Dirs.Insert.{table_bytes}

-- "." and ".."
abbrev pub dot : Buffer
dot i = if i == 0 then 46 else 0

abbrev pub dot_dot : Buffer
dot_dot i = if ltb i 2 then 46 else 0

-- dir_entry_cnt, dir_entry_found and is_dir_first_block.
pub record Scan : Type 0 where
  pub dir_entry_cnt : ℕ
  pub dir_entry_found : Option ℕ
  pub is_dir_first_block : Bool

abbrev pub is_none : Option ℕ → Bool
is_none none = true
is_none (some i) = false

-- An entry that is neither "." nor "..".
unfoldable pub count_entry : Buffer → ℕ → ℕ → Scan → Outcome Scan
count_entry buf inode_no idx s =
    let cnt = (s.dir_entry_cnt + 1) % 256 in
    if entry_no (entry_at buf idx) == inode_no
    then assert (is_none s.dir_entry_found)
      >> ok (record s { dir_entry_cnt = cnt; dir_entry_found = some idx })
    else ok (record s { dir_entry_cnt = cnt })

-- One entry; the second strcmp with "." is that of the source.
unfoldable pub scan_entry : ℕ → Buffer → ℕ → ℕ → Scan → Outcome Scan
scan_entry fuel buf inode_no idx s =
    let others = (do
      parent ← same_name fuel (entry_at buf idx) dot_dot
      if parent then ok s else count_entry buf inode_no idx s) in
    let named = (do
      here ← same_name fuel (entry_at buf idx) dot
      if here then ok (record s { is_dir_first_block = true }) else others) in
    if entry_type (entry_at buf idx) == 0 then ok s else named

-- The loop over the entries of a sector.
unfoldable pub scan_sector : ℕ → Buffer → ℕ → ℕ → ℕ → Scan → Outcome Scan
scan_sector fuel buf inode_no zero idx s = ok s
scan_sector fuel buf inode_no (suc left) idx s =
    scan_entry fuel buf inode_no idx s >>= scan_sector fuel buf inode_no left (idx + 1)

-- The number of indirect blocks, of `left` from idx on.
unfoldable pub count_blocks : (ℕ → ℕ) → ℕ → ℕ → ℕ
count_blocks all_blocks zero idx = 0
count_blocks all_blocks (suc left) idx =
    (if all_blocks idx == 0 then 0 else 1) + count_blocks all_blocks left (idx + 1)

-- bitmap_set and bitmap_sync for a block that is given back.
unfoldable pub drop_block : FileSystem → ℕ → Outcome FileSystem
drop_block fs lba =
    let part = fs.cur_part in
    let idx = sub_u32 lba part.sb.data_start_lba in
    do
      b ← bitmap_set part.block_bitmap idx 0
      let part' : Partition = record part { block_bitmap = b }
      bitmap_sync (set_part fs part') part' idx block_map

-- The address of a block that was given back is taken out of the inode or of its table.
unfoldable pub forget_block : FileSystem → ℕ → (ℕ → ℕ) → ℕ → Outcome FileSystem
forget_block fs a all_blocks block_idx =
    let indirect_blocks = count_blocks all_blocks 128 12 in
    let table = (fs.inode a).i_sectors 12 in
    let shrunk : Outcome FileSystem =
      ide_write fs.my_disk table (table_bytes (update all_blocks block_idx 0)) 1
      >>= (λ hd. ok (record fs { my_disk = hd })) in
    let dropped : Outcome FileSystem =
      drop_block fs table >>= (λ fs1. ok (set_sector fs1 a 12 0)) in
    if ltb block_idx 12
    then ok (set_sector fs a block_idx 0)
    else assert (leb 1 indirect_blocks) >> (if ltb 1 indirect_blocks then shrunk else dropped)

-- The entry is cleared, or its block given back with it.
unfoldable pub remove_at : FileSystem → ℕ → ℕ → (ℕ → ℕ) → ℕ → Buffer → Scan → ℕ → Outcome FileSystem
remove_at fs a size all_blocks block_idx sector s found =
    let cleared : Buffer =
      λ i. if leb (found * 24) i && ltb i (found * 24 + size) then 0 else sector i in
    let given_back =
      drop_block fs (all_blocks block_idx) >>= (λ fs1. forget_block fs1 a all_blocks block_idx) in
    let wiped : Outcome FileSystem =
      ide_write fs.my_disk (all_blocks block_idx) cleared 1
      >>= (λ hd. ok (record fs { my_disk = hd })) in
    assert (leb 1 s.dir_entry_cnt)
    >> (if (s.dir_entry_cnt == 1) && not s.is_dir_first_block then given_back else wiped)

-- The size is written back with the inode.
unfoldable pub shrink : FileSystem → ℕ → ℕ → Outcome FileSystem
shrink fs a size =
    let n = fs.inode a in
    let fs1 = set_inode fs a (record n { i_size = n.i_size - size }) in
    assert (leb size n.i_size) >> inode_sync fs1 (fs1.inode a) (λ _. 0)

-- What follows the scan of a sector.
unfoldable pub after_scan :
    FileSystem
    → ℕ
    → ℕ
    → (ℕ → ℕ)
    → ℕ
    → Buffer
    → Scan
    → Option ℕ
    → Outcome (FileSystem × Bool)
    → Outcome (FileSystem × Bool)
after_scan fs a size all_blocks block_idx sector s none rest = rest
after_scan fs a size all_blocks block_idx sector s (some found) rest = do
  fs1 ← remove_at fs a size all_blocks block_idx sector s found
  fs2 ← shrink fs1 a size
  ok (fs2, true)

-- The loop over the blocks.
unfoldable pub delete_blocks :
    ℕ → FileSystem → ℕ → ℕ → ℕ → (ℕ → ℕ) → ℕ → ℕ → Buffer → Outcome (FileSystem × Bool)
delete_blocks fuel fs a size inode_no all_blocks zero block_idx io_buf = ok (fs, false)
delete_blocks fuel fs a size inode_no all_blocks (suc left) block_idx io_buf =
    let next =
      λ (b : Buffer). delete_blocks fuel fs a size inode_no all_blocks left (block_idx + 1) b in
    let look = (do
      sector ← ide_read fs.my_disk (all_blocks block_idx) (λ i. if ltb i 512 then 0 else io_buf i) 1
      s ←
          scan_sector fuel sector inode_no (512 / size) 0
            (record { dir_entry_cnt = 0; dir_entry_found = none; is_dir_first_block = false })
      after_scan fs a size all_blocks block_idx sector s s.dir_entry_found (next sector)) in
    if all_blocks block_idx == 0 then next io_buf else look

unfoldable pub delete_dir_entry : ℕ → FileSystem → Dir → ℕ → Buffer → Outcome (FileSystem × Bool)
delete_dir_entry fuel fs pdir inode_no io_buf = do
  all_blocks ← dir_blocks fs.my_disk (fs.inode pdir.inode)
  delete_blocks fuel fs pdir.inode fs.cur_part.sb.dir_entry_size inode_no all_blocks 140 0 io_buf

-- The ASSERTs of dir_remove, of `left` sectors from k on.
unfoldable pub all_empty : Inode → ℕ → ℕ → Bool
all_empty n zero k = true
all_empty n (suc left) k = (n.i_sectors k == 0) && all_empty n left (k + 1)

-- `got` says whether sys_malloc gave io_buf, and `addr` is what it gives to the inode.
unfoldable pub dir_remove : ℕ → FileSystem → Dir → Dir → Bool → ℕ → Outcome (FileSystem × ℕ)
dir_remove fuel fs parent_dir child_dir got addr =
    let n = fs.inode child_dir.inode in
    let removed = (do
      (fs1, found) ← delete_dir_entry fuel fs parent_dir n.i_no (λ _. 0)
      fs2 ← inode_release fs1 n.i_no addr
      ok (fs2, 0)) in
    assert (all_empty n 12 1) >> (if got then removed else ok (fs, minus_one))
