-- ===== src/Fs/Dirs/Insert.antt =====
-- sync_dir_entry: a new entry goes to the first free place, or to a new block.
use restore_the_operating_sy.Base.Word.{minus_one, ◌>>◌, ◌>>=◌, assert, ok, sub_u32, u32, Outcome}
use restore_the_operating_sy.Base.{
  ◌-◌, not, ◌&&◌, ◌%◌, ◌*◌, ltb, ◌/◌, leb, ◌==◌, ◌+◌, Bool, if◌then◌else◌, Option, ℕ, zero, suc,
  true, false, some, none,
}
use restore_the_operating_sy.Disk.{Buffer, ide_read, ide_write}
use restore_the_operating_sy.Bitmap.{bitmap_set}
use restore_the_operating_sy.Fs.{set_inode, set_sector, FileSystem, update}
use restore_the_operating_sy.Fs.Bitmaps.{block_map, bitmap_sync, block_bitmap_alloc, set_part}
use restore_the_operating_sy.Fs.Inodes.{byte_of_word}
use restore_the_operating_sy.Fs.Dirs.{Outcome, Dir, entry_at, entry_type, direct_blocks}

-- The loop over the entries of a sector that looks for one of type FT_UNKNOWN.
unfoldable pub find_free : Buffer → ℕ → ℕ → Option ℕ
find_free buf zero idx = none
find_free buf (suc left) idx =
    let rest = find_free buf left (idx + 1) in
    if entry_type (entry_at buf idx) == 0 then some idx else rest

-- memcpy of an entry to its place in the buffer.
unfoldable pub put_entry : ℕ → Buffer → ℕ → Buffer → Buffer
put_entry size p_de idx buf i =
    if leb (idx * 24) i && ltb i (idx * 24 + size) then p_de (i - idx * 24) else buf i

-- i_size grows, and so shrinks, by an entry.
abbrev pub grow : FileSystem → ℕ → ℕ → FileSystem
grow fs a size = set_inode fs a (record (fs.inode a) { i_size = u32 ((fs.inode a).i_size + size) })

-- A sector is written, and the entry counted.
unfoldable pub write_entry : FileSystem → ℕ → ℕ → ℕ → Buffer → Outcome (FileSystem × Bool)
write_entry fs a lba size buf = do
  hd ← ide_write fs.my_disk lba buf 1
  ok (grow (record fs { my_disk = hd }) a size, true)

-- The bytes of all_blocks + 12.
abbrev pub table_bytes : (ℕ → ℕ) → Buffer
table_bytes all_blocks i = byte_of_word (all_blocks (12 + i / 4)) (i % 4)

-- block_bitmap_alloc and bitmap_sync of the new block; none stands for -1.
unfoldable pub new_block : FileSystem → Outcome (FileSystem × Option ℕ)
new_block fs = do
  (part, lba) ← block_bitmap_alloc fs.cur_part
  let fs1 = set_part fs part
  let idx = sub_u32 lba part.sb.data_start_lba
  let synced : Outcome (FileSystem × Option ℕ) =
      assert (not (idx == minus_one))
      >> (bitmap_sync fs1 part idx block_map >>= (λ fs2. ok (fs2, some lba)))
  if lba == minus_one then ok (fs1, none) else synced

-- The new block for the indirect block 0, once i_sectors[12] is allocated.
unfoldable pub first_indirect :
    FileSystem → ℕ → (ℕ → ℕ) → FileSystem × Option ℕ → Outcome (FileSystem × Option (ℕ → ℕ))
first_indirect fs a all_blocks (fs1, none) =
    bitmap_set fs1.cur_part.block_bitmap
      (sub_u32 ((fs1.inode a).i_sectors 12) fs1.cur_part.sb.data_start_lba) 0
    >>= (λ b.
        ok (set_sector (set_part fs1 (record fs1.cur_part { block_bitmap = b })) a 12 0, none))
first_indirect fs a all_blocks (fs1, some lba) =
    let all' = update all_blocks 12 lba in
    ide_write fs1.my_disk ((fs1.inode a).i_sectors 12) (table_bytes all') 1
    >>= (λ hd. ok (record fs1 { my_disk = hd }, some all'))

-- Where the address of the new block is kept.
unfoldable pub keep_block : FileSystem → ℕ → (ℕ → ℕ) → ℕ → ℕ → Outcome (FileSystem × Option (ℕ → ℕ))
keep_block fs a all_blocks block_idx lba =
    let all' = update all_blocks block_idx lba in
    let fs1 = set_sector fs a 12 lba in
    if ltb block_idx 12
    then ok (set_sector fs a block_idx lba, some all')
    else if block_idx == 12
    then (new_block fs1 >>= first_indirect fs1 a all_blocks)
    else (ide_write fs.my_disk ((fs.inode a).i_sectors 12) (table_bytes all') 1
        >>= (λ hd. ok (record fs { my_disk = hd }, some all')))

-- The entry goes to the front of the new block.
unfoldable pub enter_new :
    ℕ → ℕ → Buffer → Buffer → ℕ → FileSystem × Option (ℕ → ℕ) → Outcome (FileSystem × Bool)
enter_new a size p_de io_buf block_idx (fs, none) = ok (fs, false)
enter_new a size p_de io_buf block_idx (fs, some all_blocks) =
    write_entry fs a (all_blocks block_idx) size
      (put_entry size p_de 0 (λ i. if ltb i 512 then 0 else io_buf i))

unfoldable pub with_new :
    ℕ → ℕ → Buffer → Buffer → (ℕ → ℕ) → ℕ → FileSystem × Option ℕ → Outcome (FileSystem × Bool)
with_new a size p_de io_buf all_blocks block_idx (fs, none) = ok (fs, false)
with_new a size p_de io_buf all_blocks block_idx (fs, some lba) =
    keep_block fs a all_blocks block_idx lba >>= enter_new a size p_de io_buf block_idx

-- The sector of a block has a free place, or the search goes on.
unfoldable pub enter_at :
    FileSystem
    → ℕ
    → ℕ
    → ℕ
    → Buffer
    → Buffer
    → Option ℕ
    → Outcome (FileSystem × Bool)
    → Outcome (FileSystem × Bool)
enter_at fs a lba size p_de sector none rest = rest
enter_at fs a lba size p_de sector (some idx) rest =
    write_entry fs a lba size (put_entry size p_de idx sector)

-- The loop over the blocks.
unfoldable pub enter_blocks :
    FileSystem → ℕ → ℕ → Buffer → (ℕ → ℕ) → ℕ → ℕ → Buffer → Outcome (FileSystem × Bool)
enter_blocks fs a size p_de all_blocks zero block_idx io_buf = ok (fs, false)
enter_blocks fs a size p_de all_blocks (suc left) block_idx io_buf =
    let lba = all_blocks block_idx in
    let look = (do
      sector ← ide_read fs.my_disk lba io_buf 1
      enter_at fs a lba size p_de sector (find_free sector (512 / size) 0)
          (enter_blocks fs a size p_de all_blocks left (block_idx + 1) sector)) in
    let enlarge = new_block fs >>= with_new a size p_de io_buf all_blocks block_idx in
    if lba == 0 then enlarge else look

-- The table of the indirect blocks is not read: all_blocks has the direct blocks only.
unfoldable pub sync_dir_entry : FileSystem → Dir → Buffer → Buffer → Outcome (FileSystem × Bool)
sync_dir_entry fs parent_dir p_de io_buf =
    let a = parent_dir.inode in
    let size = fs.cur_part.sb.dir_entry_size in
    assert ((fs.inode a).i_size % size == 0)
    >> enter_blocks fs a size p_de (direct_blocks (fs.inode a)) 140 0 io_buf
