-- ===== src/Fs/Dirs/Listing.antt =====
-- dir_read of workshop/fs/dir.c: the entries of a directory, one with each call.
use restore_the_operating_sy.Base.Word.{◌>>◌, assert, ◌>>=◌, u32, ok, Outcome}
use restore_the_operating_sy.Base.{
  leb, ◌/◌, ltb, ◌==◌, if◌then◌else◌, ◌+◌, Option, ℕ, zero, suc, some, none,
}
use restore_the_operating_sy.Disk.{Drive, Buffer, ide_read}
use restore_the_operating_sy.Fs.{FileSystem}
use restore_the_operating_sy.Fs.Dirs.{Dir, entry_at, entry_type, dir_blocks}

-- The loop over the entries of a sector: the place of an entry that was not returned yet, or the
-- position that the sector ends with.
pub data Listed : Type 0 where
  listed : ℕ → Listed
  passed : ℕ → Listed

unfoldable pub list_sector : Buffer → ℕ → ℕ → ℕ → ℕ → ℕ → Outcome Listed
list_sector buf dir_pos size zero idx pos = ok (passed pos)
list_sector buf dir_pos size (suc left) idx pos =
    let skip = list_sector buf dir_pos size left (idx + 1) (u32 (pos + size)) in
    let free = list_sector buf dir_pos size left (idx + 1) pos in
    if entry_type (entry_at buf idx) == 0
    then free
    else if ltb pos dir_pos
    then skip
    else assert (pos == dir_pos) >> ok (listed idx)

unfoldable pub after_sector :
    Dir → ℕ → Buffer → Listed → (ℕ → Outcome (Dir × Option ℕ)) → Outcome (Dir × Option ℕ)
after_sector dir size sector (passed pos) rest = rest pos
after_sector dir size sector (listed idx) rest =
    ok (record dir { dir_pos = u32 (dir.dir_pos + size); dir_buf = sector }, some idx)

-- The loop over the blocks. The result is the index of the entry in dir_buf.
unfoldable pub list_blocks : Drive → ℕ → ℕ → (ℕ → ℕ) → ℕ → ℕ → ℕ → Dir → Outcome (Dir × Option ℕ)
list_blocks hd i_size size all_blocks zero block_idx pos dir = ok (dir, none)
list_blocks hd i_size size all_blocks (suc left) block_idx pos dir =
    let next =
      λ (d : Dir) (p : ℕ). list_blocks hd i_size size all_blocks left (block_idx + 1) p d in
    let look = (do
      sector ← ide_read hd (all_blocks block_idx) (λ i. if ltb i 512 then 0 else dir.dir_buf i) 1
      l ← list_sector sector dir.dir_pos size (512 / size) 0 pos
      after_sector dir size sector l (next (record dir { dir_buf = sector }))) in
    if leb i_size dir.dir_pos
    then ok (dir, none)
    else if all_blocks block_idx == 0
    then next dir pos
    else look

unfoldable pub dir_read : FileSystem → Dir → Outcome (Dir × Option ℕ)
dir_read fs dir =
    let n = fs.inode dir.inode in
    dir_blocks fs.my_disk n >>= (λ all_blocks.
      list_blocks fs.my_disk n.i_size fs.cur_part.sb.dir_entry_size all_blocks
        (if n.i_sectors 12 == 0 then 12 else 140) 0 0 dir)
