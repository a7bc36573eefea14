-- ===== src/Fs/Contents.antt =====
-- The contents of files: file_read and file_write of workshop/fs/file.c.
--
-- The caller's buffer is memory, from an address on. sys_malloc clears the memory that it gives;
-- where the code tests for a NULL pointer, whether there is memory is an argument. The block
-- addresses that file_read and file_write gather in all_blocks are 0 where nothing was stored.
pub mod Read
pub mod Write
pub mod Append
pub mod Straddle
pub mod RoundTrip
mod Tests
use restore_the_operating_sy.Base.Word.{
  minus_one, hang, ◌>>◌, sub_u32, u32, ok, assert, ◌>>=◌, Outcome,
}
use restore_the_operating_sy.Base.{
  ◌||◌, ◌*◌, not, ◌&&◌, ltb, ◌/◌, ◌==◌, ◌%◌, leb, Option, ◌-◌, if◌then◌else◌, ◌+◌, Bool, ℕ, zero,
  suc, true, false, some, none,
}
use restore_the_operating_sy.Disk.{Drive, Buffer, ide_read, ide_write}
use restore_the_operating_sy.String.{Memory}
use restore_the_operating_sy.Fs.{Inode, File, FileSystem, update, set_inode, set_sector}
use restore_the_operating_sy.Fs.Bitmaps.{block_map, bitmap_sync, block_bitmap_alloc, set_part}
use restore_the_operating_sy.Fs.Inodes.{load_word, inode_sync}
use restore_the_operating_sy.Fs.Dirs.Insert.{table_bytes}

abbrev pub block_size : ℕ
block_size = 512

-- The table of the indirect blocks, read to all_blocks + 12.
unfoldable pub read_table : Drive → ℕ → (ℕ → ℕ) → Outcome (ℕ → ℕ)
read_table hd lba all_blocks = ide_read hd lba (λ _. 0) 1 >>= (λ table.
    ok (λ i. if leb 12 i && ltb i 140 then load_word table ((i - 12) * 4) else all_blocks i))

-- `left` entries of all_blocks from idx on, from i_sectors with the index that `at` gives.
unfoldable pub gather : Inode → (ℕ → ℕ) → ℕ → ℕ → (ℕ → ℕ) → ℕ → ℕ
gather n at zero idx all_blocks = all_blocks
gather n at (suc left) idx all_blocks =
    gather n at left (idx + 1) (update all_blocks idx (n.i_sectors (at idx)))

-- The blocks of file_read, from block start to block end.
unfoldable pub read_blocks : Drive → Inode → ℕ → ℕ → Outcome (ℕ → ℕ)
read_blocks hd n start end =
    let direct : ℕ → ℕ = gather n (λ i. i) 1 end (λ _. 0) in
    let mixed : Outcome (ℕ → ℕ) =
      assert (not (n.i_sectors 12 == 0))
      >> read_table hd (n.i_sectors 12) (gather n (λ _. 12) (12 - start) start (λ _. 0)) in
    if sub_u32 start end == 0
    then assert (end == start)
      >> (if ltb end 12 then ok direct else read_table hd (n.i_sectors 12) (λ _. 0))
    else if ltb end 12
    then ok direct
    else if ltb start 12 && ltb 12 end
    then mixed
    else ok (λ _. 0)

-- memcpy of `size` bytes of a buffer from `off` on to memory.
unfoldable pub copy_out : Memory → ℕ → Buffer → ℕ → ℕ → Memory
copy_out m dst buf off size a =
    if leb dst a && ltb a (dst + size) then buf (off + (a - dst)) else m a

-- The bytes of a round, of those that are left.
unfoldable pub chunk : ℕ → ℕ → ℕ
chunk pos size_left =
    let sec_left_bytes = block_size - pos % block_size in
    if ltb size_left sec_left_bytes then size_left else sec_left_bytes

-- The loop of file_read, with `size_left` bytes to go. buf_dst points to uint32_t, so that it moves by
-- four bytes for each that was copied. A round copies a byte at least; the fuel is for the rounds.
unfoldable pub read_loop : ℕ → Drive → (ℕ → ℕ) → Memory → ℕ → ℕ → ℕ → Outcome (Memory × ℕ)
read_loop zero hd all_blocks mem buf_dst pos size_left =
    if size_left == 0 then ok (mem, pos) else hang
read_loop (suc fuel) hd all_blocks mem buf_dst pos size_left =
    let size = chunk pos size_left in
    let round = (do
      io_buf ← ide_read hd (all_blocks (pos / block_size)) (λ _. 0) 1
      read_loop fuel hd all_blocks (copy_out mem buf_dst io_buf (pos % block_size) size)
          (buf_dst + 4 * size) (pos + size) (size_left - size)) in
    if size_left == 0 then ok (mem, pos) else round

-- file_read behind the allocation of its buffers.
unfoldable pub read_bytes : FileSystem → ℕ → Memory → ℕ → ℕ → Outcome (FileSystem × Memory × ℕ)
read_bytes fs slot mem buf size =
    let file = fs.file_table slot in
    let start = file.fd_pos / block_size in
    let end = u32 (file.fd_pos + size) / block_size in
    do
      assert (ltb start 139 && ltb end 139)
      all_blocks ← read_blocks fs.my_disk (fs.inode file.fd_inode) start end
      (mem', pos) ← read_loop size fs.my_disk all_blocks mem buf file.fd_pos size
      ok (
        record fs { file_table = update fs.file_table slot (record file { fd_pos = pos }) },
        mem',
        size,
      )

-- A slot of the file table, and whether there is memory for all_blocks; io_buf is not tested.
unfoldable pub file_read :
    FileSystem → ℕ → Memory → ℕ → ℕ → Bool → Outcome (FileSystem × Memory × ℕ)
file_read fs slot mem buf count got =
    let file = fs.file_table slot in
    let i_size = (fs.inode file.fd_inode).i_size in
    let past = ltb i_size (u32 (file.fd_pos + count)) in
    let size = if past then sub_u32 i_size file.fd_pos else count in
    if past && (size == 0)
    then ok (fs, mem, minus_one)
    else if not got
    then ok (fs, mem, minus_one)
    else read_bytes fs slot mem buf size

-- block_bitmap_alloc, with the bitmap written to the disk; none stands for -1.
unfoldable pub alloc_block : FileSystem → Bool → Outcome (FileSystem × Option ℕ)
alloc_block fs asserted = do
  (part, lba) ← block_bitmap_alloc fs.cur_part
  let fs1 = set_part fs part
  let idx = sub_u32 lba part.sb.data_start_lba
  let synced : Outcome (FileSystem × Option ℕ) =
      assert (not asserted || ltb 0 idx)
      >> (bitmap_sync fs1 part idx block_map >>= (λ fs2. ok (fs2, some lba)))
  if lba == minus_one then ok (fs1, none) else synced

-- A new block for index idx: the direct ones go to i_sectors too. The source asserts that there was
-- none, in the cases where `fresh` says so.
unfoldable pub place_block :
    ℕ
    → Bool
    → (ℕ → ℕ)
    → ℕ
    → FileSystem × Option ℕ
    → (FileSystem → (ℕ → ℕ) → Outcome (FileSystem × Option (ℕ → ℕ)))
    → Outcome (FileSystem × Option (ℕ → ℕ))
place_block a fresh all_blocks idx (fs, none) rest = ok (fs, none)
place_block a fresh all_blocks idx (fs, some lba) rest =
    let all' = update all_blocks idx lba in
    if fresh && ltb idx 12
    then assert ((fs.inode a).i_sectors idx == 0) >> rest (set_sector fs a idx lba) all'
    else rest fs all'

-- The loops that allocate `left` blocks from idx on.
unfoldable pub grow_blocks :
    ℕ → Bool → ℕ → ℕ → FileSystem → (ℕ → ℕ) → Outcome (FileSystem × Option (ℕ → ℕ))
grow_blocks a fresh zero idx fs all_blocks = ok (fs, some all_blocks)
grow_blocks a fresh (suc left) idx fs all_blocks =
    alloc_block fs false
    >>= (λ r. place_block a fresh all_blocks idx r (grow_blocks a fresh left (idx + 1)))

-- The table of the indirect blocks is written back.
unfoldable pub write_table : ℕ → FileSystem × Option (ℕ → ℕ) → Outcome (FileSystem × Option (ℕ → ℕ))
write_table lba (fs, none) = ok (fs, none)
write_table lba (fs, some all_blocks) =
    ide_write fs.my_disk lba (table_bytes all_blocks) 1
    >>= (λ hd. ok (record fs { my_disk = hd }, some all_blocks))

-- The second case: the table itself is allocated first.
unfoldable pub with_table :
    ℕ → ℕ → ℕ → (ℕ → ℕ) → FileSystem × Option ℕ → Outcome (FileSystem × Option (ℕ → ℕ))
with_table a used will all_blocks (fs, none) = ok (fs, none)
with_table a used will all_blocks (fs, some lba) =
    assert ((fs.inode a).i_sectors 12 == 0)
    >> (grow_blocks a true (will - used) used (set_sector fs a 12 lba) all_blocks
        >>= write_table lba)

-- The blocks of file_write, of which the file has `used` and will use `will`. In the second case the
-- source reads an index that it has not set: `junk`.
unfoldable pub write_blocks : FileSystem → ℕ → ℕ → ℕ → ℕ → Outcome (FileSystem × Option (ℕ → ℕ))
write_blocks fs a used will junk =
    let n = fs.inode a in
    let last : ℕ → ℕ = update (λ _. 0) (used - 1) (n.i_sectors (used - 1)) in
    let table = n.i_sectors 12 in
    let same : Outcome (FileSystem × Option (ℕ → ℕ)) =
      if leb will 12
      then ok (fs, some last)
      else assert (not (table == 0))
        >> (read_table fs.my_disk table (λ _. 0) >>= (λ all_blocks. ok (fs, some all_blocks))) in
    let direct : Outcome (FileSystem × Option (ℕ → ℕ)) =
      assert (not (n.i_sectors (used - 1) == 0)) >> grow_blocks a true (will - used) used fs last in
    -- The block of the table is not written to the bitmap on the disk.
    let mixed : Outcome (FileSystem × Option (ℕ → ℕ)) = (do
      (part, lba) ← block_bitmap_alloc fs.cur_part
      with_table a used will (update (λ _. 0) junk (n.i_sectors junk))
          (set_part fs part, if lba == minus_one then none else some lba)) in
    let indirect : Outcome (FileSystem × Option (ℕ → ℕ)) =
      assert (not (table == 0))
      >> (read_table fs.my_disk table (λ _. 0) >>= (λ all_blocks.
          grow_blocks a false (will - used) used fs all_blocks >>= write_table table)) in
    if will == used
    then same
    else if leb will 12
    then direct
    else if leb used 12
    then mixed
    else indirect

-- memcpy of `size` bytes from memory to a buffer, from `off` on.
unfoldable pub copy_in : Buffer → ℕ → Memory → ℕ → ℕ → Buffer
copy_in buf off m src size i =
    if leb off i && ltb i (off + size) then m (src + (i - off)) else buf i

-- The loop of file_write. bytes_written goes down by what was written, as a uint32_t, and size_left
-- stays as it is.
unfoldable pub write_loop :
    ℕ → FileSystem → ℕ → (ℕ → ℕ) → Memory → ℕ → ℕ → ℕ → Bool → Outcome (FileSystem × ℕ)
write_loop zero fs slot all_blocks mem src count bytes_written first =
    if ltb bytes_written count then hang else ok (fs, bytes_written)
write_loop (suc fuel) fs slot all_blocks mem src count bytes_written first =
    let file = fs.file_table slot in
    let a = file.fd_inode in
    let n = fs.inode a in
    let lba = all_blocks (n.i_size / block_size) in
    let size = chunk n.i_size count in
    let round = (do
      io_buf ← if first then ide_read fs.my_disk lba (λ _. 0) 1 else ok (λ _. 0)
      hd ← ide_write fs.my_disk lba (copy_in io_buf (n.i_size % block_size) mem src size) 1
      let fs1 =
          set_inode (record fs { my_disk = hd }) a (record n { i_size = u32 (n.i_size + size) })
      let fs2 : FileSystem = record fs1 {
        file_table = update fs.file_table slot (record file { fd_pos = u32 (file.fd_pos + size) });
      }
      write_loop fuel fs2 slot all_blocks mem (src + size) count (sub_u32 bytes_written size)
          false) in
    if ltb bytes_written count then round else ok (fs, bytes_written)

-- file_write once the blocks are there.
unfoldable pub write_bytes :
    FileSystem → ℕ → Memory → ℕ → ℕ → FileSystem × Option (ℕ → ℕ) → Outcome (FileSystem × ℕ)
write_bytes fs0 slot mem buf count (fs, none) = ok (fs, minus_one)
write_bytes fs0 slot mem buf count (fs, some all_blocks) =
    let file = fs.file_table slot in
    let i_size = (fs.inode file.fd_inode).i_size in
    let rewound : FileSystem = record fs {
      file_table = update fs.file_table slot (record file { fd_pos = sub_u32 i_size 1 });
    } in
    do
      (fs1, bytes_written) ← write_loop count rewound slot all_blocks mem buf count 0 true
      fs2 ← inode_sync fs1 (fs1.inode file.fd_inode) (λ _. 0)
      ok (fs2, bytes_written)

-- file_write behind the allocation of the first block.
unfoldable pub write_more :
    ℕ → Memory → ℕ → ℕ → ℕ → FileSystem × Option ℕ → Outcome (FileSystem × ℕ)
write_more slot mem buf count junk (fs, none) = ok (fs, minus_one)
write_more slot mem buf count junk (fs, some lba) =
    let a = (fs.file_table slot).fd_inode in
    let fs1 = if (fs.inode a).i_sectors 0 == 0 then set_sector fs a 0 lba else fs in
    let i_size = (fs1.inode a).i_size in
    let used = i_size / block_size + 1 in
    let will = u32 (i_size + count) / block_size + 1 in
    assert (leb will 140)
    >> (write_blocks fs1 a used will junk >>= write_bytes fs1 slot mem buf count)

-- `got` says whether there is memory for io_buf and all_blocks.
unfoldable pub file_write : FileSystem → ℕ → Memory → ℕ → ℕ → Bool → ℕ → Outcome (FileSystem × ℕ)
file_write fs slot mem buf count got junk =
    let n = fs.inode (fs.file_table slot).fd_inode in
    if ltb (block_size * 140) (u32 (n.i_size + count)) || not got
    then ok (fs, minus_one)
    else (if n.i_sectors 0 == 0 then alloc_block fs true else ok (fs, some 0))
      >>= write_more slot mem buf count junk
