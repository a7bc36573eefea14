-- ===== src/Fs/Inodes.antt =====
-- workshop/fs/inode.c: inodes on the disk and in memory.
--
-- An inode takes 76 bytes on the disk, 19 words with the lowest byte first: i_no, i_size,
-- i_open_cnts, write_deny, the 13 i_sectors, and the two pointers of its list node, which are written
-- as 0 and not read.
pub mod Place
pub mod Stored
pub mod Fetch
pub mod Release
pub mod RoundTrip
mod Tests
use restore_the_operating_sy.Base.{
  ℕ, zero, suc, ◌+◌, ◌-◌, ◌*◌, ◌/◌, ◌%◌, Bool, false, not, ◌&&◌, Option, none, some, List, [], ◌∷◌,
  if◌then◌else◌, ◌==◌, ltb, leb,
}
use restore_the_operating_sy.Base.Word.{u32, sub_u32, Outcome, ok, ◌>>=◌, ◌>>◌, assert}
use restore_the_operating_sy.Bitmap.{bitmap_set}
use restore_the_operating_sy.Disk.{Drive, Buffer, ide_read, ide_write}
use restore_the_operating_sy.Fs.{Inode, Partition, FileSystem, update}
use restore_the_operating_sy.Fs.Bitmaps.{inode_map, block_map, bitmap_sync}

abbrev pub sizeof_inode : ℕ
sizeof_inode = 76

abbrev pub byte_of_word : ℕ → ℕ → ℕ
byte_of_word w r =
    if r == 0
    then w % 256
    else if r == 1
    then w / 256 % 256
    else if r == 2
    then w / 65536 % 256
    else w / 16777216 % 256

abbrev pub load_word : Buffer → ℕ → ℕ
load_word buf o = buf o + 256 * buf (o + 1) + 65536 * buf (o + 2) + 16777216 * buf (o + 3)

unfoldable pub inode_word : Inode → ℕ → ℕ
inode_word n k =
    if k == 0
    then n.i_no
    else if k == 1
    then n.i_size
    else if k == 2
    then n.i_open_cnts
    else if k == 3
    then if n.write_deny then 1 else 0
    else if ltb k 17
    then n.i_sectors (k - 4)
    else 0

-- memcpy of an inode to the buffer at `off`.
unfoldable pub store_inode : Inode → ℕ → Buffer → Buffer
store_inode n off buf i =
    if leb off i && ltb i (off + sizeof_inode)
    then byte_of_word (inode_word n ((i - off) / 4)) ((i - off) % 4)
    else buf i

-- memcpy of an inode from the buffer at `off`.
unfoldable pub load_inode : Buffer → ℕ → Inode
load_inode buf off = record {
  i_no = load_word buf off;
  i_size = load_word buf (off + 4);
  i_open_cnts = load_word buf (off + 8);
  write_deny = not (load_word buf (off + 12) == 0);
  i_sectors = λ k. load_word buf (off + (k + 4) * 4);
}

-- `struct inode_position`
pub record InodePosition : Type 0 where
  pub two_sec : Bool
  pub sec_lba : ℕ
  pub off_size : ℕ

unfoldable pub inode_locate : Partition → ℕ → Outcome InodePosition
inode_locate part inode_no =
    let off_size = inode_no * sizeof_inode in
    let off_size_in_sec = off_size % 512 in
    assert (ltb inode_no 4096)
    >> ok (record {
      two_sec = ltb (512 - off_size_in_sec) sizeof_inode;
      sec_lba = u32 (part.sb.inode_table_lba + off_size / 512);
      off_size = off_size_in_sec;
    })

-- ide_read, a change of the buffer, and ide_write back.
unfoldable pub change_sectors : Drive → ℕ → ℕ → (Buffer → Buffer) → Buffer → Outcome Drive
change_sectors hd lba n change io_buf = do
  inode_buf ← ide_read hd lba io_buf n
  ide_write hd lba (change inode_buf) n

-- The inode as inode_sync writes it.
unfoldable pub pure_inode : Inode → Inode
pure_inode n = record n { i_open_cnts = 0; write_deny = false }

-- `inode_no` is a uint8_t.
unfoldable pub inode_sync : FileSystem → Inode → Buffer → Outcome FileSystem
inode_sync fs n io_buf =
    let part = fs.cur_part in
    let inode_no = n.i_no % 256 in
    do
      inode_pos ← inode_locate part inode_no
      assert (leb inode_pos.sec_lba (u32 (part.start_lba + part.sec_cnt)))
      let change = store_inode (pure_inode n) inode_pos.off_size
      hd ←
          if inode_pos.two_sec
          then change_sectors fs.my_disk inode_pos.sec_lba 2 change io_buf
          else change_sectors fs.my_disk inode_pos.sec_lba 1 change io_buf
      ok (record fs { my_disk = hd })

-- The loop over the open inodes.
unfoldable pub find_open : (ℕ → Inode) → List ℕ → ℕ → Option ℕ
find_open inode [] inode_no = none
find_open inode (a ∷ others) inode_no =
    if (inode a).i_no == inode_no then some a else find_open inode others inode_no

-- The part of inode_open behind the loop, `addr` being what sys_malloc gives to the inode.
unfoldable pub inode_fetch : FileSystem → ℕ → ℕ → Outcome (FileSystem × ℕ)
inode_fetch fs inode_no addr = do
  inode_pos ← inode_locate fs.cur_part inode_no
  inode_buf ←
      if inode_pos.two_sec
      then ide_read fs.my_disk inode_pos.sec_lba (λ _. 0) 2
      else ide_read fs.my_disk inode_pos.sec_lba (λ _. 0) 1
  ok (
    record fs {
      inode =
          update fs.inode addr
            (record (load_inode inode_buf inode_pos.off_size) { i_open_cnts = 1 });
      cur_part = record fs.cur_part { open_inodes = addr ∷ fs.cur_part.open_inodes };
    },
    addr,
  )

-- inode_open, once the open inodes have been searched.
unfoldable pub open_found : FileSystem → ℕ → ℕ → Option ℕ → Outcome (FileSystem × ℕ)
open_found fs inode_no addr (some a) = ok (
  record fs {
    inode =
        update fs.inode a
          (record (fs.inode a) { i_open_cnts = u32 ((fs.inode a).i_open_cnts + 1) });
  },
  a,
)
open_found fs inode_no addr none = inode_fetch fs inode_no addr

unfoldable pub inode_open : FileSystem → ℕ → ℕ → Outcome (FileSystem × ℕ)
unfolding open_found
inode_open fs inode_no addr =
    open_found fs inode_no addr (find_open fs.inode fs.cur_part.open_inodes inode_no)

-- list_remove of a node from the list of open inodes.
unfoldable pub unlink : ℕ → List ℕ → List ℕ
unlink a [] = []
unlink a (b ∷ bs) = if b == a then bs else b ∷ unlink a bs

unfoldable pub inode_close : FileSystem → ℕ → FileSystem
inode_close fs a =
    let cnts = sub_u32 (fs.inode a).i_open_cnts 1 in
    let fs' : FileSystem = record fs {
      inode = update fs.inode a (record (fs.inode a) { i_open_cnts = cnts });
    } in
    if cnts == 0
    then record fs' {
      cur_part = record fs.cur_part { open_inodes = unlink a fs.cur_part.open_inodes };
    }
    else fs'

-- memset of an inode's place in the buffer.
unfoldable pub clear_inode : ℕ → Buffer → Buffer
clear_inode off buf i = if leb off i && ltb i (off + sizeof_inode) then 0 else buf i

unfoldable pub inode_delete : FileSystem → ℕ → Buffer → Outcome FileSystem
inode_delete fs inode_no io_buf = do
  assert (ltb inode_no 4096)
  inode_pos ← inode_locate fs.cur_part inode_no
  hd ←
      if inode_pos.two_sec
      then change_sectors fs.my_disk inode_pos.sec_lba 2 (clear_inode inode_pos.off_size) io_buf
      else change_sectors fs.my_disk inode_pos.sec_lba 1 (clear_inode inode_pos.off_size) io_buf
  ok (record fs { my_disk = hd })

-- The bit of a block in the block bitmap is cleared, on the disk too.
unfoldable pub free_block : FileSystem → ℕ → Outcome FileSystem
free_block fs lba =
    let part = fs.cur_part in
    let block_bitmap_idx = sub_u32 lba part.sb.data_start_lba in
    do
      assert (ltb 0 block_bitmap_idx)
      b ← bitmap_set part.block_bitmap block_bitmap_idx 0
      let part' : Partition = record part { block_bitmap = b }
      bitmap_sync (record fs { cur_part = part' }) part' block_bitmap_idx block_map

-- The loop that frees the blocks of `all_blocks` from block_idx on.
unfoldable pub free_blocks : ℕ → FileSystem → (ℕ → ℕ) → ℕ → Outcome FileSystem
free_blocks zero fs all_blocks block_idx = ok fs
free_blocks (suc left) fs all_blocks block_idx = do
  fs' ← if all_blocks block_idx == 0 then ok fs else free_block fs (all_blocks block_idx)
  free_blocks left fs' all_blocks (block_idx + 1)

-- The blocks of an inode and their number, once the table of indirect blocks is read and its own
-- block freed.
unfoldable pub collect_blocks : FileSystem → Inode → Outcome (FileSystem × (ℕ → ℕ) × ℕ)
collect_blocks fs n =
    if n.i_sectors 12 == 0
    then ok (fs, (λ i. if ltb i 12 then n.i_sectors i else 0), 12)
    else ide_read fs.my_disk (n.i_sectors 12) (λ _. 0) 1 >>= (λ table.
      free_block fs (n.i_sectors 12) >>= (λ fs'.
        ok (fs', (λ i. if ltb i 12 then n.i_sectors i else load_word table ((i - 12) * 4)), 140)))

unfoldable pub inode_release : FileSystem → ℕ → ℕ → Outcome FileSystem
inode_release fs inode_no addr = do
  (fs1, a) ← inode_open fs inode_no addr
  assert ((fs1.inode a).i_no == inode_no)
  (fs2, all_blocks, block_cnt) ← collect_blocks fs1 (fs1.inode a)
  fs3 ← free_blocks block_cnt fs2 all_blocks 0
  b ← bitmap_set fs3.cur_part.inode_bitmap inode_no 0
  let part : Partition = record fs3.cur_part { inode_bitmap = b }
  fs4 ← bitmap_sync (record fs3 { cur_part = part }) part inode_no inode_map
  fs5 ← inode_delete fs4 inode_no (λ _. 0)
  ok (inode_close fs5 a)

unfoldable pub inode_init : ℕ → Inode → Inode
inode_init inode_no new_inode = record new_inode {
  i_no = inode_no;
  i_size = 0;
  i_open_cnts = 0;
  write_deny = false;
  i_sectors = λ i. if ltb i 13 then 0 else new_inode.i_sectors i;
}
