-- ===== src/Fs/Contents/Append.antt =====
-- What file_write puts to the disk and returns, where the bytes do not fill the last block.
use restore_the_operating_sy.Fs.Contents.Write.{written, write_loop-one_round}
use restore_the_operating_sy.Base.Word.{Returns-bind, Returns, sub_u32, u32}
use restore_the_operating_sy.Base.{
  ap, subst, le→leb, ne→==, eq→==, ◌*◌, ◌≢◌, le→ltb, ◌-◌, ◌^◌, refl, ◌+◌, arith, ◌/◌, ◌≤◌, ltb, ◌≡◌,
  ◌%◌, ◌<◌, ℕ, zero, suc, true, false, some,
}
use restore_the_operating_sy.String.{Memory}
use restore_the_operating_sy.Fs.{Partition, FileSystem, update}
use restore_the_operating_sy.Fs.Inodes.{inode_sync}
use restore_the_operating_sy.Fs.Inodes.Place.{IsMounted}
use restore_the_operating_sy.Fs.Inodes.Stored.{inode_sync-replaced}
use restore_the_operating_sy.Fs.Contents.{
  chunk, copy_in, write_loop, write_blocks, write_bytes, write_more, file_write,
}
use restore_the_operating_sy.Fs.Contents.Read.{chunk_whole}

-- A file that has a first block, and whose next `count` bytes leave at least a byte of the direct block b
-- in which it ends, which lies behind the inode table.
pub record FitsIn (fs : FileSystem) (slot b count : ℕ) : Type 0 where
  pub mounted : IsMounted fs
  pub some_bytes : 0 < count
  pub block : (fs.inode (fs.file_table slot).fd_inode).i_size / 512 ≡ b
  pub room : (fs.inode (fs.file_table slot).fd_inode).i_size % 512 + count < 512
  pub direct : b < 12
  pub begun : (fs.inode (fs.file_table slot).fd_inode).i_sectors 0 ≢ 0
  pub on_disk : (fs.inode (fs.file_table slot).fd_inode).i_sectors b < 163840
  pub behind :
      fs.cur_part.sb.inode_table_lba + 608 ≤ (fs.inode (fs.file_table slot).fd_inode).i_sectors b

-- The bytes stand at the end of the file that is open in the slot, with the inode a, which had `size`
-- bytes, in the block lba. The file has the blocks that it had.
abbrev pub Appended : ℕ → ℕ → (ℕ → ℕ) → ℕ → ℕ → Memory → ℕ → ℕ → FileSystem → Type 0
Appended slot a sectors lba size mem src count fs' =
    ((i : ℕ) → i < count → fs'.my_disk.bytes (lba * 512 + (size % 512 + i)) ≡ mem (src + i))
    × ((fs'.inode a).i_size ≡ size + count)
    × ((fs'.inode a).i_sectors ≡ sectors)
    × ((fs'.file_table slot).fd_inode ≡ a)
    × (fs'.my_disk.ready ≡ true)

written-Appended :
    (fs : FileSystem) (slot lba : ℕ) (mem : Memory) (src count : ℕ)
    → (fs.inode (fs.file_table slot).fd_inode).i_size % 512 + count < 512
    → (fs.inode (fs.file_table slot).fd_inode).i_size < 71680
    → fs.my_disk.ready ≡ true
    → Appended slot
        (fs.file_table slot).fd_inode
        (fs.inode (fs.file_table slot).fd_inode).i_sectors
        lba
        (fs.inode (fs.file_table slot).fd_inode).i_size
        mem
        src
        count
        (written fs slot lba mem src count)
unfolding copy_in
written-Appended fs slot lba mem src count room small ready =
    let n = fs.inode (fs.file_table slot).fd_inode in
    (
      (λ i lt.
          let at : lba * 512 + (n.i_size % 512 + i) - lba * 512 ≡ n.i_size % 512 + i =
            omega arith in
          let at' : n.i_size % 512 + i - n.i_size % 512 ≡ i = omega arith in ground arith),
      rw (eq→== (fs.file_table slot).fd_inode (fs.file_table slot).fd_inode refl) (omega arith),
      rw (eq→== (fs.file_table slot).fd_inode (fs.file_table slot).fd_inode refl) refl,
      rw (eq→== slot slot refl) refl,
      ready,
    )

-- Writing the inode back leaves the block as it is.
synced-Appended :
    (fs1 : FileSystem) (slot a : ℕ) (sectors : ℕ → ℕ) (lba size : ℕ) (mem : Memory) (src count : ℕ)
    → IsMounted fs1
    → fs1.cur_part.sb.inode_table_lba + 608 ≤ lba
    → Appended slot a sectors lba size mem src count fs1
    → Returns
        (Appended slot a sectors lba size mem src count)
        (inode_sync fs1 (fs1.inode a) (λ _. 0))
synced-Appended fs1 slot a sectors lba size mem src count mounted behind
      (bytes, grown, blocks, file, ready) =
    rw (inode_sync-replaced fs1 (fs1.inode a) (λ _. 0) mounted)
      ((λ i lt. ground (arith, bytes i lt)), grown, blocks, file, ready)

-- The blocks that file_write gathers for such bytes.
last_block : (fs : FileSystem) (slot b : ℕ) → ℕ → ℕ
last_block fs slot b = update (λ _. 0) b ((fs.inode (fs.file_table slot).fd_inode).i_sectors b)

file_write_gathers :
    (fs : FileSystem) (slot b count : ℕ) (mem : Memory) (src junk : ℕ)
    → FitsIn fs slot b count
    → file_write fs slot mem src count true junk
      ≡ write_bytes fs slot mem src count (fs, some (last_block fs slot b))
unfolding file_write write_more write_blocks last_block
file_write_gathers fs slot b count mem src junk h =
    let n = fs.inode (fs.file_table slot).fd_inode in
    let word : u32 (n.i_size + count) ≡ n.i_size + count =
      omega (arith, h.block, h.room, h.direct) in
    let small : ltb (512 * 140) (u32 (n.i_size + count)) ≡ false =
      le→ltb _ _ (omega (arith, word, h.block, h.room, h.direct)) in
    let after : u32 (n.i_size + count) / 512 + 1 ≡ b + 1 = omega (arith, word, h.block, h.room) in
    let before : n.i_size / 512 + 1 ≡ b + 1 = omega (arith, h.block) in
    let last : b + 1 - 1 ≡ b = omega arith in
    rw
      (
        small,
        ne→== (n.i_sectors 0) 0 h.begun,
        ne→== (n.i_sectors 0) 0 h.begun,
        after,
        before,
        eq→== (b + 1) (b + 1) refl,
        le→leb (b + 1) 140 (omega (arith, h.direct)),
        le→leb (b + 1) 12 (omega (arith, h.direct)),
        last,
      )
      refl

-- The loop, on a file whose inode is a.
abbrev Suits : FileSystem → ℕ → ℕ → ℕ → Type 0
Suits fs a b count =
    IsMounted fs
    × ((fs.inode a).i_size / 512 ≡ b)
    × ((fs.inode a).i_size % 512 + count < 512)
    × (b < 12)
    × ((fs.inode a).i_sectors b < 163840)

abbrev LoopDone : FileSystem → ℕ → ℕ → ℕ → Memory → ℕ → ℕ → FileSystem × ℕ → Type 0
LoopDone fs slot a b mem src count (fs1, w) =
    (w ≡ 2 ^ 32 - count)
    × IsMounted fs1
    × (fs1.cur_part ≡ fs.cur_part)
    × Appended slot a (fs.inode a).i_sectors ((fs.inode a).i_sectors b) (fs.inode a).i_size mem src
        count fs1

loop-LoopDone :
    (fs : FileSystem) (slot b c : ℕ) (mem : Memory) (src : ℕ)
    → Suits fs (fs.file_table slot).fd_inode b (suc c)
    → Returns (LoopDone fs slot (fs.file_table slot).fd_inode b mem src (suc c)) (
        write_loop
          (suc c)
          fs
          slot
          (update (λ _. 0) b ((fs.inode (fs.file_table slot).fd_inode).i_sectors b))
          mem
          src
          (suc c)
          0
          true)
loop-LoopDone fs slot b c mem src (m, block, room, direct, on_disk) =
    let n = fs.inode (fs.file_table slot).fd_inode in
    let blocks = update (λ _. 0) b (n.i_sectors b) in
    let lba : blocks (n.i_size / 512) ≡ n.i_sectors b = rw (block, eq→== b b refl) refl in
    let whole : chunk n.i_size (suc c) ≡ suc c = chunk_whole n.i_size (suc c) room in
    rw
      (
        write_loop-one_round c fs slot blocks mem src (suc c) m.ready (omega (arith, lba))
            (omega arith) (omega arith),
        lba,
        whole,
      )
      (
        refl,
        record { ready = m.ready; on_disk = m.on_disk; within = m.within; small = m.small },
        refl,
        written-Appended fs slot (n.i_sectors b) mem src (suc c) room (omega arith) m.ready,
      )

loop_of-LoopDone :
    (fs : FileSystem) (slot a b c : ℕ) (mem : Memory) (src : ℕ)
    → (fs.file_table slot).fd_inode ≡ a
    → Suits fs a b (suc c)
    → Returns (LoopDone fs slot a b mem src (suc c)) (
        write_loop
          (suc c)
          fs
          slot
          (update (λ _. 0) b ((fs.inode a).i_sectors b))
          mem
          src
          (suc c)
          0
          true)
loop_of-LoopDone fs slot a b c mem src e =
    subst
      (λ a'.
        Suits fs a' b (suc c)
        → Returns (LoopDone fs slot a' b mem src (suc c)) (
            write_loop (suc c) fs slot (update (λ _. 0) b ((fs.inode a').i_sectors b)) mem src
              (suc c) 0 true))
      e (loop-LoopDone fs slot b c mem src)

-- The loop and the inode behind it.
write_bytes-Appended :
    (fs : FileSystem) (slot b c : ℕ) (mem : Memory) (src : ℕ)
    → FitsIn fs slot b (suc c)
    → Returns
        (λ (fs', r).
          (r ≡ 2 ^ 32 - suc c)
          × Appended slot
              (fs.file_table slot).fd_inode
              (fs.inode (fs.file_table slot).fd_inode).i_sectors
              ((fs.inode (fs.file_table slot).fd_inode).i_sectors b)
              (fs.inode (fs.file_table slot).fd_inode).i_size
              mem
              src
              (suc c)
              fs')
        (write_bytes fs slot mem src (suc c) (fs, some (last_block fs slot b)))
unfolding write_bytes last_block
write_bytes-Appended fs slot b c mem src h =
    let file = fs.file_table slot in
    let n = fs.inode file.fd_inode in
    let lba = n.i_sectors b in
    let rewound : FileSystem = record fs {
      file_table = update fs.file_table slot (record file { fd_pos = sub_u32 n.i_size 1 });
    } in
    let same_file : (rewound.file_table slot).fd_inode ≡ file.fd_inode =
      rw (eq→== slot slot refl) refl in
    let mounted : IsMounted rewound = record {
      ready = h.mounted.ready;
      on_disk = h.mounted.on_disk;
      within = h.mounted.within;
      small = h.mounted.small;
    } in
    Returns-bind _ (write_loop (suc c) rewound slot (update (λ _. 0) b lba) mem src (suc c) 0 true)
      _
      (loop_of-LoopDone rewound slot file.fd_inode b c mem src same_file
        (mounted, h.block, h.room, h.direct, h.on_disk))
      λ (fs1, w) (negative, m1, same_part, appended).
        Returns-bind _ (inode_sync fs1 (fs1.inode file.fd_inode) (λ _. 0)) _
          (synced-Appended fs1 slot file.fd_inode n.i_sectors lba n.i_size mem src (suc c) m1
            (omega (arith, h.behind, ap (λ (p : Partition). p.sb.inode_table_lba) same_part))
            appended)
          λ fs2 q. (negative, q)

-- A file has a first block, its end lies in a direct block, and after some more bytes at least one byte
-- of that block is left; the drive answers, and the block lies behind the inode table. file_write of
-- these bytes writes them behind the file's end and adds their number to its size, but returns that
-- number as a negative one. The blocks of the file stay.
pub file_write-Appended :
    (fs : FileSystem) (slot b count : ℕ) (mem : Memory) (src junk : ℕ)
    → FitsIn fs slot b count
    → Returns
        (λ (fs', r).
          (r ≡ 2 ^ 32 - count)
          × Appended slot
              (fs.file_table slot).fd_inode
              (fs.inode (fs.file_table slot).fd_inode).i_sectors
              ((fs.inode (fs.file_table slot).fd_inode).i_sectors b)
              (fs.inode (fs.file_table slot).fd_inode).i_size
              mem
              src
              count
              fs')
        (file_write fs slot mem src count true junk)
file_write-Appended fs slot b zero mem src junk h = absurd (omega (arith, h.some_bytes))
file_write-Appended fs slot b (suc c) mem src junk h =
    rw (file_write_gathers fs slot b (suc c) mem src junk h)
      (write_bytes-Appended fs slot b c mem src h)
