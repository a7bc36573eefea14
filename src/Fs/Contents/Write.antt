-- ===== src/Fs/Contents/Write.antt =====
-- The loop of file_write goes round once.
use restore_the_operating_sy.Base.Word.{sub_u32, ok, u32}
use restore_the_operating_sy.Base.{
  lt→ltb, le→ltb, ◌-◌, ◌^◌, refl, ◌+◌, arith, ◌/◌, ◌≤◌, ltb, ◌≡◌, ◌%◌, ◌<◌, Bool, ℕ, zero, suc,
  true, false,
}
use restore_the_operating_sy.Disk.Transfer.{fetched, stored, ide_read-fetched, ide_write-stored}
use restore_the_operating_sy.String.{Memory}
use restore_the_operating_sy.Fs.{FileSystem, update}
use restore_the_operating_sy.Fs.Contents.{chunk, copy_in, write_loop}

write_loop_stops :
    (fuel : ℕ) (fs : FileSystem) (slot : ℕ) (all_blocks : ℕ → ℕ) (mem : Memory) (src count w : ℕ)
    (first : Bool)
    → ltb w count ≡ false
    → write_loop fuel fs slot all_blocks mem src count w first ≡ ok (fs, w)
unfolding write_loop
write_loop_stops zero fs slot all_blocks mem src count w first e = rw e refl
write_loop_stops (suc fuel) fs slot all_blocks mem src count w first e = rw e refl

chunk_bounds : (pos n : ℕ) → 0 < n → (0 < chunk pos n) × (chunk pos n ≤ 512) × (chunk pos n ≤ n)
unfolding chunk
chunk_bounds pos n lt = ground arith

-- The file system after a round of the loop: `size` bytes from src on stand behind the end of the
-- file, in the block lba.
abbrev pub written : FileSystem → ℕ → ℕ → Memory → ℕ → ℕ → FileSystem
written fs slot lba mem src size =
    let file = fs.file_table slot in
    let n = fs.inode file.fd_inode in
    record fs {
      my_disk =
          stored fs.my_disk lba
            (copy_in (fetched fs.my_disk lba (λ _. 0) 0 1) (n.i_size % 512) mem src size) 0 1;
      inode = update fs.inode file.fd_inode (record n { i_size = u32 (n.i_size + size) });
      file_table = update fs.file_table slot (record file { fd_pos = u32 (file.fd_pos + size) });
    }

pub write_loop-one_round :
    (fuel : ℕ) (fs : FileSystem) (slot : ℕ) (all_blocks : ℕ → ℕ) (mem : Memory) (src count : ℕ)
    → fs.my_disk.ready ≡ true
    → all_blocks ((fs.inode (fs.file_table slot).fd_inode).i_size / 512) < 163840
    → 0 < count
    → count ≤ 71680
    → write_loop (suc fuel) fs slot all_blocks mem src count 0 true
      ≡ ok (
        written fs slot
            (all_blocks ((fs.inode (fs.file_table slot).fd_inode).i_size / 512))
            mem
            src
            (chunk (fs.inode (fs.file_table slot).fd_inode).i_size count),
        2 ^ 32 - chunk (fs.inode (fs.file_table slot).fd_inode).i_size count,
      )
unfolding write_loop
write_loop-one_round fuel fs slot all_blocks mem src count ready on_disk some_bytes small =
    let n = fs.inode (fs.file_table slot).fd_inode in
    let lba = all_blocks (n.i_size / 512) in
    let size = chunk n.i_size count in
    let (pos, less, within) = chunk_bounds n.i_size count some_bytes in
    let negative : sub_u32 0 size ≡ 2 ^ 32 - size = omega arith in
    let stops : ltb (2 ^ 32 - size) count ≡ false = le→ltb _ _ (omega arith) in
    rw
      (
        lt→ltb 0 count some_bytes,
        ide_read-fetched fs.my_disk lba (λ _. 0) 1 ready (omega arith) (omega arith),
        ide_write-stored fs.my_disk lba
            (copy_in (fetched fs.my_disk lba (λ _. 0) 0 1) (n.i_size % 512) mem src size) 1 ready
            (omega arith) (omega arith),
        negative,
      )
      (write_loop_stops fuel (written fs slot lba mem src size) slot all_blocks mem (src + size)
        count (2 ^ 32 - size) false stops)
