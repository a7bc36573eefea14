-- ===== src/Fs/Contents/Read.antt =====
-- What file_read puts to memory.
use restore_the_operating_sy.Base.Word.{Returns, sub_u32, assert_passes, u32, ok}
use restore_the_operating_sy.Base.{
  ◌∙◌, leb, lt→ltb, if◌then◌else◌, eq→==, ap, ◌&&◌, le→ltb, ne→==, ltb, ◌-◌, arith, ◌%◌, ◌*◌, ◌≢◌,
  refl, ◌≤◌, ◌<◌, ◌/◌, ◌+◌, ◌≡◌, ℕ, zero, suc, true, false,
}
use restore_the_operating_sy.Disk.{Drive}
use restore_the_operating_sy.Disk.Transfer.{fetched, ide_read-fetched}
use restore_the_operating_sy.String.{Memory}
use restore_the_operating_sy.Fs.{Inode, FileSystem, update}
use restore_the_operating_sy.Fs.Contents.{
  gather, read_blocks, copy_out, chunk, read_loop, read_bytes, file_read,
}

pub read_loop_done :
    (fuel : ℕ) (hd : Drive) (all_blocks : ℕ → ℕ) (mem : Memory) (dst pos : ℕ)
    → read_loop fuel hd all_blocks mem dst pos 0 ≡ ok (mem, pos)
unfolding read_loop
read_loop_done zero hd all_blocks mem dst pos = refl
read_loop_done (suc fuel) hd all_blocks mem dst pos = refl

-- One round.
pub read_loop_round :
    (fuel : ℕ) (hd : Drive) (all_blocks : ℕ → ℕ) (mem : Memory) (dst pos left : ℕ)
    → hd.ready ≡ true
    → all_blocks (pos / 512) < 163840
    → left ≢ 0
    → read_loop (suc fuel) hd all_blocks mem dst pos left
      ≡ read_loop fuel hd all_blocks
          (copy_out mem dst
            (fetched hd (all_blocks (pos / 512)) (λ _. 0) 0 1)
            (pos % 512)
            (chunk pos left))
          (dst + 4 * chunk pos left)
          (pos + chunk pos left)
          (left - chunk pos left)
unfolding read_loop
read_loop_round fuel hd all_blocks mem dst pos left ready small ne =
    rw
      (
        ne→== left 0 ne,
        ide_read-fetched hd (all_blocks (pos / 512)) (λ _. 0) 1 ready (omega arith) (omega arith),
      )
      refl

-- An open file on a drive that answers.
pub record IsOpen (fs : FileSystem) (slot : ℕ) (n : Inode) (pos : ℕ) : Type 0 where
  pub ready : fs.my_disk.ready ≡ true
  pub inode : fs.inode (fs.file_table slot).fd_inode ≡ n
  pub at : (fs.file_table slot).fd_pos ≡ pos
  pub small : n.i_size < 512 * 139
  pub on_disk : (k : ℕ) → k < 12 → n.i_sectors k < 163840

-- file_read of bytes that the file has, behind its tests.
pub read_bytes_of_file :
    (fs : FileSystem) (slot : ℕ) (n : Inode) (pos count : ℕ) (mem : Memory) (buf : ℕ)
    → IsOpen fs slot n pos
    → pos + count ≤ n.i_size
    → file_read fs slot mem buf count true ≡ read_bytes fs slot mem buf count
unfolding file_read
read_bytes_of_file fs slot n pos count mem buf h fits =
    let word : u32 ((fs.file_table slot).fd_pos + count) ≡ pos + count =
      omega (arith, h.at, h.small) in
    let within : ltb (fs.inode (fs.file_table slot).fd_inode).i_size
          (u32 ((fs.file_table slot).fd_pos + count))
        ≡ false =
      le→ltb _ _ (omega (arith, word, ap (λ (m : Inode). m.i_size) h.inode)) in
    rw within refl

pub read_bytes_lem :
    (fs : FileSystem) (slot : ℕ) (n : Inode) (pos count : ℕ) (mem : Memory) (buf : ℕ)
    (all_blocks : ℕ → ℕ) (mem' : Memory)
    → IsOpen fs slot n pos
    → pos + count ≤ n.i_size
    → read_blocks fs.my_disk n (pos / 512) ((pos + count) / 512) ≡ ok all_blocks
    → read_loop count fs.my_disk all_blocks mem buf pos count ≡ ok (mem', pos + count)
    → read_bytes fs slot mem buf count
      ≡ ok (
        record fs {
          file_table =
              update fs.file_table slot (record (fs.file_table slot) { fd_pos = pos + count });
        },
        mem',
        count,
      )
unfolding read_bytes
read_bytes_lem fs slot n pos count mem buf all_blocks mem' h fits blocks loop =
    let word : u32 (pos + count) ≡ pos + count = omega (arith, h.small) in
    let low : (ltb (pos / 512) 139 && ltb ((pos + count) / 512) 139) ≡ true =
      ground (arith, h.small) in
    simp (h.at, h.inode, word, blocks, loop) (assert_passes _ low)

-- A round takes all that is left, or the rest of the block.
pub chunk_whole : (pos n : ℕ) → pos % 512 + n < 512 → chunk pos n ≡ n
unfolding chunk
chunk_whole pos n lt = ground arith

pub chunk_part : (pos n : ℕ) → 512 ≤ pos % 512 + n → chunk pos n ≡ 512 - pos % 512
unfolding chunk
chunk_part pos n le = ground arith

pub copied :
    (hd : Drive) (lba : ℕ) (mem : Memory) (dst off size a : ℕ)
    → off + size ≤ 512
    → copy_out mem dst (fetched hd lba (λ _. 0) 0 1) off size a ≡ (
        if leb dst a && ltb a (dst + size) then hd.bytes (lba * 512 + (off + (a - dst))) else mem a)
unfolding copy_out
copied hd lba mem dst off size a le = ground arith

-- The file system after a read.
abbrev pub moved : FileSystem → ℕ → ℕ → FileSystem
moved fs slot pos = record fs {
  file_table = update fs.file_table slot (record (fs.file_table slot) { fd_pos = pos });
}

one_block :
    (hd : Drive) (n : Inode) (b : ℕ)
    → b < 12
    → read_blocks hd n b b ≡ ok (update (λ _. 0) b (n.i_sectors b))
unfolding read_blocks gather
one_block hd n b lt =
    let none_between : sub_u32 b b ≡ 0 = omega arith in
    rw (none_between, eq→== b b refl, lt→ltb b 12 lt) refl

-- The bytes of a file from pos on, all in one direct block, and not up to its end, are put to buf, and
-- no other byte of memory is changed; the position moves behind them.
pub file_read-in_block :
    (fs : FileSystem) (slot : ℕ) (n : Inode) (pos count : ℕ) (mem : Memory) (buf : ℕ)
    → IsOpen fs slot n pos
    → 0 < count
    → pos + count ≤ n.i_size
    → pos % 512 + count < 512
    → pos / 512 < 12
    → Returns
        (λ (fs', mem', size).
          (fs' ≡ moved fs slot (pos + count))
          × (size ≡ count)
          × ((a : ℕ)
              → mem' a ≡ (
                  if leb buf a && ltb a (buf + count)
                  then fs.my_disk.bytes (n.i_sectors (pos / 512) * 512 + (pos % 512 + (a - buf)))
                  else mem a)))
        (file_read fs slot mem buf count true)
file_read-in_block fs slot n pos zero mem buf h some_bytes fits inside direct = absurd (omega arith)
file_read-in_block fs slot n pos (suc c) mem buf h some_bytes fits inside direct =
    let b = pos / 512 in
    let blocks = update (λ _. 0) b (n.i_sectors b) in
    let lba : blocks (pos / 512) ≡ n.i_sectors b = rw (eq→== b b refl) refl in
    let all_of_it : chunk pos (suc c) ≡ suc c = chunk_whole pos (suc c) inside in
    let none_left : suc c - suc c ≡ 0 = omega arith in
    let last : (pos + suc c) / 512 ≡ b = omega arith in
    let mem' =
      copy_out mem buf (fetched fs.my_disk (n.i_sectors b) (λ _. 0) 0 1) (pos % 512) (suc c) in
    let loop : read_loop (suc c) fs.my_disk blocks mem buf pos (suc c) ≡ ok (mem', pos + suc c) =
      read_loop_round c fs.my_disk blocks mem buf pos (suc c) h.ready
        (omega (arith, lba, h.on_disk b direct)) (λ z. omega arith)
      ∙ rw (lba, all_of_it, none_left)
          (read_loop_done c fs.my_disk blocks mem' (buf + 4 * suc c) (pos + suc c)) in
    rw
      (
        read_bytes_of_file fs slot n pos (suc c) mem buf h fits,
        read_bytes_lem fs slot n pos (suc c) mem buf blocks mem' h fits
            (rw last (one_block fs.my_disk n b direct)) loop,
      )
      (
        refl,
        refl,
        λ a. copied fs.my_disk (n.i_sectors b) mem buf (pos % 512) (suc c) a (omega arith),
      )
