-- ===== src/Fs/Contents/RoundTrip.antt =====
-- file_read gives back what file_write has written.
use restore_the_operating_sy.Base.{
  ℕ, ◌+◌, ◌-◌, ◌*◌, ◌/◌, ◌%◌, ◌<◌, ◌≡◌, refl, sym, ap, subst, ◌∙◌, true, le→leb, lt→ltb, eq→==,
  arith,
}
use restore_the_operating_sy.Base.Word.{◌>>=◌, Returns, Returns-bind, Returns-mono}
use restore_the_operating_sy.String.{Memory}
use restore_the_operating_sy.Fs.{FileSystem}
use restore_the_operating_sy.Fs.Contents.{file_read, file_write}
use restore_the_operating_sy.Fs.Contents.Read.{IsOpen, moved, file_read-in_block}
use restore_the_operating_sy.Fs.Contents.Append.{FitsIn, Appended, file_write-Appended}

-- The read of bytes that were appended.
read-Appended :
    (fs' : FileSystem) (slot a : ℕ) (sectors : ℕ → ℕ) (size : ℕ) (mem : Memory) (src count : ℕ)
    (mem2 : Memory) (buf : ℕ)
    → Appended slot a sectors (sectors (size / 512)) size mem src count fs'
    → 0 < count
    → size % 512 + count < 512
    → size / 512 < 12
    → ((k : ℕ) → k < 12 → sectors k < 163840)
    → Returns
        (λ (fs2, mem', n). (n ≡ count) × ((i : ℕ) → i < count → mem' (buf + i) ≡ mem (src + i)))
        (file_read (moved fs' slot size) slot mem2 buf count true)
read-Appended fs' slot a sectors size mem src count mem2 buf (bytes, grown, blocks, file, ready) pos
      room direct on_disk =
    let fs1 = moved fs' slot size in
    let n = fs'.inode a in
    let same_file : (fs1.file_table slot).fd_inode ≡ a = rw (eq→== slot slot refl) file in
    let opened : IsOpen fs1 slot n size = record {
      ready = ready;
      inode = ap fs'.inode same_file;
      at = rw (eq→== slot slot refl) refl;
      small = omega (arith, grown);
      on_disk = λ k lt. subst (λ (f : ℕ → ℕ). f k < 163840) (sym blocks) (on_disk k lt);
    } in
    Returns-mono _ (file_read fs1 slot mem2 buf count true)
      (file_read-in_block fs1 slot n size count mem2 buf opened pos (omega (arith, grown)) room
        direct)
      λ (fs2, mem', r) (moved_on, whole, there). (
        whole,
        λ i lt.
            let at : buf + i - buf ≡ i = omega arith in
            there (buf + i)
            ∙ rw
                (
                  le→leb buf (buf + i) (omega arith),
                  lt→ltb (buf + i) (buf + count) (omega arith),
                  at,
                )
                (ap (λ (f : ℕ → ℕ). fs'.my_disk.bytes (f (size / 512) * 512 + (size % 512 + i)))
                    blocks
                  ∙ bytes i lt),
      )

-- A file has a first block, its end lies in a direct block, and after some more bytes at least one byte
-- of that block is left; the drive answers, and the block lies behind the inode table. file_write of
-- these bytes, and file_read of as many with the position set back to where the file ended before,
-- gives their number and puts the same bytes to memory.
pub file_read-file_write :
    (fs : FileSystem) (slot b count : ℕ) (mem : Memory) (src junk : ℕ) (mem2 : Memory) (buf : ℕ)
    → FitsIn fs slot b count
    → ((k : ℕ) → k < 12 → (fs.inode (fs.file_table slot).fd_inode).i_sectors k < 163840)
    → Returns
        (λ (fs2, mem', n). (n ≡ count) × ((i : ℕ) → i < count → mem' (buf + i) ≡ mem (src + i)))
        (file_write fs slot mem src count true junk >>= λ r.
          file_read
            (moved r.0 slot (fs.inode (fs.file_table slot).fd_inode).i_size)
            slot
            mem2
            buf
            count
            true)
file_read-file_write fs slot b count mem src junk mem2 buf h on_disk =
    let n = fs.inode (fs.file_table slot).fd_inode in
    Returns-bind _ (file_write fs slot mem src count true junk) _
      (file_write-Appended fs slot b count mem src junk h)
      λ (fs', w) (negative, appended).
        read-Appended fs' slot (fs.file_table slot).fd_inode n.i_sectors n.i_size mem src count mem2
          buf
          (subst
            (λ lba.
              Appended slot (fs.file_table slot).fd_inode n.i_sectors lba n.i_size mem src count
                fs')
            (ap n.i_sectors (sym h.block)) appended)
          h.some_bytes h.room (omega (arith, h.block, h.direct)) on_disk
