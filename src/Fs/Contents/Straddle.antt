-- ===== src/Fs/Contents/Straddle.antt =====
-- What file_read does with bytes that lie in two blocks.
use restore_the_operating_sy.Base.Word.{Returns, sub_u32, ok}
use restore_the_operating_sy.Base.{
  ap, refl, eq→==, ◌∙◌, lt→ltb, arith, ne→==, ◌*◌, ◌==◌, ◌-◌, ◌%◌, ◌≤◌, ◌/◌, ◌<◌, ◌≡◌, ◌+◌, ℕ, zero,
  suc, true, false,
}
use restore_the_operating_sy.Disk.{Drive}
use restore_the_operating_sy.Disk.Transfer.{fetched}
use restore_the_operating_sy.String.{Memory}
use restore_the_operating_sy.Fs.{Inode, FileSystem, update}
use restore_the_operating_sy.Fs.Contents.{
  gather, read_blocks, copy_out, chunk, read_loop, file_read,
}
use restore_the_operating_sy.Fs.Contents.Read.{
  IsOpen, read_loop_round, read_loop_done, read_bytes_of_file, read_bytes_lem, chunk_whole,
  chunk_part, copied,
}

-- Of two direct blocks only the second is gathered.
two_blocks :
    (hd : Drive) (n : Inode) (b : ℕ)
    → b + 1 < 12
    → read_blocks hd n b (b + 1) ≡ ok (update (λ _. 0) (b + 1) (n.i_sectors (b + 1)))
unfolding read_blocks gather
two_blocks hd n b lt =
    let some_between : (sub_u32 b (b + 1) == 0) ≡ false = ne→== _ 0 (λ z. omega arith) in
    rw (some_between, lt→ltb (b + 1) 12 lt) refl

-- The two rounds of the loop.
two_rounds :
    (hd : Drive) (blocks : ℕ → ℕ) (mem : Memory) (buf pos c lba : ℕ)
    → hd.ready ≡ true
    → blocks (pos / 512) ≡ 0
    → blocks (pos / 512 + 1) ≡ lba
    → lba < 163840
    → 512 < pos % 512 + suc (suc c)
    → pos % 512 + suc (suc c) < 1024
    → read_loop (suc (suc c)) hd blocks mem buf pos (suc (suc c))
      ≡ ok (
        copy_out
            (copy_out mem buf (fetched hd 0 (λ _. 0) 0 1) (pos % 512) (512 - pos % 512))
            (buf + 4 * (512 - pos % 512))
            (fetched hd lba (λ _. 0) 0 1)
            0
            (suc (suc c) - (512 - pos % 512)),
        pos + suc (suc c),
      )
two_rounds hd blocks mem buf pos c lba ready first second on_disk more fits =
    let c1 = 512 - pos % 512 in
    let pos' = pos + c1 in
    let rest = suc (suc c) - c1 in
    let part : chunk pos (suc (suc c)) ≡ c1 = chunk_part pos (suc (suc c)) (omega arith) in
    let next : pos' / 512 ≡ pos / 512 + 1 = omega arith in
    let front : pos' % 512 ≡ 0 = omega arith in
    let whole : chunk pos' rest ≡ rest = chunk_whole pos' rest (omega (arith, front)) in
    let none_left : rest - rest ≡ 0 = omega arith in
    let end : pos' + rest ≡ pos + suc (suc c) = omega arith in
    read_loop_round (suc c) hd blocks mem buf pos (suc (suc c)) ready (omega (arith, first))
      (λ z. omega arith)
    ∙ rw (first, part)
        (read_loop_round c hd blocks (copy_out mem buf (fetched hd 0 (λ _. 0) 0 1) (pos % 512) c1)
            (buf + 4 * c1) pos' rest ready (omega (arith, next, second, ap blocks next))
            (λ z. omega arith)
          ∙ rw (next, second, whole, none_left, front, end) (read_loop_done c hd blocks _ _ _))

-- A file is open on a drive that answers, with its direct blocks on it. A read that goes on from one
-- direct block into the next, also direct, and ends before the last byte of that one, within the file,
-- returns the number of bytes asked for. In place of the bytes of the first
-- block it gives those of the first sector of the disk. The bytes of the second block are put one behind
-- the other, but from four times the distance from buf on that their first one is to have.
pub file_read-two_blocks :
    (fs : FileSystem) (slot : ℕ) (n : Inode) (pos count : ℕ) (mem : Memory) (buf : ℕ)
    → IsOpen fs slot n pos
    → pos + count ≤ n.i_size
    → 512 < pos % 512 + count
    → pos % 512 + count < 1024
    → pos / 512 + 1 < 12
    → Returns
        (λ (fs', mem', size).
          (size ≡ count)
          × ((i : ℕ) → i < 512 - pos % 512 → mem' (buf + i) ≡ fs.my_disk.bytes (pos % 512 + i))
          × ((i : ℕ)
              → i < count - (512 - pos % 512)
              → mem' (buf + 4 * (512 - pos % 512) + i)
                ≡ fs.my_disk.bytes (n.i_sectors (pos / 512 + 1) * 512 + i)))
        (file_read fs slot mem buf count true)
file_read-two_blocks fs slot n pos zero mem buf h fits more less direct = absurd (omega arith)
file_read-two_blocks fs slot n pos (suc zero) mem buf h fits more less direct = absurd (omega arith)
file_read-two_blocks fs slot n pos (suc (suc c)) mem buf h fits more less direct =
    let b = pos / 512 in
    let c1 = 512 - pos % 512 in
    let rest = suc (suc c) - c1 in
    let lba = n.i_sectors (b + 1) in
    let blocks = update (λ _. 0) (b + 1) lba in
    let first : blocks b ≡ 0 = rw (ne→== b (b + 1) (λ z. omega arith)) refl in
    let second : blocks (b + 1) ≡ lba = rw (eq→== (b + 1) (b + 1) refl) refl in
    let last : (pos + suc (suc c)) / 512 ≡ b + 1 = omega arith in
    let mem1 = copy_out mem buf (fetched fs.my_disk 0 (λ _. 0) 0 1) (pos % 512) c1 in
    let mem2 = copy_out mem1 (buf + 4 * c1) (fetched fs.my_disk lba (λ _. 0) 0 1) 0 rest in
    rw
      (
        read_bytes_of_file fs slot n pos (suc (suc c)) mem buf h fits,
        read_bytes_lem fs slot n pos (suc (suc c)) mem buf blocks mem2 h fits
            (rw last (two_blocks fs.my_disk n b direct))
            (two_rounds fs.my_disk blocks mem buf pos c lba h.ready first second
              (h.on_disk (b + 1) direct) more less),
      )
      (
        refl,
        (λ i lt.
            copied fs.my_disk lba mem1 (buf + 4 * c1) 0 rest (buf + i) (omega arith)
            ∙ ground (arith, copied fs.my_disk 0 mem buf (pos % 512) c1 (buf + i) (omega arith))),
        (λ i lt.
            copied fs.my_disk lba mem1 (buf + 4 * c1) 0 rest (buf + 4 * c1 + i) (omega arith)
            ∙ ground arith),
      )
