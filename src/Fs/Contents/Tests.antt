-- ===== src/Fs/Contents/Tests.antt =====
-- Reads and writes of the file that is open in slot 3.
use restore_the_operating_sy.Base.Word.{◌>>=◌, Returns}
use restore_the_operating_sy.Base.{
  ltb, ◌&&◌, ◌-◌, ◌*◌, leb, ◌^◌, ◌<◌, if◌then◌else◌, ◌≡◌, ℕ, ◌%◌, true, ◌+◌, arith, refl,
}
use restore_the_operating_sy.String.{Memory}
use restore_the_operating_sy.Fs.{FileSystem}
use restore_the_operating_sy.Fs.Examples.{fs, file_inode}
use restore_the_operating_sy.Fs.Contents.{file_read, file_write}
use restore_the_operating_sy.Fs.Contents.Read.{IsOpen, moved, file_read-in_block}
use restore_the_operating_sy.Fs.Contents.Straddle.{file_read-two_blocks}
use restore_the_operating_sy.Fs.Contents.RoundTrip.{file_read-file_write}
use restore_the_operating_sy.Fs.Contents.Append.{FitsIn, Appended, file_write-Appended}

abbrev memory : Memory
memory a = a % 256

IsOpen-at :
    (pos : ℕ)
    → IsOpen
        (record fs { file_table = λ i. record (fs.file_table i) { fd_pos = pos } })
        3
        (file_inode 5)
        pos
IsOpen-at pos = record {
  ready = refl;
  inode = refl;
  at = refl;
  small = omega arith;
  on_disk = λ k lt. ground arith;
}

abbrev at_ten : FileSystem
at_ten = record fs { file_table = λ i. record (fs.file_table i) { fd_pos = 10 } }

abbrev at_500 : FileSystem
at_500 = record fs { file_table = λ i. record (fs.file_table i) { fd_pos = 500 } }

file_read-in_block_example :
    Returns
      (λ (fs', mem', size).
        (fs' ≡ moved at_ten 3 30)
        × (size ≡ 20)
        × ((a : ℕ)
            → mem' a ≡ (
                if leb 4096 a && ltb a (4096 + 20)
                then at_ten.my_disk.bytes (619 * 512 + (10 + (a - 4096)))
                else memory a)))
      (file_read at_ten 3 memory 4096 20 true)
file_read-in_block_example =
    file_read-in_block at_ten 3 (file_inode 5) 10 20 memory 4096 (IsOpen-at 10) (omega arith)
      (omega arith) (omega arith) (omega arith)

-- 100 bytes from 500 on.
file_read-two_blocks_example :
    Returns
      (λ (fs', mem', size).
        (size ≡ 100)
        × ((i : ℕ) → i < 12 → mem' (4096 + i) ≡ at_500.my_disk.bytes (500 + i))
        × ((i : ℕ) → i < 88 → mem' (4096 + 48 + i) ≡ at_500.my_disk.bytes (620 * 512 + i)))
      (file_read at_500 3 memory 4096 100 true)
file_read-two_blocks_example =
    file_read-two_blocks at_500 3 (file_inode 5) 500 100 memory 4096 (IsOpen-at 500) (omega arith)
      (omega arith) (omega arith) (omega arith)

fs-FitsIn : FitsIn fs 3 1 20
fs-FitsIn = record {
  mounted = record {
    ready = refl;
    on_disk = omega arith;
    within = omega arith;
    small = omega arith;
  };
  some_bytes = omega arith;
  block = refl;
  room = omega arith;
  direct = omega arith;
  begun = λ z. omega arith;
  on_disk = omega arith;
  behind = omega arith;
}

file_write-Appended_example :
    Returns
      (λ (fs', r).
        (r ≡ 2 ^ 32 - 20)
        × Appended 3 0xc0100000 (file_inode 5).i_sectors 620 1000 memory 4096 20 fs')
      (file_write fs 3 memory 4096 20 true 0)
file_write-Appended_example = file_write-Appended fs 3 1 20 memory 4096 0 fs-FitsIn

file_read-file_write_example :
    Returns
      (λ (fs2, mem', n). (n ≡ 20) × ((i : ℕ) → i < 20 → mem' (8192 + i) ≡ memory (4096 + i)))
      (file_write fs 3 memory 4096 20 true 0 >>= λ r.
        file_read (moved r.0 3 1000) 3 memory 8192 20 true)
file_read-file_write_example =
    file_read-file_write fs 3 1 20 memory 4096 0 memory 8192 fs-FitsIn (λ k lt. ground arith)
