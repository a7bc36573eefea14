-- ===== src/Disk.antt =====
-- ide_read and ide_write of workshop/device/ide.c over the bytes of a drive.
--
-- What select_sector, cmd_out and the data port do to the controller is the transfer of the selected
-- sectors; a count register of 0 stands for 256 sectors. `ready` says whether the drive gets ready in
-- the time that busy_wait gives it. The channel's lock and the wait for the drive's interrupt do not
-- change the data.
pub mod Transfer
mod Tests
use restore_the_operating_sy.Base.{
  ℕ, zero, suc, ◌+◌, ◌-◌, ◌*◌, ◌%◌, Bool, true, false, ◌&&◌, if◌then◌else◌, ◌==◌, ltb, leb,
}
use restore_the_operating_sy.Base.Word.{Outcome, ok, hang, ◌>>=◌, ◌>>◌, assert}

-- The byte at each place of a drive.
pub record Drive : Type 0 where
  pub bytes : ℕ → ℕ
  pub ready : Bool

-- A buffer in memory, by the offset from its start.
abbrev pub Buffer : Type 0
Buffer = ℕ → ℕ

-- (80 * 1024 * 1024 / 512) - 1
abbrev pub max_lba : ℕ
max_lba = 163839

-- The bytes that a sector count of 8 bits transfers.
unfoldable pub size_in_byte : ℕ → ℕ
size_in_byte sec_cnt = if sec_cnt % 256 == 0 then 256 * 512 else sec_cnt % 256 * 512

-- The sectors from lba on, put to the buffer from `at` on.
unfoldable pub read_from_sector : Drive → ℕ → Buffer → ℕ → ℕ → Buffer
read_from_sector hd lba buf at sec_cnt i =
    if leb at i && ltb i (at + size_in_byte sec_cnt) then hd.bytes (lba * 512 + (i - at)) else buf i

-- The buffer from `at` on, put to the sectors from lba on.
unfoldable pub write2sector : Drive → ℕ → Buffer → ℕ → ℕ → Drive
write2sector hd lba buf at sec_cnt = record hd {
  bytes = λ p.
      if leb (lba * 512) p && ltb p (lba * 512 + size_in_byte sec_cnt)
      then buf (at + (p - lba * 512))
      else hd.bytes p;
}

-- The sectors of the next command.
unfoldable pub secs_op : ℕ → ℕ → ℕ
secs_op secs_done sec_cnt = if leb (secs_done + 256) sec_cnt then 256 else sec_cnt - secs_done

-- The loop of ide_read, with fuel for its rounds.
unfoldable pub read_rounds : ℕ → Drive → ℕ → Buffer → ℕ → ℕ → Outcome Buffer
read_rounds zero hd lba buf secs_done sec_cnt = if ltb secs_done sec_cnt then hang else ok buf
read_rounds (suc fuel) hd lba buf secs_done sec_cnt =
    let op = secs_op secs_done sec_cnt in
    let round = (do
      assert (leb (lba + secs_done) max_lba)
      assert hd.ready
      read_rounds fuel hd lba (read_from_sector hd (lba + secs_done) buf (secs_done * 512) op)
          (secs_done + op) sec_cnt) in
    if ltb secs_done sec_cnt then round else ok buf

unfoldable pub ide_read : Drive → ℕ → Buffer → ℕ → Outcome Buffer
ide_read hd lba buf sec_cnt = do
  assert (leb lba max_lba)
  assert (ltb 0 sec_cnt)
  read_rounds sec_cnt hd lba buf 0 sec_cnt

-- The loop of ide_write, with fuel for its rounds.
unfoldable pub write_rounds : ℕ → Drive → ℕ → Buffer → ℕ → ℕ → Outcome Drive
write_rounds zero hd lba buf secs_done sec_cnt = if ltb secs_done sec_cnt then hang else ok hd
write_rounds (suc fuel) hd lba buf secs_done sec_cnt =
    let op = secs_op secs_done sec_cnt in
    let round = (do
      assert (leb (lba + secs_done) max_lba)
      assert hd.ready
      write_rounds fuel (write2sector hd (lba + secs_done) buf (secs_done * 512) op) lba buf
          (secs_done + op) sec_cnt) in
    if ltb secs_done sec_cnt then round else ok hd

unfoldable pub ide_write : Drive → ℕ → Buffer → ℕ → Outcome Drive
ide_write hd lba buf sec_cnt = do
  assert (leb lba max_lba)
  assert (ltb 0 sec_cnt)
  write_rounds sec_cnt hd lba buf 0 sec_cnt
