-- ===== src/Fs/Files.antt =====
-- The tables of open files: workshop/fs/file.c and the descriptor calls of workshop/fs/fs.c.
--
-- An int32_t is its 32-bit pattern.
pub mod Slots
pub mod Seek
pub mod Counts
pub mod Open
mod Tests
use restore_the_operating_sy.Base.{
  ℕ, zero, suc, ◌+◌, ◌-◌, ◌/◌, ◌%◌, ◌^◌, Bool, true, false, not, ◌&&◌, ◌||◌, Option, none, some,
  if◌then◌else◌, ◌==◌, ltb, leb,
}
use restore_the_operating_sy.Base.Word.{u32, minus_one, null, Outcome, ok, ◌>>=◌, ◌>>◌, assert}
use restore_the_operating_sy.Fs.{Inode, File, FileSystem, update}
use restore_the_operating_sy.Fs.Inodes.{inode_open, inode_close}

abbrev pub max_file_open : ℕ
max_file_open = 32

abbrev pub max_files_open_per_proc : ℕ
max_files_open_per_proc = 8

-- The loop of get_free_slot_in_global, with `left` slots to look at.
unfoldable pub find_slot : (ℕ → File) → ℕ → ℕ → ℕ
find_slot table zero fd_idx = fd_idx
find_slot table (suc left) fd_idx =
    if (table fd_idx).fd_inode == null then fd_idx else find_slot table left (fd_idx + 1)

unfoldable pub get_free_slot_in_global : FileSystem → ℕ
get_free_slot_in_global fs =
    let fd_idx = find_slot fs.file_table (max_file_open - 3) 3 in
    if fd_idx == max_file_open then minus_one else fd_idx

-- The loop of pcb_fd_install.
unfoldable pub find_descriptor : (ℕ → ℕ) → ℕ → ℕ → ℕ
find_descriptor table zero local_fd_idx = local_fd_idx
find_descriptor table (suc left) local_fd_idx =
    if table local_fd_idx == minus_one
    then local_fd_idx
    else find_descriptor table left (local_fd_idx + 1)

unfoldable pub pcb_fd_install : FileSystem → ℕ → FileSystem × ℕ
pcb_fd_install fs global_fd_idx =
    let local_fd_idx = find_descriptor fs.fd_table (max_files_open_per_proc - 3) 3 in
    if local_fd_idx == max_files_open_per_proc
    then (fs, minus_one)
    else (record fs { fd_table = update fs.fd_table local_fd_idx global_fd_idx }, local_fd_idx)

-- flag & O_WRONLY || flag & O_RDWR
abbrev pub writes : ℕ → Bool
writes flag = (flag % 2 == 1) || (flag / 2 % 2 == 1)

-- The end of file_open: a writer takes the inode, unless another has it.
unfoldable pub claim_file : FileSystem → ℕ → ℕ → ℕ → FileSystem × ℕ
claim_file fs fd_idx a flag =
    let taken : FileSystem = record fs {
      inode = update fs.inode a (record (fs.inode a) { write_deny = true });
    } in
    if writes flag
    then if not (fs.inode a).write_deny then pcb_fd_install taken fd_idx else (fs, minus_one)
    else pcb_fd_install fs fd_idx

-- `addr` is what sys_malloc gives to the inode, if it is not open yet.
unfoldable pub file_open : FileSystem → ℕ → ℕ → ℕ → Outcome (FileSystem × ℕ)
file_open fs inode_no flag addr =
    let fd_idx = get_free_slot_in_global fs in
    if fd_idx == minus_one
    then ok (fs, minus_one)
    else inode_open fs inode_no addr >>= (λ (fs1, a). ok (
        claim_file
          (record fs1 {
            file_table =
                update fs1.file_table fd_idx (record { fd_pos = 0; fd_flag = flag; fd_inode = a });
          })
          fd_idx a flag))

-- file_close of a slot of the file table; `none` is a NULL pointer.
unfoldable pub file_close : FileSystem → Option ℕ → FileSystem × ℕ
file_close fs none = (fs, minus_one)
file_close fs (some slot) =
    let a = (fs.file_table slot).fd_inode in
    let fs1 : FileSystem = record fs {
      inode = update fs.inode a (record (fs.inode a) { write_deny = false });
    } in
    let fs2 = inode_close fs1 a in
    (
      record fs2 {
        file_table = update fs2.file_table slot (record (fs2.file_table slot) { fd_inode = null });
      },
      0,
    )

unfoldable pub fd_local2global : FileSystem → ℕ → Outcome ℕ
fd_local2global fs local_fd =
    let global_fd = fs.fd_table local_fd in
    assert (ltb global_fd (2 ^ 31) && ltb global_fd max_file_open) >> ok global_fd

-- fd > 2, for an int32_t.
abbrev pub above_two : ℕ → Bool
above_two fd = ltb 2 fd && ltb fd (2 ^ 31)

unfoldable pub sys_close : FileSystem → ℕ → Outcome (FileSystem × ℕ)
sys_close fs fd =
    if above_two fd
    then fd_local2global fs fd >>= (λ global.
      let (fs1, ret) = file_close fs (some global) in
      ok (record fs1 { fd_table = update fs1.fd_table fd minus_one }, ret))
    else ok (fs, minus_one)

-- x < 0 and x < y, for int32_t.
abbrev pub is_negative : ℕ → Bool
is_negative x = leb (2 ^ 31) x

abbrev pub int_lt : ℕ → ℕ → Bool
int_lt x y = ltb ((x + 2 ^ 31) % 2 ^ 32) ((y + 2 ^ 31) % 2 ^ 32)

-- The switch of sys_lseek: SEEK_SET is 1, SEEK_CUR 2, SEEK_END 3.
unfoldable pub seek_pos : ℕ → ℕ → ℕ → ℕ → ℕ
seek_pos whence fd_pos file_size offset =
    if whence == 1
    then offset
    else if whence == 2
    then u32 (fd_pos + offset)
    else u32 (file_size + offset)

unfoldable pub sys_lseek : FileSystem → ℕ → ℕ → ℕ → Outcome (FileSystem × ℕ)
sys_lseek fs fd offset whence =
    if is_negative fd
    then ok (fs, minus_one)
    else assert (ltb 0 whence && ltb whence 4)
      >> (fd_local2global fs fd >>= (λ global.
          let pf = fs.file_table global in
          let file_size = (fs.inode pf.fd_inode).i_size in
          let new_pos = seek_pos whence pf.fd_pos file_size offset in
          ok (
            if is_negative new_pos || int_lt (u32 (file_size + minus_one)) new_pos
            then (fs, minus_one)
            else (
              record fs {
                file_table = update fs.file_table global (record pf { fd_pos = new_pos });
              },
              new_pos,
            ))))
