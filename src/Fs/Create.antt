-- ===== src/Fs/Create.antt =====
-- file_create of workshop/fs/file.c.
--
-- Whether sys_malloc gives the buffer and the new inode, and the address of the inode, are arguments.
pub mod Rollback
mod Tests
use restore_the_operating_sy.Base.{false, false, ℕ, Bool, not, ◌∷◌, if◌then◌else◌, ◌==◌}
use restore_the_operating_sy.Base.Word.{minus_one, null, Outcome, ok, ◌>>=◌}
use restore_the_operating_sy.Disk.{Buffer}
use restore_the_operating_sy.Bitmap.{bitmap_set}
use restore_the_operating_sy.Fs.{Inode, File, Partition, FileSystem, update, set_inode}
use restore_the_operating_sy.Fs.Bitmaps.{inode_map, bitmap_sync, inode_bitmap_alloc, set_part}
use restore_the_operating_sy.Fs.Inodes.{inode_init, inode_sync}
use restore_the_operating_sy.Fs.Files.{get_free_slot_in_global, pcb_fd_install}
use restore_the_operating_sy.Fs.Dirs.{Dir, create_dir_entry}
use restore_the_operating_sy.Fs.Dirs.Insert.{sync_dir_entry}

-- The steps 2 and 1 of the rollback.
unfoldable pub roll_back : FileSystem → ℕ → Outcome (FileSystem × ℕ)
roll_back fs inode_no =
    bitmap_set fs.cur_part.inode_bitmap inode_no 0
    >>= (λ b. ok (set_part fs (record fs.cur_part { inode_bitmap = b }), minus_one))

-- What is written once the entry stands in the directory.
unfoldable pub sync_created : FileSystem → ℕ → ℕ → ℕ → ℕ → Outcome (FileSystem × ℕ)
sync_created fs parent a inode_no fd_idx = do
  fs1 ← inode_sync fs (fs.inode parent) (λ _. 0)
  fs2 ← inode_sync fs1 (fs1.inode a) (λ _. 0)
  fs3 ← bitmap_sync fs2 fs2.cur_part inode_no inode_map
  let part : Partition = record fs3.cur_part { open_inodes = a ∷ fs3.cur_part.open_inodes }
  let opened = set_inode (set_part fs3 part) a (record (fs3.inode a) { i_open_cnts = 1 })
  ok (pcb_fd_install opened fd_idx)

-- The new file takes a slot of the file table and an entry of the directory.
unfoldable pub enter_file : ℕ → FileSystem → Dir → Buffer → ℕ → ℕ → ℕ → ℕ → Outcome (FileSystem × ℕ)
enter_file fuel fs parent_dir filename flag inode_no a fd_idx =
    let with_slot = λ (fs0 : FileSystem) (f : File). (record fs0 {
      file_table = update fs0.file_table fd_idx f;
    }) in
    let slot : File = record { fd_pos = 0; fd_flag = flag; fd_inode = a } in
    let empty : File = record { fd_pos = 0; fd_flag = 0; fd_inode = null } in
    let denied = set_inode (with_slot fs slot) a (record (fs.inode a) { write_deny = false }) in
    do
      new_dir_entry ← create_dir_entry fuel filename inode_no 1 (λ _. 0)
      (fs1, synced) ← sync_dir_entry denied parent_dir new_dir_entry (λ _. 0)
      if synced
          then sync_created fs1 parent_dir.inode a inode_no fd_idx
          else roll_back (with_slot fs1 empty) inode_no

-- file_create once it has an inode in memory.
unfoldable pub with_inode : ℕ → FileSystem → Dir → Buffer → ℕ → ℕ → ℕ → Outcome (FileSystem × ℕ)
with_inode fuel fs parent_dir filename flag inode_no a =
    let fs1 = set_inode fs a (inode_init inode_no (fs.inode a)) in
    let fd_idx = get_free_slot_in_global fs1 in
    if fd_idx == minus_one
    then roll_back fs1 inode_no
    else enter_file fuel fs1 parent_dir filename flag inode_no a fd_idx

-- `a` is what sys_malloc gives to the inode, if `got_inode` says that it gives anything.
unfoldable pub file_create :
    ℕ → FileSystem → Dir → Buffer → ℕ → Bool → Bool → ℕ → Outcome (FileSystem × ℕ)
file_create fuel fs parent_dir filename flag got got_inode a =
    let create = (do
      (part, inode_no) ← inode_bitmap_alloc fs.cur_part
      let fs1 = set_part fs part
      let next =
          if got_inode
          then with_inode fuel fs1 parent_dir filename flag inode_no a
          else roll_back fs1 inode_no
      if inode_no == minus_one then ok (fs1, minus_one) else next) in
    if got then create else ok (fs, minus_one)
