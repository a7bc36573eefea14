-- ===== src/Fs.antt =====
-- The state of the file system of workshop/fs.
--
-- `cur_part` is the partition that is mounted. Inodes in memory and open files are known by their
-- addresses and indices; the address that sys_malloc gives to a new inode is an argument of the
-- operations that ask for one. Where the code restores the interrupt status that it found
-- (Interrupt.disable-restore), the flag is left out.
pub mod Bitmaps
pub mod Inodes
pub mod Files
pub mod Path
pub mod Dirs
pub mod Contents
pub mod Create
mod Examples
use restore_the_operating_sy.Base.{ℕ, Bool, List, if◌then◌else◌, ◌==◌}
use restore_the_operating_sy.Bitmap.{Bitmap}
use restore_the_operating_sy.Disk.{Drive}

-- `struct inode` without its list node.
pub record Inode : Type 0 where
  pub i_no : ℕ
  pub i_size : ℕ
  pub i_open_cnts : ℕ
  pub write_deny : Bool
  pub i_sectors : ℕ → ℕ

-- The places and sizes that `struct super_block` names.
pub record SuperBlock : Type 0 where
  pub block_bitmap_lba : ℕ
  pub inode_bitmap_lba : ℕ
  pub inode_table_lba : ℕ
  pub data_start_lba : ℕ
  pub root_inode_no : ℕ
  pub dir_entry_size : ℕ

-- `struct partition`, with the addresses of the open inodes for its list.
pub record Partition : Type 0 where
  pub start_lba : ℕ
  pub sec_cnt : ℕ
  pub sb : SuperBlock
  pub block_bitmap : Bitmap
  pub inode_bitmap : Bitmap
  pub open_inodes : List ℕ

-- `struct file`
pub record File : Type 0 where
  pub fd_pos : ℕ
  pub fd_flag : ℕ
  pub fd_inode : ℕ

-- The mounted partition, its drive, the inodes by address, the file table, and the descriptor table
-- of the current thread, whose entries are 32-bit patterns.
pub record FileSystem : Type 0 where
  pub cur_part : Partition
  pub my_disk : Drive
  pub inode : ℕ → Inode
  pub file_table : ℕ → File
  pub fd_table : ℕ → ℕ

abbrev pub update {ℓ} : {A : Type ℓ} → (ℕ → A) → ℕ → A → ℕ → A
update f i a j = if j == i then a else f j

-- An inode in memory, or the address of one of its blocks, replaced.
abbrev pub set_inode : FileSystem → ℕ → Inode → FileSystem
set_inode fs a n = record fs { inode = update fs.inode a n }

abbrev pub set_sector : FileSystem → ℕ → ℕ → ℕ → FileSystem
set_sector fs a k lba =
    set_inode fs a (record (fs.inode a) { i_sectors = update (fs.inode a).i_sectors k lba })
