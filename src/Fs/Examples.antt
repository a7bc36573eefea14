-- ===== src/Fs/Examples.antt =====
-- A small file system for the tests: inode 5 is open at 0xc0100000, once, for slot 3 of the file
-- table, which the descriptor 3 stands for.
use restore_the_operating_sy.Base.{ℕ, true, [], ◌∷◌, if◌then◌else◌, ◌==◌}
use restore_the_operating_sy.Base.Word.{minus_one, null}
use restore_the_operating_sy.Bitmap.{Bitmap}
use restore_the_operating_sy.Disk.{Drive}
use restore_the_operating_sy.Fs.{Inode, Partition, FileSystem}

abbrev pub drive : Drive
drive = record { bytes = λ _. 0; ready = true }

abbrev pub bitmap : Bitmap
bitmap = record { btmp_bytes_len = 512; bits = λ i. if i == 0 then 7 else 0 }

abbrev pub part : Partition
part = record {
  start_lba = 1;
  sec_cnt = 20000;
  sb = record {
    block_bitmap_lba = 3;
    inode_bitmap_lba = 8;
    inode_table_lba = 9;
    data_start_lba = 617;
    root_inode_no = 0;
    dir_entry_size = 24;
  };
  block_bitmap = bitmap;
  inode_bitmap = bitmap;
  open_inodes = 0xc0100000 ∷ [];
}

-- A file of 1000 bytes in two blocks.
abbrev pub file_inode : ℕ → Inode
file_inode number = record {
  i_no = number;
  i_size = 1000;
  i_open_cnts = 1;
  write_deny = true;
  i_sectors = λ k. if k == 0 then 619 else if k == 1 then 620 else 0;
}

abbrev pub fs : FileSystem
fs = record {
  cur_part = part;
  my_disk = drive;
  inode = λ _. file_inode 5;
  file_table =
      λ i. record { fd_pos = 10; fd_flag = 1; fd_inode = if i == 3 then 0xc0100000 else null };
  fd_table = λ i. if i == 3 then 3 else minus_one;
}
