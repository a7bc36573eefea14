-- ===== src/Fs/Create/Tests.antt =====
-- A file system whose file table is full.
use restore_the_operating_sy.Base.{refl, inr, true, arith, if◌then◌else◌, ◌==◌}
use restore_the_operating_sy.Base.Word.{Returns}
use restore_the_operating_sy.Fs.{FileSystem}
use restore_the_operating_sy.Fs.Examples.{fs, bitmap}
use restore_the_operating_sy.Fs.Bitmaps.Alloc.{IsMap}
use restore_the_operating_sy.Fs.Dirs.{Dir}
use restore_the_operating_sy.Fs.Create.{file_create}
use restore_the_operating_sy.Fs.Create.Rollback.{RolledBack, file_create-RolledBack}

abbrev full_fs : FileSystem
full_fs = record fs { file_table = λ _. record { fd_pos = 0; fd_flag = 0; fd_inode = 0xc0100000 } }

abbrev root : Dir
root = record { inode = 0xc0100000; dir_pos = 0; dir_buf = λ _. 0 }

bitmap-IsMap : IsMap bitmap
bitmap-IsMap = record { bytes = λ i. ground arith; small = omega arith }

file_create-RolledBack_example :
    Returns
      (RolledBack full_fs)
      (file_create 9 full_fs root (λ i. if i == 0 then 97 else 0) 1 true true 0xc0200000)
file_create-RolledBack_example =
    file_create-RolledBack 9 full_fs root (λ i. if i == 0 then 97 else 0) 1 true 0xc0200000 3
      bitmap-IsMap (omega arith) refl (inr λ k lo hi. omega arith)
