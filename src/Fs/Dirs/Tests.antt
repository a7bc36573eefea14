-- ===== src/Fs/Dirs/Tests.antt =====
-- A directory with two blocks and free places, and the entry of a file named "a".
use restore_the_operating_sy.Base.Word.{◌>>=◌, ok, Returns}
use restore_the_operating_sy.Base.{
  ◌<◌, ℕ, refl, ◌==◌, ◌≡◌, arith, if◌then◌else◌, [], ◌∷◌, true, some, ◌+◌, ◌*◌,
}
use restore_the_operating_sy.Disk.{Buffer}
use restore_the_operating_sy.Fs.{FileSystem}
use restore_the_operating_sy.Fs.Examples.{fs, file_inode}
use restore_the_operating_sy.Fs.Dirs.{Dir, search_dir_entry}
use restore_the_operating_sy.Fs.Dirs.Search.{
  IsReadable, Searched, block_of, search_dir_entry-Searched,
}
use restore_the_operating_sy.Fs.Dirs.Insert.{sync_dir_entry}
use restore_the_operating_sy.Fs.Dirs.Entered.{HasRoom, with_entry, sync_dir_entry-with_entry}
use restore_the_operating_sy.Fs.Dirs.RoundTrip.{search-sync_dir_entry}
use restore_the_operating_sy.Fs.Dirs.Listing.{dir_read}
use restore_the_operating_sy.Fs.Dirs.Order.{dir_read-next_entry}

abbrev dir_fs : FileSystem
dir_fs = record fs { inode = λ _. record (file_inode 5) { i_size = 48 } }

abbrev dir : Dir
dir = record { inode = 0xc0100000; dir_pos = 0; dir_buf = λ _. 0 }

abbrev name : Buffer
name i = if i == 0 then 97 else 0

abbrev file_entry : Buffer
file_entry i = if i == 0 then 97 else if i == 16 then 7 else if i == 20 then 1 else 0

dir-IsReadable : IsReadable dir_fs.my_disk (dir_fs.inode dir.inode)
dir-IsReadable = record {
  ready = refl;
  bytes = λ a. omega arith;
  table = omega arith;
  blocks = λ i lt. ground arith;
}

dir-HasRoom : HasRoom dir_fs dir 0 0
dir-HasRoom = record {
  ready = refl;
  size = refl;
  whole = refl;
  direct = omega arith;
  place = omega arith;
  used = λ j le. ground arith;
  on_disk = λ j le. ground arith;
  full = λ j e lt le. absurd (omega arith);
  free = refl;
  first = λ e lt. absurd (omega arith);
}

search_dir_entry-Searched_example :
    Returns
      (Searched dir_fs.my_disk
        (block_of dir_fs.my_disk (dir_fs.inode dir.inode))
        (97 ∷ [])
        (λ _. 0)
        140
        0)
      (search_dir_entry 4 dir_fs dir true name (λ _. 0))
search_dir_entry-Searched_example =
    search_dir_entry-Searched 4 dir_fs dir name (λ _. 0) (97 ∷ []) dir-IsReadable refl
      (λ a. ground arith) (omega arith) (omega arith) (omega arith)

sync_dir_entry-with_entry_example :
    sync_dir_entry dir_fs dir file_entry (λ _. 0) ≡ ok (with_entry dir_fs dir 0 0 file_entry, true)
sync_dir_entry-with_entry_example =
    sync_dir_entry-with_entry dir_fs dir file_entry (λ _. 0) 0 0 dir-HasRoom

search-sync_dir_entry_example :
    Returns
      (λ r. (r.0 ≡ true) × ((i : ℕ) → i < 24 → r.1 i ≡ file_entry i))
      (sync_dir_entry dir_fs dir file_entry (λ _. 0) >>= λ t.
        search_dir_entry 4 t.0 dir true name (λ _. 0))
search-sync_dir_entry_example =
    search-sync_dir_entry dir_fs dir file_entry (λ _. 0) (λ _. 0) name (97 ∷ []) 4 0 0 dir-HasRoom
      dir-IsReadable refl (λ a. ground arith) (λ a. ground arith) (omega arith) refl (omega arith)
      (omega arith) (λ b e lb le. ground arith)

-- The block 619 with two entries, of which the first was given already.
abbrev two_fs : FileSystem
two_fs = record dir_fs {
  my_disk = record {
    bytes = λ a. if a == 619 * 512 + 20 then 2 else if a == 619 * 512 + 44 then 1 else 0;
    ready = true;
  };
}

abbrev second : Dir
second = record { inode = 0xc0100000; dir_pos = 24; dir_buf = λ _. 0 }

dir_read-next_entry_example :
    Returns
      (λ (dir', found).
        (found ≡ some 1)
        × (dir'.dir_pos ≡ 48)
        × (dir'.inode ≡ 0xc0100000)
        × ((i : ℕ) → i < 512 → dir'.dir_buf i ≡ two_fs.my_disk.bytes (619 * 512 + i)))
      (dir_read two_fs second)
dir_read-next_entry_example =
    dir_read-next_entry two_fs second 1 refl refl refl (omega arith) (omega arith) (omega arith)
      (omega arith) refl (omega arith)
