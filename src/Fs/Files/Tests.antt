-- ===== src/Fs/Files/Tests.antt =====
-- Descriptors in a small file system.
use restore_the_operating_sy.Base.{◌-◌, ◌^◌, ◌<◌, ◌≡◌, refl, arith, some}
use restore_the_operating_sy.Base.Word.{Returns, minus_one, ok}
use restore_the_operating_sy.Fs.Examples.{fs}
use restore_the_operating_sy.Fs.Inodes.{find_open}
use restore_the_operating_sy.Fs.Inodes.Place.{IsMounted}
use restore_the_operating_sy.Fs.Files.{
  find_slot, file_open, file_close, claim_file, sys_lseek, get_free_slot_in_global,
}
use restore_the_operating_sy.Fs.Files.Counts.{Released, IsCounted, slots, file_close-IsCounted}
use restore_the_operating_sy.Fs.Files.Open.{
  SlotTaken, file_open-IsCounted, file_open-refused_writer, claim_file-file_close,
}
use restore_the_operating_sy.Fs.Files.Seek.{seek_result, sys_lseek-moved}

fs-IsMounted : IsMounted fs
fs-IsMounted = record {
  ready = refl;
  on_disk = omega arith;
  within = omega arith;
  small = omega arith;
}

fs-IsCounted : IsCounted (λ _. 0) fs
unfolding slots
fs-IsCounted = record {
  counted = λ a o. ground arith;
  unused = λ a n o. ground arith;
  distinct = (refl, tt);
  no_null = refl;
  few = λ a. omega arith;
}

file_close-IsCounted_example :
    IsCounted (λ _. 0) (file_close fs (some 3)).0 × Released fs 3 (file_close fs (some 3))
file_close-IsCounted_example =
    file_close-IsCounted (λ _. 0) fs 3 fs-IsCounted (omega arith) (λ e. absurd (omega arith))

file_open-IsCounted_example :
    Returns (λ r. IsCounted (λ _. 0) r.0 × SlotTaken fs 0 r) (file_open fs 5 0 0xc0200000)
file_open-IsCounted_example =
    file_open-IsCounted (λ _. 0) fs 5 0 0xc0200000 fs-IsCounted fs-IsMounted (omega arith)
      (λ e. absurd (omega arith)) refl

found : find_open fs.inode fs.cur_part.open_inodes 5 ≡ some 0xc0100000
unfolding find_open
found = refl

free_slot : get_free_slot_in_global fs ≡ 4
unfolding get_free_slot_in_global find_slot
free_slot = refl

file_open-refused_writer_example :
    Returns
      (λ r.
        (r.1 ≡ minus_one)
        × ((r.0.file_table (get_free_slot_in_global fs)).fd_inode ≡ 0xc0100000)
        × (r.0.fd_table ≡ fs.fd_table))
      (file_open fs 5 1 0xc0200000)
file_open-refused_writer_example =
    file_open-refused_writer fs 5 1 0xc0200000 0xc0100000 found refl refl
      (λ e. absurd (omega (arith, free_slot)))

claim_file-file_close_example :
    let closed = (file_close fs (some 3)).0 in
    let r = claim_file closed 5 0xc0100000 1 in (r.1 < 8) × (r.0.file_table 4 ≡ fs.file_table 4)
claim_file-file_close_example =
    claim_file-file_close fs 3 4 5 1 4 (λ e. absurd (omega arith)) (omega arith) (omega arith) refl

-- Three bytes back from the end.
sys_lseek-moved_example : sys_lseek fs 3 (2 ^ 32 - 3) 3 ≡ ok (seek_result fs 3 (some 997))
sys_lseek-moved_example =
    sys_lseek-moved fs 3 (2 ^ 32 - 3) 3 (omega arith) (omega arith) (omega arith) (omega arith)
      (omega arith) (omega arith) (omega arith)
