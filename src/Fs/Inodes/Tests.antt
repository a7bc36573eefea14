-- ===== src/Fs/Inodes/Tests.antt =====
-- Inodes on a small disk.
use restore_the_operating_sy.Base.{
  not, ◌^◌, ◌&&◌, ◌%◌, ◌<◌, ◌≡◌, refl, arith, if◌then◌else◌, ◌==◌, none, ◌∷◌, ℕ,
}
use restore_the_operating_sy.Base.Word.{Returns, ◌>>=◌}
use restore_the_operating_sy.Fs.Examples.{fs, file_inode}
use restore_the_operating_sy.Fs.Inodes.{
  inode_sync, inode_open, inode_delete, find_open, free_blocks,
}
use restore_the_operating_sy.Fs.Inodes.Place.{IsMounted}
use restore_the_operating_sy.Fs.Inodes.Stored.{disk_inode, Same, IsWords}
use restore_the_operating_sy.Fs.Inodes.RoundTrip.{
  unused, no_inode, inode_sync-Same, inode_sync-wrong_place, inode_delete-Same,
  inode_open-inode_sync,
}
use restore_the_operating_sy.Fs.Inodes.Release.{Kept, in_blocks, free_blocks-in_blocks}
use restore_the_operating_sy.Bitmap.Set.{is_used}

fs-IsMounted : IsMounted fs
fs-IsMounted = record {
  ready = refl;
  on_disk = omega arith;
  within = omega arith;
  small = omega arith;
}

file_inode-IsWords : (n : ℕ) → n < 2 ^ 32 → IsWords (file_inode n)
file_inode-IsWords n h = record { number = h; size = omega arith; sectors = λ k lt. ground arith }

inode_sync-Same_example :
    Returns
      (λ fs'.
        (m : ℕ)
        → Same (disk_inode fs' m) (if m == 7 then unused (file_inode 7) else disk_inode fs m))
      (inode_sync fs (file_inode 7) (λ _. 0))
inode_sync-Same_example =
    inode_sync-Same fs (file_inode 7) (λ _. 0) fs-IsMounted (file_inode-IsWords 7 (omega arith))
      (omega arith)

-- Inode 300 is written over inode 44.
inode_sync-wrong_place_example :
    Returns
      (λ fs'.
        Same (disk_inode fs' 300) (disk_inode fs 300)
        × Same (disk_inode fs' (300 % 256)) (unused (file_inode 300)))
      (inode_sync fs (file_inode 300) (λ _. 0))
inode_sync-wrong_place_example =
    inode_sync-wrong_place fs (file_inode 300) (λ _. 0) fs-IsMounted
      (file_inode-IsWords 300 (omega arith)) (omega arith)

inode_delete-Same_example :
    Returns
      (λ fs'. (m : ℕ) → Same (disk_inode fs' m) (if m == 6 then no_inode else disk_inode fs m))
      (inode_delete fs 6 (λ _. 0))
inode_delete-Same_example = inode_delete-Same fs 6 (λ _. 0) fs-IsMounted (omega arith)

not_open : find_open fs.inode fs.cur_part.open_inodes 6 ≡ none
unfolding find_open
not_open = refl

-- Inode 6 lies in two sectors.
inode_open-inode_sync_example :
    Returns
      (λ r.
        (r.1 ≡ 0xc0200000)
        × (r.0.cur_part.open_inodes ≡ 0xc0200000 ∷ fs.cur_part.open_inodes)
        × Same (r.0.inode 0xc0200000) (record (unused (file_inode 6)) { i_open_cnts = 1 }))
      (inode_sync fs (file_inode 6) (λ _. 0) >>= λ fs'. inode_open fs' 6 0xc0200000)
inode_open-inode_sync_example =
    inode_open-inode_sync fs (file_inode 6) (λ _. 0) 0xc0200000 fs-IsMounted
      (file_inode-IsWords 6 (omega arith)) (omega arith) not_open

free_blocks-in_blocks_example :
    Returns
      (λ fs'.
        Kept fs fs'
        × ((j : ℕ)
            → is_used fs'.cur_part.block_bitmap j ≡ (
                is_used fs.cur_part.block_bitmap j
                && not (in_blocks (file_inode 5).i_sectors 617 12 0 j))))
      (free_blocks 12 fs (file_inode 5).i_sectors 0)
free_blocks-in_blocks_example =
    free_blocks-in_blocks 12 fs (file_inode 5).i_sectors 0 refl (λ i. ground arith)
      (λ k ne. ground arith)
