-- ===== src/Fs/Inodes/Release.antt =====
-- The blocks that inode_release frees.
use restore_the_operating_sy.Base.{
  subst, refl, ◌∙◌, inr, inl, ltb, Bool-cases, if◌then◌else◌, ℕ, zero, suc, ◌+◌, ◌-◌, ◌/◌, ◌<◌, ◌^◌,
  ◌≡◌, ◌≢◌, Bool, true, false, not, ◌&&◌, ◌||◌, ◌==◌, arith,
}
use restore_the_operating_sy.Base.Word.{Returns-mono, sub_u32, Returns, Returns-bind}
use restore_the_operating_sy.Bitmap.{bitmap_set}
use restore_the_operating_sy.Bitmap.Set.{is_used, IsBytes, bitmap_set-IsUpdate}
use restore_the_operating_sy.Fs.{Partition, SuperBlock, FileSystem}
use restore_the_operating_sy.Fs.Bitmaps.{block_map, sync_lba}
use restore_the_operating_sy.Fs.Bitmaps.Sync.{bitmap_sync-stored}
use restore_the_operating_sy.Fs.Inodes.{free_block, free_blocks}

-- A block of the data area behind its first one, whose bit lies in a sector of the disk.
abbrev pub IsBlock : SuperBlock → ℕ → Type 0
IsBlock sb lba =
    (sb.data_start_lba < lba)
    × (lba < 2 ^ 32)
    × (sb.block_bitmap_lba + (lba - sb.data_start_lba) / 4096 < 163840)

-- What is left when bits of the block bitmap have been changed on a drive that answers.
pub record Kept (fs fs' : FileSystem) : Type 0 where
  pub ready : fs'.my_disk.ready ≡ true
  pub places : fs'.cur_part.sb ≡ fs.cur_part.sb
  pub bytes : IsBytes fs'.cur_part.block_bitmap

free_block-IsUpdate :
    (fs : FileSystem) (lba : ℕ)
    → fs.my_disk.ready ≡ true
    → IsBytes fs.cur_part.block_bitmap
    → IsBlock fs.cur_part.sb lba
    → Returns
        (λ fs'.
          Kept fs fs'
          × ((j : ℕ)
              → is_used fs'.cur_part.block_bitmap j ≡ (
                  if j == lba - fs.cur_part.sb.data_start_lba
                  then false
                  else is_used fs.cur_part.block_bitmap j)))
        (free_block fs lba)
unfolding free_block sync_lba
free_block-IsUpdate fs lba ready bytes (above, small, fits) =
    let part = fs.cur_part in
    let idx = lba - part.sb.data_start_lba in
    let e : sub_u32 lba part.sb.data_start_lba ≡ idx = omega arith in
    let pos : ltb 0 idx ≡ true = ground arith in
    rw (e, pos)
      (Returns-bind _ (bitmap_set part.block_bitmap idx 0) _
        (bitmap_set-IsUpdate part.block_bitmap idx 0 bytes (omega arith))
        λ b u.
          let part' : Partition = record part { block_bitmap = b } in
          rw
            (bitmap_sync-stored (record fs { cur_part = part' }) part' idx block_map ready
              (omega arith))
            (record { ready = ready; places = refl; bytes = u.bytes }, u.bit))

-- Bit j is that of one of the blocks from `idx` on.
abbrev pub in_blocks : (ℕ → ℕ) → ℕ → ℕ → ℕ → ℕ → Bool
in_blocks all start zero idx j = false
in_blocks all start (suc left) idx j =
    (not (all idx == 0) && (j == all idx - start)) || in_blocks all start left (idx + 1) j

first_freed :
    (old here rest mid new : Bool)
    → mid ≡ (if here then false else old)
    → new ≡ (mid && not rest)
    → new ≡ (old && not (here || rest))
first_freed true true rest mid new e f = rw (f, e)
first_freed true false rest mid new e f = rw (f, e)
first_freed false true rest mid new e f = rw (f, e)
first_freed false false rest mid new e f = rw (f, e)

-- The loop of inode_release over the block addresses from idx on clears, in the block bitmap, the
-- bits of those that are not 0 and no others, if each lies in the data area behind its first block
-- and the drive answers.
pub free_blocks-in_blocks :
    (left : ℕ) (fs : FileSystem) (all : ℕ → ℕ) (idx : ℕ)
    → fs.my_disk.ready ≡ true
    → IsBytes fs.cur_part.block_bitmap
    → ((k : ℕ) → all k ≢ 0 → IsBlock fs.cur_part.sb (all k))
    → Returns
        (λ fs'.
          Kept fs fs'
          × ((j : ℕ)
              → is_used fs'.cur_part.block_bitmap j ≡ (
                  is_used fs.cur_part.block_bitmap j
                  && not (in_blocks all fs.cur_part.sb.data_start_lba left idx j))))
        (free_blocks left fs all idx)
unfolding free_blocks
free_blocks-in_blocks zero fs all idx ready bytes blocks =
    (record { ready = ready; places = refl; bytes = bytes }, λ j. ground arith)
free_blocks-in_blocks (suc left) fs all idx ready bytes blocks = elim (Bool-cases (all idx == 0)) [
  | inl e ↦ rw e (
      Returns-mono _ (free_blocks left fs all (idx + 1))
        (free_blocks-in_blocks left fs all (idx + 1) ready bytes blocks)
        λ fs' p. (p.0, λ j. ground (arith, p.1 j)))
  | inr e ↦ rw e (
      Returns-bind _ (free_block fs (all idx)) _
        (free_block-IsUpdate fs (all idx) ready bytes (blocks idx (ground arith)))
        λ fs1 p.
          Returns-mono _ (free_blocks left fs1 all (idx + 1))
            (free_blocks-in_blocks left fs1 all (idx + 1) p.0.ready p.0.bytes
              (rw p.0.places blocks))
            λ fs' q. (
              record { ready = q.0.ready; places = q.0.places ∙ p.0.places; bytes = q.0.bytes },
              λ j.
                  first_freed (is_used fs.cur_part.block_bitmap j)
                    (j == all idx - fs.cur_part.sb.data_start_lba) _ _ _ (p.1 j)
                    (subst
                      (λ (sb : SuperBlock). is_used fs'.cur_part.block_bitmap j ≡ (
                        is_used fs1.cur_part.block_bitmap j
                        && not (in_blocks all sb.data_start_lba left (idx + 1) j)))
                      p.0.places (q.1 j)),
            ))
]
