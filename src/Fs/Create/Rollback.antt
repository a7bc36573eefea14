-- ===== src/Fs/Create/Rollback.antt =====
-- file_create gives the inode's number back when it fails.
use restore_the_operating_sy.Base.{
  ℕ, ◌*◌, ◌≤◌, ◌<◌, ◌≡◌, ◌≢◌, ◌⊎◌, inl, inr, refl, sym, ap, ◌∙◌, Bool, true, false, ◌==◌, ==→eq,
  ne→==, Bool-cases, arith,
}
use restore_the_operating_sy.Base.Word.{
  minus_one, null, Outcome, ok, panic, hang, Returns, Returns-bind,
}
use restore_the_operating_sy.Disk.{Buffer}
use restore_the_operating_sy.Bitmap.{Bitmap, bitmap_scan, bitmap_set}
use restore_the_operating_sy.Bitmap.Set.{is_used, IsUpdate, bitmap_set-IsUpdate}
use restore_the_operating_sy.Bitmap.Scan.{IsFirstFree, ScansOne, bitmap_scan_one}
use restore_the_operating_sy.Fs.{Partition, FileSystem, set_inode}
use restore_the_operating_sy.Fs.Bitmaps.{inode_bitmap_alloc, set_part}
use restore_the_operating_sy.Fs.Bitmaps.Alloc.{IsMap}
use restore_the_operating_sy.Fs.Inodes.{inode_init}
use restore_the_operating_sy.Fs.Files.{get_free_slot_in_global}
use restore_the_operating_sy.Fs.Files.Slots.{get_free_slot_in_global-FirstSlot}
use restore_the_operating_sy.Fs.Dirs.{Dir}
use restore_the_operating_sy.Fs.Create.{roll_back, with_inode, file_create}

-- The partition with the inode marked whose number is given.
record Took (part : Partition) (r : Partition × ℕ) : Type 0 where
  bitmap : Bitmap
  same : r.0 ≡ record part { inode_bitmap = bitmap }
  free : is_used part.inode_bitmap r.1 ≡ false
  number : r.1 ≢ minus_one
  update : IsUpdate part.inode_bitmap r.1 true bitmap

scanned :
    (b : Bitmap) (o : Outcome ℕ) (i : ℕ)
    → i < b.btmp_bytes_len * 8
    → is_used b i ≡ false
    → ScansOne b o
    → Returns (IsFirstFree b) o
scanned b (ok r) i lt free h = h
scanned b panic i lt free h = absurd (ground (arith, h i lt, free))
scanned b hang i lt free h = h

inode_bitmap_alloc-Took :
    (part : Partition) (i : ℕ)
    → IsMap part.inode_bitmap
    → i < part.inode_bitmap.btmp_bytes_len * 8
    → is_used part.inode_bitmap i ≡ false
    → Returns (Took part) (inode_bitmap_alloc part)
unfolding inode_bitmap_alloc
inode_bitmap_alloc-Took part i h lt free =
    let b = part.inode_bitmap in
    Returns-bind _ (bitmap_scan b 1) _
      (scanned b (bitmap_scan b 1) i lt free (bitmap_scan_one b h.bytes h.small))
      λ j f.
        let small = h.small in
        let inside = f.inside in
        rw (ne→== j minus_one (omega arith)) (
          Returns-bind _ (bitmap_set b j 1) _ (bitmap_set-IsUpdate b j 1 h.bytes (omega arith))
            λ c u. record {
              bitmap = c;
              same = refl;
              free = f.free;
              number = omega arith;
              update = u;
            })

-- -1 is returned, the inodes in use are those that were, and all else but the inode in memory is as
-- it was.
pub record RolledBack (fs : FileSystem) (r : FileSystem × ℕ) : Type 0 where
  pub result : r.1 ≡ minus_one
  pub inodes : (i : ℕ) → is_used r.0.cur_part.inode_bitmap i ≡ is_used fs.cur_part.inode_bitmap i
  pub blocks : r.0.cur_part.block_bitmap ≡ fs.cur_part.block_bitmap
  pub opened : r.0.cur_part.open_inodes ≡ fs.cur_part.open_inodes
  pub disk : r.0.my_disk ≡ fs.my_disk
  pub files : r.0.file_table ≡ fs.file_table
  pub descriptors : r.0.fd_table ≡ fs.fd_table

-- A free bit that is set and cleared again.
bits_back :
    (b b1 b2 : Bitmap) (i : ℕ)
    → is_used b i ≡ false
    → IsUpdate b i true b1
    → IsUpdate b1 i false b2
    → (j : ℕ) → is_used b2 j ≡ is_used b j
bits_back b b1 b2 i free u v j = elim (Bool-cases (j == i)) [
  | inl e ↦ v.bit j ∙ rw e (sym free ∙ ap (is_used b) (sym (==→eq j i e)))
  | inr e ↦ v.bit j ∙ rw e (u.bit j ∙ rw e refl)
]

-- A state that differs from fs in the inodes in memory and in the bit of inode_no.
roll_back-RolledBack :
    (fs fs1 : FileSystem) (b : Bitmap) (inode_no : ℕ)
    → is_used fs.cur_part.inode_bitmap inode_no ≡ false
    → IsUpdate fs.cur_part.inode_bitmap inode_no true b
    → fs1 ≡ set_part (record fs { inode = fs1.inode }) (record fs.cur_part { inode_bitmap = b })
    → Returns (RolledBack fs) (roll_back fs1 inode_no)
unfolding roll_back
roll_back-RolledBack fs fs1 b inode_no free u same = rw same (
    Returns-bind _ (bitmap_set b inode_no 0) _
      (bitmap_set-IsUpdate b inode_no 0 u.bytes (omega arith))
      λ c v. record {
        result = refl;
        inodes = bits_back fs.cur_part.inode_bitmap b c inode_no free u v;
        blocks = refl;
        opened = refl;
        disk = refl;
        files = refl;
        descriptors = refl;
      })

-- A full file table.
no_slot :
    (fs : FileSystem)
    → ((k : ℕ) → 3 ≤ k → k < 32 → (fs.file_table k).fd_inode ≢ null)
    → get_free_slot_in_global fs ≡ minus_one
no_slot fs full = elim (get_free_slot_in_global-FirstSlot fs) [
  | inl h ↦ absurd (full (get_free_slot_in_global fs) h.0 h.1 h.2)
  | inr h ↦ h.0
]

-- file_create, with a free inode in the partition, that cannot get memory for the inode or finds no
-- slot in the file table returns -1. The inodes in use are those that were, and the drive, the blocks,
-- the open inodes, the file table and the descriptors are as they were.
pub file_create-RolledBack :
    (fuel : ℕ) (fs : FileSystem) (parent_dir : Dir) (filename : Buffer) (flag : ℕ)
    (got_inode : Bool) (a i : ℕ)
    → IsMap fs.cur_part.inode_bitmap
    → i < fs.cur_part.inode_bitmap.btmp_bytes_len * 8
    → is_used fs.cur_part.inode_bitmap i ≡ false
    → (got_inode ≡ false) ⊎ ((k : ℕ) → 3 ≤ k → k < 32 → (fs.file_table k).fd_inode ≢ null)
    → Returns (RolledBack fs) (file_create fuel fs parent_dir filename flag true got_inode a)
unfolding file_create with_inode
file_create-RolledBack fuel fs parent_dir filename flag got_inode a i h lt free why =
    Returns-bind _ (inode_bitmap_alloc fs.cur_part) _
      (inode_bitmap_alloc-Took fs.cur_part i h lt free)
      λ r t.
        let fs1 = set_part fs r.0 in
        let back = λ (fs2 : FileSystem) (e : fs2 ≡ record fs1 { inode = fs2.inode }).
          roll_back-RolledBack fs fs2 t.bitmap r.1 t.free t.update
            (e ∙ ap (set_part (record fs { inode = fs2.inode })) t.same) in
        rw (ne→== r.1 minus_one t.number) (elim why [
          | inl refused ↦ rw refused (back fs1 refl)
          | inr full ↦ elim (Bool-cases got_inode) [
            | inl given ↦ rw given (
                rw (no_slot (set_inode fs1 a (inode_init r.1 (fs1.inode a))) full)
                  (back (set_inode fs1 a (inode_init r.1 (fs1.inode a))) refl))
            | inr refused ↦ rw refused (back fs1 refl)
          ]
        ])
