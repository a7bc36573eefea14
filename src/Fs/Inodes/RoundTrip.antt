-- ===== src/Fs/Inodes/RoundTrip.antt =====
-- Writing, erasing and opening inodes: what stands on the disk, and what is read back.
use restore_the_operating_sy.Fs.Inodes.Fetch.{inode_fetch_lem}
use restore_the_operating_sy.Base.{
  ◌∷◌, none, refl, eq→==, true, subst, ne→==, arith, ◌^◌, ◌==◌, ◌%◌, false, ◌≤◌, if◌then◌else◌, ℕ,
  ◌<◌, ◌≡◌,
}
use restore_the_operating_sy.Base.Word.{ok, ◌>>=◌, Returns-mono, Returns}
use restore_the_operating_sy.Disk.{Buffer}
use restore_the_operating_sy.Fs.{Inode, FileSystem}
use restore_the_operating_sy.Fs.Inodes.{
  inode_fetch, find_open, inode_open, inode_sync, inode_delete, pure_inode, load_inode,
}
use restore_the_operating_sy.Fs.Inodes.Place.{IsMounted}
use restore_the_operating_sy.Fs.Inodes.Stored.{
  Same-trans, replaced, load-image, inode_delete-replaced, replaced_by, disk_inode, Same, IsWords,
  image, inode_sync-replaced,
}

-- The inode with no opens, and writable.
abbrev pub unused : Inode → Inode
unused n = record n { i_open_cnts = 0; write_deny = false }

unused-IsWords : (n : Inode) → IsWords n → IsWords (unused n)
unused-IsWords n w = record { number = w.number; size = w.size; sectors = w.sectors }

-- Where inode_sync writes: at the place of the number's low byte.
synced :
    (fs : FileSystem) (n : Inode) (io_buf : Buffer)
    → IsMounted fs
    → IsWords n
    → Returns
        (λ fs'.
          (m : ℕ)
          → Same (disk_inode fs' m) (if m == n.i_no % 256 then unused n else disk_inode fs m))
        (inode_sync fs n io_buf)
unfolding pure_inode
synced fs n io_buf h w =
    let id = n.i_no % 256 in
    let p = unused n in
    let opens : p.i_open_cnts < 2 ^ 32 = omega arith in
    rw (inode_sync-replaced fs n io_buf h)
      (replaced_by fs id (image p) p (load-image p (unused-IsWords n w) opens))

-- inode_sync of an inode whose number is below 256 puts it to its place on the disk, with no opens
-- and writable, and leaves every other inode of the disk as it was.
pub inode_sync-Same :
    (fs : FileSystem) (n : Inode) (io_buf : Buffer)
    → IsMounted fs
    → IsWords n
    → n.i_no < 256
    → Returns
        (λ fs'.
          (m : ℕ) → Same (disk_inode fs' m) (if m == n.i_no then unused n else disk_inode fs m))
        (inode_sync fs n io_buf)
inode_sync-Same fs n io_buf h w lt =
    let e : n.i_no % 256 ≡ n.i_no = omega arith in
    subst
      (λ i.
        Returns
          (λ fs'. (m : ℕ) → Same (disk_inode fs' m) (if m == i then unused n else disk_inode fs m))
          (inode_sync fs n io_buf))
      e (synced fs n io_buf h w)

-- inode_sync of an inode whose number is 256 or more leaves the place of that inode as it was, and
-- writes over the inode whose number is the low byte of that number.
pub inode_sync-wrong_place :
    (fs : FileSystem) (n : Inode) (io_buf : Buffer)
    → IsMounted fs
    → IsWords n
    → 256 ≤ n.i_no
    → Returns
        (λ fs'.
          Same (disk_inode fs' n.i_no) (disk_inode fs n.i_no)
          × Same (disk_inode fs' (n.i_no % 256)) (unused n))
        (inode_sync fs n io_buf)
inode_sync-wrong_place fs n io_buf h w le =
    Returns-mono _ (inode_sync fs n io_buf) (synced fs n io_buf h w) λ fs' s.
      let away : (n.i_no == n.i_no % 256) ≡ false = ne→== _ _ (omega arith) in
      let here : (n.i_no % 256 == n.i_no % 256) ≡ true = eq→== _ _ refl in
      (rw away at (s n.i_no), rw here at (s (n.i_no % 256)))

-- What stands in 76 zero bytes.
abbrev pub no_inode : Inode
no_inode = record { i_no = 0; i_size = 0; i_open_cnts = 0; write_deny = false; i_sectors = λ _. 0 }

-- inode_delete of a number below 4096 erases that inode from the disk, and no other.
pub inode_delete-Same :
    (fs : FileSystem) (id : ℕ) (io_buf : Buffer)
    → IsMounted fs
    → id < 4096
    → Returns
        (λ fs'. (m : ℕ) → Same (disk_inode fs' m) (if m == id then no_inode else disk_inode fs m))
        (inode_delete fs id io_buf)
unfolding load_inode
inode_delete-Same fs id io_buf h lt = rw (inode_delete-replaced fs id io_buf h lt) (
    replaced_by fs id (λ _. 0) no_inode
      (record { number = refl; size = refl; opens = refl; denied = refl; sectors = λ k lt. refl }))

open_closed :
    (fs : FileSystem) (id addr : ℕ)
    → find_open fs.inode fs.cur_part.open_inodes id ≡ none
    → inode_open fs id addr ≡ inode_fetch fs id addr
unfolding inode_open
open_closed fs id addr e = rw e

-- An inode that inode_sync wrote is what inode_open reads, if its number is below 256 and it is not
-- open: opened once, writable, and otherwise as it was written.
pub inode_open-inode_sync :
    (fs : FileSystem) (n : Inode) (io_buf : Buffer) (addr : ℕ)
    → IsMounted fs
    → IsWords n
    → n.i_no < 256
    → find_open fs.inode fs.cur_part.open_inodes n.i_no ≡ none
    → Returns
        (λ r.
          (r.1 ≡ addr)
          × (r.0.cur_part.open_inodes ≡ addr ∷ fs.cur_part.open_inodes)
          × Same (r.0.inode addr) (record (unused n) { i_open_cnts = 1 }))
        (inode_sync fs n io_buf >>= λ fs'. inode_open fs' n.i_no addr)
unfolding pure_inode
inode_open-inode_sync fs n io_buf addr h w lt closed =
    let e : n.i_no % 256 ≡ n.i_no = omega arith in
    let p = unused n in
    let opens : p.i_open_cnts < 2 ^ 32 = omega arith in
    let fs' = replaced fs n.i_no (image p) in
    let low : inode_sync fs n io_buf ≡ ok fs' =
      subst (λ i. inode_sync fs n io_buf ≡ ok (replaced fs i (image p))) e
        (inode_sync-replaced fs n io_buf h) in
    rw (low, open_closed fs' n.i_no addr closed)
      (Returns-mono _ (inode_fetch fs' n.i_no addr)
        (inode_fetch_lem fs' n.i_no addr
          (record { ready = h.ready; on_disk = h.on_disk; within = h.within; small = h.small })
          (omega arith))
        λ r f. (
          f.0,
          f.1,
          let back : Same (disk_inode fs' n.i_no) p = rw (eq→== n.i_no n.i_no refl) at (
                replaced_by fs n.i_no (image p) p (load-image p (unused-IsWords n w) opens)
                  n.i_no) in
              Same-trans _ _ _ f.2 (record {
                number = back.number;
                size = back.size;
                opens = refl;
                denied = back.denied;
                sectors = back.sectors;
              }),
        ))
