-- ===== src/Fs/Inodes/Fetch.antt =====
-- inode_open of an inode that is not open reads it from its place on the disk.
use restore_the_operating_sy.Fs.Inodes.{inode_fetch, load_inode, load_word}
use restore_the_operating_sy.Disk.{ide_read, Buffer}
use restore_the_operating_sy.Base.Word.{u32, Returns-bind, ok, Returns, Outcome}
use restore_the_operating_sy.Fs.{update, FileSystem}
use restore_the_operating_sy.Base.{
  ne→==, ◌≢◌, inr, ltb→lt, eq→==, inl, Bool-cases, refl, ◌==◌, ◌/◌, not, ◌%◌, ◌-◌, ap, ltb,
  if◌then◌else◌, arith, ◌≤◌, ◌+◌, ◌∷◌, ◌*◌, ℕ, ◌<◌, ◌≡◌,
}
use restore_the_operating_sy.Disk.Transfer.{fetched, ide_read-fetched}
use restore_the_operating_sy.Fs.Inodes.Place.{IsMounted, place}
use restore_the_operating_sy.Fs.Inodes.Stored.{disk_inode, Same, inode_locate_lem}

-- Loading an inode from sectors that hold its place loads it from its place.
module _ (fs : FileSystem) (id lba off n : ℕ) (start : lba * 512 + off ≡ place fs id)
    (fits : off + 76 ≤ n * 512) where
  abbrev sectors_read : Buffer
  sectors_read = fetched fs.my_disk lba (λ _. 0) 0 n

  fetched_byte : (o : ℕ) → o < 76 → sectors_read (off + o) ≡ fs.my_disk.bytes (place fs id + o)
  fetched_byte o lt = let at : lba * 512 + (off + o) ≡ place fs id + o = omega arith in ground arith

  fetched_word :
      (o p : ℕ)
      → p ≡ off + o
      → o + 3 < 76
      → load_word sectors_read p ≡ load_word (λ i. fs.my_disk.bytes (place fs id + i)) o
  fetched_word o p e lt =
      let e1 : p + 1 ≡ off + (o + 1) = omega arith in
      let e2 : p + 2 ≡ off + (o + 2) = omega arith in
      let e3 : p + 3 ≡ off + (o + 3) = omega arith in
      rw (
        e1,
        e2,
        e3,
        e,
        fetched_byte o (omega arith),
        fetched_byte (o + 1) (omega arith),
        fetched_byte (o + 2) (omega arith),
        fetched_byte (o + 3) (omega arith),
      )

  load-fetched : Same (load_inode sectors_read off) (disk_inode fs id)
  unfolding load_inode disk_inode
  load-fetched = record {
    number = fetched_word 0 off (omega arith) (omega arith);
    size = fetched_word 4 (off + 4) refl (omega arith);
    opens = fetched_word 8 (off + 8) refl (omega arith);
    denied = ap (λ w. not (w == 0)) (fetched_word 12 (off + 12) refl (omega arith));
    sectors =
        λ k lt. fetched_word (0 + (k + 4) * 4) (off + (k + 4) * 4) (omega arith) (omega arith);
  }

-- The sectors that inode_open reads, and what it does with them.
abbrev read_place : FileSystem → ℕ → Outcome Buffer
read_place fs id =
    if ltb (512 - id * 76 % 512) 76
    then ide_read fs.my_disk (u32 (fs.cur_part.sb.inode_table_lba + id * 76 / 512)) (λ _. 0) 2
    else ide_read fs.my_disk (u32 (fs.cur_part.sb.inode_table_lba + id * 76 / 512)) (λ _. 0) 1

abbrev place_inode : FileSystem → ℕ → ℕ → Buffer → Outcome (FileSystem × ℕ)
place_inode fs id addr buf = ok (
  record fs {
    inode = update fs.inode addr (record (load_inode buf (id * 76 % 512)) { i_open_cnts = 1 });
    cur_part = record fs.cur_part { open_inodes = addr ∷ fs.cur_part.open_inodes };
  },
  addr,
)

fetch_sectors :
    (fs : FileSystem) (id : ℕ)
    → IsMounted fs
    → id < 4096
    → Returns (λ buf. Same (load_inode buf (id * 76 % 512)) (disk_inode fs id)) (read_place fs id)
fetch_sectors fs id h lt =
    let off = id * 76 % 512 in
    let on_disk = h.on_disk in
    let lba = fs.cur_part.sb.inode_table_lba + id * 76 / 512 in
    let word : u32 lba ≡ lba = omega arith in
    let start : lba * 512 + off ≡ place fs id = omega arith in
    rw word (elim (Bool-cases (ltb (512 - off) 76)) [
      | inl e ↦
          rw
            (
              e,
              ide_read-fetched fs.my_disk lba (λ _. 0) 2 h.ready (omega arith)
                  (omega (arith, ltb→lt _ _ e)),
            )
            (load-fetched fs id lba off 2 start (omega arith))
      | inr e ↦
          rw (e, ide_read-fetched fs.my_disk lba (λ _. 0) 1 h.ready (omega arith) (omega arith))
            (load-fetched fs id lba off 1 start (ground arith))
    ])

-- inode_open of an inode that is not open reads it from its place.
abbrev pub Fetched : FileSystem → ℕ → ℕ → FileSystem × ℕ → Type 0
Fetched fs id addr r =
    (r.1 ≡ addr)
    × (r.0.cur_part.open_inodes ≡ addr ∷ fs.cur_part.open_inodes)
    × Same (r.0.inode addr) (record (disk_inode fs id) { i_open_cnts = 1 })
    × (r.0.file_table ≡ fs.file_table)
    × ((b : ℕ) → b ≢ addr → r.0.inode b ≡ fs.inode b)

pub inode_fetch_lem :
    (fs : FileSystem) (id addr : ℕ)
    → IsMounted fs
    → id < 4096
    → Returns (Fetched fs id addr) (inode_fetch fs id addr)
unfolding inode_fetch
inode_fetch_lem fs id addr h lt = rw (inode_locate_lem fs id lt) (
    Returns-bind (Fetched fs id addr) (read_place fs id) (place_inode fs id addr)
      (fetch_sectors fs id h lt)
      λ buf s. (
        refl,
        refl,
        rw (eq→== addr addr refl) (record {
          number = s.number;
          size = s.size;
          opens = refl;
          denied = s.denied;
          sectors = s.sectors;
        }),
        refl,
        λ b ne. rw (ne→== b addr ne),
      ))
