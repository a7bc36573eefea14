-- ===== src/Fs/Dirs/Entered.antt =====
-- sync_dir_entry puts an entry in the first free place.
use restore_the_operating_sy.Base.Word.{u32, ◌>>◌, assert, ok}
use restore_the_operating_sy.Base.{
  subst, ◌∙◌, sym, ==→ne, lt→ltb, fun_ext, inr, ==→eq, ap, ◌-◌, ltb, refl, ◌==◌, ne→==, inl, ◌&&◌,
  arith, ◌≢◌, ◌%◌, Bool-cases, leb, ◌*◌, ◌+◌, ◌≡◌, if◌then◌else◌, ◌<◌, ◌≤◌, ℕ, zero, suc, true,
  some, none,
}
use restore_the_operating_sy.Disk.{Drive, Buffer}
use restore_the_operating_sy.Disk.Transfer.{fetched, stored, ide_read-fetched, ide_write-stored}
use restore_the_operating_sy.Fs.{FileSystem}
use restore_the_operating_sy.Fs.Dirs.{Dir, entry_at, entry_type, direct_blocks}
use restore_the_operating_sy.Fs.Dirs.Search.{disk_entry, fetched_byte}
use restore_the_operating_sy.Fs.Dirs.Insert.{
  find_free, put_entry, grow, write_entry, enter_at, enter_blocks, sync_dir_entry,
}

find_free-none :
    (buf : Buffer) (left idx : ℕ)
    → ((e : ℕ) → idx ≤ e → e < idx + left → entry_type (entry_at buf e) ≢ 0)
    → find_free buf left idx ≡ none
unfolding find_free
find_free-none buf zero idx h = refl
find_free-none buf (suc left) idx h =
    rw (ne→== _ 0 (h idx (omega arith) (omega arith)))
      (find_free-none buf left (idx + 1) (λ e lo hi. h e (omega arith) (omega arith)))

find_free-some :
    (buf : Buffer) (left idx f : ℕ)
    → idx ≤ f
    → f < idx + left
    → entry_type (entry_at buf f) ≡ 0
    → ((e : ℕ) → idx ≤ e → e < f → entry_type (entry_at buf e) ≢ 0)
    → find_free buf left idx ≡ some f
unfolding find_free
find_free-some buf zero idx f lo hi free h = absurd (omega arith)
find_free-some buf (suc left) idx f lo hi free h = elim (Bool-cases (idx == f)) [
  | inl e ↦
      let at : idx ≡ f = ==→eq _ _ e in
      let here : entry_type (entry_at buf idx) ≡ 0 = rw at free in rw here (ap some at)
  | inr e ↦
      let ne : idx ≢ f = ==→ne _ _ e in
      rw (ne→== _ 0 (h idx (omega arith) (omega arith))) (
        find_free-some buf left (idx + 1) f (omega arith) (omega arith) free
          (λ e' lo' hi'. h e' (omega arith) hi'))
]

-- The type of an entry in a sector that was read.
pub type_read :
    (hd : Drive) (lba : ℕ) (buf : Buffer) (e : ℕ)
    → e < 21
    → entry_type (entry_at (fetched hd lba buf 0 1) e) ≡ entry_type (disk_entry hd lba e)
type_read hd lba buf e lt =
    rw
      (
        fetched_byte hd lba buf (e * 24 + 20) (omega arith),
        fetched_byte hd lba buf (e * 24 + 21) (omega arith),
        fetched_byte hd lba buf (e * 24 + 22) (omega arith),
        fetched_byte hd lba buf (e * 24 + 23) (omega arith),
      )
      refl

-- The drive with an entry replaced.
abbrev pub entered : Drive → ℕ → ℕ → Buffer → Drive
entered hd lba e p_de = record hd {
  bytes = λ p.
      if leb (lba * 512 + e * 24) p && ltb p (lba * 512 + e * 24 + 24)
      then p_de (p - (lba * 512 + e * 24))
      else hd.bytes p;
}

entered_byte :
    (hd : Drive) (lba e : ℕ) (p_de buf : Buffer)
    → e < 21
    → (p : ℕ)
    → (stored hd lba (put_entry 24 p_de e (fetched hd lba buf 0 1)) 0 1).bytes p
      ≡ (entered hd lba e p_de).bytes p
unfolding put_entry
entered_byte hd lba e p_de buf lt p = elim (Bool-cases (leb (lba * 512) p)) [
  | inl d ↦
      let at : lba * 512 + (p - lba * 512) ≡ p = ground arith in
      let at' : p - lba * 512 - e * 24 ≡ p - (lba * 512 + e * 24) = ground arith in ground arith
  | inr d ↦ ground arith
]

-- The type of entry e of a block: the four bytes from 20 on, the lowest first.
abbrev pub disk_type : Drive → ℕ → ℕ → ℕ
disk_type hd lba e =
    let byte = λ (i : ℕ). hd.bytes (lba * 512 + (e * 24 + i)) in
    byte 20 + 256 * byte 21 + 65536 * byte 22 + 16777216 * byte 23

-- A directory whose direct blocks before k are full, and whose block k has its first free place at f.
pub record HasRoom (fs : FileSystem) (dir : Dir) (k f : ℕ) : Type 0 where
  pub ready : fs.my_disk.ready ≡ true
  pub size : fs.cur_part.sb.dir_entry_size ≡ 24
  pub whole : (fs.inode dir.inode).i_size % 24 ≡ 0
  pub direct : k < 12
  pub place : f < 21
  pub used : (j : ℕ) → j ≤ k → (fs.inode dir.inode).i_sectors j ≢ 0
  pub on_disk : (j : ℕ) → j ≤ k → (fs.inode dir.inode).i_sectors j < 163840
  pub full :
      (j e : ℕ) → j < k → e < 21 → disk_type fs.my_disk ((fs.inode dir.inode).i_sectors j) e ≢ 0
  pub free : disk_type fs.my_disk ((fs.inode dir.inode).i_sectors k) f ≡ 0
  pub first : (e : ℕ) → e < f → disk_type fs.my_disk ((fs.inode dir.inode).i_sectors k) e ≢ 0

-- The file system with the entry at place f of block k.
abbrev pub with_entry : FileSystem → Dir → ℕ → ℕ → Buffer → FileSystem
with_entry fs dir k f p_de =
    let n = fs.inode dir.inode in
    record fs {
      my_disk = entered fs.my_disk (n.i_sectors k) f p_de;
      inode = λ a. if a == dir.inode then record n { i_size = u32 (n.i_size + 24) } else fs.inode a;
    }

write_entry_lem :
    (fs : FileSystem) (dir : Dir) (k f : ℕ) (p_de buf : Buffer)
    → HasRoom fs dir k f
    → write_entry fs dir.inode
        ((fs.inode dir.inode).i_sectors k)
        24
        (put_entry 24 p_de f (fetched fs.my_disk ((fs.inode dir.inode).i_sectors k) buf 0 1))
      ≡ ok (with_entry fs dir k f p_de, true)
unfolding write_entry
write_entry_lem fs dir k f p_de buf h =
    let lba = (fs.inode dir.inode).i_sectors k in
    rw
      (ide_write-stored fs.my_disk lba (put_entry 24 p_de f (fetched fs.my_disk lba buf 0 1)) 1
        h.ready (omega arith) (omega (arith, h.on_disk k (omega arith))))
      (ap
        (λ (b : ℕ → ℕ).
          ok (grow (record fs { my_disk = record fs.my_disk { bytes = b } }) dir.inode 24, true))
        (fun_ext (entered_byte fs.my_disk lba f p_de buf h.place)))

enter_blocks_lem :
    (fs : FileSystem) (dir : Dir) (k f : ℕ) (p_de : Buffer)
    → HasRoom fs dir k f
    → (left idx : ℕ) (buf : Buffer) → idx ≤ k
    → k < idx + left
    → enter_blocks fs dir.inode 24 p_de (direct_blocks (fs.inode dir.inode)) left idx buf
      ≡ ok (with_entry fs dir k f p_de, true)
unfolding enter_blocks enter_at
enter_blocks_lem fs dir k f p_de h zero idx buf lo hi = absurd (omega arith)
enter_blocks_lem fs dir k f p_de h (suc left) idx buf lo hi =
    let n = fs.inode dir.inode in
    let sector = fetched fs.my_disk (n.i_sectors idx) buf 0 1 in
    let within : ltb idx 12 ≡ true = lt→ltb _ _ (omega (arith, h.direct)) in
    let reading =
      ide_read-fetched fs.my_disk (n.i_sectors idx) buf 1 h.ready (omega arith)
        (omega (arith, h.on_disk idx lo)) in
    rw (within, ne→== _ 0 (h.used idx lo), reading)
      (elim (Bool-cases (idx == k)) [
        | inl e ↦
            let at : idx ≡ k = ==→eq _ _ e in
            rw at (
              rw
                (find_free-some (fetched fs.my_disk (n.i_sectors k) buf 0 1) 21 0 f (omega arith)
                  (omega (arith, h.place))
                  (type_read fs.my_disk (n.i_sectors k) buf f h.place ∙ h.free)
                  (λ e' lo' hi' z. h.first e' hi' (
                    sym (type_read fs.my_disk (n.i_sectors k) buf e' (omega (arith, h.place)))
                    ∙ z)))
                (write_entry_lem fs dir k f p_de buf h))
        | inr e ↦
            let ne : idx ≢ k = ==→ne _ _ e in
            rw
              (find_free-none sector 21 0 (λ e' lo' hi'. λ z.
                h.full idx e' (omega arith) hi'
                  (sym (type_read fs.my_disk (n.i_sectors idx) buf e' hi') ∙ z)))
              (enter_blocks_lem fs dir k f p_de h left (idx + 1) sector (omega arith) (omega arith))
      ])

-- In a directory on a drive that answers, with entries of 24 bytes, whose first free place is place
-- f of its direct block k, the blocks before it being full, sync_dir_entry returns true: the
-- entry's 24 bytes stand at that place of the disk and no other byte of it has changed, and the
-- size of the directory has grown by an entry.
pub sync_dir_entry-with_entry :
    (fs : FileSystem) (dir : Dir) (p_de io_buf : Buffer) (k f : ℕ)
    → HasRoom fs dir k f
    → sync_dir_entry fs dir p_de io_buf ≡ ok (with_entry fs dir k f p_de, true)
unfolding sync_dir_entry
sync_dir_entry-with_entry fs dir p_de io_buf k f h =
    let n = fs.inode dir.inode in
    subst
      (λ size.
        (assert (n.i_size % size == 0)
          >> enter_blocks fs dir.inode size p_de (direct_blocks n) 140 0 io_buf)
        ≡ ok (with_entry fs dir k f p_de, true))
      (sym h.size)
      (rw h.whole
        (enter_blocks_lem fs dir k f p_de h 140 0 io_buf (omega arith) (omega (arith, h.direct))))
