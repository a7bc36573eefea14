-- ===== src/Fs/Inodes/Place.antt =====
-- The place of an inode on the disk, and a change of it through the sectors that it lies in.
use restore_the_operating_sy.Base.{
  ltb→lt, ◌/◌, ◌%◌, inr, inl, Bool-cases, ◌^◌, ℕ, ◌+◌, ◌-◌, ◌*◌, ◌≤◌, ◌<◌, ◌≡◌, true, ◌&&◌,
  if◌then◌else◌, ltb, leb, arith, fun_ext, ap, ◌∙◌,
}
use restore_the_operating_sy.Base.Word.{u32, ok}
use restore_the_operating_sy.Disk.{Drive, Buffer}
use restore_the_operating_sy.Disk.Transfer.{fetched, stored, ide_read-fetched, ide_write-stored}
use restore_the_operating_sy.Fs.{FileSystem}
use restore_the_operating_sy.Fs.Inodes.{change_sectors}

-- The drive answers, and the inode table, 608 sectors for 4096 inodes, lies on it and within the
-- partition.
pub record IsMounted (fs : FileSystem) : Type 0 where
  pub ready : fs.my_disk.ready ≡ true
  pub on_disk : fs.cur_part.sb.inode_table_lba + 608 ≤ 163840
  pub within : fs.cur_part.sb.inode_table_lba + 608 ≤ fs.cur_part.start_lba + fs.cur_part.sec_cnt
  pub small : fs.cur_part.start_lba + fs.cur_part.sec_cnt < 2 ^ 32

-- The drive with 76 bytes from `base` on replaced.
abbrev pub patched : Drive → ℕ → (ℕ → ℕ) → Drive
patched hd base g = record hd {
  bytes = λ p. if leb base p && ltb p (base + 76) then g (p - base) else hd.bytes p;
}

-- The change replaces 76 bytes of the buffer from `off` on.
abbrev pub Patches : (Buffer → Buffer) → ℕ → (ℕ → ℕ) → Type 0
Patches change off g =
    (buf : Buffer) (i : ℕ)
    → change buf i ≡ (if leb off i && ltb i (off + 76) then g (i - off) else buf i)

abbrev pub with_bytes : Drive → (ℕ → ℕ) → Drive
with_bytes hd b = record hd { bytes = b }

patch_byte :
    (hd : Drive) (lba off n : ℕ) (change : Buffer → Buffer) (g : ℕ → ℕ) (buf : Buffer)
    → Patches change off g
    → off + 76 ≤ n * 512
    → (p : ℕ)
    → (stored hd lba (change (fetched hd lba buf 0 n)) 0 n).bytes p
      ≡ (patched hd (lba * 512 + off) g).bytes p
patch_byte hd lba off n change g buf h fits p = elim (Bool-cases (leb (lba * 512) p)) [
  | inl e ↦
      let at : lba * 512 + (p - lba * 512) ≡ p = ground arith in
      let at' : p - lba * 512 - off ≡ p - (lba * 512 + off) = ground arith in
      ground (arith, h (fetched hd lba buf 0 n) (p - lba * 512))
  | inr e ↦ ground arith
]

-- Reading n sectors, changing 76 bytes within them, and writing them back changes just those bytes.
change_sectors-patched :
    (hd : Drive) (lba off n : ℕ) (change : Buffer → Buffer) (g : ℕ → ℕ) (buf : Buffer)
    → hd.ready ≡ true
    → Patches change off g
    → off + 76 ≤ n * 512
    → lba + n ≤ 163840
    → change_sectors hd lba n change buf ≡ ok (patched hd (lba * 512 + off) g)
unfolding change_sectors
change_sectors-patched hd lba off n change g buf ready h fits small =
    rw (ide_read-fetched hd lba buf n ready (omega arith) small) (
      ide_write-stored hd lba (change (fetched hd lba buf 0 n)) n ready (omega arith) small
      ∙ ap ok (ap (with_bytes hd) (fun_ext (patch_byte hd lba off n change g buf h fits))))

-- The byte of the disk at which the inode begins.
abbrev pub place : FileSystem → ℕ → ℕ
place fs id = fs.cur_part.sb.inode_table_lba * 512 + id * 76

-- Whether it lies in one sector or in two, an inode's place is changed and nothing else.
pub inode_place-patched :
    (fs : FileSystem) (id : ℕ) (change : Buffer → Buffer) (g : ℕ → ℕ) (buf : Buffer)
    → IsMounted fs
    → id < 4096
    → Patches change (id * 76 % 512) g
    → (if ltb (512 - id * 76 % 512) 76
        then change_sectors fs.my_disk
            (u32 (fs.cur_part.sb.inode_table_lba + id * 76 / 512))
            2
            change
            buf
        else change_sectors fs.my_disk
            (u32 (fs.cur_part.sb.inode_table_lba + id * 76 / 512))
            1
            change
            buf)
      ≡ ok (patched fs.my_disk (place fs id) g)
inode_place-patched fs id change g buf m lt h =
    let off = id * 76 % 512 in
    let on_disk = m.on_disk in
    let lba = fs.cur_part.sb.inode_table_lba + id * 76 / 512 in
    let word : u32 lba ≡ lba = omega arith in
    let start : lba * 512 + off ≡ place fs id = omega arith in
    rw word (elim (Bool-cases (ltb (512 - off) 76)) [
      | inl e ↦ rw e (
          change_sectors-patched fs.my_disk lba off 2 change g buf m.ready h (omega arith)
            (omega (arith, ltb→lt _ _ e))
          ∙ ap (λ b. ok (patched fs.my_disk b g)) start)
      | inr e ↦ rw e (
          change_sectors-patched fs.my_disk lba off 1 change g buf m.ready h (ground arith)
            (omega arith)
          ∙ ap (λ b. ok (patched fs.my_disk b g)) start)
    ])
