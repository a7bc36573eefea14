-- ===== src/Fs/Inodes/Stored.antt =====
-- inode_sync and inode_delete against the inodes that stand on the disk.
use restore_the_operating_sy.Base.Word.{◌>>=◌, assert_passes}
use restore_the_operating_sy.Base.{
  lt→ltb, le→leb, leb, ltb, true, false, refl, Bool, ◌%◌, not, ◌*◌, ◌/◌, ap, ◌∙◌, ℕ, ◌+◌, ◌-◌, ◌<◌,
  ◌^◌, ◌≡◌, ◌≢◌, if◌then◌else◌, ◌==◌, arith, Bool-cases, inl, inr,
}
use restore_the_operating_sy.Fs.{Inode, FileSystem}
use restore_the_operating_sy.Fs.Inodes.{
  inode_delete, pure_inode, u32, Buffer, ok, inode_sync, clear_inode, store_inode, inode_locate,
  inode_word, byte_of_word, load_word, load_inode,
}
use restore_the_operating_sy.Fs.Inodes.Place.{
  inode_place-patched, IsMounted, Patches, patched, place,
}

-- The inode with number `id` as it stands on the disk.
unfoldable pub disk_inode : FileSystem → ℕ → Inode
disk_inode fs id = load_inode (λ o. fs.my_disk.bytes (place fs id + o)) 0

-- Two inodes with the same contents.
pub record Same (n m : Inode) : Type 0 where
  pub number : n.i_no ≡ m.i_no
  pub size : n.i_size ≡ m.i_size
  pub opens : n.i_open_cnts ≡ m.i_open_cnts
  pub denied : n.write_deny ≡ m.write_deny
  pub sectors : (k : ℕ) → k < 13 → n.i_sectors k ≡ m.i_sectors k

-- The fields of an inode are words.
pub record IsWords (n : Inode) : Type 0 where
  pub number : n.i_no < 2 ^ 32
  pub size : n.i_size < 2 ^ 32
  pub sectors : (k : ℕ) → k < 13 → n.i_sectors k < 2 ^ 32

-- A drive whose inode `id` was replaced, seen from any place of the table.
patched_at :
    (fs : FileSystem) (id m o : ℕ) (g : ℕ → ℕ)
    → o < 76
    → (patched fs.my_disk (place fs id) g).bytes (place fs m + o)
      ≡ (if m == id then g o else fs.my_disk.bytes (place fs m + o))
patched_at fs id m o g lt = elim (Bool-cases (m == id)) [
  | inl e ↦
      let same : m ≡ id = ground arith in
      let at : place fs m + o - place fs id ≡ o = omega arith in ground arith
  | inr e ↦ let apart : m ≢ id = ground arith in ground arith
]

-- Replacing inode `id` on the disk: what stands there, and every other inode as it was.
module _ (fs : FileSystem) (id : ℕ) (g : ℕ → ℕ) where
  abbrev pub replaced : FileSystem
  replaced = record fs { my_disk = patched fs.my_disk (place fs id) g }

  word_at :
      (m o : ℕ)
      → o + 3 < 76
      → load_word (λ i. replaced.my_disk.bytes (place fs m + i)) o
        ≡ (if m == id then load_word g o else load_word (λ i. fs.my_disk.bytes (place fs m + i)) o)
  word_at m o lt = ground (
    arith,
    patched_at fs id m o g (omega arith),
    patched_at fs id m (o + 1) g (omega arith),
    patched_at fs id m (o + 2) g (omega arith),
    patched_at fs id m (o + 3) g (omega arith),
  )

  replaced-Same :
      (m : ℕ) → Same (disk_inode replaced m) (if m == id then load_inode g 0 else disk_inode fs m)
  unfolding disk_inode load_inode
  replaced-Same m = elim (Bool-cases (m == id)) [
    | inl e ↦ rw e (record {
      number = word_at m 0 (omega arith) ∙ rw e;
      size = word_at m 4 (omega arith) ∙ rw e;
      opens = word_at m 8 (omega arith) ∙ rw e;
      denied = ap (λ w. not (w == 0)) (word_at m 12 (omega arith) ∙ rw e);
      sectors = λ k lt. word_at m (0 + (k + 4) * 4) (omega arith) ∙ rw e;
    })
    | inr e ↦ rw e (record {
      number = word_at m 0 (omega arith) ∙ rw e;
      size = word_at m 4 (omega arith) ∙ rw e;
      opens = word_at m 8 (omega arith) ∙ rw e;
      denied = ap (λ w. not (w == 0)) (word_at m 12 (omega arith) ∙ rw e);
      sectors = λ k lt. word_at m (0 + (k + 4) * 4) (omega arith) ∙ rw e;
    })
  ]

-- The bytes of an inode, read back.
pub image : Inode → ℕ → ℕ
image n o = byte_of_word (inode_word n (o / 4)) (o % 4)

image_word :
    (n : Inode) (k : ℕ) → inode_word n k < 2 ^ 32 → load_word (image n) (k * 4) ≡ inode_word n k
unfolding image
image_word n k lt =
    let a : k * 4 / 4 ≡ k = omega arith in
    let b : (k * 4 + 1) / 4 ≡ k = omega arith in
    let c : (k * 4 + 2) / 4 ≡ k = omega arith in
    let d : (k * 4 + 3) / 4 ≡ k = omega arith in
    let a' : k * 4 % 4 ≡ 0 = omega arith in
    let b' : (k * 4 + 1) % 4 ≡ 1 = omega arith in
    let c' : (k * 4 + 2) % 4 ≡ 2 = omega arith in
    let d' : (k * 4 + 3) % 4 ≡ 3 = omega arith in rw (a, b, c, d, a', b', c', d') (omega arith)

sector_word : (n : Inode) (k : ℕ) → k < 13 → inode_word n (k + 4) ≡ n.i_sectors k
unfolding inode_word
sector_word n k lt = let e : k + 4 - 4 ≡ k = omega arith in ground arith

denied_word : (b : Bool) → ((if b then 1 else 0) < 2 ^ 32) × (not ((if b then 1 else 0) == 0) ≡ b)
denied_word true = (omega arith, refl)
denied_word false = (omega arith, refl)

-- What stands in the bytes of an inode is the inode.
pub load-image : (n : Inode) → IsWords n → n.i_open_cnts < 2 ^ 32 → Same (load_inode (image n) 0) n
unfolding load_inode inode_word
load-image n w o =
    let (bit, back) = denied_word n.write_deny in
    record {
      number = image_word n 0 w.number;
      size = image_word n 1 w.size;
      opens = image_word n 2 o;
      denied = ap (λ v. not (v == 0)) (image_word n 3 bit) ∙ back;
      sectors = λ k lt.
          let e = sector_word n k lt in
          let at : 0 + (k + 4) * 4 ≡ (k + 4) * 4 = omega arith in
          ap (load_word (image n)) at ∙ image_word n (k + 4) (rw e (w.sectors k lt)) ∙ e;
    }

pub inode_locate_lem :
    (fs : FileSystem) (id : ℕ)
    → id < 4096
    → inode_locate fs.cur_part id
      ≡ ok (record {
        two_sec = ltb (512 - id * 76 % 512) 76;
        sec_lba = u32 (fs.cur_part.sb.inode_table_lba + id * 76 / 512);
        off_size = id * 76 % 512;
      })
unfolding inode_locate
inode_locate_lem fs id lt = let e : ltb id 4096 ≡ true = ground arith in assert_passes _ e

store_inode-Patches : (n : Inode) (off : ℕ) → Patches (store_inode n off) off (image n)
unfolding store_inode image
store_inode-Patches n off buf i = refl

clear_inode-Patches : (off : ℕ) → Patches (clear_inode off) off (λ _. 0)
unfolding clear_inode
clear_inode-Patches off buf i = refl

pub inode_sync-replaced :
    (fs : FileSystem) (n : Inode) (io_buf : Buffer)
    → IsMounted fs
    → inode_sync fs n io_buf ≡ ok (replaced fs (n.i_no % 256) (image (pure_inode n)))
unfolding inode_sync
inode_sync-replaced fs n io_buf m =
    let id = n.i_no % 256 in
    let on_disk = m.on_disk in
    let within = m.within in
    let small = m.small in
    let inside : leb (u32 (fs.cur_part.sb.inode_table_lba + id * 76 / 512))
          (u32 (fs.cur_part.start_lba + fs.cur_part.sec_cnt))
        ≡ true =
      le→leb _ _ (omega arith) in
    rw (inode_locate_lem fs id (omega arith)) (
      assert_passes _ inside
      ∙ ap (λ o. o >>= λ hd. ok (record fs { my_disk = hd }))
          (inode_place-patched fs id (store_inode (pure_inode n) (id * 76 % 512))
            (image (pure_inode n)) io_buf m (omega arith)
            (store_inode-Patches (pure_inode n) (id * 76 % 512))))

pub inode_delete-replaced :
    (fs : FileSystem) (id : ℕ) (io_buf : Buffer)
    → IsMounted fs
    → id < 4096
    → inode_delete fs id io_buf ≡ ok (replaced fs id (λ _. 0))
unfolding inode_delete
inode_delete-replaced fs id io_buf m lt = rw (inode_locate_lem fs id lt) (
    assert_passes _ (lt→ltb _ _ lt)
    ∙ ap (λ o. o >>= λ hd. ok (record fs { my_disk = hd }))
        (inode_place-patched fs id (clear_inode (id * 76 % 512)) (λ _. 0) io_buf m lt
          (clear_inode-Patches (id * 76 % 512))))

pub Same-trans : (a b c : Inode) → Same a b → Same b c → Same a c
Same-trans a b c p q = record {
  number = p.number ∙ q.number;
  size = p.size ∙ q.size;
  opens = p.opens ∙ q.opens;
  denied = p.denied ∙ q.denied;
  sectors = λ k lt. p.sectors k lt ∙ q.sectors k lt;
}

-- The disk's inodes once the bytes of one of them are those of n.
pub replaced_by :
    (fs : FileSystem) (id : ℕ) (g : ℕ → ℕ) (n : Inode)
    → Same (load_inode g 0) n
    → (m : ℕ) → Same (disk_inode (replaced fs id g) m) (if m == id then n else disk_inode fs m)
replaced_by fs id g n h m =
    let r = replaced-Same fs id g m in
    elim (Bool-cases (m == id)) [
      | inl e ↦ rw e (Same-trans _ _ _ (rw e at r) h)
      | inr e ↦ rw e (rw e at r)
    ]
