-- ===== src/Fs/Dirs/Search.antt =====
-- search_dir_entry finds the first entry of the directory that has the name.
use restore_the_operating_sy.Base.Word.{ok, Outcome, Returns-mono, Returns}
use restore_the_operating_sy.Base.{
  fun_ext, ap, ◌∙◌, sym, Option, ◌⊎◌, length, ◌≤◌, refl, inr, arith, inl, ◌&&◌, ◌-◌, not, ◌==◌,
  Bool-cases, Bool, ◌+◌, ltb, ◌<◌, List, ◌*◌, if◌then◌else◌, ◌≡◌, ℕ, zero, suc, true, false, some,
  none,
}
use restore_the_operating_sy.Disk.{Drive, Buffer}
use restore_the_operating_sy.Disk.Transfer.{fetched, ide_read-fetched}
use restore_the_operating_sy.String.Spec.{Holds}
use restore_the_operating_sy.Fs.{Inode, FileSystem}
use restore_the_operating_sy.Fs.Inodes.{load_word}
use restore_the_operating_sy.Fs.Dirs.{
  Dir, dir_blocks, entry_or, entry_at, search_blocks, search_dir_entry,
}
use restore_the_operating_sy.Fs.Dirs.Names.{
  reads, IsBytes, reads_shift, first_named, IsFirst, first_named-IsFirst, find_name-first_named,
}

-- The block of a directory with the given index, 0 if it has none: the table of the indirect blocks
-- is that on the disk.
abbrev pub block_of : Drive → Inode → ℕ → ℕ
block_of hd n i =
    if ltb i 12
    then n.i_sectors i
    else if n.i_sectors 12 == 0
    then 0
    else if ltb i 140
    then load_word hd.bytes (n.i_sectors 12 * 512 + (i - 12) * 4)
    else 0

-- The bytes of entry e of a block, and whether they have the name.
abbrev pub disk_entry : Drive → ℕ → ℕ → Buffer
disk_entry hd lba e i = hd.bytes (lba * 512 + (e * 24 + i))

abbrev pub is_named : Drive → (ℕ → ℕ) → List ℕ → ℕ → ℕ → Bool
is_named hd blocks s b e = not (blocks b == 0) && reads (disk_entry hd (blocks b) e) 0 s

-- A drive that answers and blocks that lie on it.
pub record IsReadable (hd : Drive) (n : Inode) : Type 0 where
  pub ready : hd.ready ≡ true
  pub bytes : IsBytes hd.bytes
  pub table : n.i_sectors 12 < 163840
  pub blocks : (i : ℕ) → i < 140 → block_of hd n i < 163840

-- The bytes and words of a sector that was read.
pub fetched_byte :
    (hd : Drive) (lba : ℕ) (buf : Buffer) (o : ℕ)
    → o < 512
    → fetched hd lba buf 0 1 o ≡ hd.bytes (lba * 512 + o)
fetched_byte hd lba buf o lt = ground arith

pub fetched_word :
    (hd : Drive) (lba : ℕ) (buf : Buffer) (o : ℕ)
    → o + 3 < 512
    → load_word (fetched hd lba buf 0 1) o ≡ load_word hd.bytes (lba * 512 + o)
fetched_word hd lba buf o lt =
    rw
      (
        fetched_byte hd lba buf o (omega arith),
        fetched_byte hd lba buf (o + 1) (omega arith),
        fetched_byte hd lba buf (o + 2) (omega arith),
        fetched_byte hd lba buf (o + 3) (omega arith),
      )
      (ground arith)

pub dir_blocks_lem :
    (hd : Drive) (n : Inode) → IsReadable hd n → dir_blocks hd n ≡ ok (block_of hd n)
unfolding dir_blocks
dir_blocks_lem hd n h = elim (Bool-cases (n.i_sectors 12 == 0)) [
  | inl e ↦ rw e (ap ok (fun_ext (λ i. rw e refl)))
  | inr e ↦
      rw
        (
          e,
          ide_read-fetched hd (n.i_sectors 12) (λ _. 0) 1 h.ready (omega arith)
              (omega (arith, h.table)),
        )
        (ap ok (fun_ext (λ i. rw e (entry i))))
]
  where
    entry :
        (i : ℕ)
        → (if ltb i 12
            then n.i_sectors i
            else load_word (fetched hd (n.i_sectors 12) (λ _. 0) 0 1) ((i - 12) * 4))
          ≡ (if ltb i 12
              then n.i_sectors i
              else if ltb i 140
              then load_word hd.bytes (n.i_sectors 12 * 512 + (i - 12) * 4)
              else 0)
    entry i = elim (Bool-cases (ltb i 140)) [
      | inl d ↦ rw d (
          ap (λ w. if ltb i 12 then n.i_sectors i else w)
            (fetched_word hd (n.i_sectors 12) (λ _. 0) ((i - 12) * 4) (ground arith)))
      | inr d ↦ ground arith
    ]

-- The search over the blocks from idx on: it finds the first entry with the name and stores its
-- bytes, or there is none and nothing is stored.
abbrev pub Searched : Drive → (ℕ → ℕ) → List ℕ → Buffer → ℕ → ℕ → Bool × Buffer → Type 0
Searched hd blocks s dir_e left idx (r, de) =
    ((r ≡ true)
      × (b : ℕ) × (e : ℕ) × (idx ≤ b)
      × (b < idx + left)
      × (e < 21)
      × (is_named hd blocks s b e ≡ true)
      × ((i : ℕ) → i < 24 → de i ≡ disk_entry hd (blocks b) e i)
      × ((e' : ℕ) → e' < e → is_named hd blocks s b e' ≡ false)
      × ((b' e' : ℕ) → idx ≤ b' → b' < b → e' < 21 → is_named hd blocks s b' e' ≡ false))
    ⊎ ((r ≡ false)
        × (de ≡ dir_e)
        × ((b' e' : ℕ) → idx ≤ b' → b' < idx + left → e' < 21 → is_named hd blocks s b' e' ≡ false))

-- A block without the name stands before the others.
Searched-skip :
    (hd : Drive) (blocks : ℕ → ℕ) (s : List ℕ) (dir_e : Buffer) (left idx : ℕ) (r : Bool × Buffer)
    → ((e : ℕ) → e < 21 → is_named hd blocks s idx e ≡ false)
    → Searched hd blocks s dir_e left (idx + 1) r
    → Searched hd blocks s dir_e (suc left) idx r
Searched-skip hd blocks s dir_e left idx (r, de) miss
      (inl (t, b, e, lo, hi, le, hit, same, before, above)) =
    inl (
      t,
      b,
      e,
      omega arith,
      omega arith,
      le,
      hit,
      same,
      before,
      λ b' e' lo' hi' le'. elim (at_or_after b' lo') [
        | inl q ↦ rw q (miss e' le')
        | inr q ↦ above b' e' q hi' le'
      ],
    )
  where
    at_or_after : (b' : ℕ) → idx ≤ b' → (b' ≡ idx) ⊎ (idx + 1 ≤ b')
    at_or_after b' le' = omega arith
Searched-skip hd blocks s dir_e left idx (r, de) miss (inr (t, same, above)) = inr (
  t,
  same,
  λ b' e' lo' hi' le'. elim (at_or_after b' lo') [
    | inl q ↦ rw q (miss e' le')
    | inr q ↦ above b' e' q (omega arith) le'
  ],
)
  where
    at_or_after : (b' : ℕ) → idx ≤ b' → (b' ≡ idx) ⊎ (idx + 1 ≤ b')
    at_or_after b' le' = omega arith

module _ (hd : Drive) (blocks : ℕ → ℕ) (fuel : ℕ) (name : Buffer) (s : List ℕ) (dir_e : Buffer)
    (ready : hd.ready ≡ true) (bytes : IsBytes hd.bytes) (name_bytes : IsBytes name)
    (named : Holds name 0 s) (enough : length s < fuel) (short : length s ≤ 15) where
  -- An entry of the sector that was read is the entry on the disk.
  entry_read :
      (b e : ℕ) (buf : Buffer)
      → (blocks b == 0) ≡ false
      → e < 21
      → reads (entry_at (fetched hd (blocks b) buf 0 1) e) 0 s ≡ is_named hd blocks s b e
  entry_read b e buf used lt = rw used (
      reads_shift (entry_at (fetched hd (blocks b) buf 0 1) e) (disk_entry hd (blocks b) e) 0 0 s
        (λ i le. fetched_byte hd (blocks b) buf (e * 24 + (0 + i)) (omega arith)))

  -- A sector that was searched: the entry is there, or the search goes on.
  go_on :
      (left idx : ℕ) (buf : Buffer)
      → (blocks idx == 0) ≡ false
      → (o : Option ℕ) → IsFirst (fetched hd (blocks idx) buf 0 1) s 21 0 o
      → (rest : Outcome (Bool × Buffer)) → Returns (Searched hd blocks s dir_e left (idx + 1)) rest
      → Returns
          (Searched hd blocks s dir_e (suc left) idx)
          (entry_or 24 dir_e (fetched hd (blocks idx) buf 0 1) o rest)
  go_on left idx buf used none miss rest h = Returns-mono _ rest h (λ r q.
      Searched-skip hd blocks s dir_e left idx r
        (λ e lt. sym (entry_read idx e buf used lt) ∙ miss e (omega arith) lt) q)
  go_on left idx buf used (some e) (lo, hi, hit, before) rest h = inl (
    refl,
    idx,
    e,
    omega arith,
    omega arith,
    hi,
    sym (entry_read idx e buf used hi) ∙ hit,
    (λ i lt. ground (arith, fetched_byte hd (blocks idx) buf (e * 24 + i) (omega arith))),
    (λ e' lt. sym (entry_read idx e' buf used (omega arith)) ∙ before e' (omega arith) lt),
    (λ b' e' lo' hi' le. absurd (omega arith)),
  )

  search_blocks-Searched :
      (left idx : ℕ) (buf : Buffer)
      → ((i : ℕ) → idx ≤ i → i < idx + left → blocks i < 163840)
      → IsBytes buf
      → Returns
          (Searched hd blocks s dir_e left idx)
          (search_blocks fuel hd blocks 24 name dir_e left idx buf)
  unfolding search_blocks
  search_blocks-Searched zero idx buf small bb =
      inr (refl, refl, λ b' e' lo hi le. absurd (omega arith))
  search_blocks-Searched (suc left) idx buf small bb = elim (Bool-cases (blocks idx == 0)) [
    | inl empty ↦ rw empty (
        Returns-mono _ (search_blocks fuel hd blocks 24 name dir_e left (idx + 1) buf)
          (search_blocks-Searched left (idx + 1) buf
            (λ i lo hi. small i (omega arith) (omega arith)) bb)
          (λ r h. Searched-skip hd blocks s dir_e left idx r (λ e lt. rw empty refl) h))
    | inr used ↦
        let lba = blocks idx in
        let sector = fetched hd lba buf 0 1 in
        let on_disk : lba + 1 ≤ 163840 = omega (arith, small idx (omega arith) (omega arith)) in
        let sb : IsBytes sector = λ a. ground (arith, bytes (lba * 512 + a), bb a) in
        rw
          (
            used,
            ide_read-fetched hd lba buf 1 ready (omega arith) on_disk,
            find_name-first_named fuel sector name s 21 0 sb name_bytes named enough (omega arith),
          )
          (go_on left idx buf used (first_named sector s 21 0) (first_named-IsFirst sector s 21 0) _
            (search_blocks-Searched left (idx + 1) (λ i. if ltb i 512 then 0 else sector i)
              (λ i lo hi. small i (omega arith) (omega arith)) (λ a. ground (arith, sb a))))
  ]

-- In a directory whose blocks lie on a drive that answers, with entries of 24 bytes: for a name of at
-- most 15 characters, which leaves the field a terminating 0, search_dir_entry returns true, with the bytes of the first entry that has the
-- name, or there is no such entry in any block, and it returns false and stores nothing.
pub search_dir_entry-Searched :
    (fuel : ℕ) (fs : FileSystem) (dir : Dir) (name dir_e : Buffer) (s : List ℕ)
    → IsReadable fs.my_disk (fs.inode dir.inode)
    → fs.cur_part.sb.dir_entry_size ≡ 24
    → IsBytes name
    → Holds name 0 s
    → length s < fuel
    → length s ≤ 15
    → Returns
        (Searched fs.my_disk (block_of fs.my_disk (fs.inode dir.inode)) s dir_e 140 0)
        (search_dir_entry fuel fs dir true name dir_e)
unfolding search_dir_entry
search_dir_entry-Searched fuel fs dir name dir_e s h size nb named enough short =
    let n = fs.inode dir.inode in
    rw (size, dir_blocks_lem fs.my_disk n h)
      (search_blocks-Searched fs.my_disk (block_of fs.my_disk n) fuel name s dir_e h.ready h.bytes
        nb named enough short 140 0 (λ _. 0) (λ i lo hi. h.blocks i hi) (λ a. omega arith))
