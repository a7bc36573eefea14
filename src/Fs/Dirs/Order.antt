-- ===== src/Fs/Dirs/Order.antt =====
-- dir_read gives the entries of a directory in their order.
use restore_the_operating_sy.Base.{
  ◌-◌, ℕ, zero, suc, ◌+◌, ◌*◌, ◌≤◌, ◌<◌, ◌≡◌, ◌≢◌, ◌⊎◌, inl, inr, refl, sym, ap, subst, ◌∙◌, true,
  false, ◌==◌, ltb, leb, if◌then◌else◌, eq→==, ne→==, ==→ne, lt→ltb, le→ltb, Bool-cases, some,
  arith,
}
use restore_the_operating_sy.Base.Word.{Returns, u32, ok}
use restore_the_operating_sy.Disk.{Drive, Buffer}
use restore_the_operating_sy.Disk.Transfer.{fetched, ide_read-fetched}
use restore_the_operating_sy.Fs.{FileSystem}
use restore_the_operating_sy.Fs.Dirs.{Dir, entry_at, entry_type, dir_blocks, direct_blocks}
use restore_the_operating_sy.Fs.Dirs.Search.{disk_entry, fetched_byte}
use restore_the_operating_sy.Fs.Dirs.Entered.{type_read}
use restore_the_operating_sy.Fs.Dirs.Listing.{
  after_sector, listed, list_sector, list_blocks, dir_read,
}

-- How many of the first e entries are in use, of entries with the given types.
abbrev pub used_before : (ℕ → ℕ) → ℕ → ℕ
used_before type zero = 0
used_before type (suc e) = (if type e == 0 then 0 else 1) + used_before type e

used_before-le : (type : ℕ → ℕ) (e d : ℕ) → used_before type e ≤ used_before type (d + e)
used_before-le type e zero = let same : zero + e ≡ e = omega arith in rw same (omega arith)
used_before-le type e (suc d) =
    let rest = used_before-le type e d in
    let next : suc d + e ≡ suc (d + e) = omega arith in rw next (ground (arith, rest))

used_before-bound : (type : ℕ → ℕ) (e : ℕ) → used_before type e ≤ e
used_before-bound type zero = omega arith
used_before-bound type (suc e) = let rest = used_before-bound type e in ground (arith, rest)

-- An entry in use, and those before it.
used_before-lt :
    (type : ℕ → ℕ) (idx e : ℕ) → idx < e → type idx ≢ 0 → used_before type idx < used_before type e
used_before-lt type idx e lt used =
    let far = used_before-le type (suc idx) (e - suc idx) in
    let at : e - suc idx + suc idx ≡ e = omega arith in
    subst (λ v. used_before type idx < used_before type v) at (ground (arith, far))

-- The loop from idx on stops at the entry e.
list_sector_lem :
    (buf : Buffer) (left idx e : ℕ)
    → idx ≤ e
    → e < idx + left
    → e < 21
    → entry_type (entry_at buf e) ≢ 0
    → let before = used_before (λ i. entry_type (entry_at buf i)) in
      list_sector buf (before e * 24) 24 left idx (before idx * 24) ≡ ok (listed e)
unfolding list_sector
list_sector_lem buf zero idx e lo hi lt used = absurd (omega arith)
list_sector_lem buf (suc left) idx e lo hi lt used =
    let type : ℕ → ℕ = λ i. entry_type (entry_at buf i) in
    let here : (idx ≡ e) ⊎ (idx < e) = omega arith in
    elim here [
      | inl q ↦
          let stop : (type idx == 0) ≡ false = ne→== _ _ (subst (λ i. type i ≢ 0) (sym q) used) in
          rw
            (
              stop,
              ap (used_before type) q,
              le→ltb (used_before type e * 24) (used_before type e * 24) (omega arith),
              eq→== (used_before type e * 24) (used_before type e * 24) refl,
            )
            (ap (λ i. ok (listed i)) q)
      | inr q ↦ elim (Bool-cases (type idx == 0)) [
        | inl free ↦
            let next : idx + 1 ≡ suc idx = omega arith in
            let count : used_before type idx ≡ used_before type (idx + 1) =
              rw next (rw free (omega arith)) in
            rw free (
              ap (λ c. list_sector buf (used_before type e * 24) 24 left (idx + 1) (c * 24)) count
              ∙ list_sector_lem buf left (idx + 1) e (omega arith) (omega arith) lt used)
        | inr taken ↦
            let next : idx + 1 ≡ suc idx = omega arith in
            let less = used_before-lt type idx e q (==→ne _ _ taken) in
            let bound = used_before-bound type e in
            let count : u32 (used_before type idx * 24 + 24) ≡ used_before type (idx + 1) * 24 =
              rw next (rw taken (omega (arith, less, bound))) in
            rw
              (
                taken,
                lt→ltb (used_before type idx * 24) (used_before type e * 24) (omega (arith, less)),
              )
              (ap (λ c. list_sector buf (used_before type e * 24) 24 left (idx + 1) c) count
                ∙ list_sector_lem buf left (idx + 1) e (omega arith) (omega arith) lt used)
      ]
    ]

used_before-same :
    (type type' : ℕ → ℕ) (e : ℕ)
    → ((i : ℕ) → i < e → type i ≡ type' i)
    → used_before type e ≡ used_before type' e
used_before-same type type' zero same = refl
used_before-same type type' (suc e) same =
    rw (same e (omega arith), used_before-same type type' e (λ i lt. same i (omega arith))) refl

-- The round of the loop that finds the entry.
list_blocks-listed :
    (hd : Drive) (i_size left e : ℕ) (blocks : ℕ → ℕ) (dir : Dir)
    → hd.ready ≡ true
    → dir.dir_pos < i_size
    → blocks 0 ≢ 0
    → blocks 0 < 163840
    → let sector = fetched hd (blocks 0) (λ i. if ltb i 512 then 0 else dir.dir_buf i) 0 1 in
      list_sector sector dir.dir_pos 24 21 0 0 ≡ ok (listed e)
      → list_blocks hd i_size 24 blocks (suc left) 0 0 dir
        ≡ ok (record dir { dir_pos = u32 (dir.dir_pos + 24); dir_buf = sector }, some e)
unfolding list_blocks after_sector
list_blocks-listed hd i_size left e blocks dir ready inside there on_disk stop =
    let more : leb i_size dir.dir_pos ≡ false = ground (arith, inside) in
    rw
      (
        more,
        ne→== (blocks 0) 0 there,
        ide_read-fetched hd (blocks 0) (λ i. if ltb i 512 then 0 else dir.dir_buf i) 1 ready
            (omega arith) (omega arith),
        stop,
      )
      refl

-- In a directory without indirect blocks, whose first block lies on a drive that answers, with entries
-- of 24 bytes: where dir_pos counts the entries in use that stand before an entry in use of that block,
-- and lies within the directory, dir_read returns this entry, with its block in dir_buf, and counts it.
pub dir_read-next_entry :
    (fs : FileSystem) (dir : Dir) (e : ℕ)
    → let n = fs.inode dir.inode in
      let lba = n.i_sectors 0 in
      let hd = fs.my_disk in
      hd.ready ≡ true
      → fs.cur_part.sb.dir_entry_size ≡ 24
      → n.i_sectors 12 ≡ 0
      → lba ≢ 0
      → lba < 163840
      → e < 21
      → entry_type (disk_entry hd lba e) ≢ 0
      → dir.dir_pos ≡ used_before (λ i. entry_type (disk_entry hd lba i)) e * 24
      → dir.dir_pos < n.i_size
      → Returns
          (λ (dir', found).
            (found ≡ some e)
            × (dir'.dir_pos ≡ dir.dir_pos + 24)
            × (dir'.inode ≡ dir.inode)
            × ((i : ℕ) → i < 512 → dir'.dir_buf i ≡ hd.bytes (lba * 512 + i)))
          (dir_read fs dir)
unfolding dir_read dir_blocks
dir_read-next_entry fs dir e ready size no_table there on_disk lt used pos inside =
    let n = fs.inode dir.inode in
    let lba = n.i_sectors 0 in
    let hd = fs.my_disk in
    let buf : Buffer = λ i. if ltb i 512 then 0 else dir.dir_buf i in
    let sector = fetched hd lba buf 0 1 in
    let bound = used_before-bound (λ i. entry_type (disk_entry hd lba i)) e in
    let at : dir.dir_pos ≡ used_before (λ i. entry_type (entry_at sector i)) e * 24 =
      pos
      ∙ ap (λ c. c * 24)
          (used_before-same (λ i. entry_type (disk_entry hd lba i))
            (λ i. entry_type (entry_at sector i)) e
            (λ i below. sym (type_read hd lba buf i (omega arith)))) in
    let stop : list_sector sector dir.dir_pos 24 21 0 0 ≡ ok (listed e) =
      ap (λ p. list_sector sector p 24 21 0 0) at
      ∙ list_sector_lem sector 21 0 e (omega arith) (omega arith) lt
          (λ z. used (sym (type_read hd lba buf e lt) ∙ z)) in
    let found : list_blocks hd n.i_size 24 (direct_blocks n) 12 0 0 dir
        ≡ ok (record dir { dir_pos = u32 (dir.dir_pos + 24); dir_buf = sector }, some e) =
      list_blocks-listed hd n.i_size 11 e (direct_blocks n) dir ready inside there on_disk stop in
    rw (size, no_table, found)
      (refl, omega (arith, pos, bound), refl, λ i lt'. fetched_byte hd lba buf i lt')
