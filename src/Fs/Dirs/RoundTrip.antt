-- ===== src/Fs/Dirs/RoundTrip.antt =====
-- search_dir_entry finds the entry that sync_dir_entry has put into the directory.
use restore_the_operating_sy.Fs.Dirs.Entered.{
  entered, HasRoom, with_entry, sync_dir_entry-with_entry,
}
use restore_the_operating_sy.Base.Word.{Returns-mono, u32, ◌>>=◌, Returns}
use restore_the_operating_sy.Base.{
  eq→==, Bool, ◌⊎◌, subst, length, List, ◌∙◌, sym, lt→ltb, fun_ext, inr, ap, ◌-◌, refl, ne→==, inl,
  arith, ◌≢◌, ◌*◌, ◌+◌, ◌≡◌, ◌<◌, ◌≤◌, ℕ, true, false,
}
use restore_the_operating_sy.Disk.{Drive, Buffer}
use restore_the_operating_sy.Fs.{Inode, FileSystem}
use restore_the_operating_sy.Fs.Dirs.{search_dir_entry, Dir, direct_blocks}
use restore_the_operating_sy.String.Spec.{Holds}
use restore_the_operating_sy.Fs.Dirs.Names.{reads, IsBytes, reads_shift}
use restore_the_operating_sy.Fs.Dirs.Search.{
  is_named, block_of, IsReadable, Searched, search_dir_entry-Searched, disk_entry,
}
use restore_the_operating_sy.Fs.Dirs.Insert.{sync_dir_entry}

module _ (hd : Drive) (lba f : ℕ) (p_de : Buffer) (place : f < 21) where
  -- The entry, and those at other places.
  entered_here : (i : ℕ) → i < 24 → disk_entry (entered hd lba f p_de) lba f i ≡ p_de i
  entered_here i lt =
      let at : lba * 512 + (f * 24 + i) - (lba * 512 + f * 24) ≡ i = omega arith in ground arith

  entered_elsewhere :
      (lba' e i : ℕ)
      → e < 21
      → i < 24
      → (lba' ≢ lba) ⊎ (e ≢ f)
      → disk_entry (entered hd lba f p_de) lba' e i ≡ disk_entry hd lba' e i
  entered_elsewhere lba' e i lt li other = ground arith

same_place : (a b c d : ℕ) → ((a ≢ b) ⊎ (c ≢ d)) ⊎ ((a ≡ b) × (c ≡ d))
same_place a b c d = ground arith

-- The search of the changed drive stops at the entry.
module _ (hd : Drive) (blocks : ℕ → ℕ) (k f : ℕ) (p_de : Buffer) (s : List ℕ) (place : f < 21)
    (short : length s ≤ 15) (inside : k < 140) (used : blocks k ≢ 0) (entry : reads p_de 0 s ≡ true)
    (absent : (b e : ℕ) → b < 140 → e < 21 → is_named hd blocks s b e ≡ false) where
  found_here : is_named (entered hd (blocks k) f p_de) blocks s k f ≡ true
  found_here =
      rw
        (
          ne→== _ 0 used,
          reads_shift (disk_entry (entered hd (blocks k) f p_de) (blocks k) f) p_de 0 0 s
              (λ i le. entered_here hd (blocks k) f p_de place (0 + i) (omega arith)),
        )
        entry

  found_elsewhere :
      (b e : ℕ)
      → b < 140
      → e < 21
      → (blocks b ≢ blocks k) ⊎ (e ≢ f)
      → is_named (entered hd (blocks k) f p_de) blocks s b e ≡ false
  found_elsewhere b e lb le other =
      rw
        (reads_shift (disk_entry (entered hd (blocks k) f p_de) (blocks b) e)
          (disk_entry hd (blocks b) e) 0 0 s
          (λ i li.
            entered_elsewhere hd (blocks k) f p_de place (blocks b) e (0 + i) le (omega arith)
              other))
        (absent b e lb le)

  search_stops :
      (dir_e : Buffer) (r : Bool × Buffer)
      → Searched (entered hd (blocks k) f p_de) blocks s dir_e 140 0 r
      → (r.0 ≡ true) × ((i : ℕ) → i < 24 → r.1 i ≡ p_de i)
  search_stops dir_e (r, de) (inl (t, b, e, lo, hi, le, hit, same, before, above)) =
      elim (same_place (blocks b) (blocks k) e f) [
        | inl other ↦ absurd (ground (arith, found_elsewhere b e hi le other))
        | inr (p, q) ↦
            (t, λ i lt. same i lt ∙ rw (p, q) (entered_here hd (blocks k) f p_de place i lt))
      ]
  search_stops dir_e (r, de) (inr (t, same, above)) =
      absurd (ground (arith, found_here, above k f (omega arith) inside place))

no_table_blocks : (hd : Drive) (n : Inode) → n.i_sectors 12 ≡ 0 → block_of hd n ≡ direct_blocks n
no_table_blocks hd n e = fun_ext (λ i. ground arith)

-- What was readable still is.
grown-IsReadable :
    (hd : Drive) (n n' : Inode) (lba f : ℕ) (p_de : Buffer)
    → IsReadable hd n
    → n.i_sectors 12 ≡ 0
    → IsBytes p_de
    → n' ≡ record n { i_size = u32 (n.i_size + 24) }
    → IsReadable (entered hd lba f p_de) n'
grown-IsReadable hd n n' lba f p_de h e pb g =
    let table : n'.i_sectors 12 ≡ 0 = ap (λ (m : Inode). m.i_sectors 12) g ∙ e in
    record {
      ready = h.ready;
      bytes = λ a. ground (arith, pb (a - (lba * 512 + f * 24)), h.bytes a);
      table = omega (arith, table);
      blocks = λ i lt.
          subst (λ b. b i < 163840)
            (sym (no_table_blocks (entered hd lba f p_de) n' table ∙ ap direct_blocks g))
            (subst (λ b. b i < 163840) (no_table_blocks hd n e) (h.blocks i lt));
    }

-- A directory without indirect blocks, whose blocks lie on a drive that answers, has its first free
-- place in a direct block, and none of its entries has a given name of at most 15 characters. After
-- sync_dir_entry with an entry of that name, search_dir_entry returns true and the entry's 24 bytes.
pub search-sync_dir_entry :
    (fs : FileSystem) (dir : Dir) (p_de io_buf dir_e name : Buffer) (s : List ℕ) (fuel k f : ℕ)
    → HasRoom fs dir k f
    → IsReadable fs.my_disk (fs.inode dir.inode)
    → (fs.inode dir.inode).i_sectors 12 ≡ 0
    → IsBytes p_de
    → IsBytes name
    → Holds name 0 s
    → reads p_de 0 s ≡ true
    → length s < fuel
    → length s ≤ 15
    → ((b e : ℕ)
        → b < 140
        → e < 21
        → is_named fs.my_disk (direct_blocks (fs.inode dir.inode)) s b e ≡ false)
    → Returns
        (λ r. (r.0 ≡ true) × ((i : ℕ) → i < 24 → r.1 i ≡ p_de i))
        (sync_dir_entry fs dir p_de io_buf >>= λ t. search_dir_entry fuel t.0 dir true name dir_e)
search-sync_dir_entry fs dir p_de io_buf dir_e name s fuel k f h readable no_table pb nb named entry
      enough short absent =
    let n = fs.inode dir.inode in
    let fs' = with_entry fs dir k f p_de in
    let hd' = entered fs.my_disk (n.i_sectors k) f p_de in
    let grown : fs'.inode dir.inode ≡ record n { i_size = u32 (n.i_size + 24) } =
      rw (eq→== dir.inode dir.inode refl) refl in
    let table : (fs'.inode dir.inode).i_sectors 12 ≡ 0 =
      ap (λ (m : Inode). m.i_sectors 12) grown ∙ no_table in
    let blocks : block_of hd' (fs'.inode dir.inode) ≡ direct_blocks n =
      no_table_blocks hd' (fs'.inode dir.inode) table ∙ ap direct_blocks grown in
    let at : direct_blocks n k ≡ n.i_sectors k = rw (lt→ltb k 12 h.direct) refl in
    rw (sync_dir_entry-with_entry fs dir p_de io_buf k f h) (
      Returns-mono _ (search_dir_entry fuel fs' dir true name dir_e)
        (search_dir_entry-Searched fuel fs' dir name dir_e s
          (grown-IsReadable fs.my_disk n (fs'.inode dir.inode) (n.i_sectors k) f p_de readable
            no_table pb grown)
          h.size nb named enough (omega arith))
        λ r q.
          search_stops fs.my_disk (direct_blocks n) k f p_de s h.place short
            (omega (arith, h.direct)) (λ z. h.used k (omega arith) (sym at ∙ z)) entry absent dir_e
            r
            (subst (λ x. Searched (entered fs.my_disk x f p_de) (direct_blocks n) s dir_e 140 0 r)
              (sym at) (subst (λ b. Searched hd' b s dir_e 140 0 r) blocks q)))
