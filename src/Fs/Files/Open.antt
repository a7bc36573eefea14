-- ===== src/Fs/Files/Open.antt =====
-- file_open: the counts, and what becomes of a writer.
use restore_the_operating_sy.Base.{
  ◌∙◌, ap, ◌≤◌, refl, eq→==, true, ne→==, some, ◌==◌, false, arith, inr, inl, Bool-cases, ◌<◌, ℕ,
  ◌≡◌, ◌≢◌, ◌⊎◌, if◌then◌else◌,
}
use restore_the_operating_sy.Base.Word.{sub_u32, Returns-bind, Returns, minus_one, null}
use restore_the_operating_sy.Fs.{Partition, File, FileSystem, update}
use restore_the_operating_sy.Fs.Inodes.{inode_close, find_open, inode_open}
use restore_the_operating_sy.Fs.Inodes.Place.{IsMounted}
use restore_the_operating_sy.Fs.Files.{
  inode_close, file_close, find_descriptor, file_open, claim_file, pcb_fd_install,
  get_free_slot_in_global, writes,
}
use restore_the_operating_sy.Fs.Files.Slots.{
  pcb_fd_install-Installed, get_free_slot_in_global-FirstSlot,
}
use restore_the_operating_sy.Fs.Files.Counts.{
  in_list, slots-le, IsCounted, Opened, is_open, slots-update, inode_open-Opened,
}

-- The counts depend on the file table, the list and the opens alone.
IsCounted-same :
    (held : ℕ → ℕ) (fs fs' : FileSystem)
    → IsCounted held fs
    → fs'.file_table ≡ fs.file_table
    → fs'.cur_part.open_inodes ≡ fs.cur_part.open_inodes
    → ((a : ℕ) → (fs'.inode a).i_open_cnts ≡ (fs.inode a).i_open_cnts)
    → IsCounted held fs'
IsCounted-same held fs fs' c t l o = record {
  counted = λ a p. rw (t, o a) (c.counted a (rw l at p));
  unused = λ a n p. rw t (c.unused a n (rw l at p));
  distinct = rw l c.distinct;
  no_null = rw l c.no_null;
  few = c.few;
}

-- The slot is filled for the inode that inode_open gave.
filled :
    (held : ℕ → ℕ) (fs : FileSystem) (r : FileSystem × ℕ) (slot : ℕ) (f : File)
    → IsCounted held fs
    → Opened fs r
    → slot < 32
    → (fs.file_table slot).fd_inode ≡ null
    → f.fd_inode ≡ r.1
    → IsCounted held (record r.0 { file_table = update r.0.file_table slot f })
filled held fs r slot f c o lt free e =
    let step = λ (b : ℕ). slots-update 32 fs.file_table slot f b lt in
    let list = o.list in
    rw o.table (elim (Bool-cases (is_open fs r.1)) [
      | inl t ↦ record {
        counted = λ b p. ground (
          arith,
          list,
          step b,
          o.opens b,
          c.counted b,
          c.few b,
          slots-le 32 fs.file_table b,
          c.no_null,
        );
        unused = λ b n p. ground (arith, list, step b, c.unused b n);
        distinct = rw (list, t) c.distinct;
        no_null = rw (list, t) c.no_null;
        few = c.few;
      }
      | inr t ↦ record {
        counted = λ b p.
            ground (arith, list, step b, o.opens b, c.counted b, c.unused b, c.few b, c.no_null);
        unused = λ b n p. ground (arith, list, step b, c.unused b n);
        distinct = rw (list, t) (t, c.distinct);
        no_null = ground (arith, list, o.found, c.no_null);
        few = c.few;
      }
    ])

install-IsCounted :
    (held : ℕ → ℕ) (fs : FileSystem) (slot : ℕ)
    → IsCounted held fs
    → IsCounted held (pcb_fd_install fs slot).0
unfolding pcb_fd_install
install-IsCounted held fs slot c = elim (Bool-cases (find_descriptor fs.fd_table 5 3 == 8)) [
  | inl e ↦ rw e c
  | inr e ↦ rw e (IsCounted-same held fs _ c refl refl (λ a. refl))
]

claim_file-IsCounted :
    (held : ℕ → ℕ) (fs : FileSystem) (slot a flag : ℕ)
    → IsCounted held fs
    → IsCounted held (claim_file fs slot a flag).0
unfolding claim_file
claim_file-IsCounted held fs slot a flag c = elim (Bool-cases (writes flag)) [
  | inl e ↦ rw e (elim (Bool-cases (fs.inode a).write_deny) [
    | inl d ↦ rw d c
    | inr d ↦
        rw d
          (install-IsCounted held _ slot (IsCounted-same held fs _ c refl refl (λ b. ground arith)))
  ])
  | inr e ↦ rw e (install-IsCounted held fs slot c)
]

claim_file-table :
    (fs : FileSystem) (slot a flag : ℕ)
    → ((claim_file fs slot a flag).0.file_table ≡ fs.file_table)
      × ((claim_file fs slot a flag).0.cur_part ≡ fs.cur_part)
unfolding claim_file pcb_fd_install
claim_file-table fs slot a flag = elim (Bool-cases (writes flag)) [
  | inl e ↦ rw e (elim (Bool-cases (fs.inode a).write_deny) [
    | inl d ↦ rw d (refl, refl)
    | inr d ↦ rw d (elim (Bool-cases (find_descriptor fs.fd_table 5 3 == 8)) [
      | inl g ↦ rw g (refl, refl)
      | inr g ↦ rw g (refl, refl)
    ])
  ])
  | inr e ↦ rw e (elim (Bool-cases (find_descriptor fs.fd_table 5 3 == 8)) [
    | inl g ↦ rw g (refl, refl)
    | inr g ↦ rw g (refl, refl)
  ])
]

-- What inode_open gives is open.
Opened-is_open : (fs : FileSystem) (r : FileSystem × ℕ) → Opened fs r → is_open r.0 r.1 ≡ true
Opened-is_open fs r o = elim (Bool-cases (is_open fs r.1)) [
  | inl t ↦ rw (o.list, t) t
  | inr t ↦ rw (o.list, t) (ground arith)
]

-- The file table was full and nothing has changed, or its first free slot is filled for an inode.
abbrev pub SlotTaken : FileSystem → ℕ → FileSystem × ℕ → Type 0
SlotTaken fs flag (fs', result) =
    ((fs' ≡ fs)
      × (result ≡ minus_one)
      × ((k : ℕ) → 3 ≤ k → k < 32 → (fs.file_table k).fd_inode ≢ null))
    ⊎ ((slot : ℕ) × (a : ℕ) × (slot < 32)
        × ((fs.file_table slot).fd_inode ≡ null)
        × (a ≢ null)
        × (is_open fs' a ≡ true)
        × (fs'.file_table ≡ (λ i.
            if i == slot
            then record { fd_pos = 0; fd_flag = flag; fd_inode = a }
            else fs.file_table i)))

-- file_open of an inode below 4096, at a fresh address for one that is not open, passes its ASSERTs.
-- With a full file table it returns -1 and nothing changes. Otherwise a free slot is filled for an open
-- inode and the other slots stay, also where the call then returns -1 because a writer is refused or no
-- descriptor is free. The open count of each inode in memory is the number of its users: the slots that
-- are for it, those that a call which returned -1 has filled among them, and others than slots.
pub file_open-IsCounted :
    (held : ℕ → ℕ) (fs : FileSystem) (id flag addr : ℕ)
    → IsCounted held fs
    → IsMounted fs
    → id < 4096
    → addr ≢ null
    → is_open fs addr ≡ false
    → Returns (λ r. IsCounted held r.0 × SlotTaken fs flag r) (file_open fs id flag addr)
unfolding file_open
file_open-IsCounted held fs id flag addr c m lt ne new =
    elim (get_free_slot_in_global-FirstSlot fs) [
      | inl (lo, hi, free, used) ↦ rw (ne→== (get_free_slot_in_global fs) minus_one (omega arith)) (
          Returns-bind _ (inode_open fs id addr) _ (inode_open-Opened held fs id addr c m lt ne new)
            λ r o.
              let slot = get_free_slot_in_global fs in
              let f : File = record { fd_pos = 0; fd_flag = flag; fd_inode = r.1 } in
              let opened = record r.0 { file_table = update r.0.file_table slot f } in
              let kept = claim_file-table opened slot r.1 flag in
              (
                claim_file-IsCounted held opened slot r.1 flag
                    (filled held fs r slot f c o hi free refl),
                inr (
                  slot,
                  r.1,
                  hi,
                  free,
                  o.found,
                  ap (λ (q : Partition). in_list r.1 q.open_inodes) kept.1 ∙ Opened-is_open fs r o,
                  kept.0 ∙ ap (λ (t : ℕ → File). update t slot f) o.table,
                ),
              ))
      | inr (e, used) ↦ rw (eq→== _ _ e) (c, inl (refl, refl, used))
    ]

-- A writer that is refused because another has the file is told -1, and yet keeps its slot of the file
-- table, which stays filled for the inode.
pub file_open-refused_writer :
    (fs : FileSystem) (id flag addr a : ℕ)
    → find_open fs.inode fs.cur_part.open_inodes id ≡ some a
    → (fs.inode a).write_deny ≡ true
    → writes flag ≡ true
    → get_free_slot_in_global fs ≢ minus_one
    → Returns
        (λ r.
          (r.1 ≡ minus_one)
          × ((r.0.file_table (get_free_slot_in_global fs)).fd_inode ≡ a)
          × (r.0.fd_table ≡ fs.fd_table))
        (file_open fs id flag addr)
unfolding file_open inode_open claim_file
file_open-refused_writer fs id flag addr a e d w free =
    rw (ne→== _ _ free, e, w, eq→== a a refl, d)
      (refl, rw (eq→== (get_free_slot_in_global fs) (get_free_slot_in_global fs) refl), refl)

install_free :
    (fs : FileSystem) (slot k : ℕ)
    → 3 ≤ k
    → k < 8
    → fs.fd_table k ≡ minus_one
    → ((pcb_fd_install fs slot).1 < 8) × ((pcb_fd_install fs slot).0.file_table ≡ fs.file_table)
install_free fs slot k lo hi free = elim (pcb_fd_install-Installed fs slot) [
  | inl (a, b, c, d) ↦ (b, ap (λ (g : FileSystem). g.file_table) d)
  | inr (e, used) ↦ absurd (used k lo hi free)
]

claim_unlocked :
    (fs : FileSystem) (slot a flag k : ℕ)
    → (fs.inode a).write_deny ≡ false
    → 3 ≤ k
    → k < 8
    → fs.fd_table k ≡ minus_one
    → ((claim_file fs slot a flag).1 < 8)
      × ((claim_file fs slot a flag).0.file_table ≡ fs.file_table)
unfolding claim_file
claim_unlocked fs slot a flag k d lo hi free = elim (Bool-cases (writes flag)) [
  | inl e ↦ rw (e, d) (install_free _ slot k lo hi free)
  | inr e ↦ rw e (install_free fs slot k lo hi free)
]

file_close-write_deny :
    (fs : FileSystem) (slot : ℕ)
    → let closed = (file_close fs (some slot)).0 in
      ((closed.inode (fs.file_table slot).fd_inode).write_deny ≡ false)
      × (closed.fd_table ≡ fs.fd_table)
      × ((i : ℕ) → i ≢ slot → closed.file_table i ≡ fs.file_table i)
unfolding file_close inode_close
file_close-write_deny fs slot =
    let a = (fs.file_table slot).fd_inode in
    elim (Bool-cases (sub_u32 (fs.inode a).i_open_cnts 1 == 0)) [
      | inl e ↦ rw (eq→== a a refl, e) (rw (eq→== a a refl), refl, λ i ne. rw (ne→== i slot ne))
      | inr e ↦ rw (eq→== a a refl, e) (rw (eq→== a a refl), refl, λ i ne. rw (ne→== i slot ne))
    ]

-- Closing a descriptor, also one that only reads, lets the next user of the inode in, writers
-- included, if a descriptor is free, while the other slots stay as they are, writers included.
pub claim_file-file_close :
    (fs : FileSystem) (slot other new flag k : ℕ)
    → other ≢ slot
    → 3 ≤ k
    → k < 8
    → fs.fd_table k ≡ minus_one
    → let closed = (file_close fs (some slot)).0 in
      let r = claim_file closed new (fs.file_table slot).fd_inode flag in
      (r.1 < 8) × (r.0.file_table other ≡ fs.file_table other)
claim_file-file_close fs slot other new flag k ne lo hi free =
    let (d, t, keep) = file_close-write_deny fs slot in
    let closed = (file_close fs (some slot)).0 in
    let a = (fs.file_table slot).fd_inode in
    let (small, same) =
      claim_unlocked closed new a flag k d lo hi (ap (λ (g : ℕ → ℕ). g k) t ∙ free) in
    (small, ap (λ (g : ℕ → File). g other) same ∙ keep other ne)
