-- ===== src/Fs/Files/Slots.antt =====
-- The free entries of the two tables, and what is installed there.
use restore_the_operating_sy.Base.{
  refl, inr, inl, ◌==◌, Bool-cases, ℕ, zero, suc, ◌+◌, ◌≤◌, ◌<◌, ◌≡◌, ◌≢◌, ◌⊎◌, arith,
}
use restore_the_operating_sy.Base.Word.{minus_one, null}
use restore_the_operating_sy.Fs.{update, File, FileSystem}
use restore_the_operating_sy.Fs.Files.{
  find_slot, get_free_slot_in_global, find_descriptor, pcb_fd_install,
}

-- The loop stops at the first free slot, or behind the last.
find_slot_lem :
    (table : ℕ → File) (left idx : ℕ)
    → let r = find_slot table left idx in
      (idx ≤ r)
      × (r ≤ idx + left)
      × ((k : ℕ) → idx ≤ k → k < r → (table k).fd_inode ≢ null)
      × (r < idx + left → (table r).fd_inode ≡ null)
unfolding find_slot
find_slot_lem table zero idx =
    (omega arith, omega arith, λ k p q. absurd (omega arith), λ p. absurd (omega arith))
find_slot_lem table (suc left) idx = elim (Bool-cases ((table idx).fd_inode == null)) [
  | inl e ↦ rw e (omega arith, omega arith, λ k p q. absurd (omega arith), λ p. ground arith)
  | inr e ↦ rw e (
      let (lo, hi, used, free) = find_slot_lem table left (idx + 1) in
      (omega arith, omega arith, λ k p q. ground (arith, used k), λ p. free (omega arith)))
]

-- The first free slot behind the three standard ones, or none of them.
abbrev pub FirstSlot : FileSystem → ℕ → Type 0
FirstSlot fs r =
    ((3 ≤ r)
      × (r < 32)
      × ((fs.file_table r).fd_inode ≡ null)
      × ((k : ℕ) → 3 ≤ k → k < r → (fs.file_table k).fd_inode ≢ null))
    ⊎ ((r ≡ minus_one) × ((k : ℕ) → 3 ≤ k → k < 32 → (fs.file_table k).fd_inode ≢ null))

-- get_free_slot_in_global finds the first free slot from 3 on, and is -1 exactly when none is free.
pub get_free_slot_in_global-FirstSlot :
    (fs : FileSystem) → FirstSlot fs (get_free_slot_in_global fs)
unfolding get_free_slot_in_global
get_free_slot_in_global-FirstSlot fs =
    let r = find_slot fs.file_table 29 3 in
    let (lo, hi, used, free) = find_slot_lem fs.file_table 29 3 in
    elim (Bool-cases (r == 32)) [
      | inl e ↦ rw e (inr (refl, λ k p q. used k p (ground arith)))
      | inr e ↦ rw e (inl (lo, ground arith, free (ground arith), used))
    ]

find_descriptor_lem :
    (table : ℕ → ℕ) (left idx : ℕ)
    → let r = find_descriptor table left idx in
      (idx ≤ r)
      × (r ≤ idx + left)
      × ((k : ℕ) → idx ≤ k → k < r → table k ≢ minus_one)
      × (r < idx + left → table r ≡ minus_one)
unfolding find_descriptor
find_descriptor_lem table zero idx =
    (omega arith, omega arith, λ k p q. absurd (omega arith), λ p. absurd (omega arith))
find_descriptor_lem table (suc left) idx = elim (Bool-cases (table idx == minus_one)) [
  | inl e ↦ rw e (omega arith, omega arith, λ k p q. absurd (omega arith), λ p. ground arith)
  | inr e ↦ rw e (
      let (lo, hi, used, free) = find_descriptor_lem table left (idx + 1) in
      (omega arith, omega arith, λ k p q. ground (arith, used k), λ p. free (omega arith)))
]

-- What pcb_fd_install gives: the first free descriptor behind the standard ones, now for the slot, or
-- -1 and nothing changed.
abbrev pub Installed : FileSystem → ℕ → FileSystem × ℕ → Type 0
Installed fs slot r =
    ((3 ≤ r.1)
      × (r.1 < 8)
      × (fs.fd_table r.1 ≡ minus_one)
      × (r.0 ≡ record fs { fd_table = update fs.fd_table r.1 slot }))
    ⊎ ((r ≡ (fs, minus_one)) × ((k : ℕ) → 3 ≤ k → k < 8 → fs.fd_table k ≢ minus_one))

-- pcb_fd_install puts the slot to a free descriptor from 3 to 7, and changes nothing else; with none
-- free, and only then, it is -1 and changes nothing.
pub pcb_fd_install-Installed :
    (fs : FileSystem) (slot : ℕ) → Installed fs slot (pcb_fd_install fs slot)
unfolding pcb_fd_install
pcb_fd_install-Installed fs slot =
    let r = find_descriptor fs.fd_table 5 3 in
    let (lo, hi, used, free) = find_descriptor_lem fs.fd_table 5 3 in
    elim (Bool-cases (r == 8)) [
      | inl e ↦ rw e (inr (refl, λ k p q. used k p (ground arith)))
      | inr e ↦ rw e (inl (lo, ground arith, free (ground arith), refl))
    ]
