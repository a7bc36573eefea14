-- ===== src/Fs/Files/Counts.antt =====
-- The open counts of inodes: file_open and file_close keep them equal to the number of users.
use restore_the_operating_sy.Fs.Inodes.Fetch.{inode_fetch_lem}
use restore_the_operating_sy.Fs.Inodes.Place.{IsMounted}
use restore_the_operating_sy.Base.{
  ne→==, ap, ◌∙◌, sym, Option-cases, eq→==, inr, inl, ltb, some, Bool-cases, refl, ℕ, zero, suc,
  ◌+◌, ◌≤◌, ◌<◌, ◌≡◌, ◌≢◌, Bool, true, false, List, [], ◌∷◌, if◌then◌else◌, ◌==◌, ◌||◌, ◌^◌, arith,
}
use restore_the_operating_sy.Base.Word.{Returns-mono, Returns, u32, sub_u32, null}
use restore_the_operating_sy.Fs.{Inode, File, FileSystem, update}
use restore_the_operating_sy.Fs.Inodes.{inode_fetch, find_open, inode_close, unlink}
use restore_the_operating_sy.Fs.Files.{file_close}
use restore_the_operating_sy.Fs.Inodes.{inode_open}

abbrev pub in_list : ℕ → List ℕ → Bool
in_list a [] = false
in_list a (b ∷ bs) = (b == a) || in_list a bs

abbrev pub AllDistinct : List ℕ → Type 0
AllDistinct [] = Unit
AllDistinct (b ∷ bs) = (in_list b bs ≡ false) × AllDistinct bs

abbrev pub is_open : FileSystem → ℕ → Bool
is_open fs a = in_list a fs.cur_part.open_inodes

-- How many of the first n slots of the file table are for the inode a.
unfoldable pub slots : ℕ → (ℕ → File) → ℕ → ℕ
slots zero table a = 0
slots (suc n) table a = slots n table a + (if (table n).fd_inode == a then 1 else 0)

slots-update_of_le :
    (n : ℕ) (table : ℕ → File) (i : ℕ) (f : File) (a : ℕ)
    → n ≤ i
    → slots n (update table i f) a ≡ slots n table a
unfolding slots
slots-update_of_le zero table i f a h = refl
slots-update_of_le (suc n) table i f a h = ground (arith, slots-update_of_le n table i f a)

pub slots-update :
    (n : ℕ) (table : ℕ → File) (i : ℕ) (f : File) (a : ℕ)
    → i < n
    → slots n (update table i f) a + (if (table i).fd_inode == a then 1 else 0)
      ≡ slots n table a + (if f.fd_inode == a then 1 else 0)
unfolding slots
slots-update zero table i f a h = absurd (omega arith)
slots-update (suc n) table i f a h = elim (Bool-cases (ltb i n)) [
  | inl e ↦ ground (arith, slots-update n table i f a)
  | inr e ↦ ground (arith, slots-update_of_le n table i f a)
]

pub slots-le : (n : ℕ) (table : ℕ → File) (a : ℕ) → slots n table a ≤ n
unfolding slots
slots-le zero table a = omega arith
slots-le (suc n) table a = ground (arith, slots-le n table a)

-- Every inode in memory has as many opens as slots of the file table that are for it, and other users
-- (`held`, the open directories); the open inodes are those that have a user.
pub record IsCounted (held : ℕ → ℕ) (fs : FileSystem) : Type 0 where
  pub counted :
      (a : ℕ)
      → is_open fs a ≡ true
      → ((fs.inode a).i_open_cnts ≡ held a + slots 32 fs.file_table a)
        × (0 < (fs.inode a).i_open_cnts)
  pub unused : (a : ℕ) → a ≢ null → is_open fs a ≡ false → held a + slots 32 fs.file_table a ≡ 0
  pub distinct : AllDistinct fs.cur_part.open_inodes
  pub no_null : is_open fs null ≡ false
  pub few : (a : ℕ) → held a < 2 ^ 31

in_list-unlink :
    (a b : ℕ) (l : List ℕ)
    → AllDistinct l
    → in_list a (unlink b l) ≡ (if a == b then false else in_list a l)
unfolding unlink
in_list-unlink a b [] d = ground arith
in_list-unlink a b (x ∷ l) d = ground (arith, in_list-unlink a b l d.1)

unlink-AllDistinct : (b : ℕ) (l : List ℕ) → AllDistinct l → AllDistinct (unlink b l)
unfolding unlink
unlink-AllDistinct b [] d = tt
unlink-AllDistinct b (x ∷ l) d = elim (Bool-cases (x == b)) [
  | inl e ↦ rw e d.1
  | inr e ↦ rw e (ground (arith, in_list-unlink x b l d.1, d.0), unlink-AllDistinct b l d.1)
]

-- The slot is free, and the others are as they were.
abbrev pub Released : FileSystem → ℕ → FileSystem × ℕ → Type 0
Released fs slot (fs', result) =
    (result ≡ 0)
    × ((fs'.file_table slot).fd_inode ≡ null)
    × ((i : ℕ) → i ≢ slot → fs'.file_table i ≡ fs.file_table i)
    × (fs'.fd_table ≡ fs.fd_table)

file_close-Released : (fs : FileSystem) (slot : ℕ) → Released fs slot (file_close fs (some slot))
unfolding file_close inode_close
file_close-Released fs slot =
    elim (Bool-cases (sub_u32 (fs.inode (fs.file_table slot).fd_inode).i_open_cnts 1 == 0)) [
      | inl e ↦
          rw (eq→== (fs.file_table slot).fd_inode (fs.file_table slot).fd_inode refl, e)
            (refl, rw (eq→== slot slot refl) refl, (λ i ne. rw (ne→== i slot ne) refl), refl)
      | inr e ↦
          rw (eq→== (fs.file_table slot).fd_inode (fs.file_table slot).fd_inode refl, e)
            (refl, rw (eq→== slot slot refl) refl, (λ i ne. rw (ne→== i slot ne) refl), refl)
    ]

closed-IsCounted :
    (held : ℕ → ℕ) (fs : FileSystem) (slot : ℕ)
    → IsCounted held fs
    → slot < 32
    → (fs.file_table slot).fd_inode ≢ null
    → IsCounted held (file_close fs (some slot)).0
unfolding file_close inode_close
closed-IsCounted held fs slot c lt ne =
    let a = (fs.file_table slot).fd_inode in
    let f : File = record (fs.file_table slot) { fd_inode = null } in
    let table = update fs.file_table slot f in
    let step = λ (b : ℕ). slots-update 32 fs.file_table slot f b lt in
    let opened : is_open fs a ≡ true = ground (arith, step a, c.unused a ne) in
    let few = c.few a in
    let total = slots-le 32 fs.file_table a in
    let (cnt, pos) = c.counted a opened in
    elim (Bool-cases (sub_u32 (fs.inode a).i_open_cnts 1 == 0)) [
      | inl e ↦
          rw (eq→== a a refl, e)
            (record {
              counted = λ b o. ground (
                arith,
                in_list-unlink b a fs.cur_part.open_inodes c.distinct,
                step b,
                c.counted b,
              );
              unused = λ b n o. ground (
                arith,
                in_list-unlink b a fs.cur_part.open_inodes c.distinct,
                step b,
                c.unused b,
                step a,
              );
              distinct = unlink-AllDistinct a fs.cur_part.open_inodes c.distinct;
              no_null =
                  ground (arith, in_list-unlink 0 a fs.cur_part.open_inodes c.distinct, c.no_null);
              few = c.few;
            })
      | inr e ↦
          rw (eq→== a a refl, e)
            (record {
              counted = λ b o. ground (arith, step b, c.counted b o);
              unused = λ b n o. ground (arith, step b, c.unused b n o);
              distinct = c.distinct;
              no_null = c.no_null;
              few = c.few;
            })
    ]

-- file_close of an open slot frees the slot, returns 0, and leaves the other slots and the descriptors
-- as they were. The open counts stay right: each inode in memory is opened as often as slots and other
-- users have it, and the open inodes are those that still have one.
pub file_close-IsCounted :
    (held : ℕ → ℕ) (fs : FileSystem) (slot : ℕ)
    → IsCounted held fs
    → slot < 32
    → (fs.file_table slot).fd_inode ≢ null
    → IsCounted held (file_close fs (some slot)).0 × Released fs slot (file_close fs (some slot))
file_close-IsCounted held fs slot c lt ne =
    (closed-IsCounted held fs slot c lt ne, file_close-Released fs slot)

find_open-in_list :
    (inode : ℕ → Inode) (l : List ℕ) (id a : ℕ) → find_open inode l id ≡ some a → in_list a l ≡ true
unfolding find_open
find_open-in_list inode [] id a e = cc
find_open-in_list inode (b ∷ l) id a e = elim (Bool-cases ((inode b).i_no == id)) [
  | inl t ↦ ground arith
  | inr t ↦ ground (arith, find_open-in_list inode l id a (rw t at e))
]

-- What inode_open does to the counts: one more open, of an inode that it puts on the list if it was
-- not there.
pub record Opened (fs : FileSystem) (r : FileSystem × ℕ) : Type 0 where
  pub found : r.1 ≢ null
  pub list :
      r.0.cur_part.open_inodes
      ≡ (if is_open fs r.1 then fs.cur_part.open_inodes else r.1 ∷ fs.cur_part.open_inodes)
  pub table : r.0.file_table ≡ fs.file_table
  pub opens :
      (b : ℕ)
      → (r.0.inode b).i_open_cnts ≡ (
          if b == r.1
          then if is_open fs b then u32 ((fs.inode b).i_open_cnts + 1) else 1
          else (fs.inode b).i_open_cnts)

pub inode_open-Opened :
    (held : ℕ → ℕ) (fs : FileSystem) (id addr : ℕ)
    → IsCounted held fs
    → IsMounted fs
    → id < 4096
    → addr ≢ null
    → is_open fs addr ≡ false
    → Returns (Opened fs) (inode_open fs id addr)
unfolding inode_open
inode_open-Opened held fs id addr c m lt ne new =
    elim (Option-cases (find_open fs.inode fs.cur_part.open_inodes id)) [
      | inl e ↦ rw e (
          Returns-mono _ (inode_fetch fs id addr) (inode_fetch_lem fs id addr m lt) λ r f. record {
            found = λ z. ne (sym f.0 ∙ z);
            list = ground (arith, f.0, f.1);
            table = f.3;
            opens = λ b. ground (arith, f.0, f.2.opens, f.4 b);
          })
      | inr (a, e) ↦
          let here = find_open-in_list fs.inode fs.cur_part.open_inodes id a e in
          rw e (record {
            found = λ z. ground (arith, c.no_null, ap (λ x. in_list x fs.cur_part.open_inodes) z);
            list = rw here;
            table = refl;
            opens = λ b. ground arith;
          })
    ]
