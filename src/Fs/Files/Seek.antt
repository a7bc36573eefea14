-- ===== src/Fs/Files/Seek.antt =====
-- sys_lseek against integers.
use restore_the_operating_sy.Base.{
  ap, ◌∙◌, true, inr, ◌&&◌, inl, false, Bool-cases, ◌||◌, ℕ, ◌+◌, ◌-◌, ◌^◌, ◌<◌, ◌≡◌, Option, none,
  some, if◌then◌else◌, ltb, leb, ◌==◌, arith,
}
use restore_the_operating_sy.Base.Word.{◌>>=◌, assert_passes, u32, minus_one, Outcome, ok}
use restore_the_operating_sy.Fs.{File, FileSystem, update}
use restore_the_operating_sy.Fs.Files.{int_lt, is_negative, sys_lseek, seek_pos, fd_local2global}

-- base + offset as an integer, where that is not negative; the offset is an int32_t.
abbrev pub moved : ℕ → ℕ → Option ℕ
moved base offset =
    if ltb offset (2 ^ 31)
    then some (base + offset)
    else if leb (2 ^ 32 - offset) base
    then some (base - (2 ^ 32 - offset))
    else none

-- From where sys_lseek counts.
abbrev pub seek_base : ℕ → File → ℕ → ℕ
seek_base whence pf size = if whence == 1 then 0 else if whence == 2 then pf.fd_pos else size

-- The position, if it lies in the file.
abbrev pub inside_file : ℕ → Option ℕ → Option ℕ
inside_file size none = none
inside_file size (some p) = if ltb p size then some p else none

abbrev pub seek_result : FileSystem → ℕ → Option ℕ → FileSystem × ℕ
seek_result fs slot none = (fs, minus_one)
seek_result fs slot (some p) = (
  record fs { file_table = update fs.file_table slot (record (fs.file_table slot) { fd_pos = p }) },
  p,
)

-- The test of sys_lseek is that of the integers.
seek_test :
    (base size offset : ℕ)
    → base < 2 ^ 31
    → size < 2 ^ 31
    → offset < 2 ^ 32
    → (let p = u32 (base + offset) in
        if is_negative p || int_lt (u32 (size + minus_one)) p then none else some p)
      ≡ inside_file size (moved base offset)
seek_test base size offset b s o = ground arith

seek_pos_lem :
    (whence : ℕ) (pf : File) (size offset : ℕ)
    → 0 < whence
    → whence < 4
    → offset < 2 ^ 32
    → seek_pos whence pf.fd_pos size offset ≡ u32 (seek_base whence pf size + offset)
unfolding seek_pos
seek_pos_lem whence pf size offset w1 w2 o = ground arith

landing :
    (fs : FileSystem) (slot size p : ℕ) (target : Option ℕ)
    → (if is_negative p || int_lt (u32 (size + minus_one)) p then none else some p)
      ≡ inside_file size target
    → (if is_negative p || int_lt (u32 (size + minus_one)) p then (fs, minus_one) else (
      record fs {
        file_table = update fs.file_table slot (record (fs.file_table slot) { fd_pos = p });
      },
      p,
    ))
      ≡ seek_result fs slot (inside_file size target)
landing fs slot size p target e =
    elim (Bool-cases (is_negative p || int_lt (u32 (size + minus_one)) p)) [
      | inl t ↦ rw (t, ← (rw t at e))
      | inr t ↦ rw (t, ← (rw t at e))
    ]

-- The rest of sys_lseek, once the slot is known.
abbrev moved_to : FileSystem → ℕ → ℕ → ℕ → Outcome (FileSystem × ℕ)
moved_to fs offset whence global =
    let pf = fs.file_table global in
    let file_size = (fs.inode pf.fd_inode).i_size in
    let new_pos = seek_pos whence pf.fd_pos file_size offset in
    ok (
      if is_negative new_pos || int_lt (u32 (file_size + minus_one)) new_pos
      then (fs, minus_one)
      else (
        record fs { file_table = update fs.file_table global (record pf { fd_pos = new_pos }) },
        new_pos,
      ))

-- sys_lseek on an open descriptor, with a file and a position below 2 ^ 31, goes to the integer sum of
-- the base that whence names and the signed offset, if that lies within the file, and gives it back;
-- otherwise it is -1 and nothing changes.
pub sys_lseek-moved :
    (fs : FileSystem) (fd offset whence : ℕ)
    → fd < 2 ^ 31
    → 0 < whence
    → whence < 4
    → offset < 2 ^ 32
    → fs.fd_table fd < 32
    → let pf = fs.file_table (fs.fd_table fd) in
      let size = (fs.inode pf.fd_inode).i_size in
      pf.fd_pos < 2 ^ 31
      → size < 2 ^ 31
      → sys_lseek fs fd offset whence
        ≡ ok (
            seek_result fs
              (fs.fd_table fd)
              (inside_file size (moved (seek_base whence pf size) offset)))
unfolding sys_lseek fd_local2global
sys_lseek-moved fs fd offset whence h w1 w2 o g p s =
    let slot = fs.fd_table fd in
    let pf = fs.file_table slot in
    let size = (fs.inode pf.fd_inode).i_size in
    let base = seek_base whence pf size in
    let valid : is_negative fd ≡ false = ground arith in
    let known : (ltb 0 whence && ltb whence 4) ≡ true = ground arith in
    let open_slot : (ltb slot (2 ^ 31) && ltb slot 32) ≡ true = ground arith in
    let small : base < 2 ^ 31 = ground arith in
    rw valid (
      assert_passes _ known
      ∙ ap (λ m. m >>= moved_to fs offset whence) (assert_passes (ok slot) open_slot)
      ∙ ap ok (
          landing fs slot size (seek_pos whence pf.fd_pos size offset) (moved base offset) (
            ap (λ q. if is_negative q || int_lt (u32 (size + minus_one)) q then none else some q)
              (seek_pos_lem whence pf size offset w1 w2 o)
            ∙ seek_test base size offset small s o)))
