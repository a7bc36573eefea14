-- ===== src/Disk/Transfer.antt =====
-- ide_read and ide_write move exactly the sectors asked for, however many commands that takes.
use restore_the_operating_sy.Base.{
  ltb→lt, le→ltb, ℕ, zero, suc, ◌+◌, ◌-◌, ◌*◌, ◌≤◌, ◌<◌, ◌≡◌, true, ◌&&◌, if◌then◌else◌, ltb, leb,
  arith, Bool-cases, inl, inr, fun_ext, ap, ◌∙◌,
}
use restore_the_operating_sy.Base.Word.{assert_passes, ok}
use restore_the_operating_sy.Disk.{
  Drive, Buffer, size_in_byte, read_from_sector, write2sector, secs_op, read_rounds, write_rounds,
  ide_read, ide_write,
}

-- The bytes that the last commands of ide_read fetch, from sector `done` of n on.
abbrev pub fetched : Drive → ℕ → Buffer → ℕ → ℕ → Buffer
fetched hd lba buf done n i =
    if leb (done * 512) i && ltb i (n * 512) then hd.bytes (lba * 512 + i) else buf i

abbrev pub stored : Drive → ℕ → Buffer → ℕ → ℕ → Drive
stored hd lba buf done n = record hd {
  bytes = λ p.
      if leb ((lba + done) * 512) p && ltb p ((lba + n) * 512)
      then buf (p - lba * 512)
      else hd.bytes p;
}

-- A command moves between one sector and all that are left, and its count register says how many.
round_size :
    (done n : ℕ)
    → done < n
    → (0 < secs_op done n)
      × (done + secs_op done n ≤ n)
      × (size_in_byte (secs_op done n) ≡ secs_op done n * 512)
unfolding secs_op size_in_byte
round_size done n h = ground arith

abbrev with_bytes : Drive → (ℕ → ℕ) → Drive
with_bytes hd b = record hd { bytes = b }

write2sector-ready :
    (hd : Drive) (lba : ℕ) (buf : Buffer) (at n : ℕ)
    → hd.ready ≡ true
    → (write2sector hd lba buf at n).ready ≡ true
unfolding write2sector
write2sector-ready hd lba buf at n h = h

module _ (hd : Drive) (lba : ℕ) (ready : hd.ready ≡ true) where
  -- A command, and what those behind it fetch.
  fetched_step :
      (done n : ℕ) (buf : Buffer)
      → ltb done n ≡ true
      → (i : ℕ)
      → fetched hd lba
          (read_from_sector hd (lba + done) buf (done * 512) (secs_op done n))
          (done + secs_op done n)
          n
          i
        ≡ fetched hd lba buf done n i
  unfolding read_from_sector
  fetched_step done n buf more i =
      let (pos, fits, size) = round_size done n (ltb→lt done n more) in
      let op = secs_op done n in
      elim (Bool-cases (leb (done * 512) i)) [
        | inl e ↦
            let at : (lba + done) * 512 + (i - done * 512) ≡ lba * 512 + i = ground arith in
            ground arith
        | inr e ↦ ground arith
      ]

  rounds-read :
      (fuel done n : ℕ) (buf : Buffer)
      → n ≤ done + fuel
      → lba + n ≤ 163840
      → read_rounds fuel hd lba buf done n ≡ ok (fetched hd lba buf done n)
  unfolding read_rounds
  rounds-read zero done n buf f small =
      rw (le→ltb done n (omega arith)) (ap ok (fun_ext (λ i. ground arith)))
  rounds-read (suc fuel) done n buf f small = elim (Bool-cases (ltb done n)) [
    | inl more ↦
        let (pos, fits, size) = round_size done n (ltb→lt done n more) in
        let op = secs_op done n in
        let low : leb (lba + done) 163839 ≡ true = ground arith in
        let next = read_from_sector hd (lba + done) buf (done * 512) op in
        rw more (
          assert_passes _ low
          ∙ assert_passes _ ready
          ∙ rounds-read fuel (done + op) n next (omega arith) small
          ∙ ap ok (fun_ext (fetched_step done n buf more)))
    | inr done' ↦ rw done' (ap ok (fun_ext (λ i. ground arith)))
  ]

  -- A command, and what those behind it store.
  stored_step :
      (done n : ℕ) (buf : Buffer)
      → ltb done n ≡ true
      → (p : ℕ)
      → (stored
            (write2sector hd (lba + done) buf (done * 512) (secs_op done n))
            lba
            buf
            (done + secs_op done n)
            n).bytes
          p
        ≡ (stored hd lba buf done n).bytes p
  unfolding write2sector
  stored_step done n buf more p =
      let (pos, fits, size) = round_size done n (ltb→lt done n more) in
      let op = secs_op done n in
      elim (Bool-cases (leb ((lba + done) * 512) p)) [
        | inl e ↦
            let at : done * 512 + (p - (lba + done) * 512) ≡ p - lba * 512 = ground arith in
            ground arith
        | inr e ↦ ground arith
      ]

stored_next :
    (hd : Drive) (lba : ℕ) (ready : hd.ready ≡ true) (done n : ℕ) (buf : Buffer)
    → ltb done n ≡ true
    → stored
        (write2sector hd (lba + done) buf (done * 512) (secs_op done n))
        lba
        buf
        (done + secs_op done n)
        n
      ≡ stored hd lba buf done n
unfolding write2sector
stored_next hd lba ready done n buf more =
    ap (with_bytes hd) (fun_ext (stored_step hd lba ready done n buf more))

rounds-write :
    (fuel : ℕ) (hd : Drive) (lba done n : ℕ) (buf : Buffer)
    → hd.ready ≡ true
    → n ≤ done + fuel
    → lba + n ≤ 163840
    → write_rounds fuel hd lba buf done n ≡ ok (stored hd lba buf done n)
unfolding write_rounds
rounds-write zero hd lba done n buf ready f small =
    rw (le→ltb done n (omega arith)) (ap ok (ap (with_bytes hd) (fun_ext (λ p. ground arith))))
rounds-write (suc fuel) hd lba done n buf ready f small = elim (Bool-cases (ltb done n)) [
  | inl more ↦
      let (pos, fits, size) = round_size done n (ltb→lt done n more) in
      let op = secs_op done n in
      let low : leb (lba + done) 163839 ≡ true = ground arith in
      let next = write2sector hd (lba + done) buf (done * 512) op in
      rw more (
        assert_passes _ low
        ∙ assert_passes _ ready
        ∙ rounds-write fuel next lba (done + op) n buf (write2sector-ready hd _ _ _ _ ready)
            (omega arith) small
        ∙ ap ok (stored_next hd lba ready done n buf more))
  | inr done' ↦ rw done' (ap ok (ap (with_bytes hd) (fun_ext (λ p. ground arith))))
]

-- ide_read of sectors that lie on the disk puts their bytes to the front of the buffer and leaves the
-- rest of it, if the drive gets ready.
pub ide_read-fetched :
    (hd : Drive) (lba : ℕ) (buf : Buffer) (n : ℕ)
    → hd.ready ≡ true
    → 0 < n
    → lba + n ≤ 163840
    → ide_read hd lba buf n ≡ ok (fetched hd lba buf 0 n)
unfolding ide_read
ide_read-fetched hd lba buf n ready pos small =
    let low : leb lba 163839 ≡ true = ground arith in
    let some_sector : ltb 0 n ≡ true = ground arith in
    assert_passes _ low
    ∙ assert_passes _ some_sector
    ∙ rounds-read hd lba ready n 0 n buf (omega arith) small

-- ide_write to sectors that lie on the disk puts the front of the buffer there, and leaves all other
-- bytes of the drive, if the drive gets ready.
pub ide_write-stored :
    (hd : Drive) (lba : ℕ) (buf : Buffer) (n : ℕ)
    → hd.ready ≡ true
    → 0 < n
    → lba + n ≤ 163840
    → ide_write hd lba buf n ≡ ok (stored hd lba buf 0 n)
unfolding ide_write
ide_write-stored hd lba buf n ready pos small =
    let low : leb lba 163839 ≡ true = ground arith in
    let some_sector : ltb 0 n ≡ true = ground arith in
    assert_passes _ low
    ∙ assert_passes _ some_sector
    ∙ rounds-write n hd lba 0 n buf ready (omega arith) small
