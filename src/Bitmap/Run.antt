-- ===== src/Bitmap/Run.antt =====
-- `bitmap_scan` for more than one bit: what its third loop finds, by its own test.
use restore_the_operating_sy.Base.{
  ℕ, zero, suc, ◌+◌, ◌-◌, ◌*◌, ◌^◌, ◌<◌, ◌≤◌, ◌≡◌, ◌≢◌, ◌⊎◌, refl, true, false, ◌==◌, arith,
  Bool-cases, inl, inr, ne→==, ltb→lt, ltb,
}
use restore_the_operating_sy.Base.Word.{hang, Outcome, ok, panic, u32, sub_u32, minus_one}
use restore_the_operating_sy.Bitmap.{Bitmap, find_run, bitmap_scan, bitmap_scan_test}
use restore_the_operating_sy.Bitmap.Set.{is_used, IsBytes}
use restore_the_operating_sy.Bitmap.Scan.{
  IsFirstFree, byte_of, start_of, start_of-IsFirstFree, all_used, skip_full_bytes_lem,
}

pub IsFirstFree-unique : (b : Bitmap) (r s : ℕ) → IsFirstFree b r → IsFirstFree b s → r ≡ s
IsFirstFree-unique b r s p q = elim (Bool-cases (ltb r s)) [
  | inl e ↦ absurd (ground (arith, q.first r))
  | inr e ↦ elim (Bool-cases (ltb s r)) [
    | inl f ↦ absurd (ground (arith, p.first s))
    | inr f ↦ ground arith
  ]
]

-- From the first free bit `s` on, the third loop looks at the bits s + 1 … len * 8.
pub scan-find_run :
    (b : Bitmap) (cnt s : ℕ)
    → IsBytes b
    → b.btmp_bytes_len < 2 ^ 28
    → cnt ≢ 1
    → IsFirstFree b s
    → bitmap_scan b cnt ≡ ok (find_run b cnt (b.btmp_bytes_len * 8 - s) (s + 1) 1)
unfolding bitmap_scan
scan-find_run b cnt s h small ne free = elim (Bool-cases (ltb (byte_of b) b.btmp_bytes_len)) [
  | inl e ↦
      let here : start_of b ≡ s =
        IsFirstFree-unique b _ s (start_of-IsFirstFree b h (ltb→lt _ _ e)) free in
      let room = free.inside in
      let left : sub_u32 (u32 (b.btmp_bytes_len * 8)) (u32 s) ≡ b.btmp_bytes_len * 8 - s =
        omega arith in
      let next : u32 (u32 s + 1) ≡ s + 1 = omega arith in
      rw (e, ne→== (byte_of b) b.btmp_bytes_len (ground arith), ne→== cnt 1 ne, here, left, next)
  | inr e ↦
      let (lo, hi, full, stop) = skip_full_bytes_lem b.bits b.btmp_bytes_len 0 in
      absurd (ground (arith, all_used b h (ground arith) s free.inside))
]

scan-panic :
    (b : Bitmap) (cnt : ℕ) → ltb (byte_of b) b.btmp_bytes_len ≡ false → bitmap_scan b cnt ≡ panic
unfolding bitmap_scan
scan-panic b cnt e = rw e

-- `cnt` bits from r on, none before `low` and none from `high` on, of which the code's test calls
-- those from `next` on free.
pub record IsRun (b : Bitmap) (cnt low next high r : ℕ) : Type 0 where
  pub from : low ≤ r
  pub upto : r + cnt ≤ high
  pub tested : (i : ℕ) → r ≤ i → i < r + cnt → next ≤ i → bitmap_scan_test b i ≡ false

module _ (b : Bitmap) (cnt : ℕ) where
  after :
      (left next count count' : ℕ) {r : ℕ}
      → next - count ≤ next + 1 - count'
      → count' ≤ next + 1
      → ((i : ℕ) → next + 1 - count' ≤ i → i < next + 1 → next ≤ i → bitmap_scan_test b i ≡ false)
      → (r ≡ minus_one) ⊎ IsRun b cnt (next + 1 - count') (next + 1) (next + 1 + left) r
      → (r ≡ minus_one) ⊎ IsRun b cnt (next - count) next (next + suc left) r
  after left next count count' lo le old (inl e) = inl e
  after left next count count' lo le old (inr run) = inr (record {
    from = omega (arith, run.from);
    upto = omega (arith, run.upto);
    tested = λ i p q r. elim (Bool-cases (ltb i (next + 1))) [
      | inl e ↦ old i (omega (arith, run.from)) (ltb→lt _ _ e) r
      | inr e ↦ run.tested i p q (ground arith)
    ];
  })

  -- The third loop, entered with `count` bits before `next` that passed.
  pub find_run_lem :
      (left next count : ℕ)
      → next + left < 2 ^ 31
      → count ≤ next
      → count < cnt
      → (find_run b cnt left next count ≡ minus_one)
        ⊎ IsRun b cnt (next - count) next (next + left) (find_run b cnt left next count)
  unfolding find_run
  find_run_lem zero next count small le lt = inl refl
  find_run_lem (suc left) next count small le lt =
      let up : u32 (next + 1) ≡ next + 1 = omega arith in
      let more : u32 (count + 1) ≡ count + 1 = omega arith in
      elim (Bool-cases (bitmap_scan_test b next)) [
        | inl used ↦
            rw (used, ne→== 0 cnt (omega arith), up)
              (after left next count 0 (omega arith) (omega arith) (λ i p q r. absurd (omega arith))
                (find_run_lem left (next + 1) 0 (omega arith) (omega arith) (omega arith)))
        | inr free ↦ elim (Bool-cases (count + 1 == cnt)) [
          | inl e ↦
              let at : u32 (sub_u32 next cnt + 1) ≡ next - count = ground arith in
              rw (free, more, e, at)
                (inr (record {
                  from = omega arith;
                  upto = ground arith;
                  tested = λ i p q r. let here : i ≡ next = ground arith in rw (here, free);
                }))
          | inr e ↦
              rw (free, more, e, up)
                (after left next count (count + 1) (omega arith) (omega arith)
                  (λ i p q r. let here : i ≡ next = omega arith in rw (here, free))
                  (find_run_lem left (next + 1) (count + 1) (omega arith) (omega arith)
                    (ground arith)))
        ]
      ]

-- What a scan for two bits or more does, by the code's own test.
abbrev pub ScansRun : Bitmap → ℕ → Outcome ℕ → Type 0
ScansRun b cnt (ok r) =
    (s : ℕ) × IsFirstFree b s
    × ((r ≡ minus_one) ⊎ IsRun b cnt s (s + 1) (b.btmp_bytes_len * 8 + 1) r)
ScansRun b cnt panic = (j : ℕ) → j < b.btmp_bytes_len * 8 → is_used b j ≡ true
ScansRun b cnt hang = ⊥

-- bitmap_scan for two bits or more, of a bitmap below 2 ^ 28 bytes. On a full bitmap the ASSERT
-- stops the machine. Otherwise, with s the first free bit, the result is -1 or the first of `cnt`
-- bits that begin at s or later, end at most one bit beyond the bitmap, and of which
-- bitmap_scan_test calls every one behind s free.
pub bitmap_scan_run :
    (b : Bitmap) (cnt : ℕ)
    → IsBytes b
    → b.btmp_bytes_len < 2 ^ 28
    → 2 ≤ cnt
    → ScansRun b cnt (bitmap_scan b cnt)
bitmap_scan_run b cnt h small two = elim (Bool-cases (ltb (byte_of b) b.btmp_bytes_len)) [
  | inl e ↦
      let free = start_of-IsFirstFree b h (ltb→lt _ _ e) in
      let inside = free.inside in
      let low : start_of b + 1 - 1 ≡ start_of b = omega arith in
      let high : start_of b + 1 + (b.btmp_bytes_len * 8 - start_of b) ≡ b.btmp_bytes_len * 8 + 1 =
        omega arith in
      rw (scan-find_run b cnt (start_of b) h small (omega arith) free) (
        start_of b,
        free,
        rw (low, high) at
            (find_run_lem b cnt (b.btmp_bytes_len * 8 - start_of b) (start_of b + 1) 1 (omega arith)
              (omega arith) two),
      )
  | inr e ↦ rw (scan-panic b cnt e) (
      let (lo, hi, full, stop) = skip_full_bytes_lem b.bits b.btmp_bytes_len 0 in
      all_used b h (ground arith))
]
