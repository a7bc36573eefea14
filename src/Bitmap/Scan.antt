-- ===== src/Bitmap/Scan.antt =====
-- `bitmap_scan` for one bit: first fit, and the ASSERT on a full bitmap.
use restore_the_operating_sy.Base.{
  mod-eq_of_lt, ltb→lt, ltb, ℕ, zero, suc, ◌+◌, ◌*◌, ◌/◌, ◌%◌, ◌^◌, ◌<◌, ◌≤◌, ◌≡◌, ◌≢◌, true, false,
  ◌==◌, arith, Bool-cases, inl, inr, ==→eq, ne→==,
}
use restore_the_operating_sy.Base.Word.{hang, u32, Outcome, ok, panic}
use restore_the_operating_sy.Bitmap.{skip_set_bits, Bitmap, skip_full_bytes, bitmap_scan}
use restore_the_operating_sy.Bitmap.Bits.{digit_full, skip_set_bits_lem}
use restore_the_operating_sy.Bitmap.Set.{is_used, IsBytes}

-- The first loop stops at the first byte that is not full, or at the end.
pub skip_full_bytes_lem :
    (bits : ℕ → ℕ) (left i : ℕ)
    → let r = skip_full_bytes bits left i in
      (i ≤ r)
      × (r ≤ i + left)
      × ((k : ℕ) → i ≤ k → k < r → bits k ≡ 255)
      × (r < i + left → bits r ≢ 255)
unfolding skip_full_bytes
skip_full_bytes_lem bits zero i =
    (omega arith, omega arith, λ k p q. absurd (omega arith), λ p. absurd (omega arith))
skip_full_bytes_lem bits (suc left) i = elim (Bool-cases (255 == bits i)) [
  | inl e ↦ rw e (
      let (lo, hi, full, stop) = skip_full_bytes_lem bits left (i + 1) in
      (omega arith, omega arith, λ k p q. ground (arith, full k), λ p. stop (omega arith)))
  | inr e ↦ rw e (omega arith, omega arith, λ k p q. absurd (omega arith), λ p. ground arith)
]

-- The result of a successful scan for one bit: the lowest clear bit.
pub record IsFirstFree (b : Bitmap) (r : ℕ) : Type 0 where
  pub inside : r < b.btmp_bytes_len * 8
  pub free : is_used b r ≡ false
  pub first : (j : ℕ) → j < r → is_used b j ≡ true

-- Where the first two loops stop.
abbrev pub byte_of : Bitmap → ℕ
byte_of b = skip_full_bytes b.bits b.btmp_bytes_len 0

abbrev pub start_of : Bitmap → ℕ
start_of b = byte_of b * 8 + skip_set_bits (b.bits (byte_of b)) 8 0

module _ (b : Bitmap) (h : IsBytes b) where
  full_byte : (j : ℕ) → b.bits (j / 8) ≡ 255 → is_used b j ≡ true
  full_byte j e = rw (e, digit_full (j % 8) (omega arith))

  pub start_of-IsFirstFree : byte_of b < b.btmp_bytes_len → IsFirstFree b (start_of b)
  start_of-IsFirstFree lt =
      let (lo, hi, full, stop) = skip_full_bytes_lem b.bits b.btmp_bytes_len 0 in
      let (small, clear, below) =
        skip_set_bits_lem (b.bits (byte_of b)) (h _) (stop (omega arith)) in
      let quot : start_of b / 8 ≡ byte_of b = omega arith in
      let rem : start_of b % 8 ≡ skip_set_bits (b.bits (byte_of b)) 8 0 = omega arith in
      record {
        inside = omega arith;
        free = rw (quot, rem, clear);
        first = λ j lt'. elim (Bool-cases (j / 8 == byte_of b)) [
          | inl e ↦ rw (==→eq _ _ e, below (j % 8) (ground arith))
          | inr e ↦ full_byte j (full (j / 8) (omega arith) (ground arith))
        ];
      }

  pub all_used :
      byte_of b ≡ b.btmp_bytes_len → (j : ℕ) → j < b.btmp_bytes_len * 8 → is_used b j ≡ true
  all_used e j lt =
      let (lo, hi, full, stop) = skip_full_bytes_lem b.bits b.btmp_bytes_len 0 in
      full_byte j (full (j / 8) (omega arith) (omega arith))

abbrev pub ScansOne : Bitmap → Outcome ℕ → Type 0
ScansOne b (ok r) = IsFirstFree b r
ScansOne b panic = (j : ℕ) → j < b.btmp_bytes_len * 8 → is_used b j ≡ true
ScansOne b hang = ⊥

-- bitmap_scan for one bit, of a bitmap below 2 ^ 28 bytes: the result is the first free bit, and
-- the ASSERT stops the machine exactly when every bit is used.
pub bitmap_scan_one :
    (b : Bitmap) → IsBytes b → b.btmp_bytes_len < 2 ^ 28 → ScansOne b (bitmap_scan b 1)
unfolding bitmap_scan
bitmap_scan_one b h small = elim (Bool-cases (ltb (byte_of b) b.btmp_bytes_len)) [
  | inl e ↦
      let free = start_of-IsFirstFree b h (ltb→lt _ _ e) in
      let fits : u32 (start_of b) ≡ start_of b = mod-eq_of_lt (omega (arith, free.inside)) in
      rw (e, ne→== (byte_of b) b.btmp_bytes_len (ground arith), fits) free
  | inr e ↦
      let (lo, hi, full, stop) = skip_full_bytes_lem b.bits b.btmp_bytes_len 0 in
      rw e (all_used b h (ground arith))
]
