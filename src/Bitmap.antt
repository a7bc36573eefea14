-- ===== src/Bitmap.antt =====
-- workshop/lib/kernel/bitmap.c and bitmap.h.
pub mod Bits
pub mod Set
pub mod Scan
pub mod Run
pub mod Faults
mod Tests
use restore_the_operating_sy.Base.{
  ℕ, zero, suc, ◌+◌, ◌-◌, ◌*◌, ◌/◌, ◌%◌, ◌^◌, ◌≡◌, Bool, true, false, not, ◌||◌, if◌then◌else◌,
  ◌==◌, ltb,
}
use Prim.Native.Nat.{bit_and, bit_or}
use restore_the_operating_sy.Base.Word.{
  u32, sub_u32, minus_one, Outcome, ok, panic, ◌>>=◌, ◌>>◌, assert,
}

-- `struct bitmap`. `bits i` is the byte at the address `bits + i`, also beyond the bitmap's own
-- bytes, since the code reads there.
pub record Bitmap : Type 0 where
  pub btmp_bytes_len : ℕ
  pub bits : ℕ → ℕ

-- BITMAP_MASK << k
abbrev pub mask : ℕ → ℕ
mask k = 1 * 2 ^ k

abbrev pub poke : (ℕ → ℕ) → ℕ → ℕ → ℕ → ℕ
poke m a v i = if i == a then v else m i

-- Sets the bitmap's bytes to 0 by memset.
unfoldable pub bitmap_init : Bitmap → Bitmap
bitmap_init b = record b { bits = λ i. if ltb i b.btmp_bytes_len then 0 else b.bits i }

-- The byte is read at `bit_idx`, not at `bit_idx / 8`.
unfoldable pub bitmap_scan_test : Bitmap → ℕ → Bool
bitmap_scan_test b bit_idx =
    let bit_odd = bit_idx % 8 in not (bit_and (b.bits bit_idx) (mask bit_odd) == 0)

unfoldable pub bitmap_set : Bitmap → ℕ → ℕ → Outcome Bitmap
bitmap_set b bit_idx value =
    let byte_idx = bit_idx / 8 in
    let bit_odd = bit_idx % 8 in
    let old = b.bits byte_idx in
    do
      assert ((value == 0) || (value == 1))
      ok (record b {
        bits = poke b.bits byte_idx (
            if value == 0
            then bit_and old (minus_one - mask bit_odd) % 256
            else bit_or old (mask bit_odd) % 256);
      })

-- The first loop of `bitmap_scan`, with `left` bytes before the end of the bitmap.
unfoldable pub skip_full_bytes : (ℕ → ℕ) → ℕ → ℕ → ℕ
skip_full_bytes bits zero idx_byte = idx_byte
skip_full_bytes bits (suc left) idx_byte =
    let rest = skip_full_bytes bits left (idx_byte + 1) in
    if 255 == bits idx_byte then rest else idx_byte

-- The second loop, with `left` bits of the byte to come. At 8 the mask, cut to a byte, is 0.
unfoldable pub skip_set_bits : ℕ → ℕ → ℕ → ℕ
skip_set_bits byte zero idx_bit = idx_bit
skip_set_bits byte (suc left) idx_bit =
    let rest = skip_set_bits byte left (idx_bit + 1) in
    if bit_and (mask idx_bit % 256) byte == 0 then idx_bit else rest

-- The third loop: `bit_left` rounds from `next_bit` on, with `count` free bits just before it.
unfoldable pub find_run : Bitmap → ℕ → ℕ → ℕ → ℕ → ℕ
unfolding bitmap_scan_test
find_run b cnt zero next_bit count = minus_one
find_run b cnt (suc bit_left) next_bit count =
    let count' = if bitmap_scan_test b next_bit then 0 else u32 (count + 1) in
    let rest = find_run b cnt bit_left (u32 (next_bit + 1)) count' in
    if count' == cnt then u32 (sub_u32 next_bit cnt + 1) else rest

-- The result is the int's pattern. The test of the source for a full bitmap stands behind an
-- ASSERT of the opposite.
unfoldable pub bitmap_scan : Bitmap → ℕ → Outcome ℕ
bitmap_scan b cnt =
    let len = b.btmp_bytes_len in
    let idx_byte = skip_full_bytes b.bits len 0 in
    do
      assert (ltb idx_byte len)
      let idx_bit = skip_set_bits (b.bits idx_byte) 8 0
      let start = u32 (idx_byte * 8 + idx_bit)
      ok (
          if idx_byte == len
          then minus_one
          else if cnt == 1
          then start
          else find_run b cnt (sub_u32 (u32 (len * 8)) start) (u32 (start + 1)) 1)
