-- ===== src/Bitmap/Faults.antt =====
-- Where bitmap.c does not do what its comments say: the byte that bitmap_scan_test reads, and the
-- number of rounds of bitmap_scan's third loop.
use restore_the_operating_sy.Base.{
  ap, ◌∙◌, ℕ, zero, suc, ◌+◌, ◌-◌, ◌*◌, ◌/◌, ◌%◌, ◌^◌, ◌<◌, ◌≤◌, ◌≡◌, true, false, arith, ne→==,
}
use restore_the_operating_sy.Base.Word.{ok, Returns}
use restore_the_operating_sy.Bitmap.{Bitmap, find_run, bitmap_scan, bitmap_scan_test, bitmap_set}
use restore_the_operating_sy.Bitmap.Bits.{digit, test_mask}
use restore_the_operating_sy.Bitmap.Set.{is_used, IsBytes}
use restore_the_operating_sy.Bitmap.Scan.{IsFirstFree}
use restore_the_operating_sy.Bitmap.Run.{scan-find_run}

-- From bit 1 on, setting or clearing a bit never changes what bitmap_scan_test answers for it.
pub bitmap_scan_test-bitmap_set :
    (b : Bitmap) (i v : ℕ)
    → 0 < i
    → v < 2
    → Returns (λ c. bitmap_scan_test c i ≡ bitmap_scan_test b i) (bitmap_set b i v)
unfolding bitmap_set bitmap_scan_test
bitmap_scan_test-bitmap_set b i zero pos lt = rw (ne→== i (i / 8) (omega arith))
bitmap_scan_test-bitmap_set b i (suc zero) pos lt = rw (ne→== i (i / 8) (omega arith))
bitmap_scan_test-bitmap_set b i (suc (suc v)) pos lt = absurd (omega arith)

-- bitmap_scan_test i is false when bit i % 8 of byte i is clear.
pub bitmap_scan_test_lem :
    (b : Bitmap) (i : ℕ) → IsBytes b → (digit (b.bits i) (i % 8) ≡ 0) → bitmap_scan_test b i ≡ false
unfolding bitmap_scan_test
bitmap_scan_test_lem b i h e = rw ((test_mask (b.bits i) (i % 8) (h i) (omega arith)).1, e)

-- The loop ends in its first round, for two bits, if its test passes there.
find_run_two :
    (b : Bitmap) (left next : ℕ)
    → 0 < left
    → 0 < next
    → next < 2 ^ 31
    → bitmap_scan_test b next ≡ false
    → find_run b 2 left next 1 ≡ next - 1
unfolding find_run
find_run_two b zero next p q small e = absurd (omega arith)
find_run_two b (suc left) next p q small e = rw e (omega arith)

-- If the first free bit is s and bit (s + 1) % 8 of byte s + 1 is clear, a scan for two bits
-- returns s, whatever bit s + 1 itself says.
pub scan-two :
    (b : Bitmap) (s : ℕ)
    → IsBytes b
    → b.btmp_bytes_len < 2 ^ 28
    → IsFirstFree b s
    → digit (b.bits (s + 1)) ((s + 1) % 8) ≡ 0
    → bitmap_scan b 2 ≡ ok s
scan-two b s h small free e =
    let inside = free.inside in
    scan-find_run b 2 s h small (omega arith) free
    ∙ ap ok (
        find_run_two b (b.btmp_bytes_len * 8 - s) (s + 1) (omega arith) (omega arith) (omega arith)
          (bitmap_scan_test_lem b (s + 1) h e)
        ∙ back)
  where
    back : s + 1 - 1 ≡ s
    back = omega arith

-- A scan for two bits can hand out a bit that is in use: it does so whenever the bit behind the
-- first free one is used and bit (s + 1) % 8 of byte s + 1 is clear.
pub scan_overlaps :
    (b : Bitmap) (s : ℕ)
    → IsBytes b
    → b.btmp_bytes_len < 2 ^ 28
    → IsFirstFree b s
    → is_used b (s + 1) ≡ true
    → digit (b.bits (s + 1)) ((s + 1) % 8) ≡ 0
    → (r : ℕ) × (bitmap_scan b 2 ≡ ok r) × ¬ ((i : ℕ) → r ≤ i → i < r + 2 → is_used b i ≡ false)
scan_overlaps b s h small free used e =
    (s, scan-two b s h small free e, λ all. ground (arith, all (s + 1)))

-- A scan for two bits can hand out the bit behind the bitmap's last: it does so whenever only the
-- last bit is free and byte len * 8, which the code reads for it, has its lowest bit clear.
pub scan_leaves_bitmap :
    (b : Bitmap) (s : ℕ)
    → IsBytes b
    → b.btmp_bytes_len < 2 ^ 28
    → IsFirstFree b s
    → s + 1 ≡ b.btmp_bytes_len * 8
    → digit (b.bits (s + 1)) 0 ≡ 0
    → (r : ℕ) × (bitmap_scan b 2 ≡ ok r) × (b.btmp_bytes_len * 8 < r + 2)
scan_leaves_bitmap b s h small free last e =
    let low : (s + 1) % 8 ≡ 0 = omega arith in
    (s, scan-two b s h small free (rw low e), omega arith)
