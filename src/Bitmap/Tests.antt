-- ===== src/Bitmap/Tests.antt =====
-- Runs of bitmap.c, and its theorems at small bitmaps.
use restore_the_operating_sy.Base.{
  ℕ, zero, suc, ◌+◌, ◌<◌, ◌≤◌, ◌≡◌, refl, true, false, if◌then◌else◌, ◌==◌, arith,
}
use restore_the_operating_sy.Base.Word.{ok, panic, Returns}
use restore_the_operating_sy.Bitmap.{
  Bitmap, bitmap_init, bitmap_scan, bitmap_scan_test, bitmap_set, skip_full_bytes, skip_set_bits,
}
use restore_the_operating_sy.Bitmap.Set.{
  is_used, IsBytes, IsUpdate, bitmap_set-IsUpdate, bitmap_init_lem,
}
use restore_the_operating_sy.Bitmap.Scan.{IsFirstFree, ScansOne, bitmap_scan_one}
use restore_the_operating_sy.Bitmap.Run.{ScansRun, bitmap_scan_run}
use restore_the_operating_sy.Bitmap.Faults.{
  bitmap_scan_test-bitmap_set, scan_overlaps, scan_leaves_bitmap,
}

-- Two bytes: bits 0 and 2 to 7 of byte 0 free, bit 1 used; behind them zeros.
abbrev one_used : Bitmap
one_used = record { btmp_bytes_len = 2; bits = λ i. if i == 0 then 2 else 0 }

-- One byte with only bit 7 free.
abbrev last_free : Bitmap
last_free = record { btmp_bytes_len = 1; bits = λ i. if i == 0 then 127 else 0 }

abbrev full : Bitmap
full = record { btmp_bytes_len = 2; bits = λ i. 255 }

scan_runs :
    (bitmap_scan one_used 1 ≡ ok 0)
    × (bitmap_scan last_free 1 ≡ ok 7)
    × (bitmap_scan full 1 ≡ panic)
unfolding bitmap_scan skip_full_bytes skip_set_bits
scan_runs = (refl, refl, refl)

one_used-IsBytes : IsBytes one_used
one_used-IsBytes i = ground arith

last_free-IsBytes : IsBytes last_free
last_free-IsBytes i = ground arith

one_used-first : IsFirstFree one_used 0
one_used-first = record { inside = omega arith; free = refl; first = λ j p. absurd (omega arith) }

last_free-below : (j : ℕ) → j < 7 → is_used last_free j ≡ true
last_free-below zero p = refl
last_free-below (suc zero) p = refl
last_free-below (suc (suc zero)) p = refl
last_free-below (suc (suc (suc zero))) p = refl
last_free-below (suc (suc (suc (suc zero)))) p = refl
last_free-below (suc (suc (suc (suc (suc zero))))) p = refl
last_free-below (suc (suc (suc (suc (suc (suc zero)))))) p = refl
last_free-below (suc (suc (suc (suc (suc (suc (suc j))))))) p = absurd (omega arith)

last_free-first : IsFirstFree last_free 7
last_free-first = record { inside = omega arith; free = refl; first = last_free-below }

bitmap_set-IsUpdate_example : Returns (IsUpdate one_used 9 true) (bitmap_set one_used 9 1)
bitmap_set-IsUpdate_example = bitmap_set-IsUpdate one_used 9 1 one_used-IsBytes (omega arith)

bitmap_scan_one_example : ScansOne last_free (bitmap_scan last_free 1)
bitmap_scan_one_example = bitmap_scan_one last_free last_free-IsBytes (omega arith)

bitmap_scan_run_example : ScansRun one_used 2 (bitmap_scan one_used 2)
bitmap_scan_run_example = bitmap_scan_run one_used 2 one_used-IsBytes (omega arith) (omega arith)

bitmap_init_lem_example : is_used (bitmap_init full) 5 ≡ false
bitmap_init_lem_example = bitmap_init_lem full 5

bitmap_scan_test-bitmap_set_example :
    Returns (λ c. bitmap_scan_test c 9 ≡ bitmap_scan_test one_used 9) (bitmap_set one_used 9 1)
bitmap_scan_test-bitmap_set_example =
    bitmap_scan_test-bitmap_set one_used 9 1 (omega arith) (omega arith)

scan_overlaps_example :
    (r : ℕ) × (bitmap_scan one_used 2 ≡ ok r)
    × ¬ ((i : ℕ) → r ≤ i → i < r + 2 → is_used one_used i ≡ false)
scan_overlaps_example =
    scan_overlaps one_used 0 one_used-IsBytes (omega arith) one_used-first refl refl

scan_leaves_bitmap_example : (r : ℕ) × (bitmap_scan last_free 2 ≡ ok r) × (8 < r + 2)
scan_leaves_bitmap_example =
    scan_leaves_bitmap last_free 7 last_free-IsBytes (omega arith) last_free-first refl refl
