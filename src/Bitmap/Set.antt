-- ===== src/Bitmap/Set.antt =====
-- What a bitmap stands for, and `bitmap_set` and `bitmap_init` against it.
use restore_the_operating_sy.Base.{
  zero, suc, ltb, ◌≤◌, ℕ, ◌*◌, ◌/◌, ◌%◌, ◌<◌, ◌≡◌, refl, Bool, false, if◌then◌else◌, ◌==◌, arith,
  Bool-cases, inl, inr,
}
use restore_the_operating_sy.Base.Word.{Returns, panic}
use restore_the_operating_sy.Bitmap.{Bitmap, poke, bitmap_init, bitmap_set}
use restore_the_operating_sy.Bitmap.Bits.{digit, digit-bit_or, digit-bit_and}

-- Bit i of the bitmap, whether or not it lies within the bitmap's length.
abbrev pub is_used : Bitmap → ℕ → Bool
is_used b i = digit (b.bits (i / 8)) (i % 8) == 1

abbrev pub IsBytes : Bitmap → Type 0
IsBytes b = (i : ℕ) → b.bits i < 256

-- `c` is `b` with bit i set or cleared and all else as it was.
pub record IsUpdate (b : Bitmap) (i : ℕ) (used : Bool) (c : Bitmap) : Type 0 where
  pub bytes : IsBytes c
  pub len : c.btmp_bytes_len ≡ b.btmp_bytes_len
  pub bit : (j : ℕ) → is_used c j ≡ (if j == i then used else is_used b j)

module _ (b : Bitmap) (i : ℕ) where
  digit-poke :
      (v d : ℕ)
      → ((k : ℕ) → k < 8 → digit v k ≡ (if k == i % 8 then d else digit (b.bits (i / 8)) k))
      → (j : ℕ)
      → (digit (poke b.bits (i / 8) v (j / 8)) (j % 8) == 1)
        ≡ (if j == i then d == 1 else is_used b j)
  digit-poke v d e j = elim (Bool-cases (j / 8 == i / 8)) [
    | inl p ↦ ground (arith, p, e (j % 8))
    | inr p ↦ ground (arith, p)
  ]

  poke-IsUpdate :
      (v d : ℕ)
      → IsBytes b
      → v < 256
      → ((k : ℕ) → k < 8 → digit v k ≡ (if k == i % 8 then d else digit (b.bits (i / 8)) k))
      → IsUpdate b i (d == 1) (record b { bits = poke b.bits (i / 8) v })
  poke-IsUpdate v d h lt e = record {
    bytes = λ j. ground (arith, h j);
    len = refl;
    bit = digit-poke v d e;
  }

-- bitmap_set with the value 0 or 1 changes that bit and no other, and keeps the length.
pub bitmap_set-IsUpdate :
    (b : Bitmap) (i v : ℕ) → IsBytes b → v < 2 → Returns (IsUpdate b i (v == 1)) (bitmap_set b i v)
unfolding bitmap_set
bitmap_set-IsUpdate b i zero h lt =
    poke-IsUpdate b i _ 0 h (omega arith)
      (λ k hk. digit-bit_and (b.bits (i / 8)) (i % 8) k (h _) (omega arith) hk)
bitmap_set-IsUpdate b i (suc zero) h lt =
    poke-IsUpdate b i _ 1 h (omega arith)
      (λ k hk. digit-bit_or (b.bits (i / 8)) (i % 8) k (h _) (omega arith) hk)
bitmap_set-IsUpdate b i (suc (suc v)) h lt = absurd (omega arith)

-- With any other value the ASSERT stops the machine.
pub bitmap_set-panic : (b : Bitmap) (i v : ℕ) → 2 ≤ v → bitmap_set b i v ≡ panic
unfolding bitmap_set
bitmap_set-panic b i v h = ground arith

-- bitmap_init clears every bit of the bitmap and no byte beyond it.
pub bitmap_init_lem :
    (b : Bitmap) (i : ℕ)
    → is_used (bitmap_init b) i ≡ (if ltb i (b.btmp_bytes_len * 8) then false else is_used b i)
unfolding bitmap_init
bitmap_init_lem b i = ground arith
