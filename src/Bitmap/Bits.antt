-- ===== src/Bitmap/Bits.antt =====
-- The bits of a byte, and what the mask operations of bitmap.c do to them: checked over all bytes.
use restore_the_operating_sy.Base.{
  inr, ltb→lt, inl, Bool-cases, ℕ, zero, suc, ◌-◌, ◌/◌, ◌%◌, ◌^◌, ◌<◌, ◌≡◌, refl, Bool, true, false,
  not, ◌||◌, sym, ◌≢◌, ltb, leb, ◌&&◌, if◌then◌else◌, ◌==◌, ==→eq, arith,
}
use Prim.Native.Nat.{bit_and, bit_or}
use restore_the_operating_sy.Base.Word.{minus_one}
use restore_the_operating_sy.Bitmap.{mask, skip_set_bits}

-- Bit k of a byte, as a number.
abbrev pub digit : ℕ → ℕ → ℕ
digit byte k = byte / 2 ^ k % 2

and_parts : (a b : Bool) → (a && b) ≡ true → (a ≡ true) × (b ≡ true)
and_parts a b h = ground arith

-- The conjunction of a test over 0 … n - 1.
every : (ℕ → Bool) → ℕ → Bool
every test zero = true
every test (suc n) = every test n && test n

every_lem : (test : ℕ → Bool) (n : ℕ) {k : ℕ} → k < n → every test n ≡ true → test k ≡ true
unfolding every
every_lem test zero {k} inside e = absurd (omega arith)
every_lem test (suc n) {k} inside e = elim (Bool-cases (ltb k n)) [
  | inl lower ↦ every_lem test n (ltb→lt _ _ lower) (and_parts (every test n) (test n) e).0
  | inr same ↦ let top : k ≡ n = ground arith in rw top (and_parts (every test n) (test n) e).1
]

-- A fact about a byte and two bit numbers, from its table.
over_bytes :
    (p : ℕ → ℕ → ℕ → Bool)
    → every (λ a. every (λ k. every (p a k) 8) 8) 256 ≡ true
    → (a k j : ℕ) → a < 256
    → k < 8
    → j < 8
    → p a k j ≡ true
over_bytes p table a k j ha hk hj = every_lem (p a k) 8 hj (
    every_lem (λ k. every (p a k) 8) 8 hk
      (every_lem (λ a. every (λ k. every (p a k) 8) 8) 256 ha table))

set_table :
    every
      (λ a.
        every
          (λ k.
            every (λ j. digit (bit_or a (mask k) % 256) j == (if j == k then 1 else digit a j)) 8)
          8)
      256
    ≡ true
unfolding every
set_table = refl

clear_table :
    every
      (λ a.
        every
          (λ k.
            every
              (λ j.
                digit (bit_and a (minus_one - mask k) % 256) j == (if j == k then 0 else digit a j))
              8)
          8)
      256
    ≡ true
unfolding every
clear_table = refl

abbrev same : Bool → Bool → Bool
same true b = b
same false b = not b

same_sound : (a b : Bool) → same a b ≡ true → a ≡ b
same_sound true b h = sym h
same_sound false b h = ground arith

test_table :
    every
      (λ a.
        every
          (λ k.
            every
              (λ j.
                same (bit_and (mask k % 256) a == 0) (digit a k == 0)
                && same (bit_and a (mask k) == 0) (digit a k == 0))
              8)
          8)
      256
    ≡ true
unfolding every
test_table = refl

first_zero_table :
    every
      (λ a.
        every
          (λ k.
            every
              (λ j.
                let r = skip_set_bits a 8 0 in
                (a == 255) || (ltb r 8 && (digit a r == 0) && (leb r j || (digit a j == 1))))
              8)
          8)
      256
    ≡ true
unfolding every skip_set_bits
first_zero_table = refl

full_table : every (λ j. digit 255 j == 1) 8 ≡ true
unfolding every
full_table = refl

-- Every bit of 0xff is set.
pub digit_full : (j : ℕ) → j < 8 → digit 255 j ≡ 1
digit_full j h = ==→eq _ _ (every_lem (λ j. digit 255 j == 1) 8 h full_table)

-- The mask tests, in either order of the operands.
pub test_mask :
    (a k : ℕ)
    → a < 256
    → k < 8
    → ((bit_and (mask k % 256) a == 0) ≡ (digit a k == 0))
      × ((bit_and a (mask k) == 0) ≡ (digit a k == 0))
test_mask a k ha hk =
    let h = over_bytes _ test_table a k 0 ha hk (omega arith) in
    let (p, q) = and_parts _ _ h in (same_sound _ _ p, same_sound _ _ q)

-- The second loop of bitmap_scan stops at the lowest clear bit of a byte that is not full.
pub skip_set_bits_lem :
    (a : ℕ)
    → a < 256
    → a ≢ 255
    → (skip_set_bits a 8 0 < 8)
      × (digit a (skip_set_bits a 8 0) ≡ 0)
      × ((j : ℕ) → j < skip_set_bits a 8 0 → digit a j ≡ 1)
skip_set_bits_lem a ha ne = (bound, clear, below)
  where
    at :
        (j : ℕ)
        → j < 8
        → ((a == 255)
            || (ltb (skip_set_bits a 8 0) 8
                && (digit a (skip_set_bits a 8 0) == 0)
                && (leb (skip_set_bits a 8 0) j || (digit a j == 1))))
          ≡ true
    at j h = over_bytes _ first_zero_table a 0 j ha (omega arith) h

    bound : skip_set_bits a 8 0 < 8
    bound = ground (arith, at 0)

    clear : digit a (skip_set_bits a 8 0) ≡ 0
    clear = ground (arith, at 0)

    below : (j : ℕ) → j < skip_set_bits a 8 0 → digit a j ≡ 1
    below j h = ground (arith, at j, bound)

-- `|= mask k` sets bit k and no other.
pub digit-bit_or :
    (a k j : ℕ)
    → a < 256
    → k < 8
    → j < 8
    → digit (bit_or a (mask k) % 256) j ≡ (if j == k then 1 else digit a j)
digit-bit_or a k j ha hk hj = ==→eq _ _ (over_bytes _ set_table a k j ha hk hj)

-- `&= ~mask k` clears bit k and no other.
pub digit-bit_and :
    (a k j : ℕ)
    → a < 256
    → k < 8
    → j < 8
    → digit (bit_and a (minus_one - mask k) % 256) j ≡ (if j == k then 0 else digit a j)
digit-bit_and a k j ha hk hj = ==→eq _ _ (over_bytes _ clear_table a k j ha hk hj)
