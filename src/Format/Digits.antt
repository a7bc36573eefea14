-- ===== src/Format/Digits.antt =====
-- itoa prints the numeral of its value.
use restore_the_operating_sy.Base.Word.{Returns-bind, Returns}
use restore_the_operating_sy.Base.{
  ltb, ltb, if◌then◌else◌, subst, refl, ==→ne, sym, ==→eq, inr, inl, ◌==◌, Bool-cases, ◌/◌, ◌%◌,
  ◌⊎◌, ◌^◌, ◌≢◌, arith, ◌*◌, ◌≤◌, suc, ◌<◌, ◌+◌, ◌≡◌, ℕ,
}
use restore_the_operating_sy.Format.{ℕ, itoa, digit}
use restore_the_operating_sy.String.{Memory, write}
use restore_the_operating_sy.Base.{zero, suc}
use native.Mathlib.Nat.{mod-lt, div-add-mod', div-lt_iff_lt-mul, pow-zero, pow-suc}

-- The characters '0' to '9' and 'A' to 'Z'.
abbrev pub numeral_char : ℕ → ℕ
numeral_char d = if ltb d 10 then 48 + d else 55 + d

-- At `pos` stand the `n` digits of `v`, the highest first.
abbrev pub Numeral : ℕ → Memory → ℕ → ℕ → ℕ → Type 0
Numeral base m pos zero v = v ≡ 0
Numeral base m pos (suc n) v =
    (high : ℕ) × (low : ℕ) × (low < base)
    × (m (pos + n) ≡ numeral_char low)
    × (v ≡ high * base + low)
    × Numeral base m pos n high

Numeral-write :
    (base : ℕ) (m : Memory) (pos n v a x : ℕ)
    → pos + n ≤ a
    → Numeral base m pos n v
    → Numeral base (write m a x) pos n v
Numeral-write base m pos zero v a x le h = h
Numeral-write base m pos (suc n) v a x le (high, low, small, at, e, h) =
    (high, low, small, ground (arith, at), e, Numeral-write base m pos n high a x (omega arith) h)

rounds_left : (rounds base x : ℕ) → x < base ^ rounds → x ≢ 0 → 0 < rounds
rounds_left zero base x small ne = absurd (omega (arith, pow-zero base))
rounds_left (suc rounds) base x small ne = omega arith

-- What itoa leaves: the digits between the old and the new position, at most `rounds` of them and
-- without a leading zero, and the rest of the memory as it was.
abbrev pub Printed : ℕ → ℕ → Memory → ℕ → ℕ → Memory × ℕ → Type 0
Printed base rounds mem value pos (m, p) =
    (n : ℕ) × (p ≡ pos + n)
    × (0 < n)
    × (n ≤ rounds)
    × Numeral base m pos n value
    × (value ≢ 0 → m pos ≢ 48)
    × ((a : ℕ) → (a < pos) ⊎ (p ≤ a) → m a ≡ mem a)

-- itoa in a base from 2 to 36, on a value below base ^ rounds, returns within that many calls, and
-- writes the numeral of the value, at most `rounds` digits without a leading zero, and nothing else.
pub itoa-Printed :
    (rounds : ℕ) (mem : Memory) (value pos base : ℕ)
    → 1 < base
    → base ≤ 36
    → 0 < rounds
    → value < base ^ rounds
    → Returns (Printed base rounds mem value pos) (itoa rounds mem value pos base)
unfolding itoa
itoa-Printed zero mem value pos base b1 b2 r small = absurd (omega arith)
itoa-Printed (suc rounds) mem value pos base b1 b2 r small =
    let low : value % base < base = mod-lt value (omega arith) in
    let parts : value / base * base + value % base ≡ value = div-add-mod' value base in
    elim (Bool-cases (value / base == 0)) [
      | inl e ↦
          let none_above : value / base ≡ 0 = ==→eq _ _ e in
          let low_is : value % base ≡ value =
            omega (arith, subst (λ q. q * base + value % base ≡ value) none_above parts) in
          rw e (
            1,
            refl,
            omega arith,
            omega arith,
            (value / base, value % base, low, ground arith, sym parts, none_above),
            (λ ne. ground (arith, ne, low_is)),
            (λ a out. ground (arith, out)),
          )
      | inr e ↦
          let more : value / base ≢ 0 = ==→ne _ _ e in
          let below : value / base < base ^ rounds =
            (div-lt_iff_lt-mul (omega arith)).1 (rw⁻¹ (pow-suc base rounds) small) in
          rw e (
            Returns-bind (Printed base (suc rounds) mem value pos)
              (itoa rounds mem (value / base) pos base) _
              (itoa-Printed rounds mem (value / base) pos base b1 b2
                (rounds_left rounds base (value / base) below more) below)
              λ (m, p) (n, end, some_digit, few, number, leading, same). (
                suc n,
                ground (arith, end),
                omega arith,
                omega (arith, few),
                (
                  value / base,
                  value % base,
                  low,
                  ground (arith, end),
                  sym parts,
                  Numeral-write base m pos n (value / base) p (digit (value % base))
                      (omega (arith, end)) number,
                ),
                (λ ne. ground (arith, end, some_digit, leading more)),
                (λ a out. ground (arith, out, end, same a)),
              ))
    ]
