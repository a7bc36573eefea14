-- ===== src/String/Length.antt =====
-- strlen and strchrs.
use restore_the_operating_sy.Base.{
  mod-eq_of_lt, ◌^◌, ℕ, zero, suc, ◌+◌, ◌≡◌, ◌<◌, ◌≤◌, ◌≢◌, List, [], ◌∷◌, length, if◌then◌else◌,
  arith, ne→==, ap, ◌∙◌,
}
use restore_the_operating_sy.Base.Word.{null, u32, ok}
use restore_the_operating_sy.String.{Memory, char_is, past_zero, strlen, count_char, strchrs}
use restore_the_operating_sy.String.Spec.{Holds}

-- Enough fuel finds the zero.
pub past_zero_lem :
    (fuel : ℕ) (m : Memory) (p : ℕ) (s : List ℕ)
    → Holds m p s
    → length s < fuel
    → past_zero fuel m p ≡ ok (p + length s + 1)
unfolding past_zero
past_zero_lem zero m p s h lt = absurd (omega arith)
past_zero_lem (suc fuel) m p [] h lt = rw h (ap ok (omega arith))
past_zero_lem (suc fuel) m p (c ∷ s) h lt =
    rw (h.0, ne→== c 0 h.1) (past_zero_lem fuel m (p + 1) s h.2 (omega arith) ∙ ap ok (omega arith))

-- strlen of a string is the number of bytes before its zero.
pub strlen-length :
    (fuel : ℕ) (m : Memory) (p : ℕ) (s : List ℕ)
    → Holds m p s
    → p ≢ null
    → length s < fuel
    → strlen fuel m p ≡ ok (length s)
unfolding strlen
strlen-length fuel m p s h ne lt =
    rw (ne→== p null ne, past_zero_lem fuel m p s h lt) (ap ok (omega arith))

-- How often the char ch stands in the list.
abbrev pub count : ℕ → List ℕ → ℕ
count ch [] = 0
count ch (c ∷ s) = (if char_is c ch then 1 else 0) + count ch s

count-le-length : (ch : ℕ) (s : List ℕ) → count ch s ≤ length s
count-le-length ch [] = omega arith
count-le-length ch (c ∷ s) = ground (arith, count-le-length ch s)

count_char_lem :
    (fuel : ℕ) (m : Memory) (p ch n : ℕ) (s : List ℕ)
    → Holds m p s
    → length s < fuel
    → n + length s < 2 ^ 32
    → count_char fuel m p ch n ≡ ok (n + count ch s)
unfolding count_char
count_char_lem zero m p ch n s h lt small = absurd (omega arith)
count_char_lem (suc fuel) m p ch n [] h lt small = rw h (ap ok (omega arith))
count_char_lem (suc fuel) m p ch n (c ∷ s) h lt small =
    let n' : ℕ = if char_is c ch then u32 (n + 1) else n in
    let step : n' ≡ n + (if char_is c ch then 1 else 0) = ground arith in
    let bound : n' ≤ n + 1 = ground arith in
    rw (h.0, ne→== c 0 h.1)
      (count_char_lem fuel m (p + 1) ch n' s h.2 (omega arith) (omega arith) ∙ ap ok (omega arith))

-- strchrs counts the occurrences of the character in the string.
pub strchrs-count :
    (fuel : ℕ) (m : Memory) (p ch : ℕ) (s : List ℕ)
    → Holds m p s
    → p ≢ null
    → length s < fuel
    → length s < 2 ^ 32
    → ch < 256
    → strchrs fuel m p ch ≡ ok (count ch s)
unfolding strchrs
strchrs-count fuel m p ch s h ne lt small byte =
    rw (ne→== p null ne, mod-eq_of_lt byte)
      (count_char_lem fuel m p ch 0 s h lt (omega arith) ∙ ap ok (omega arith))
