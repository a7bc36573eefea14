-- ===== src/String/Find.antt =====
-- strchr and strrchr.
use restore_the_operating_sy.Base.{
  ◌%◌, refl, ap, Bool-cases, drop, take, mod-eq_of_lt, inr, some, get_elem?, ◌≢◌, ◌≤◌, false, inl,
  ◌⊎◌, All, ℕ, zero, suc, ◌+◌, ◌≡◌, ◌<◌, List, [], ◌∷◌, length, if◌then◌else◌, arith, ne→==,
}
use restore_the_operating_sy.Base.Word.{null, Returns, ok}
use restore_the_operating_sy.String.{strrchr, strchr, Memory, char_is, find_char, find_last_char}
use restore_the_operating_sy.String.Spec.{Holds}

-- The address of the first and of the last occurrence of the char ch in a list that stands at p.
abbrev pub first_at : ℕ → ℕ → List ℕ → ℕ
first_at p ch [] = null
first_at p ch (c ∷ s) = if char_is c ch then p else first_at (p + 1) ch s

abbrev pub last_at : ℕ → ℕ → ℕ → List ℕ → ℕ
last_at p ch found [] = found
last_at p ch found (c ∷ s) = last_at (p + 1) ch (if char_is c ch then p else found) s

find_char_lem :
    (fuel : ℕ) (m : Memory) (p ch : ℕ) (s : List ℕ)
    → Holds m p s
    → length s < fuel
    → find_char fuel m p ch ≡ ok (first_at p ch s)
unfolding find_char
find_char_lem zero m p ch s h lt = absurd (omega arith)
find_char_lem (suc fuel) m p ch [] h lt = rw h
find_char_lem (suc fuel) m p ch (c ∷ s) h lt =
    rw (h.0, ne→== c 0 h.1, find_char_lem fuel m (p + 1) ch s h.2 (omega arith)) (ground arith)

find_last_char_lem :
    (fuel : ℕ) (m : Memory) (p ch found : ℕ) (s : List ℕ)
    → Holds m p s
    → length s < fuel
    → find_last_char fuel m p ch found ≡ ok (last_at p ch found s)
unfolding find_last_char
find_last_char_lem zero m p ch found s h lt = absurd (omega arith)
find_last_char_lem (suc fuel) m p ch found [] h lt = rw h
find_last_char_lem (suc fuel) m p ch found (c ∷ s) h lt =
    rw (h.0, ne→== c 0 h.1)
      (find_last_char_lem fuel m (p + 1) ch (if char_is c ch then p else found) s h.2 (omega arith))

abbrev pub Lacks : ℕ → List ℕ → Type 0
Lacks ch = All (λ c. c ≢ ch)

-- `r` is null and the string at p lacks the character, or the address of its first place.
abbrev pub IsFirst : ℕ → ℕ → List ℕ → ℕ → Type 0
IsFirst p ch s r =
    ((r ≡ null) × Lacks ch s)
    ⊎ ((i : ℕ) × (r ≡ p + i) × (get_elem? s i ≡ some ch) × Lacks ch (take i s))

abbrev pub IsLast : ℕ → ℕ → List ℕ → ℕ → Type 0
IsLast p ch s r =
    ((r ≡ null) × Lacks ch s)
    ⊎ ((i : ℕ) × (r ≡ p + i) × (get_elem? s i ≡ some ch) × Lacks ch (drop (i + 1) s))

first_at-IsFirst : (p ch : ℕ) (s : List ℕ) → ch < 128 → IsFirst p ch s (first_at p ch s)
first_at-IsFirst p ch [] small = inl (refl, tt)
first_at-IsFirst p ch (c ∷ s) small = elim (Bool-cases (char_is c ch)) [
  | inl e ↦ rw e (inr (0, omega arith, ground arith, tt))
  | inr e ↦ rw e (later (ground arith) (first_at-IsFirst (p + 1) ch s small))
]
  where
    later :
        c ≢ ch
        → IsFirst (p + 1) ch s (first_at (p + 1) ch s)
        → IsFirst p ch (c ∷ s) (first_at (p + 1) ch s)
    later ne (inl (e, l)) = inl (e, (ne, l))
    later ne (inr (i, e, g, l)) = inr (suc i, omega arith, g, (ne, l))

last_at-Lacks : (p ch found : ℕ) (s : List ℕ) → Lacks ch s → last_at p ch found s ≡ found
last_at-Lacks p ch found [] l = refl
last_at-Lacks p ch found (c ∷ s) (ne, l) =
    let no : char_is c ch ≡ false = ground arith in rw no (last_at-Lacks (p + 1) ch found s l)

last_at-IsLast :
    (p ch found : ℕ) (s : List ℕ)
    → ch < 128
    → ((last_at p ch found s ≡ found) × Lacks ch s)
      ⊎ ((i : ℕ) × (last_at p ch found s ≡ p + i)
          × (get_elem? s i ≡ some ch)
          × Lacks ch (drop (i + 1) s))
last_at-IsLast p ch found [] small = inl (refl, tt)
last_at-IsLast p ch found (c ∷ s) small = elim (Bool-cases (char_is c ch)) [
  | inl e ↦ rw e (here (ground arith) (last_at-IsLast (p + 1) ch p s small))
  | inr e ↦ rw e (later (ground arith) (last_at-IsLast (p + 1) ch found s small))
]
  where
    shift : (i : ℕ) → Lacks ch (drop (i + 1) s) → Lacks ch (drop (suc i + 1) (c ∷ s))
    shift i l = let e : suc i + 1 ≡ suc (i + 1) = omega arith in rw e l

    here :
        c ≡ ch
        → ((last_at (p + 1) ch p s ≡ p) × Lacks ch s)
          ⊎ ((i : ℕ) × (last_at (p + 1) ch p s ≡ p + 1 + i)
              × (get_elem? s i ≡ some ch)
              × Lacks ch (drop (i + 1) s))
        → ((last_at (p + 1) ch p s ≡ found) × ((c ≢ ch) × Lacks ch s))
          ⊎ ((i : ℕ) × (last_at (p + 1) ch p s ≡ p + i)
              × (get_elem? (c ∷ s) i ≡ some ch)
              × Lacks ch (drop (i + 1) (c ∷ s)))
    here same (inl (e, l)) = inr (0, omega arith, ap some same, l)
    here same (inr (i, e, g, l)) = inr (suc i, omega arith, g, shift i l)

    later :
        c ≢ ch
        → ((last_at (p + 1) ch found s ≡ found) × Lacks ch s)
          ⊎ ((i : ℕ) × (last_at (p + 1) ch found s ≡ p + 1 + i)
              × (get_elem? s i ≡ some ch)
              × Lacks ch (drop (i + 1) s))
        → ((last_at (p + 1) ch found s ≡ found) × ((c ≢ ch) × Lacks ch s))
          ⊎ ((i : ℕ) × (last_at (p + 1) ch found s ≡ p + i)
              × (get_elem? (c ∷ s) i ≡ some ch)
              × Lacks ch (drop (i + 1) (c ∷ s)))
    later ne (inl (e, l)) = inl (e, (ne, l))
    later ne (inr (i, e, g, l)) = inr (suc i, omega arith, g, shift i l)

-- strchr of a character below 0x80 returns the address of its first occurrence in the string, or
-- null where there is none.
pub strchr-IsFirst :
    (fuel : ℕ) (m : Memory) (p ch : ℕ) (s : List ℕ)
    → Holds m p s
    → p ≢ null
    → length s < fuel
    → ch < 128
    → Returns (IsFirst p ch s) (strchr fuel m p ch)
unfolding strchr
strchr-IsFirst fuel m p ch s h ne lt small =
    let byte : ch % 256 ≡ ch = omega arith in
    rw (ne→== p null ne, byte, find_char_lem fuel m p ch s h lt) (first_at-IsFirst p ch s small)

-- strrchr of a character below 0x80 returns the address of its last occurrence, or null.
pub strrchr-IsLast :
    (fuel : ℕ) (m : Memory) (p ch : ℕ) (s : List ℕ)
    → Holds m p s
    → p ≢ null
    → length s < fuel
    → ch < 128
    → Returns (IsLast p ch s) (strrchr fuel m p ch)
unfolding strrchr
strrchr-IsLast fuel m p ch s h ne lt small =
    let byte : ch % 256 ≡ ch = omega arith in
    rw (ne→== p null ne, byte, find_last_char_lem fuel m p ch null s h lt)
      (last_at-IsLast p ch null s small)

first_at_high : (p ch : ℕ) (s : List ℕ) → 128 ≤ ch → first_at p ch s ≡ null
first_at_high p ch [] high = refl
first_at_high p ch (c ∷ s) high =
    let no : char_is c ch ≡ false = ground arith in rw no (first_at_high (p + 1) ch s high)

-- strchr never finds a character from 0x80 on, whatever the string holds.
pub strchr_high :
    (fuel : ℕ) (m : Memory) (p ch : ℕ) (s : List ℕ)
    → Holds m p s
    → p ≢ null
    → length s < fuel
    → 128 ≤ ch
    → ch < 256
    → strchr fuel m p ch ≡ ok null
unfolding strchr
strchr_high fuel m p ch s h ne lt high byte = rw (
  ne→== p null ne,
  mod-eq_of_lt byte,
  find_char_lem fuel m p ch s h lt,
  first_at_high p ch s high,
)
