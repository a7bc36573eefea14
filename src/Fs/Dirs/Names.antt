-- ===== src/Fs/Dirs/Names.antt =====
-- strcmp against a name decides whether the name stands in the entry.
use restore_the_operating_sy.Base.Word.{>>=-ok, ok, Returns}
use restore_the_operating_sy.Base.{
  ◌⊎◌, some, if◌then◌else◌, subst, none, Option, ◌-◌, refl, not, ◌^◌, ◌≤◌, inr, inl, Bool-cases,
  arith, ◌+◌, ◌≡◌, ◌&&◌, ◌==◌, length, Bool, ◌<◌, List, ℕ, [], ◌∷◌, zero, suc, true, false,
}
use restore_the_operating_sy.String.{Memory, strcmp, compare_strings}
use restore_the_operating_sy.String.Spec.{Holds}
use restore_the_operating_sy.Fs.Dirs.{Buffer, same_name, side_by_side, find_name, entry_at}

-- At `p` stand the bytes `s` and a 0.
abbrev pub reads : Memory → ℕ → List ℕ → Bool
reads m p [] = m p == 0
reads m p (c ∷ s) = (m p == c) && reads m (p + 1) s

abbrev pub IsBytes : Memory → Type 0
IsBytes m = (a : ℕ) → m a < 256

compare-reads :
    (fuel : ℕ) (m : Memory) (a b : ℕ) (s : List ℕ)
    → IsBytes m
    → Holds m b s
    → length s < fuel
    → Returns (λ r. (r == 0) ≡ reads m a s) (compare_strings fuel m a b)
unfolding compare_strings
compare-reads zero m a b s bytes h f = absurd (omega arith)
compare-reads (suc fuel) m a b [] bytes h f = ground (arith, bytes a, bytes b)
compare-reads (suc fuel) m a b (c ∷ s) bytes (at, nz, h) f = elim (Bool-cases (m a == c)) [
  | inl e ↦
      let goes_on : (not (m a == 0) && (m a == m b)) ≡ true = ground arith in
      rw (goes_on, e) (compare-reads fuel m (a + 1) (b + 1) s bytes h (omega arith))
  | inr e ↦ ground (arith, bytes a, bytes b)
]

-- What a string is does not depend on where it stands.
module _ (m m' : Memory) where
  pub reads_shift :
      (p p' : ℕ) (s : List ℕ)
      → ((i : ℕ) → i ≤ length s → m (p + i) ≡ m' (p' + i))
      → reads m p s ≡ reads m' p' s
  reads_shift p p' [] same = ground (arith, same 0)
  reads_shift p p' (c ∷ s) same =
      let first : m p ≡ m' p' = ground (arith, same 0) in
      rw (first, reads_shift (p + 1) (p' + 1) s (λ i le. ground (arith, same (i + 1)))) refl

  Holds-shift :
      (p p' : ℕ) (s : List ℕ)
      → ((i : ℕ) → i ≤ length s → m (p + i) ≡ m' (p' + i))
      → Holds m p s
      → Holds m' p' s
  Holds-shift p p' [] same h = ground (arith, same 0)
  Holds-shift p p' (c ∷ s) same (at, nz, h) = (
    ground (arith, same 0),
    nz,
    Holds-shift (p + 1) (p' + 1) s (λ i le. ground (arith, same (i + 1))) h,
  )

-- The test of an entry against a name that fits below the entry in memory.
pub same_name-reads :
    (fuel : ℕ) (de name : Buffer) (s : List ℕ)
    → IsBytes de
    → IsBytes name
    → Holds name 0 s
    → length s < fuel
    → length s < 1000
    → same_name fuel de name ≡ ok (reads de 0 s)
unfolding same_name strcmp
same_name-reads fuel de name s db nb h f small =
    let m = side_by_side name de in
    let bytes : IsBytes m = λ a. ground (arith, db (a - 2 ^ 20), nb (a - 1)) in
    >>=-ok (λ r. r == 0) (reads de 0 s) (compare_strings fuel m (2 ^ 20) 1)
      (subst (λ b. Returns (λ r. (r == 0) ≡ b) (compare_strings fuel m (2 ^ 20) 1))
        (reads_shift m de (2 ^ 20) 0 s (λ i le. ground arith))
        (compare-reads fuel m (2 ^ 20) 1 s bytes (Holds-shift name m 0 1 s (λ i le. ground arith) h)
          f))

-- The loop over the entries of a sector finds the first whose name is `s`.
abbrev pub first_named : Buffer → List ℕ → ℕ → ℕ → Option ℕ
first_named buf s zero idx = none
first_named buf s (suc left) idx =
    let rest = first_named buf s left (idx + 1) in
    if reads (entry_at buf idx) 0 s then some idx else rest

pub find_name-first_named :
    (fuel : ℕ) (buf name : Buffer) (s : List ℕ) (left idx : ℕ)
    → IsBytes buf
    → IsBytes name
    → Holds name 0 s
    → length s < fuel
    → length s < 1000
    → find_name fuel name buf left idx ≡ ok (first_named buf s left idx)
unfolding find_name
find_name-first_named fuel buf name s zero idx bb nb h f small = refl
find_name-first_named fuel buf name s (suc left) idx bb nb h f small =
    rw (same_name-reads fuel (entry_at buf idx) name s (λ a. bb _) nb h f small)
      (elim (Bool-cases (reads (entry_at buf idx) 0 s)) [
        | inl e ↦ rw e refl
        | inr e ↦ rw e (find_name-first_named fuel buf name s left (idx + 1) bb nb h f small)
      ])

-- What first_named finds, in words.
abbrev pub IsFirst : Buffer → List ℕ → ℕ → ℕ → Option ℕ → Type 0
IsFirst buf s left idx none =
    (e : ℕ) → idx ≤ e → e < idx + left → reads (entry_at buf e) 0 s ≡ false
IsFirst buf s left idx (some e) =
    (idx ≤ e)
    × (e < idx + left)
    × (reads (entry_at buf e) 0 s ≡ true)
    × ((e' : ℕ) → idx ≤ e' → e' < e → reads (entry_at buf e') 0 s ≡ false)

pub first_named-IsFirst :
    (buf : Buffer) (s : List ℕ) (left idx : ℕ) → IsFirst buf s left idx (first_named buf s left idx)
first_named-IsFirst buf s zero idx = λ e lo hi. absurd (omega arith)
first_named-IsFirst buf s (suc left) idx = elim (Bool-cases (reads (entry_at buf idx) 0 s)) [
  | inl e ↦ rw e (omega arith, omega arith, e, λ e' lo hi. absurd (omega arith))
  | inr e ↦
      rw e (widen (first_named buf s left (idx + 1)) e (first_named-IsFirst buf s left (idx + 1)))
]
  where
    at_or_after : (e' : ℕ) → idx ≤ e' → (e' ≡ idx) ⊎ (idx + 1 ≤ e')
    at_or_after e' le = omega arith

    widen :
        (o : Option ℕ)
        → reads (entry_at buf idx) 0 s ≡ false
        → IsFirst buf s left (idx + 1) o
        → IsFirst buf s (suc left) idx o
    widen none miss h =
        λ e lo hi. elim (at_or_after e lo) [ inl q ↦ rw q miss | inr q ↦ h e q (omega arith) ]
    widen (some e) miss (lo, hi, hit, before) = (
      omega arith,
      omega arith,
      hit,
      λ e' lo' hi'. elim (at_or_after e' lo') [ inl q ↦ rw q miss | inr q ↦ before e' q hi' ],
    )
