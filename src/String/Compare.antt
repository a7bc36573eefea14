-- ===== src/String/Compare.antt =====
-- strcmp.
use restore_the_operating_sy.Base.{
  subst, ℕ, zero, suc, ◌+◌, ◌≡◌, ◌<◌, ◌≢◌, ◌↔◌, refl, List, [], ◌∷◌, length, if◌then◌else◌, ◌==◌,
  arith, ne→==, ap, All,
}
use restore_the_operating_sy.Base.Word.{null, minus_one, ok}
use restore_the_operating_sy.String.{Memory, char_lt, compare_strings, strcmp}
use restore_the_operating_sy.String.Spec.{Holds}

-- The order of two strings: by the first signed char that differs, the end being the char 0.
abbrev pub order : List ℕ → List ℕ → ℕ
order [] [] = 0
order [] (d ∷ t) = if char_lt 0 d then minus_one else 1
order (c ∷ s) [] = if char_lt c 0 then minus_one else 1
order (c ∷ s) (d ∷ t) = if c == d then order s t else if char_lt c d then minus_one else 1

abbrev pub IsText : List ℕ → Type 0
IsText = All (λ c. (0 < c) × (c < 256))

compare_strings_lem :
    (fuel : ℕ) (m : Memory) (a b : ℕ) (s t : List ℕ)
    → Holds m a s
    → Holds m b t
    → IsText s
    → IsText t
    → length s < fuel
    → compare_strings fuel m a b ≡ ok (order s t)
unfolding compare_strings
compare_strings_lem zero m a b s t hs ht ts tt' lt = absurd (omega arith)
compare_strings_lem (suc fuel) m a b [] [] hs ht ts tt' lt = rw (hs, ht)
compare_strings_lem (suc fuel) m a b [] (d ∷ t) hs ht ts tt' lt = rw (hs, ht.0) (ground arith)
compare_strings_lem (suc fuel) m a b (c ∷ s) [] hs ht ts tt' lt = rw (hs.0, ht) (ground arith)
compare_strings_lem (suc fuel) m a b (c ∷ s) (d ∷ t) hs ht ts tt' lt =
    rw (hs.0, ht.0)
      (ground
        (arith, compare_strings_lem fuel m (a + 1) (b + 1) s t hs.2 ht.2 ts.1 tt'.1 (omega arith)))

order-eq-zero : (s t : List ℕ) → IsText s → IsText t → order s t ≡ 0 → s ≡ t
order-eq-zero [] [] ts tt' e = refl
order-eq-zero [] (d ∷ t) ts tt' e = absurd (ground arith)
order-eq-zero (c ∷ s) [] ts tt' e = absurd (ground arith)
order-eq-zero (c ∷ s) (d ∷ t) ts tt' e = ground (arith, order-eq-zero s t ts.1 tt'.1)

order_self : (s : List ℕ) → order s s ≡ 0
order_self [] = refl
order_self (c ∷ s) = ground (arith, order_self s)

order_swap : (s t : List ℕ) → IsText s → IsText t → (order s t ≡ 1) ↔ (order t s ≡ minus_one)
order_swap [] [] ts tt' = ground arith
order_swap [] (d ∷ t) ts tt' = ground arith
order_swap (c ∷ s) [] ts tt' = ground arith
order_swap (c ∷ s) (d ∷ t) ts tt' = ground (arith, order_swap s t ts.1 tt'.1)

-- strcmp returns 0 exactly for equal strings, and swapping the strings exchanges 1 and -1.
pub strcmp_lem :
    (fuel : ℕ) (m : Memory) (a b : ℕ) (s t : List ℕ)
    → Holds m a s
    → Holds m b t
    → IsText s
    → IsText t
    → a ≢ null
    → b ≢ null
    → length s < fuel
    → length t < fuel
    → ((strcmp fuel m a b ≡ ok 0) ↔ (s ≡ t))
      × ((strcmp fuel m a b ≡ ok 1) ↔ (strcmp fuel m b a ≡ ok minus_one))
unfolding strcmp
strcmp_lem fuel m a b s t hs ht ts tt' na nb ls lt =
    let (to, back) = order_swap s t ts tt' in
    rw
      (
        ne→== a null na,
        ne→== b null nb,
        compare_strings_lem fuel m a b s t hs ht ts tt' ls,
        compare_strings_lem fuel m b a t s ht hs tt' ts lt,
      )
      (
        (
          λ e. order-eq-zero s t ts tt' (cc),
          λ e. ap ok (subst (λ u. order s u ≡ 0) e (order_self s)),
        ),
        (λ e. ap ok (to (cc)), λ e. ap ok (back (cc))),
      )
