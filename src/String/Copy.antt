-- ===== src/String/Copy.antt =====
-- strcpy and strcat.
use restore_the_operating_sy.Base.{
  ℕ, zero, suc, ◌+◌, ◌-◌, ◌≡◌, ◌<◌, ◌≤◌, ◌≢◌, ◌⊎◌, refl, List, [], ◌∷◌, ◌++◌, length, length-append,
  arith, ne→==, ◌∙◌,
}
use restore_the_operating_sy.Base.Word.{null, Returns-bind, Returns-mono, ok, Returns}
use restore_the_operating_sy.String.{Memory, write, copy_string, strcpy, strcat}
use restore_the_operating_sy.String.Spec.{Holds, Agree, Holds-Agree}
use restore_the_operating_sy.String.Length.{past_zero_lem}

-- `n` is `m` with the string s written at dst.
pub record Wrote (m : Memory) (dst : ℕ) (s : List ℕ) (n : Memory) : Type 0 where
  pub there : Holds n dst s
  pub below : (a : ℕ) → a < dst → n a ≡ m a
  pub above : (a : ℕ) → dst + length s < a → n a ≡ m a

-- Forward copying: the target's end may overlap nothing of the source that is still to be read.
pub copy_string_lem :
    (fuel : ℕ) (m : Memory) (dst src : ℕ) (s : List ℕ)
    → Holds m src s
    → length s < fuel
    → (dst ≤ src) ⊎ (src + length s < dst)
    → Returns (Wrote m dst s) (copy_string fuel m dst src)
unfolding copy_string
copy_string_lem zero m dst src s h lt apart = absurd (omega arith)
copy_string_lem (suc fuel) m dst src [] h lt apart =
    rw h record { there = ground arith; below = λ a p. ground arith; above = λ a p. ground arith }
copy_string_lem (suc fuel) m dst src (c ∷ s) h lt apart =
    rw (h.0, ne→== c 0 h.1)
      (Returns-mono (Wrote m dst (c ∷ s)) _
        (copy_string_lem fuel (write m dst c) (dst + 1) (src + 1) s
          (Holds-Agree m (write m dst c) (src + 1) s h.2 (λ a lo hi. ground arith)) (omega arith)
          (omega arith))
        λ n w. record {
          there = (w.below dst (omega arith) ∙ ground arith, h.1, w.there);
          below = λ a p. w.below a (omega arith) ∙ ground arith;
          above = λ a p. w.above a (omega arith) ∙ ground arith;
        })

-- strcpy leaves the source's string at dst, changes no byte outside it and its zero, and returns
-- dst, unless dst lies within the source behind its first byte.
pub strcpy-Wrote :
    (fuel : ℕ) (m : Memory) (dst src : ℕ) (s : List ℕ)
    → Holds m src s
    → dst ≢ null
    → src ≢ null
    → length s < fuel
    → (dst ≤ src) ⊎ (src + length s < dst)
    → Returns (λ r. Wrote m dst s r.0 × (r.1 ≡ dst)) (strcpy fuel m dst src)
unfolding strcpy
strcpy-Wrote fuel m dst src s h nd ns lt apart =
    rw (ne→== dst null nd, ne→== src null ns)
      (Returns-bind (λ (r : Memory × ℕ). Wrote m dst s r.0 × (r.1 ≡ dst)) _
        (λ (n : Memory). ok (n, dst)) (copy_string_lem fuel m dst src s h lt apart)
        (λ n w. (w, refl)))

Holds-append :
    (m n : Memory) (p : ℕ) (s t : List ℕ)
    → Holds m p s
    → Agree m n p (p + length s)
    → Holds n (p + length s) t
    → Holds n p (s ++ t)
Holds-append m n p [] t h same there = let e : p + 0 ≡ p = omega arith in rw e at there
Holds-append m n p (c ∷ s) t h same there =
    let e : p + suc (length s) ≡ p + 1 + length s = omega arith in
    (
      same p (omega arith) (omega arith) ∙ h.0,
      h.1,
      Holds-append m n (p + 1) s t h.2 (λ a lo hi. same a (omega arith) (omega arith))
          (rw e at there),
    )

-- strcat leaves the two strings' concatenation at dst, changes no byte outside it and its zero, and
-- returns dst, if the source's string lies apart from the result.
pub strcat-append :
    (fuel : ℕ) (m : Memory) (dst src : ℕ) (s t : List ℕ)
    → Holds m dst s
    → Holds m src t
    → dst ≢ null
    → src ≢ null
    → length s < fuel
    → length t < fuel
    → (dst + length s + length t < src) ⊎ (src + length t < dst)
    → Returns (λ r. Wrote m dst (s ++ t) r.0 × (r.1 ≡ dst)) (strcat fuel m dst src)
unfolding strcat
strcat-append fuel m dst src s t hs ht nd ns ls lt apart =
    let end : dst + length s + 1 - 1 ≡ dst + length s = omega arith in
    rw (ne→== dst null nd, ne→== src null ns, past_zero_lem fuel m dst s hs ls, end)
      (Returns-bind (λ (r : Memory × ℕ). Wrote m dst (s ++ t) r.0 × (r.1 ≡ dst)) _
        (λ (n : Memory). ok (n, dst))
        (copy_string_lem fuel m (dst + length s) src t ht lt (omega arith))
        λ n w. (
          record {
            there = Holds-append m n dst s t hs (λ a lo hi. w.below a hi) w.there;
            below = λ a p. w.below a (omega arith);
            above = λ a p. w.above a (omega (arith, length-append s t));
          },
          refl,
        ))
