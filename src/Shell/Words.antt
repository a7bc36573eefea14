-- ===== src/Shell/Words.antt =====
-- The words of a line, and the loops of cmd_parse that go over tokens and over a word.
use restore_the_operating_sy.Base.{
  ℕ, zero, suc, ◌+◌, ◌≤◌, ◌<◌, ◌≡◌, ◌≢◌, refl, sym, Bool, true, false, Bool-cases, ==→eq, ==→ne,
  eq→==, ne→==, if◌then◌else◌, ◌==◌, inl, inr, List, [], ◌∷◌, length, arith,
}
use restore_the_operating_sy.Base.{
  sym, sym, ne→==, ne→==, suc, arith, arith, true, true, [], false, false, ◌<◌, ◌<◌, ◌≤◌, ◌≤◌, ◌==◌,
  length, length, ◌≡◌, ◌≡◌, if◌then◌else◌, ◌≢◌, ◌≢◌, ◌+◌, ◌∷◌, Bool, Bool, List, List, ℕ,
}
use restore_the_operating_sy.Base.Word.{Returns, Returns-mono}
use restore_the_operating_sy.String.{Memory, write}
use restore_the_operating_sy.String.Spec.{Holds}
use restore_the_operating_sy.Shell.{skip_tokens, skip_word}

-- The bytes in front of the first token.
abbrev pub first_word : ℕ → List ℕ → List ℕ
first_word t [] = []
first_word t (c ∷ s) = if c == t then [] else c ∷ first_word t s

-- The words of a line that stands at `at`, with their addresses. A word begins where no token stands,
-- and in front of which a token or nothing does: `fresh`.
abbrev pub words : ℕ → Bool → ℕ → List ℕ → List (ℕ × List ℕ)
words t fresh at [] = []
words t fresh at (c ∷ s) =
    if c == t
    then words t true (at + 1) s
    else if fresh
    then (at, c ∷ first_word t s) ∷ words t false (at + 1) s
    else words t false (at + 1) s

-- The pointers from argv[k] on point to the words, each a string of its own.
abbrev pub Pointed : Memory → (ℕ → ℕ) → ℕ → List (ℕ × List ℕ) → Type 0
Pointed m argv k [] = Unit
Pointed m argv k ((a, w) ∷ ws) = (argv k ≡ a) × Holds m a w × Pointed m argv (k + 1) ws

-- The place behind the tokens, and what stands there.
abbrev pub NoToken : ℕ → List ℕ → Type 0
NoToken t [] = Unit
NoToken t (c ∷ s) = c ≢ t

pub record Skipped (m : Memory) (t p : ℕ) (s : List ℕ) (q : ℕ) : Type 0 where
  pub rest : List ℕ
  pub there : Holds m q rest
  pub long : p + length s ≡ q + length rest
  pub front : p ≤ q
  pub same : words t true p s ≡ words t true q rest
  pub stop : NoToken t rest

pub skip_tokens-Skipped :
    (fuel : ℕ) (m : Memory) (t p : ℕ) (s : List ℕ)
    → Holds m p s
    → t ≢ 0
    → length s < fuel
    → Returns (Skipped m t p s) (skip_tokens fuel m t p)
unfolding skip_tokens
skip_tokens-Skipped zero m t p s h nz lt = absurd (omega arith)
skip_tokens-Skipped (suc fuel) m t p [] h nz lt =
    rw (h, ne→== 0 t (λ e. nz (sym e)))
      (record { rest = []; there = h; long = refl; front = omega arith; same = refl; stop = tt })
skip_tokens-Skipped (suc fuel) m t p (c ∷ s) h nz lt = elim (Bool-cases (c == t)) [
  | inl e ↦
      rw (h.0, e)
        (Returns-mono (Skipped m t p (c ∷ s)) _
          (skip_tokens-Skipped fuel m t (p + 1) s h.2 nz (omega arith))
          λ q k. record {
            rest = k.rest;
            there = k.there;
            long = omega (arith, k.long);
            front = omega (arith, k.front);
            same = rw e k.same;
            stop = k.stop;
          })
  | inr e ↦
      rw (h.0, e)
        (record {
          rest = c ∷ s;
          there = h;
          long = refl;
          front = omega arith;
          same = refl;
          stop = ==→ne c t e;
        })
]

-- The end of a word, and what stands there.
abbrev pub AtToken : ℕ → List ℕ → Type 0
AtToken t [] = Unit
AtToken t (c ∷ s) = c ≡ t

pub record Ended (m : Memory) (t p : ℕ) (s : List ℕ) (q : ℕ) : Type 0 where
  pub rest : List ℕ
  pub there : Holds m q rest
  pub long : p + length s ≡ q + length rest
  pub end : q ≡ p + length (first_word t s)
  pub same : words t false p s ≡ words t false q rest
  pub stop : AtToken t rest
  pub word : Holds (write m q 0) p (first_word t s)

pub skip_word-Ended :
    (fuel : ℕ) (m : Memory) (t p : ℕ) (s : List ℕ)
    → Holds m p s
    → length s < fuel
    → Returns (Ended m t p s) (skip_word fuel m t p)
unfolding skip_word
skip_word-Ended zero m t p s h lt = absurd (omega arith)
skip_word-Ended (suc fuel) m t p [] h lt = rw h (record {
  rest = [];
  there = h;
  long = refl;
  end = omega arith;
  same = refl;
  stop = tt;
  word = rw (eq→== p p refl) refl;
})
skip_word-Ended (suc fuel) m t p (c ∷ s) h lt = elim (Bool-cases (c == t)) [
  | inl e ↦
      rw (h.0, ne→== c 0 h.1, e)
        (record {
          rest = c ∷ s;
          there = h;
          long = refl;
          end = rw e (omega arith);
          same = refl;
          stop = ==→eq c t e;
          word = rw (e, eq→== p p refl) refl;
        })
  | inr e ↦
      rw (h.0, ne→== c 0 h.1, e)
        (Returns-mono (Ended m t p (c ∷ s)) _ (skip_word-Ended fuel m t (p + 1) s h.2 (omega arith))
          λ q k.
            let far : p ≢ q = omega (arith, k.end) in
            record {
              rest = k.rest;
              there = k.there;
              long = omega (arith, k.long);
              end = rw e (omega (arith, k.end));
              same = rw e k.same;
              stop = k.stop;
              word = rw e (rw (ne→== p q far) h.0, h.1, k.word);
            })
]
