-- ===== src/String/Spec.antt =====
-- The zero-terminated strings that the memory holds.
use restore_the_operating_sy.Base.{◌∙◌, ℕ, ◌+◌, ◌≡◌, ◌<◌, ◌≤◌, ◌≢◌, List, [], ◌∷◌, length, arith}
use restore_the_operating_sy.String.{Memory}

-- At `p` stand the bytes `s`, none of them 0, and a 0 behind them.
abbrev pub Holds : Memory → ℕ → List ℕ → Type 0
Holds m p [] = m p ≡ 0
Holds m p (c ∷ s) = (m p ≡ c) × (c ≢ 0) × Holds m (p + 1) s

-- The memories agree from `lo` up to, and without, `hi`.
abbrev pub Agree : Memory → Memory → ℕ → ℕ → Type 0
Agree m n lo hi = (a : ℕ) → lo ≤ a → a < hi → n a ≡ m a

-- A string stays where its bytes and its zero stay.
pub Holds-Agree :
    (m n : Memory) (p : ℕ) (s : List ℕ) → Holds m p s → Agree m n p (p + length s + 1) → Holds n p s
Holds-Agree m n p [] h same = same p (omega arith) (omega arith) ∙ h
Holds-Agree m n p (c ∷ s) h same = (
  same p (omega arith) (omega arith) ∙ h.0,
  h.1,
  Holds-Agree m n (p + 1) s h.2 (λ a lo hi. same a (omega arith) (omega arith)),
)
