-- ===== src/Format/Pieces.antt =====
-- What a format of vsprintf says, and what it prints.
use restore_the_operating_sy.Base.{
  [], ◌∷◌, List, inr, ◌-◌, inl, ◌⊎◌, ◌∙◌, ◌^◌, arith, ◌%◌, ◌<◌, ◌≢◌, ◌+◌, ◌≤◌, ◌≡◌, ℕ, zero, suc,
}
use restore_the_operating_sy.Format.Digits.{Numeral}
use restore_the_operating_sy.String.{Memory}

-- A character that is printed as it is, and the conversions %c, %x and %d.
pub data Piece : Type 0 where
  plain : ℕ → Piece
  byte hex dec : Piece

-- How many characters of the format, and how many arguments, a piece takes.
abbrev pub width : Piece → ℕ
width (plain c) = 1
width byte = 2
width hex = 2
width dec = 2

abbrev pub uses : Piece → ℕ
uses (plain c) = 0
uses byte = 1
uses hex = 1
uses dec = 1

abbrev pub total : List Piece → ℕ
total [] = 0
total (x ∷ l) = width x + total l

-- '%' is 37, 'c' 99, 'x' 120 and 'd' 100.
abbrev pub PieceAt : Memory → ℕ → Piece → Type 0
PieceAt m p (plain c) = (m p ≡ c) × (c ≢ 0) × (c ≢ 37)
PieceAt m p byte = (m p ≡ 37) × (m (p + 1) ≡ 99)
PieceAt m p hex = (m p ≡ 37) × (m (p + 1) ≡ 120)
PieceAt m p dec = (m p ≡ 37) × (m (p + 1) ≡ 100)

-- The pieces stand in the memory from `p` on, and a 0 behind them.
abbrev pub FormatAt : Memory → ℕ → List Piece → Type 0
FormatAt m p [] = m p ≡ 0
FormatAt m p (x ∷ l) = PieceAt m p x × FormatAt m (p + width x) l

-- From `pos` up to `end` stands what the piece prints for the argument `v`; '-' is 45.
abbrev pub Shown : Memory → ℕ → ℕ → ℕ → Piece → Type 0
Shown m pos v end (plain c) = (m pos ≡ c) × (end ≡ pos + 1)
Shown m pos v end byte = (m pos ≡ v % 256) × (end ≡ pos + 1)
Shown m pos v end hex = (n : ℕ) × (0 < n) × (end ≡ pos + n) × Numeral 16 m pos n v
Shown m pos v end dec =
    ((v < 2 ^ 31) × (n : ℕ) × (0 < n) × (end ≡ pos + n) × Numeral 10 m pos n v)
    ⊎ ((2 ^ 31 ≤ v)
        × (m pos ≡ 45)
        × (n : ℕ) × (0 < n)
        × (end ≡ pos + 1 + n)
        × Numeral 10 m (pos + 1) n (2 ^ 32 - v))

abbrev pub AllShown : Memory → ℕ → (ℕ → ℕ) → ℕ → ℕ → List Piece → Type 0
AllShown m pos args ap end [] = end ≡ pos
AllShown m pos args ap end (x ∷ l) =
    (mid : ℕ) × Shown m pos (args ap) mid x × AllShown m mid args (ap + uses x) end l

pub Numeral-Agree :
    (base : ℕ) (m m' : Memory) (pos n v : ℕ)
    → ((a : ℕ) → pos ≤ a → a < pos + n → m' a ≡ m a)
    → Numeral base m pos n v
    → Numeral base m' pos n v
Numeral-Agree base m m' pos zero v same h = h
Numeral-Agree base m m' pos (suc n) v same (high, low, small, at, e, h) = (
  high,
  low,
  small,
  same (pos + n) (omega arith) (omega arith) ∙ at,
  e,
  Numeral-Agree base m m' pos n high (λ a lo hi. same a lo (omega arith)) h,
)

pub Shown-Agree :
    (x : Piece) (m m' : Memory) (pos v end : ℕ)
    → ((a : ℕ) → pos ≤ a → a < end → m' a ≡ m a)
    → Shown m pos v end x
    → Shown m' pos v end x
Shown-Agree (plain c) m m' pos v end same (at, e) =
    (same pos (omega arith) (omega (arith, e)) ∙ at, e)
Shown-Agree byte m m' pos v end same (at, e) = (same pos (omega arith) (omega (arith, e)) ∙ at, e)
Shown-Agree hex m m' pos v end same (n, p, e, h) =
    (n, p, e, Numeral-Agree 16 m m' pos n v (λ a lo hi. same a lo (omega (arith, e))) h)
Shown-Agree dec m m' pos v end same (inl (small, n, p, e, h)) =
    inl (small, n, p, e, Numeral-Agree 10 m m' pos n v (λ a lo hi. same a lo (omega (arith, e))) h)
Shown-Agree dec m m' pos v end same (inr (big, at, n, p, e, h)) = inr (
  big,
  same pos (omega arith) (omega (arith, e)) ∙ at,
  n,
  p,
  e,
  Numeral-Agree 10 m m' (pos + 1) n (2 ^ 32 - v)
      (λ a lo hi. same a (omega arith) (omega (arith, e))) h,
)

pub PieceAt-Agree :
    (x : Piece) (m m' : Memory) (p : ℕ)
    → ((a : ℕ) → a < p + width x → m' a ≡ m a)
    → PieceAt m p x
    → PieceAt m' p x
PieceAt-Agree (plain c) m m' p same (e, nz, np) = (same p (omega arith) ∙ e, nz, np)
PieceAt-Agree byte m m' p same (e, f) = (same p (omega arith) ∙ e, same (p + 1) (omega arith) ∙ f)
PieceAt-Agree hex m m' p same (e, f) = (same p (omega arith) ∙ e, same (p + 1) (omega arith) ∙ f)
PieceAt-Agree dec m m' p same (e, f) = (same p (omega arith) ∙ e, same (p + 1) (omega arith) ∙ f)

pub FormatAt-Agree :
    (l : List Piece) (m m' : Memory) (p : ℕ)
    → ((a : ℕ) → a ≤ p + total l → m' a ≡ m a)
    → FormatAt m p l
    → FormatAt m' p l
FormatAt-Agree [] m m' p same h = same p (omega arith) ∙ h
FormatAt-Agree (x ∷ l) m m' p same (at, h) = (
  PieceAt-Agree x m m' p (λ a lt. same a (omega arith)) at,
  FormatAt-Agree l m m' (p + width x) (λ a le. same a (omega arith)) h,
)
