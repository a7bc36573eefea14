-- ===== src/KernelList/Chain.antt =====
-- The sequence of nodes that a list in memory stands for.
use restore_the_operating_sy.Base.{sym, ℕ, ◌≡◌, ◌≢◌, ◌∙◌, List, [], ◌∷◌, ◌++◌, All, All-append}
use restore_the_operating_sy.KernelList.{Store, tail}

-- From `a` the nodes `xs` lead to `b`, by `next` and back by `prev`.
abbrev pub Chain : Store → ℕ → List ℕ → ℕ → Type 0
Chain s a [] b = (s.next a ≡ b) × (s.prev b ≡ a)
Chain s a (x ∷ xs) b = (s.next a ≡ x) × (s.prev x ≡ a) × Chain s x xs b

abbrev pub Fresh : ℕ → List ℕ → Type 0
Fresh z = All (λ y. y ≢ z)

abbrev pub Distinct : List ℕ → Type 0
Distinct [] = Unit
Distinct (x ∷ xs) = Fresh x xs × Distinct xs

-- The `struct list` at `plist` holds the nodes `xs`, front first.
pub record IsList (s : Store) (plist : ℕ) (xs : List ℕ) : Type 0 where
  pub chain : Chain s plist xs (tail plist)
  pub distinct : Distinct xs
  pub head_fresh : Fresh plist xs
  pub tail_fresh : Fresh (tail plist) xs

abbrev pub last : ℕ → List ℕ → ℕ
last a [] = a
last a (x ∷ xs) = last x xs

pub last-ne : (z a : ℕ) (xs : List ℕ) → a ≢ z → Fresh z xs → last a xs ≢ z
last-ne z a [] n f = n
last-ne z a (x ∷ xs) n f = last-ne z x xs f.0 f.1

-- The node before the end.
pub prev-last : (s : Store) (a : ℕ) (xs : List ℕ) (b : ℕ) → Chain s a xs b → s.prev b ≡ last a xs
prev-last s a [] b c = c.1
prev-last s a (x ∷ xs) b c = prev-last s x xs b c.2

pub Chain-append :
    (s : Store) (a : ℕ) (xs : List ℕ) (y : ℕ) (ys : List ℕ) (b : ℕ)
    → Chain s a xs y
    → Chain s y ys b
    → Chain s a (xs ++ y ∷ ys) b
Chain-append s a [] y ys b c d = (c.0, c.1, d)
Chain-append s a (x ∷ xs) y ys b c d = (c.0, c.1, Chain-append s x xs y ys b c.2 d)

pub Chain-split :
    (s : Store) (a : ℕ) (xs : List ℕ) (y : ℕ) (ys : List ℕ) (b : ℕ)
    → Chain s a (xs ++ y ∷ ys) b
    → Chain s a xs y × Chain s y ys b
Chain-split s a [] y ys b c = ((c.0, c.1), c.2)
Chain-split s a (x ∷ xs) y ys b c = let (d, e) = Chain-split s x xs y ys b c.2 in ((c.0, c.1, d), e)

-- A chain survives a change that spares its forward and its backward pointers.
pub Chain-frame :
    (s t : Store) (a : ℕ) (xs : List ℕ) (b : ℕ)
    → Chain s a xs b
    → t.next a ≡ s.next a
    → All (λ z. (t.next z ≡ s.next z) × (t.prev z ≡ s.prev z)) xs
    → t.prev b ≡ s.prev b
    → Chain t a xs b
Chain-frame s t a [] b c n f p = (n ∙ c.0, p ∙ c.1)
Chain-frame s t a (x ∷ xs) b c n f p =
    (n ∙ c.0, f.0.1 ∙ c.1, Chain-frame s t x xs b c.2 f.0.0 f.1 p)

pub Fresh-append : (z : ℕ) (xs ys : List ℕ) → Fresh z (xs ++ ys) → Fresh z xs × Fresh z ys
Fresh-append z [] ys f = (tt, f)
Fresh-append z (x ∷ xs) ys f = let (g, h) = Fresh-append z xs ys f.1 in ((f.0, g), h)

pub Distinct-split :
    (xs : List ℕ) (y : ℕ) (ys : List ℕ)
    → Distinct (xs ++ y ∷ ys)
    → Fresh y xs × Fresh y ys × Distinct xs × Distinct ys × Distinct (xs ++ ys)
Distinct-split [] y ys d = (tt, d.0, tt, d.1, d.1)
Distinct-split (x ∷ xs) y ys d =
    let (f, g, p, q, r) = Distinct-split xs y ys d.1 in
    let (u, v) = Fresh-append x xs (y ∷ ys) d.0 in
    (((λ e. v.0 (sym e)), f), g, (u, p), q, (All-append _ xs ys u v.1, r))

pub Distinct-append_one : (xs : List ℕ) (y : ℕ) → Distinct xs → Fresh y xs → Distinct (xs ++ y ∷ [])
Distinct-append_one [] y d f = (tt, tt)
Distinct-append_one (x ∷ xs) y d f =
    (All-append _ xs (y ∷ []) d.0 ((λ e. f.0 (sym e)), tt), Distinct-append_one xs y d.1 f.1)
