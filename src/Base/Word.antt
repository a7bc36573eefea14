-- ===== src/Base/Word.antt =====
-- Machine words and the outcome of code that asserts.
--
-- A uint32_t is a number below 2 ^ 32. An int is held as its 32-bit pattern, so that -1 is
-- 2 ^ 32 - 1 and the source's mixed arithmetic of int and uint32_t is arithmetic modulo 2 ^ 32.
use Prim.Native.Nat.{ℕ, ◌+◌, ◌-◌, ◌%◌, ◌^◌}
use mathlib.Core.Bool.{Bool, true, false}
use mathlib.Core.Path.{◌≡◌, refl, ap}

abbrev pub u32_mod : ℕ
u32_mod = 2 ^ 32

abbrev pub u32 : ℕ → ℕ
u32 n = n % u32_mod

-- a - b in uint32_t, for b below 2 ^ 32.
abbrev pub sub_u32 : ℕ → ℕ → ℕ
sub_u32 a b = (a + u32_mod - b) % u32_mod

-- The pattern of the int -1.
abbrev pub minus_one : ℕ
minus_one = u32_mod - 1

-- NULL
abbrev pub null : ℕ
null = 0

-- What a call does: it returns, or an ASSERT or PANIC stops the machine (panic_spin disables the
-- interrupts and loops for ever, workshop/kernel/debug.c), or a loop has used up the rounds that
-- the model allows it.
pub data Outcome {ℓ} (A : Type ℓ) : Type ℓ where
  ok : A → Outcome A
  panic : Outcome A
  hang : Outcome A

infixl 5 ◌>>=◌ ◌>>◌
abbrev pub ◌>>=◌ {ℓ κ} : {A : Type ℓ} {B : Type κ} → Outcome A → (A → Outcome B) → Outcome B
ok a >>= f = f a
panic >>= f = panic
hang >>= f = hang

abbrev pub ◌>>◌ {ℓ} : {B : Type ℓ} → Outcome (Unit {0}) → Outcome B → Outcome B
m >> k = m >>= λ _. k

-- ASSERT(c)
abbrev pub assert : Bool → Outcome (Unit {0})
assert true = ok tt
assert false = panic

-- The call returns, with a result of which P holds.
abbrev pub Returns {ℓ} : {A : Type ℓ} → (A → Type 0) → Outcome A → Type 0
Returns P (ok a) = P a
Returns P panic = ⊥
Returns P hang = ⊥

pub Returns-mono {ℓ} :
    {A : Type ℓ} {P : A → Type 0} (Q : A → Type 0) (o : Outcome A)
    → Returns P o
    → ((a : A) → P a → Q a)
    → Returns Q o
Returns-mono Q (ok a) h f = f a h
Returns-mono Q panic h f = h
Returns-mono Q hang h f = h

-- A call that returns has a result.
pub Returns-result {ℓ} :
    {A : Type ℓ} {P : A → Type 0} (o : Outcome A) → Returns P o → (a : A) × (o ≡ ok a) × P a
Returns-result (ok a) h = (a, refl, h)
Returns-result panic h = absurd h
Returns-result hang h = absurd h

-- A call followed by another.
pub Returns-bind {ℓ κ} :
    {A : Type ℓ} {B : Type κ} {P : A → Type 0} (Q : B → Type 0) (o : Outcome A) (f : A → Outcome B)
    → Returns P o
    → ((a : A) → P a → Returns Q (f a))
    → Returns Q (o >>= f)
Returns-bind Q (ok a) f h k = k a h
Returns-bind Q panic f h k = h
Returns-bind Q hang f h k = h

-- A call behind an ASSERT that holds.
pub Returns-assert {ℓ} :
    {B : Type ℓ} (Q : B → Type 0) (c : Bool) (m : Outcome B)
    → c ≡ true
    → Returns Q m
    → Returns Q (assert c >>= λ _. m)
Returns-assert Q true m e h = h
Returns-assert Q false m e h = absurd (cc)

-- Two facts about the same call.
pub Returns-both {ℓ} :
    {A : Type ℓ} (P Q : A → Type 0) (o : Outcome A)
    → Returns P o
    → Returns Q o
    → Returns (λ a. P a × Q a) o
Returns-both P Q (ok a) p q = (p, q)
Returns-both P Q panic p q = p
Returns-both P Q hang p q = p

-- An ASSERT that holds does nothing.
pub assert_passes {ℓ} : {B : Type ℓ} {c : Bool} (m : Outcome B) → c ≡ true → (assert c >> m) ≡ m
assert_passes {c = true} m e = refl
assert_passes {c = false} m e = cc

-- A result that is only looked at through f.
pub >>=-ok {ℓ} :
    {A : Type ℓ} {B : Type 0} (f : A → B) (v : B) (o : Outcome A)
    → Returns (λ r. f r ≡ v) o
    → (o >>= λ r. ok (f r)) ≡ ok v
>>=-ok f v (ok a) h = ap ok h
>>=-ok f v panic h = absurd h
>>=-ok f v hang h = absurd h
