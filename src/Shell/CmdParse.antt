-- ===== src/Shell/CmdParse.antt =====
-- cmd_parse cuts a line into its words.
use restore_the_operating_sy.Base.{
  ℕ, suc, ◌+◌, ◌≤◌, ◌<◌, ◌≡◌, ◌≢◌, sym, true, false, ◌⊎◌, ne→==, if◌then◌else◌, ◌==◌, List, [], ◌∷◌,
  length, arith,
}
use restore_the_operating_sy.Base.{
  sym, sym, ne→==, ne→==, suc, arith, arith, true, true, [], false, false, ◌<◌, ◌<◌, ◌≤◌, ◌≤◌, ◌==◌,
  length, length, ◌≡◌, ◌≡◌, if◌then◌else◌, ◌≢◌, ◌≢◌, ◌+◌, ◌∷◌, List, List, ℕ,
}
use restore_the_operating_sy.Base.Word.{Outcome, null, minus_one, Returns}
use restore_the_operating_sy.String.{Memory}
use restore_the_operating_sy.String.Spec.{Holds}
use restore_the_operating_sy.Shell.Words.{words, Pointed}

-- What the loop leaves, from p on and with argc words before: the words of the line, all of memory up
-- to p as it was, and no other pointer changed.
record Cut (m : Memory) (argv : ℕ → ℕ) (p argc : ℕ) (ws : List (ℕ × List ℕ))
    (r : Memory × (ℕ → ℕ) × ℕ) : Type 0 where
  count : r.2 ≡ argc + length ws
  pointed : Pointed r.0 r.1 argc ws
  behind : (a : ℕ) → a ≤ p → r.0 a ≡ m a
  earlier : (j : ℕ) → j < argc → r.1 j ≡ argv j
  others : (j : ℕ) → argc + length ws ≤ j → r.1 j ≡ argv j

-- The words are cut, or there are more than seventeen.
abbrev Done : Memory → (ℕ → ℕ) → ℕ → ℕ → List (ℕ × List ℕ) → Memory × (ℕ → ℕ) × ℕ → Type 0
Done m argv p argc ws r =
    ((argc + length ws ≤ 17) × Cut m argv p argc ws r)
    ⊎ ((17 < argc + length ws) × (r.2 ≡ minus_one))

-- What the rounds after a word are to do.
abbrev Goes : (Memory → (ℕ → ℕ) → ℕ → Outcome (Memory × (ℕ → ℕ) × ℕ)) → ℕ → ℕ → ℕ → Type 0
Goes k t argc n =
    (m : Memory) (argv : ℕ → ℕ) (p : ℕ) (s : List ℕ)
    → Holds m p s
    → length s < n
    → argc ≤ 17
    → Returns (Done m argv p argc (words t true p s)) (k m argv p)

-- What cmd_parse leaves of a line whose words are ws: their number, and pointers to them, or -1.
pub data Parsed (ws : List (ℕ × List ℕ)) (r : Memory × (ℕ → ℕ) × ℕ) : Type 0 where
  all_words :
      length ws ≤ 17
      → r.2 ≡ length ws
      → Pointed r.0 r.1 0 ws
      → ((j : ℕ) → length ws ≤ j → j < 16 → r.1 j ≡ null)
      → Parsed ws r
  too_many : 17 < length ws → r.2 ≡ minus_one → Parsed ws r
