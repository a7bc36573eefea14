-- ===== src/Shell/Tests.antt =====
-- The line " ls  -l" at the address 100.
use restore_the_operating_sy.Base.{true, true, ◌≡◌, refl, List, [], ◌∷◌, ℕ, if◌then◌else◌, ◌==◌}
use restore_the_operating_sy.Base.Word.{ok, ◌>>=◌}
use restore_the_operating_sy.String.{Memory}
use restore_the_operating_sy.Shell.{
  cmd_parse, parse_words, cut_word, end_word, skip_word, skip_tokens, clear_args,
}
use restore_the_operating_sy.Shell.Words.{words}

abbrev line : List ℕ
line = 32 ∷ 108 ∷ 115 ∷ 32 ∷ 32 ∷ 45 ∷ 108 ∷ []

abbrev memory : Memory
memory = λ a.
    if a == 100
    then 32
    else if a == 101
    then 108
    else if a == 102
    then 115
    else if a == 103
    then 32
    else if a == 104
    then 32
    else if a == 105
    then 45
    else if a == 106
    then 108
    else 0

two_words : words 32 true 100 line ≡ (101, 108 ∷ 115 ∷ []) ∷ (105, 45 ∷ 108 ∷ []) ∷ []
two_words = refl

abbrev result : Memory × (ℕ → ℕ) × ℕ → ℕ × ℕ × ℕ × ℕ × ℕ
result r = (r.2, r.1 0, r.1 1, r.1 2, r.0 103)

argc_two : (cmd_parse 8 8 memory 100 (λ _. 9) 32 >>= λ r. ok (result r)) ≡ ok (2, 101, 105, 0, 0)
unfolding cmd_parse parse_words cut_word end_word skip_word skip_tokens clear_args
argc_two = refl
