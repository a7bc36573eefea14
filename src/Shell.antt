-- ===== src/Shell.antt =====
-- The command line of workshop/shell/shell.c: cmd_parse over a memory of bytes.
--
-- argv is apart from the bytes of the line; its places from 16 on are what stands behind the array.
-- Fuel is for the rounds of the loops: each but the last goes over a byte of the line.
pub mod Words
pub mod CmdParse
mod Tests
use restore_the_operating_sy.Base.{
  ℕ, zero, suc, ◌+◌, Bool, not, ◌&&◌, ◌||◌, if◌then◌else◌, ◌==◌, ltb,
}
use restore_the_operating_sy.Base.Word.{null, minus_one, Outcome, ok, hang, ◌>>=◌, ◌>>◌, assert}
use restore_the_operating_sy.String.{Memory, write}
use restore_the_operating_sy.Fs.{update}

abbrev pub max_arg_nr : ℕ
max_arg_nr = 16

-- The loop over the tokens in front of a word.
unfoldable pub skip_tokens : ℕ → Memory → ℕ → ℕ → Outcome ℕ
skip_tokens zero m token next = hang
skip_tokens (suc fuel) m token next =
    let rest = skip_tokens fuel m token (next + 1) in if m next == token then rest else ok next

-- The loop over the bytes of a word.
unfoldable pub skip_word : ℕ → Memory → ℕ → ℕ → Outcome ℕ
skip_word zero m token next = hang
skip_word (suc fuel) m token next =
    let rest = skip_word fuel m token (next + 1) in
    if not (m next == 0) && not (m next == token) then rest else ok next

-- The end of a word: a token there becomes a zero. `argv` has the word already, as number argc, and
-- `rest` is what the rounds after it do.
unfoldable pub end_word :
    Memory
    → (ℕ → ℕ)
    → ℕ
    → (Memory → (ℕ → ℕ) → ℕ → Outcome (Memory × (ℕ → ℕ) × ℕ))
    → ℕ
    → Outcome (Memory × (ℕ → ℕ) × ℕ)
end_word m argv argc rest end =
    let m' = if m end == 0 then m else write m end 0 in
    let next = if m end == 0 then end else end + 1 in
    if ltb max_arg_nr argc then ok (m', argv, minus_one) else rest m' argv next

-- A round of the outer loop behind the tokens: the end of the line, or a word that starts there.
unfoldable pub cut_word :
    ℕ
    → Memory
    → (ℕ → ℕ)
    → ℕ
    → ℕ
    → ℕ
    → (Memory → (ℕ → ℕ) → ℕ → Outcome (Memory × (ℕ → ℕ) × ℕ))
    → Outcome (Memory × (ℕ → ℕ) × ℕ)
cut_word fuel m argv token start argc rest =
    if m start == 0
    then ok (m, argv, argc)
    else skip_word fuel m token start >>= end_word m (update argv argc start) argc rest

-- The outer loop, with the result of cmd_parse.
unfoldable pub parse_words : ℕ → ℕ → Memory → (ℕ → ℕ) → ℕ → ℕ → ℕ → Outcome (Memory × (ℕ → ℕ) × ℕ)
parse_words zero fuel m argv token next argc = hang
parse_words (suc rounds) fuel m argv token next argc =
    let round = (do
      start ← skip_tokens fuel m token next
      cut_word fuel m argv token start argc
          (λ m' argv' next'. parse_words rounds fuel m' argv' token next' (argc + 1))) in
    if m next == 0 then ok (m, argv, argc) else round

-- The loop that clears argv, with `left` places to go.
unfoldable pub clear_args : (ℕ → ℕ) → ℕ → ℕ → ℕ → ℕ
clear_args argv zero arg_idx = argv
clear_args argv (suc left) arg_idx = clear_args (update argv arg_idx null) left (arg_idx + 1)

unfoldable pub cmd_parse : ℕ → ℕ → Memory → ℕ → (ℕ → ℕ) → ℕ → Outcome (Memory × (ℕ → ℕ) × ℕ)
cmd_parse rounds fuel m cmd_str argv token =
    assert (not (cmd_str == null))
    >> parse_words rounds fuel m (clear_args argv max_arg_nr 0) token cmd_str 0
