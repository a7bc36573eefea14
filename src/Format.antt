-- ===== src/Format.antt =====
-- itoa and vsprintf of workshop/lib/stdio.c, over the memory of String.
--
-- The recursion of itoa takes fuel, one round for each digit: a number below base ^ n needs n rounds. The loop of vsprintf takes
-- more fuel than the format has characters. The words of the arguments are a function of their number.
pub mod Digits
pub mod Pieces
pub mod Print
mod Tests
use restore_the_operating_sy.Base.{
  not, ◌^◌, ℕ, zero, suc, ◌+◌, ◌-◌, ◌/◌, ◌%◌, if◌then◌else◌, ltb, ◌==◌,
}
use restore_the_operating_sy.Base.Word.{Outcome, ok, hang, ◌>>=◌}
use restore_the_operating_sy.String.{strlen, strcpy, Memory, write}

-- The character of a digit, '0' to '9' and 'A' to 'F'.
abbrev pub digit : ℕ → ℕ
digit m = if ltb m 10 then m + 48 else m - 10 + 65

-- itoa with the memory and the address in *buf_ptr_addr, as they are and as it leaves them.
unfoldable pub itoa : ℕ → Memory → ℕ → ℕ → ℕ → Outcome (Memory × ℕ)
itoa zero mem value buf_ptr base = hang
itoa (suc rounds) mem value buf_ptr base =
    let m = value % base in
    let i = value / base in
    let higher = itoa rounds mem i buf_ptr base in
    (if i == 0 then ok (mem, buf_ptr) else higher) >>= (λ r. ok (write r.0 r.1 (digit m), r.1 + 1))

-- '%', '-', and the conversions 's', 'c', 'x' and 'd'.
abbrev pub percent : ℕ
percent = 37

abbrev pub minus : ℕ
minus = 45

abbrev pub conv_s : ℕ
conv_s = 115

abbrev pub conv_c : ℕ
conv_c = 99

abbrev pub conv_x : ℕ
conv_x = 120

abbrev pub conv_d : ℕ
conv_d = 100

-- The rounds of itoa for a number of 32 bits in base 10 or 16.
abbrev pub max_digits : ℕ
max_digits = 10

-- `buf_ptr`, `index_ptr` and the number of arguments that va_arg has taken, with the memory.
pub record Cursor : Type 0 where
  pub mem : Memory
  pub buf_ptr : ℕ
  pub index_ptr : ℕ
  pub ap : ℕ

-- The case 'd': a negative number is printed behind a '-'.
unfoldable pub print_signed : Memory → ℕ → ℕ → Outcome (Memory × ℕ)
print_signed mem buf_ptr arg_int =
    if ltb arg_int (2 ^ 31)
    then itoa max_digits mem arg_int buf_ptr 10
    else itoa max_digits (write mem buf_ptr minus) (2 ^ 32 - arg_int) (buf_ptr + 1) 10

-- The case 's'. The loops of strcpy and strlen have the fuel of vsprintf.
unfoldable pub print_string : ℕ → Memory → ℕ → ℕ → Outcome (Memory × ℕ)
print_string fuel mem buf_ptr arg_str = do
  (m, dst) ← strcpy fuel mem buf_ptr arg_str
  n ← strlen fuel m arg_str
  ok (m, buf_ptr + n)

-- One round of vsprintf's loop, at a character that is not 0. An unknown conversion only skips '%'.
unfoldable pub format_step : ℕ → Cursor → (ℕ → ℕ) → Outcome Cursor
format_step fuel s args =
    let c = s.mem s.index_ptr in
    let conv = s.mem (s.index_ptr + 1) in
    let arg = args s.ap in
    let printed : Memory × ℕ → Outcome Cursor =
      λ r. ok (record { mem = r.0; buf_ptr = r.1; index_ptr = s.index_ptr + 2; ap = s.ap + 1 }) in
    if not (c == percent)
    then ok (record s {
      mem = write s.mem s.buf_ptr c;
      buf_ptr = s.buf_ptr + 1;
      index_ptr = s.index_ptr + 1;
    })
    else if conv == conv_s
    then (print_string fuel s.mem s.buf_ptr arg >>= printed)
    else if conv == conv_c
    then printed (write s.mem s.buf_ptr (arg % 256), s.buf_ptr + 1)
    else if conv == conv_x
    then (itoa max_digits s.mem arg s.buf_ptr 16 >>= printed)
    else if conv == conv_d
    then (print_signed s.mem s.buf_ptr arg >>= printed)
    else ok (record s { index_ptr = s.index_ptr + 1 })

unfoldable pub format_loop : ℕ → Cursor → (ℕ → ℕ) → Outcome Cursor
format_loop zero s args = hang
format_loop (suc fuel) s args =
    let rest = format_step fuel s args >>= (λ t. format_loop fuel t args) in
    if s.mem s.index_ptr == 0 then ok s else rest

-- vsprintf, with the memory that it leaves and the length that it returns.
unfoldable pub vsprintf : ℕ → Memory → ℕ → ℕ → (ℕ → ℕ) → Outcome (Memory × ℕ)
vsprintf fuel mem str format args = do
  s ← format_loop fuel (record { mem = mem; buf_ptr = str; index_ptr = format; ap = 0 }) args
  n ← strlen fuel s.mem str
  ok (s.mem, n)
