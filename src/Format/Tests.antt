-- ===== src/Format/Tests.antt =====
-- The format "a%d" at 100 with the argument -7, and itoa of 255 in base 16.
use restore_the_operating_sy.Base.{ℕ, [], ◌∷◌, if◌then◌else◌, ◌==◌, ◌^◌, ◌-◌, refl, arith}
use restore_the_operating_sy.Base.Word.{Returns}
use restore_the_operating_sy.String.{Memory}
use restore_the_operating_sy.Format.{Cursor, itoa, format_loop}
use restore_the_operating_sy.Format.Digits.{Printed, itoa-Printed}
use restore_the_operating_sy.Format.Pieces.{plain, dec}
use restore_the_operating_sy.Format.Print.{AllAdvanced, format_loop-AllAdvanced}

abbrev memory : Memory
memory = λ a. if a == 100 then 97 else if a == 101 then 37 else if a == 102 then 100 else 0

abbrev args : ℕ → ℕ
args = λ i. 2 ^ 32 - 7

abbrev cursor : Cursor
cursor = record { mem = memory; buf_ptr = 200; index_ptr = 100; ap = 0 }

format_loop-AllAdvanced_example :
    Returns (AllAdvanced cursor args (plain 97 ∷ dec ∷ [])) (format_loop 3 cursor args)
format_loop-AllAdvanced_example =
    format_loop-AllAdvanced 3 cursor args (plain 97 ∷ dec ∷ []) (λ i. omega arith)
      ((refl, (λ e. omega arith), (λ e. omega arith)), ((refl, refl), refl)) (omega arith)
      (omega arith)

itoa-Printed_example : Returns (Printed 16 10 memory 255 200) (itoa 10 memory 255 200 16)
itoa-Printed_example =
    itoa-Printed 10 memory 255 200 16 (omega arith) (omega arith) (omega arith) (omega arith)
