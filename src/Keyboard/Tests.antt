-- ===== src/Keyboard/Tests.antt =====
-- The key 'a' with shift held, on the ring of two bytes.
use restore_the_operating_sy.Base.Word.{ok, Returns}
use restore_the_operating_sy.Base.{arith, [], refl, ◌∷◌, true, ◌≡◌, false}
use restore_the_operating_sy.IoQueue.Examples.{quiet, quiet-IsValid, ring, ring-Holds}
use restore_the_operating_sy.Keyboard.{Input, Keyboard, key_char, intr_keyboard_handler}
use restore_the_operating_sy.Keyboard.Handler.{Typed, intr_keyboard_handler-Typed}

abbrev shift_held : Keyboard
shift_held = record {
  ctrl_status = false;
  shift_status = true;
  alt_status = false;
  caps_lock_status = false;
  ext_scancode = false;
}

abbrev input : Input
input = record { keyboard = shift_held; kernel = quiet; kbd_buf = ring }

key_char_a : key_char shift_held 0x1e ≡ ok 65
unfolding key_char
key_char_a = refl

intr_keyboard_handler-Typed_example :
    Returns (Typed input (7 ∷ 9 ∷ []) 65) (intr_keyboard_handler input 0x1e)
intr_keyboard_handler-Typed_example =
    intr_keyboard_handler-Typed input (7 ∷ 9 ∷ []) 0x1e 65 refl quiet-IsValid ring-Holds refl refl
      (omega arith) (omega arith) key_char_a (λ e. omega arith)
