-- ===== src/Keyboard.antt =====
-- The interrupt handler of workshop/device/keyboard.c, over the ring of IoQueue.
--
-- The handler runs with the interrupts off. The byte that it reads from the port of the keyboard is
-- its argument. The line that it prints for an unknown key is left out.
pub mod Handler
mod Tests
use restore_the_operating_sy.Base.Word.{ok, panic, hang, Outcome}
use restore_the_operating_sy.Base.Word.{◌>>=◌}
use restore_the_operating_sy.Base.{
  none, some, ◌/◌, ◌-◌, not, true, false, ◌+◌, ◌%◌, ◌&&◌, ◌||◌, ◌==◌, [], get_elem?, Option, ltb,
  if◌then◌else◌, ◌∷◌, ℕ, List, Bool, zero,
}
use restore_the_operating_sy.IoQueue.{IoQueue, Progress, must_wait, done, ioq_full, ioq_putchar}
use restore_the_operating_sy.Thread.{Kernel}

pub record Keyboard : Type 0 where
  pub ctrl_status : Bool
  pub shift_status : Bool
  pub alt_status : Bool
  pub caps_lock_status : Bool
  pub ext_scancode : Bool

-- The keyboard's state, the scheduler's and the ring `kbd_buf`.
pub record Input : Type 0 where
  pub keyboard : Keyboard
  pub kernel : Kernel
  pub kbd_buf : IoQueue

-- The character of each make code, without and with shift; 0 is an invisible key.
abbrev pub keymap : List (ℕ × ℕ)
keymap =
    (0, 0)
    ∷ (27, 27)
    ∷ (49, 33)
    ∷ (50, 64)
    ∷ (51, 35)
    ∷ (52, 36)
    ∷ (53, 37)
    ∷ (54, 94)
    ∷ (55, 38)
    ∷ (56, 42)
    ∷ (57, 40)
    ∷ (48, 41)
    ∷ (45, 95)
    ∷ (61, 43)
    ∷ (8, 8)
    ∷ (9, 9)
    ∷ (113, 81)
    ∷ (119, 87)
    ∷ (101, 69)
    ∷ (114, 82)
    ∷ (116, 84)
    ∷ (121, 89)
    ∷ (117, 85)
    ∷ (105, 73)
    ∷ (111, 79)
    ∷ (112, 80)
    ∷ (91, 123)
    ∷ (93, 125)
    ∷ (13, 13)
    ∷ (0, 0)
    ∷ (97, 65)
    ∷ (115, 83)
    ∷ (100, 68)
    ∷ (102, 70)
    ∷ (103, 71)
    ∷ (104, 72)
    ∷ (106, 74)
    ∷ (107, 75)
    ∷ (108, 76)
    ∷ (59, 58)
    ∷ (39, 34)
    ∷ (96, 126)
    ∷ (0, 0)
    ∷ (92, 124)
    ∷ (122, 90)
    ∷ (120, 88)
    ∷ (99, 67)
    ∷ (118, 86)
    ∷ (98, 66)
    ∷ (110, 78)
    ∷ (109, 77)
    ∷ (44, 60)
    ∷ (46, 62)
    ∷ (47, 63)
    ∷ (0, 0)
    ∷ (42, 42)
    ∷ (0, 0)
    ∷ (32, 32)
    ∷ (0, 0)
    ∷ []

abbrev pub shift_l_make : ℕ
shift_l_make = 0x2a

abbrev pub shift_r_make : ℕ
shift_r_make = 0x36

abbrev pub alt_l_make : ℕ
alt_l_make = 0x38

abbrev pub alt_r_make : ℕ
alt_r_make = 0xe038

abbrev pub ctrl_l_make : ℕ
ctrl_l_make = 0x1d

abbrev pub ctrl_r_make : ℕ
ctrl_r_make = 0xe01d

abbrev pub caps_lock_make : ℕ
caps_lock_make = 0x3a

-- A key goes up.
unfoldable pub key_up : Keyboard → ℕ → Keyboard
key_up kbd make_code =
    if (make_code == ctrl_l_make) || (make_code == ctrl_r_make)
    then record kbd { ctrl_status = false }
    else if (make_code == shift_l_make) || (make_code == shift_r_make)
    then record kbd { shift_status = false }
    else if (make_code == alt_l_make) || (make_code == alt_r_make)
    then record kbd { alt_status = false }
    else kbd

-- A key without a character goes down; the code is without its high byte.
unfoldable pub control_down : Keyboard → ℕ → Keyboard
control_down kbd scancode =
    if (scancode == ctrl_l_make) || (scancode == ctrl_r_make)
    then record kbd { ctrl_status = true }
    else if (scancode == shift_l_make) || (scancode == shift_r_make)
    then record kbd { shift_status = true }
    else if (scancode == alt_l_make) || (scancode == alt_r_make)
    then record kbd { alt_status = true }
    else if scancode == caps_lock_make
    then record kbd { caps_lock_status = not kbd.caps_lock_status }
    else kbd

-- The keys that caps lock does not change.
abbrev pub is_symbol : ℕ → Bool
is_symbol scancode =
    ltb scancode 0x0e
    || (scancode == 0x29)
    || (scancode == 0x1a)
    || (scancode == 0x1b)
    || (scancode == 0x2b)
    || (scancode == 0x27)
    || (scancode == 0x28)
    || (scancode == 0x33)
    || (scancode == 0x34)
    || (scancode == 0x35)

abbrev pub is_shifted : Keyboard → ℕ → Bool
is_shifted kbd scancode =
    if is_symbol scancode
    then kbd.shift_status
    else if kbd.shift_status && kbd.caps_lock_status
    then false
    else kbd.shift_status || kbd.caps_lock_status

-- The character of a make code: ctrl with l or u gives the control character. A code behind the end
-- of the table does not come here.
abbrev pub pick : Bool → Bool → Option (ℕ × ℕ) → Outcome ℕ
pick shift ctrl none = panic
pick shift ctrl (some (small, large)) =
    let cur_char = if shift then large else small in
    ok (if ctrl && ((cur_char == 108) || (cur_char == 117)) then cur_char - 97 else cur_char)

unfoldable pub key_char : Keyboard → ℕ → Outcome ℕ
key_char kbd scancode =
    pick (is_shifted kbd scancode) kbd.ctrl_status (get_elem? keymap (scancode % 256))

-- What ioq_putchar leaves. It does not wait here, as the ring is not full.
abbrev pub stored : Input → Progress (Kernel × IoQueue) → Outcome Input
stored i must_wait = hang
stored i (done (k, q)) = ok (record i { kernel = k; kbd_buf = q })

-- A key with a character goes down: it is dropped when the ring is full.
unfoldable pub char_down : Input → ℕ → Outcome Input
char_down i cur_char = do
  full ← ioq_full i.kernel i.kbd_buf
  if full then ok i else (ioq_putchar i.kernel i.kbd_buf cur_char >>= stored i)

unfoldable pub key_down : Input → ℕ → Outcome Input
key_down i scancode = key_char i.keyboard scancode >>= (λ cur_char.
    if cur_char == 0
    then ok (record i { keyboard = control_down i.keyboard (scancode % 256) })
    else char_down i cur_char)

unfoldable pub intr_keyboard_handler : Input → ℕ → Outcome Input
intr_keyboard_handler i byte =
    let kbd = i.keyboard in
    let scancode = if kbd.ext_scancode then 0xe000 + byte else byte in
    let next = record i { keyboard = record kbd { ext_scancode = false } } in
    if byte == 0xe0
    then ok (record i { keyboard = record kbd { ext_scancode = true } })
    else if scancode / 128 % 2 == 1
    then ok (record next { keyboard = key_up next.keyboard (scancode - 128) })
    else if (ltb 0 scancode && ltb scancode 0x3b)
        || (scancode == alt_r_make)
        || (scancode == ctrl_r_make)
    then key_down next scancode
    else ok next
