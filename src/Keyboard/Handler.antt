-- ===== src/Keyboard/Handler.antt =====
-- What a key with a character does to the ring.
use restore_the_operating_sy.Base.Word.{ok, Returns-assert, Returns-bind, Returns}
use restore_the_operating_sy.Base.{
  subst, sym, true, ==→ne, ◌&&◌, ==→eq, ltb, inl, ne→==, Bool-cases, ◌%◌, ap, ◌/◌, not, refl, ◌≢◌,
  ◌==◌, inr, arith, ◌<◌, ◌⊎◌, false, length, ◌≡◌, ℕ, List,
}
use restore_the_operating_sy.Keyboard.{
  Input, key_char, stored, char_down, key_down, intr_keyboard_handler,
}
use restore_the_operating_sy.IoQueue.{
  next_pos, IoQueue, Progress, must_wait, done, ioq_full, ioq_putchar,
}
use restore_the_operating_sy.IoQueue.Ring.{Holds, Asleep, Put, ioq_putchar-Put}
use restore_the_operating_sy.Thread.{Kernel}
use restore_the_operating_sy.Thread.Queue.{IsValid}

-- The character stands behind the others in the ring, or the ring was full and nothing has changed.
abbrev pub Typed : Input → List ℕ → ℕ → Input → Type 0
Typed i l c i' =
    (i'.keyboard ≡ i.keyboard)
    × (((length l ≡ 63) × (i' ≡ i))
        ⊎ Put i.kernel i.kbd_buf.consumer l c (done (i'.kernel, i'.kbd_buf)))

-- With room in the ring, ioq_putchar does not wait.
stored-Typed :
    (i : Input) (l : List ℕ) (c : ℕ) (p : Progress (Kernel × IoQueue))
    → length l < 63
    → Put i.kernel i.kbd_buf.consumer l c p
    → Returns (Typed i l c) (stored i p)
stored-Typed i l c must_wait room h = absurd (omega arith)
stored-Typed i l c (done (k, q)) room h = (refl, inr h)

char_down-Typed :
    (i : Input) (l : List ℕ) (c : ℕ)
    → i.kernel.flag ≡ false
    → IsValid i.kernel
    → Holds i.kbd_buf l
    → Asleep i.kernel i.kbd_buf.consumer
    → Returns (Typed i l c) (char_down i c)
unfolding char_down ioq_full
char_down-Typed i l c off v h a =
    Returns-bind (Typed i l c) (ioq_full i.kernel i.kbd_buf) _
      (Returns-assert (λ b. b ≡ (next_pos i.kbd_buf.head == i.kbd_buf.tail)) (not i.kernel.flag) _
        (ap not off) refl)
      λ b e. elim (Bool-cases (next_pos i.kbd_buf.head == i.kbd_buf.tail)) [
        | inl full ↦
            rw (e, full) (refl, inl (omega (arith, h.head_at, h.short, ==→eq _ _ full), refl))
        | inr free ↦
            rw (e, free)
              (Returns-bind (Typed i l c) (ioq_putchar i.kernel i.kbd_buf c) _
                (ioq_putchar-Put i.kernel i.kbd_buf l c off v h a)
                λ p put.
                  stored-Typed i l c p
                    (omega (arith, h.head_at, h.tail_in, h.short, ==→ne _ _ free)) put)
      ]

-- A key for which key_char gives a character, and whose code comes without a prefix, never stops or blocks the handler, with
-- the interrupts off and the reader that is noted in the ring asleep. If the ring has 63 characters,
-- the new one is dropped and nothing changes; otherwise it is put behind the others, and the reader
-- that was noted is put at the front of the ready queue. The modifiers stay as they are.
pub intr_keyboard_handler-Typed :
    (i : Input) (l : List ℕ) (scancode c : ℕ)
    → i.kernel.flag ≡ false
    → IsValid i.kernel
    → Holds i.kbd_buf l
    → Asleep i.kernel i.kbd_buf.consumer
    → i.keyboard.ext_scancode ≡ false
    → 0 < scancode
    → scancode < 0x3b
    → key_char i.keyboard scancode ≡ ok c
    → c ≢ 0
    → Returns (Typed i l c) (intr_keyboard_handler i scancode)
unfolding intr_keyboard_handler key_down
intr_keyboard_handler-Typed i l scancode c off v h a ext lo hi char seen =
    let up : scancode / 128 % 2 == 1 ≡ false = ne→== _ _ (λ q. omega arith) in
    let prefix : scancode == 0xe0 ≡ false = ne→== _ _ (λ q. omega arith) in
    let make : (ltb 0 scancode && ltb scancode 0x3b) ≡ true = ground arith in
    let same : record i { keyboard = record i.keyboard { ext_scancode = false } } ≡ i =
      ap (λ b. record i { keyboard = record i.keyboard { ext_scancode = b } }) (sym ext) in
    let pressed : Returns (Typed i l c) (key_down i scancode) =
      rw (char, ne→== c 0 seen) (char_down-Typed i l c off v h a) in
    rw (ext, prefix, up, make)
      (subst (λ n. Returns (Typed n l c) (key_down n scancode)) (sym same) pressed)
