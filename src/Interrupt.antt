-- ===== src/Interrupt.antt =====
-- The interrupt flag: intr_get_status, intr_enable, intr_disable and intr_set_status of
-- workshop/kernel/interrupt.c. The state is the IF bit of eflags.
use restore_the_operating_sy.Base.{Bool, true, false, ◌≡◌, refl}

-- `enum intr_status`
pub data IntrStatus : Type 0 where
  intr_off intr_on : IntrStatus

unfoldable pub intr_get_status : Bool → IntrStatus
intr_get_status true = intr_on
intr_get_status false = intr_off

-- The old status, and the flag after sti.
unfoldable pub intr_enable : Bool → IntrStatus × Bool
unfolding intr_get_status
intr_enable flag = elim (intr_get_status flag) [
  | intr_on ↦ (intr_on, flag)
  | intr_off ↦ (intr_off, true)
]

-- The old status, and the flag after cli.
unfoldable pub intr_disable : Bool → IntrStatus × Bool
unfolding intr_get_status
intr_disable flag = elim (intr_get_status flag) [
  | intr_on ↦ (intr_on, false)
  | intr_off ↦ (intr_off, flag)
]

unfoldable pub intr_set_status : IntrStatus → Bool → IntrStatus × Bool
unfolding intr_enable intr_disable
intr_set_status intr_on flag = intr_enable flag
intr_set_status intr_off flag = intr_disable flag

-- Code between intr_disable and intr_set_status of the status that it returned runs with the
-- interrupts off, and leaves the flag as it was, whatever it does to the flag in between.
pub disable-restore :
    (flag flag' : Bool)
    → ((intr_disable flag).1 ≡ false) × ((intr_set_status (intr_disable flag).0 flag').1 ≡ flag)
unfolding intr_set_status
disable-restore true true = (refl, refl)
disable-restore true false = (refl, refl)
disable-restore false true = (refl, refl)
disable-restore false false = (refl, refl)
