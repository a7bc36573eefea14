-- ===== src/IoQueue/Tests.antt =====
-- Putting, getting and waiting on the ring of the examples.
use restore_the_operating_sy.IoQueue.Examples.{quiet, quiet-IsValid, ring, ring-Holds}
use restore_the_operating_sy.Base.Word.{Returns}
use restore_the_operating_sy.Base.{none, refl, arith, ◌≡◌, [], ◌∷◌, some}
use restore_the_operating_sy.IoQueue.{some, ioq_putchar, ioq_getchar, ioq_wait}
use restore_the_operating_sy.IoQueue.Ring.{Put, Got, Asleep, ioq_putchar-Put, ioq_getchar-Got}
use restore_the_operating_sy.IoQueue.Wait.{ioq_wait-Asleep}
use restore_the_operating_sy.Thread.Queue.{IsValid}

ioq_putchar-Put_example : Returns (Put quiet (some 4) (7 ∷ 9 ∷ []) 5) (ioq_putchar quiet ring 5)
ioq_putchar-Put_example =
    ioq_putchar-Put quiet ring (7 ∷ 9 ∷ []) 5 refl quiet-IsValid ring-Holds refl

ioq_getchar-Got_example : Returns (Got quiet (some 4) (7 ∷ 9 ∷ [])) (ioq_getchar quiet ring)
ioq_getchar-Got_example = ioq_getchar-Got quiet ring (7 ∷ 9 ∷ []) refl quiet-IsValid ring-Holds refl

ioq_wait-Asleep_example :
    Returns (λ w. (w.0 ≡ some 1) × Asleep w.1 w.0 × IsValid w.1) (ioq_wait quiet none)
ioq_wait-Asleep_example = ioq_wait-Asleep quiet quiet-IsValid (λ e. omega arith)
