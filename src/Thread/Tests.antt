-- ===== src/Thread/Tests.antt =====
-- The scheduler with thread 1 running, 2 and 3 ready, and the idle thread 4 blocked.
use restore_the_operating_sy.Base.{false, ◌≡◌, refl, true, [], ◌∷◌, arith}
use restore_the_operating_sy.Base.Word.{Returns}
use restore_the_operating_sy.Interrupt.{intr_set_status, intr_disable, disable-restore}
use restore_the_operating_sy.Thread.{
  blocked, schedule, thread_block, thread_unblock, thread_yield, intr_timer_handler,
}
use restore_the_operating_sy.Thread.Examples.{kernel, kernel-IsValid}
use restore_the_operating_sy.Thread.Queue.{IsValid, IsEntered}
use restore_the_operating_sy.Thread.Schedule.{Chosen, schedule-IsValid}
use restore_the_operating_sy.Thread.Steps.{
  Switched, thread_block-IsValid, thread_unblock-IsValid, thread_yield-IsValid,
}
use restore_the_operating_sy.Thread.Timer.{Ticked, intr_timer_handler-IsValid}

kernel-IsEntered : IsEntered (record kernel { flag = false })
kernel-IsEntered = record {
  queue = record { queued = λ t. ground arith; unique = (refl, (refl, tt)); idle_lives = λ e. cc };
  others = λ t ne. ground arith;
  off = refl;
}

schedule-IsValid_example :
    Returns (Chosen (record kernel { flag = false })) (schedule (record kernel { flag = false }))
schedule-IsValid_example = schedule-IsValid (record kernel { flag = false }) kernel-IsEntered

thread_block-IsValid_example : Returns (Switched (2 ∷ 3 ∷ [])) (thread_block kernel blocked)
thread_block-IsValid_example = thread_block-IsValid kernel blocked kernel-IsValid refl

thread_unblock-IsValid_example :
    Returns
      (λ k'.
        IsValid k'
        × (k'.thread_ready_list ≡ 4 ∷ 2 ∷ 3 ∷ [])
        × (k'.running_thread ≡ 1)
        × (k'.flag ≡ true))
      (thread_unblock kernel 4)
thread_unblock-IsValid_example = thread_unblock-IsValid kernel 4 kernel-IsValid refl

thread_yield-IsValid_example : Returns (Switched (2 ∷ 3 ∷ 1 ∷ [])) (thread_yield kernel)
thread_yield-IsValid_example = thread_yield-IsValid kernel kernel-IsValid

intr_timer_handler-IsValid_example : Returns (Ticked kernel) (intr_timer_handler kernel)
intr_timer_handler-IsValid_example = intr_timer_handler-IsValid kernel kernel-IsValid refl

-- The code before intr_disable is undone whatever happens in between.
disable-restore_example :
    ((intr_disable true).1 ≡ false) × ((intr_set_status (intr_disable true).0 true).1 ≡ true)
disable-restore_example = disable-restore true true
