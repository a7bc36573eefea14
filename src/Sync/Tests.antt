-- ===== src/Sync/Tests.antt =====
-- A lock that thread 1 takes before its time is up, and that thread 2 then asks for.
use restore_the_operating_sy.Base.{ℕ, ◌⊎◌, true, ◌≡◌, arith, refl}
use restore_the_operating_sy.Base.Word.{ok, Outcome}
use restore_the_operating_sy.Thread.Examples.{kernel, kernel-IsValid}
use restore_the_operating_sy.Interrupt.{intr_disable, intr_get_status, intr_set_status, intr_enable}
use restore_the_operating_sy.Base.Word.{Outcome, ok, panic, hang, Returns}
use restore_the_operating_sy.Thread.{
  thread_block, thread_unblock, schedule, requeue, wake_idle, dispatch, resume, Kernel, contains,
  thread_yield,
}
use restore_the_operating_sy.Sync.{
  sema_down, Outcome, System, lock_acquire, lock_taken, lock_init, sema_down_loop,
}
use restore_the_operating_sy.Sync.Steps.{
  acquire, take, call, yield_now, Reach, start, later, set_kernel,
}
use restore_the_operating_sy.Sync.Invariant.{IsSafe, Retrier}
use restore_the_operating_sy.Sync.Safety.{
  initial, Reach-IsSafe, Call-IsSafe, mutual_exclusion, no_lost_wakeup,
}

abbrev state : Outcome System → System
state (ok s) = s
state panic = initial kernel
state hang = initial kernel

abbrev kernel_of : Outcome Kernel → Kernel
kernel_of (ok k) = k
kernel_of panic = kernel
kernel_of hang = kernel

-- Thread 1 takes the lock.
abbrev acquired : System
acquired = state (lock_acquire (initial kernel))

abbrev held : System
held = state (lock_taken acquired)

-- Thread 2 runs, and blocks in sema_down.
abbrev yielded : System
yielded = set_kernel held (kernel_of (thread_yield held.kernel))

abbrev blocked_two : System
blocked_two = state (lock_acquire yielded)

to_held : Reach (initial kernel) held
unfolding lock_acquire sema_down sema_down_loop intr_disable intr_get_status intr_set_status
    intr_enable lock_taken lock_init
to_held =
    later {t = acquired}
      (later {t = initial kernel} start (call _ (acquire refl (λ e. omega arith) refl) refl))
      (call _ (take refl refl) refl)

to_blocked_two : Reach (initial kernel) blocked_two
unfolding lock_acquire sema_down sema_down_loop intr_disable intr_get_status intr_set_status
    intr_enable lock_taken lock_init thread_yield thread_block thread_unblock schedule requeue
    wake_idle dispatch resume
to_blocked_two =
    later {t = yielded} (later {t = held} to_held (yield_now _ refl refl))
      (call _ (acquire refl (λ e. omega arith) refl) refl)

Call-IsSafe_example : Returns IsSafe (lock_acquire (initial kernel))
Call-IsSafe_example =
    Call-IsSafe (initial kernel) (lock_acquire (initial kernel)) (Reach-IsSafe kernel-IsValid start)
      (acquire refl (λ e. omega arith) refl)

mutual_exclusion_example : ◌≡◌ {A = ℕ} 1 1
unfolding lock_acquire sema_down sema_down_loop intr_disable intr_get_status intr_set_status
    intr_enable lock_taken lock_init
mutual_exclusion_example = mutual_exclusion kernel-IsValid to_held 1 1 refl refl

no_lost_wakeup_example :
    (contains 2 blocked_two.lock.waiters ≡ true)
    × ((blocked_two.lock.value ≡ 0) ⊎ Retrier blocked_two)
unfolding lock_acquire sema_down sema_down_loop intr_disable intr_get_status intr_set_status
    intr_enable lock_taken lock_init thread_yield thread_block thread_unblock schedule requeue
    wake_idle dispatch resume
no_lost_wakeup_example = no_lost_wakeup kernel-IsValid to_blocked_two 2 refl refl
