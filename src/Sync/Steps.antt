-- ===== src/Sync/Steps.antt =====
-- The steps of a system of threads and one lock.
use restore_the_operating_sy.Base.{ℕ, ◌+◌, ◌^◌, ◌<◌, ◌≡◌, ◌≢◌, Bool, true, false}
use restore_the_operating_sy.Base.Word.{Outcome, ok}
use restore_the_operating_sy.Interrupt.{IntrStatus}
use restore_the_operating_sy.Thread.{
  Kernel, TaskStatus, is_asleep, thread_block, thread_unblock, thread_yield, intr_timer_handler,
}
use restore_the_operating_sy.Sync.{
  System, Phase, outside, waiting, passed, inside, leaving, sema_down_loop, lock_acquire,
  lock_taken, lock_release, sema_up,
}

abbrev pub is_waiting : Phase → Bool
is_waiting (waiting old) = true
is_waiting _ = false

abbrev pub set_kernel : System → Kernel → System
set_kernel s k = record s { kernel = k }

-- What the current thread does with the lock next, and what comes of it. The idle thread does not use
-- the lock, and a thread does not take it 2 ^ 32 times over.
pub data Call (s : System) (o : Outcome System) : Type 0 where
  acquire :
      s.phase s.kernel.running_thread ≡ outside
      → s.kernel.running_thread ≢ s.kernel.idle_thread
      → o ≡ lock_acquire s
      → Call s o
  again :
      s.phase s.kernel.running_thread ≡ inside
      → s.lock.holder_repeat_nr + 1 < 2 ^ 32
      → o ≡ lock_acquire s
      → Call s o
  retry :
      (old : IntrStatus)
      → s.phase s.kernel.running_thread ≡ waiting old
      → o ≡ sema_down_loop s old
      → Call s o
  take : s.phase s.kernel.running_thread ≡ passed → o ≡ lock_taken s → Call s o
  release : s.phase s.kernel.running_thread ≡ inside → o ≡ lock_release s → Call s o
  up : s.phase s.kernel.running_thread ≡ leaving → o ≡ sema_up s → Call s o

-- A call of the lock, or what comes between: the clock interrupt while interrupts are on,
-- thread_yield, and the use of thread_block and thread_unblock for other ends than this lock.
pub data Step (s : System) (s' : System) : Type 0 where
  call : (o : Outcome System) → Call s o → o ≡ ok s' → Step s s'
  tick :
      (k : Kernel)
      → s.kernel.flag ≡ true
      → (s.kernel.task s.kernel.running_thread).stack_magic ≡ 0x20050102
      → intr_timer_handler s.kernel ≡ ok k
      → s' ≡ set_kernel s k
      → Step s s'
  yield_now : (k : Kernel) → thread_yield s.kernel ≡ ok k → s' ≡ set_kernel s k → Step s s'
  sleep :
      (k : Kernel) (stat : TaskStatus)
      → is_waiting (s.phase s.kernel.running_thread) ≡ false
      → is_asleep stat ≡ true
      → thread_block s.kernel stat ≡ ok k
      → s' ≡ set_kernel s k
      → Step s s'
  wake :
      (k : Kernel) (t : ℕ)
      → is_waiting (s.phase t) ≡ false
      → is_asleep (s.kernel.task t).status ≡ true
      → thread_unblock s.kernel t ≡ ok k
      → s' ≡ set_kernel s k
      → Step s s'

pub data Reach (s : System) : System → Type 0 where
  start : Reach s s
  later : {t u : System} → Reach s t → Step t u → Reach s u
