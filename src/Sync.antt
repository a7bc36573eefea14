-- ===== src/Sync.antt =====
-- workshop/thread/sync.c: semaphores of value 1 and locks, over the scheduler of Thread.
--
-- A lock with the threads that use it is a system of steps. Each function below is what one thread
-- does between two places where another thread may run: from the start of sema_down or the return of
-- thread_block to the next thread_block or the return of sema_down, and so on. `phase` says at which
-- of these places a thread stands; the interrupt status that sema_down saved is part of it.
pub mod Steps
pub mod Invariant
pub mod Kept
pub mod Owner
pub mod Safety
mod Tests
use restore_the_operating_sy.Base.{
  ℕ, ◌+◌, ◌-◌, ◌%◌, Bool, true, false, not, Option, none, some, List, [], ◌∷◌, ◌++◌, if◌then◌else◌,
  ◌==◌, ltb,
}
use restore_the_operating_sy.Base.Word.{u32, Outcome, ok, panic, ◌>>=◌, ◌>>◌, assert}
use restore_the_operating_sy.Interrupt.{IntrStatus, intr_disable, intr_set_status}
use restore_the_operating_sy.Thread.{Kernel, blocked, contains, thread_block, thread_unblock}

-- `struct lock` with its semaphore. The holder is a thread or NULL.
pub record Lock : Type 0 where
  pub holder : Option ℕ
  pub holder_repeat_nr : ℕ
  pub value : ℕ
  pub waiters : List ℕ

-- Where a thread stands: away from the lock or holding nothing of it; in the loop of sema_down, with
-- the status that was saved; behind sema_down; holding the lock; and before sema_up in lock_release.
pub data Phase : Type 0 where
  outside : Phase
  waiting : IntrStatus → Phase
  passed inside leaving : Phase

pub record System : Type 0 where
  pub kernel : Kernel
  pub lock : Lock
  pub phase : ℕ → Phase

abbrev pub set_phase : System → ℕ → Phase → ℕ → Phase
set_phase s t p i = if i == t then p else s.phase i

-- `plock->holder == running_thread()`
abbrev pub holds : Option ℕ → ℕ → Bool
holds none t = false
holds (some h) t = h == t

-- sema_init with the value 1, and lock_init.
unfoldable pub lock_init : Lock
lock_init = record { holder = none; holder_repeat_nr = 0; value = 1; waiters = [] }

-- The loop of sema_down from its test on: the caller joins the waiters and blocks, or takes the
-- semaphore and goes on with the status that it had.
unfoldable pub sema_down_loop : System → IntrStatus → Outcome System
sema_down_loop s old_status =
    let cur = s.kernel.running_thread in
    if s.lock.value == 0
    then assert (not (contains cur s.lock.waiters))
      >> (thread_block s.kernel blocked >>= (λ k. ok (record {
        kernel = k;
        lock = record s.lock { waiters = s.lock.waiters ++ cur ∷ [] };
        phase = set_phase s cur (waiting old_status);
      })))
    else assert (s.lock.value - 1 == 0)
      >> ok (record {
        kernel = record s.kernel { flag = (intr_set_status old_status s.kernel.flag).1 };
        lock = record s.lock { value = s.lock.value - 1 };
        phase = set_phase s cur passed;
      })

unfoldable pub sema_down : System → Outcome System
sema_down s =
    let (old_status, off) = intr_disable s.kernel.flag in
    sema_down_loop (record s { kernel = record s.kernel { flag = off } }) old_status

-- lock_acquire up to sema_down, or all of it for a thread that has the lock.
unfoldable pub lock_acquire : System → Outcome System
lock_acquire s =
    if not (holds s.lock.holder s.kernel.running_thread)
    then sema_down s
    else ok
        (record s { lock = record s.lock { holder_repeat_nr = u32 (s.lock.holder_repeat_nr + 1) } })

-- lock_acquire behind sema_down.
unfoldable pub lock_taken : System → Outcome System
lock_taken s =
    let cur = s.kernel.running_thread in
    assert (s.lock.holder_repeat_nr == 0)
    >> ok (record s {
      lock = record s.lock { holder = some cur; holder_repeat_nr = 1 };
      phase = set_phase s cur inside;
    })

-- lock_release up to sema_up.
unfoldable pub lock_release : System → Outcome System
lock_release s =
    let cur = s.kernel.running_thread in
    assert (holds s.lock.holder cur)
    >> (if ltb 1 s.lock.holder_repeat_nr
        then ok
            (record s { lock = record s.lock { holder_repeat_nr = s.lock.holder_repeat_nr - 1 } })
        else assert (s.lock.holder_repeat_nr == 1)
          >> ok (record s {
            lock = record s.lock { holder = none; holder_repeat_nr = 0 };
            phase = set_phase s cur leaving;
          }))

-- The waiter that sema_up wakes.
unfoldable pub wake_first : Kernel → List ℕ → Outcome (Kernel × List ℕ)
wake_first k [] = ok (k, [])
wake_first k (t ∷ others) = thread_unblock k t >>= (λ k'. ok (k', others))

unfoldable pub sema_up : System → Outcome System
sema_up s =
    let cur = s.kernel.running_thread in
    let (old_status, off) = intr_disable s.kernel.flag in
    do
      assert (s.lock.value == 0)
      (k, others) ← wake_first (record s.kernel { flag = off }) s.lock.waiters
      assert (s.lock.value + 1 == 1)
      ok (record {
        kernel = record k { flag = (intr_set_status old_status k.flag).1 };
        lock = record s.lock { value = s.lock.value + 1; waiters = others };
        phase = set_phase s cur outside;
      })
