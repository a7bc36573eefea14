-- ===== src/Thread.antt =====
-- The scheduler of workshop/thread/thread.c and the clock interrupt of workshop/device/timer.c.
--
-- A thread is the address of its PCB. The ready queue is the sequence of its threads: list.c, which
-- keeps it, is proved to work on sequences in KernelList. `switch_to` makes another thread the
-- current one; what stands behind it in the source, the restoring of the interrupt status that
-- thread_block or thread_yield saved, runs when the thread is chosen again.
pub mod Queue
pub mod Schedule
pub mod Steps
pub mod Timer
pub mod Examples
mod Tests
use restore_the_operating_sy.Base.{
  ℕ, zero, suc, ◌+◌, ◌-◌, ◌%◌, Bool, true, false, not, ◌||◌, List, [], ◌∷◌, ◌++◌, if◌then◌else◌,
  ◌==◌,
}
use restore_the_operating_sy.Base.Word.{u32, Outcome, ok, panic, ◌>>=◌, ◌>>◌, assert}
use restore_the_operating_sy.Interrupt.{
  IntrStatus, intr_off, intr_on, intr_get_status, intr_disable, intr_set_status,
}

-- `enum task_status`
pub data TaskStatus : Type 0 where
  running ready blocked waiting hanging died : TaskStatus

-- The part of `struct task_struct` that scheduling works on, and the interrupt status that the
-- thread restores when it is chosen again.
pub record Task : Type 0 where
  pub status : TaskStatus
  pub priority : ℕ
  pub ticks : ℕ
  pub elapsed_ticks : ℕ
  pub stack_magic : ℕ
  pub old_status : IntrStatus

pub record Kernel : Type 0 where
  pub task : ℕ → Task
  pub thread_ready_list : List ℕ
  pub running_thread : ℕ
  pub idle_thread : ℕ
  pub flag : Bool
  pub ticks : ℕ

abbrev pub is_running : TaskStatus → Bool
is_running running = true
is_running _ = false

abbrev pub is_ready : TaskStatus → Bool
is_ready ready = true
is_ready _ = false

-- TASK_BLOCKED, TASK_WAITING and TASK_HANGING: a thread that is not to be scheduled.
abbrev pub is_asleep : TaskStatus → Bool
is_asleep blocked = true
is_asleep waiting = true
is_asleep hanging = true
is_asleep _ = false

abbrev pub contains : ℕ → List ℕ → Bool
contains t [] = false
contains t (x ∷ xs) = (x == t) || contains t xs

abbrev pub set_task : Kernel → ℕ → Task → Kernel
set_task k t new = record k { task = λ i. if i == t then new else k.task i }

abbrev pub set_status : Kernel → ℕ → TaskStatus → Kernel
set_status k t status = set_task k t (record (k.task t) { status = status })

unfoldable pub thread_unblock : Kernel → ℕ → Outcome Kernel
thread_unblock k pthread =
    let (old_status, off) = intr_disable k.flag in
    do
      assert (is_asleep (k.task pthread).status)
      assert (not (contains pthread k.thread_ready_list))
      ok (record (set_status k pthread ready) {
        thread_ready_list = pthread ∷ k.thread_ready_list;
        flag = (intr_set_status old_status off).1;
      })

-- Takes the first ready thread; process_activate and switch_to make it the current one.
unfoldable pub dispatch : Kernel → List ℕ → Outcome Kernel
dispatch k [] = panic
dispatch k (next ∷ rest) =
    ok (record (set_status k next running) { thread_ready_list = rest; running_thread = next })

-- The current thread goes to the end of the queue, if only its time is up.
unfoldable pub requeue : Kernel → Outcome Kernel
requeue k =
    let cur = k.running_thread in
    let task = k.task cur in
    let queued = record (set_task k cur (record task { ticks = task.priority; status = ready })) {
      thread_ready_list = k.thread_ready_list ++ cur ∷ [];
    } in
    if is_running task.status
    then assert (not (contains cur k.thread_ready_list)) >> ok queued
    else ok k

-- With no ready thread the idle thread is woken.
unfoldable pub wake_idle : Kernel → List ℕ → Outcome Kernel
wake_idle k [] = thread_unblock k k.idle_thread
wake_idle k (x ∷ xs) = ok k

unfoldable pub schedule : Kernel → Outcome Kernel
schedule k = do
  assert (not k.flag)
  k1 ← requeue k
  k2 ← wake_idle k1 k1.thread_ready_list
  dispatch k2 k2.thread_ready_list

-- What runs behind switch_to, in the thread that was chosen.
unfoldable pub resume : Kernel → Kernel
resume k = record k { flag = (intr_set_status (k.task k.running_thread).old_status k.flag).1 }

unfoldable pub thread_block : Kernel → TaskStatus → Outcome Kernel
thread_block k stat =
    let (old_status, off) = intr_disable k.flag in
    let cur = k.running_thread in
    do
      assert (is_asleep stat)
      k' ←
          schedule
            (record (set_task k cur
              (record (k.task cur) { status = stat; old_status = old_status })) { flag = off })
      ok (resume k')

unfoldable pub thread_yield : Kernel → Outcome Kernel
thread_yield k =
    let cur = k.running_thread in
    let (old_status, off) = intr_disable k.flag in
    do
      assert (not (contains cur k.thread_ready_list))
      k' ←
          schedule
            (record (set_task k cur
              (record (k.task cur) { status = ready; old_status = old_status })) {
                thread_ready_list = k.thread_ready_list ++ cur ∷ [];
                flag = off;
              })
      ok (resume k')

-- The clock interrupt. The processor clears IF on entry and iretd sets it again when the thread
-- that was interrupted is chosen, which `old_status` records.
unfoldable pub intr_timer_handler : Kernel → Outcome Kernel
intr_timer_handler k =
    let cur = k.running_thread in
    let task = k.task cur in
    let counted = record task {
      elapsed_ticks = u32 (task.elapsed_ticks + 1);
      old_status = intr_on;
    } in
    let entered = record k { flag = false; ticks = u32 (k.ticks + 1) } in
    assert (task.stack_magic == 0x20050102)
    >> (if counted.ticks == 0
        then schedule (set_task entered cur counted) >>= (λ k'. ok (resume k'))
        else ok (resume (set_task entered cur (record counted { ticks = counted.ticks - 1 }))))
