-- ===== src/Thread/Examples.antt =====
-- Thread 1 running, 2 and 3 ready, and the idle thread 4 blocked.
use restore_the_operating_sy.Base.{refl, true, [], ◌∷◌, if◌then◌else◌, ◌==◌, arith}
use restore_the_operating_sy.Interrupt.{intr_on}
use restore_the_operating_sy.Thread.{Kernel, Task, TaskStatus, running, ready, blocked, died}
use restore_the_operating_sy.Thread.Queue.{IsValid}

abbrev pub task : TaskStatus → Task
task s = record {
  status = s;
  priority = 31;
  ticks = 5;
  elapsed_ticks = 0;
  stack_magic = 0x20050102;
  old_status = intr_on;
}

abbrev pub kernel : Kernel
kernel = record {
  task = λ i.
      if i == 1
      then task running
      else if i == 2
      then task ready
      else if i == 3
      then task ready
      else if i == 4
      then task blocked
      else task died;
  thread_ready_list = 2 ∷ 3 ∷ [];
  running_thread = 1;
  idle_thread = 4;
  flag = true;
  ticks = 0;
}

pub kernel-IsValid : IsValid kernel
kernel-IsValid = record {
  queue = record { queued = λ t. ground arith; unique = (refl, (refl, tt)); idle_lives = λ e. cc };
  alone = λ t. ground arith;
}
