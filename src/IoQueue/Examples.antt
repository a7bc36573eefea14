-- ===== src/IoQueue/Examples.antt =====
-- A ring of two bytes, 7 and 9, at the end of the buffer, with thread 4 noted on both sides.
use restore_the_operating_sy.Base.{refl, arith, ◌==◌, [], if◌then◌else◌, ◌∷◌, some, false}
use restore_the_operating_sy.IoQueue.{some, false, IoQueue}
use restore_the_operating_sy.IoQueue.Ring.{Holds}
use restore_the_operating_sy.Sync.{lock_init}
use restore_the_operating_sy.Thread.{Kernel}
use restore_the_operating_sy.Thread.Queue.{IsValid}
use restore_the_operating_sy.Thread.Examples.{kernel, kernel-IsValid}

abbrev pub quiet : Kernel
quiet = record kernel { flag = false }

pub quiet-IsValid : IsValid quiet
quiet-IsValid = record {
  queue = record {
    queued = kernel-IsValid.queue.queued;
    unique = kernel-IsValid.queue.unique;
    idle_lives = kernel-IsValid.queue.idle_lives;
  };
  alone = kernel-IsValid.alone;
}

abbrev pub ring : IoQueue
ring = record {
  lock = lock_init;
  producer = some 4;
  consumer = some 4;
  buf = λ i. if i == 62 then 7 else 9;
  head = 0;
  tail = 62;
}

pub ring-Holds : Holds ring (7 ∷ 9 ∷ [])
ring-Holds = record {
  short = omega arith;
  tail_in = omega arith;
  head_at = refl;
  stored = (refl, (refl, tt));
}
