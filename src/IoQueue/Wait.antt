-- ===== src/IoQueue/Wait.antt =====
-- ioq_wait leaves what ioq_putchar and ioq_getchar rely on.
use restore_the_operating_sy.Base.Word.{Returns-bind, Returns}
use restore_the_operating_sy.Base.{eq→==, ◌∙◌, none, refl, some, arith, ◌≡◌, [], ℕ, ◌≢◌}
use restore_the_operating_sy.IoQueue.{ℕ, ioq_wait, ioqueue_init}
use restore_the_operating_sy.IoQueue.Ring.{Asleep, Holds}
use restore_the_operating_sy.Thread.{Kernel, blocked, thread_block}
use restore_the_operating_sy.Thread.Queue.{IsValid}
use restore_the_operating_sy.Thread.Steps.{thread_block_lem}

-- ioq_wait, called by another thread than the idle thread with no waiter noted, passes its ASSERTs,
-- notes the caller, who sleeps from then on, and keeps the scheduler's invariant.
pub ioq_wait-Asleep :
    (k : Kernel)
    → IsValid k
    → k.running_thread ≢ k.idle_thread
    → Returns (λ w. (w.0 ≡ some k.running_thread) × Asleep w.1 w.0 × IsValid w.1) (ioq_wait k none)
unfolding ioq_wait
ioq_wait-Asleep k v ne =
    Returns-bind _ (thread_block k blocked) _ (thread_block_lem k blocked v refl) λ k' p. (
      refl,
      p.1.1 k.running_thread ne ∙ rw (eq→== k.running_thread k.running_thread refl) refl,
      p.0.0,
    )

-- A ring that ioqueue_init has made is empty.
pub ioqueue_init-Holds : (buf : ℕ → ℕ) → Holds (ioqueue_init buf) []
unfolding ioqueue_init
ioqueue_init-Holds buf = record {
  short = omega arith;
  tail_in = omega arith;
  head_at = refl;
  stored = tt;
}
