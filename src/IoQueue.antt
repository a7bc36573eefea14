-- ===== src/IoQueue.antt =====
-- workshop/device/ioqueue.c: the ring of bytes between the keyboard and its readers.
--
-- Each function takes the scheduler's state, as it wakes and blocks threads. A caller that finds the
-- ring full (empty) goes on with lock_acquire, ioq_wait and lock_release and then tests it again:
-- the first and the last are those of Sync, and `must_wait` says that the caller is about to do so.
pub mod Ring
pub mod Wait
pub mod Examples
mod Tests
use restore_the_operating_sy.Base.{
  ℕ, ◌+◌, ◌%◌, Bool, true, false, not, Option, none, some, if◌then◌else◌, ◌==◌,
}
use restore_the_operating_sy.Base.Word.{Outcome, ok, panic, ◌>>=◌, ◌>>◌, assert}
use restore_the_operating_sy.Sync.{Lock, lock_init}
use restore_the_operating_sy.Thread.{Kernel, blocked, thread_block, thread_unblock}

abbrev pub bufsize : ℕ
bufsize = 64

-- `struct ioqueue`. The threads that sleep on it are NULL or a PCB.
pub record IoQueue : Type 0 where
  pub lock : Lock
  pub producer : Option ℕ
  pub consumer : Option ℕ
  pub buf : ℕ → ℕ
  pub head : ℕ
  pub tail : ℕ

-- What one test of the loop of ioq_getchar or ioq_putchar leads to: the result, or a wait.
pub data Progress (A : Type 0) : Type 0 where
  must_wait : Progress A
  done : A → Progress A

-- The bytes of `buf` are not set by ioqueue_init.
unfoldable pub ioqueue_init : (ℕ → ℕ) → IoQueue
ioqueue_init buf = record {
  lock = lock_init;
  producer = none;
  consumer = none;
  buf = buf;
  head = 0;
  tail = 0;
}

abbrev pub next_pos : ℕ → ℕ
next_pos pos = (pos + 1) % bufsize

unfoldable pub ioq_full : Kernel → IoQueue → Outcome Bool
ioq_full k q = assert (not k.flag) >> ok (next_pos q.head == q.tail)

unfoldable pub ioq_empty : Kernel → IoQueue → Outcome Bool
ioq_empty k q = assert (not k.flag) >> ok (q.head == q.tail)

-- ioq_wait, with the value that it leaves in the waiter.
unfoldable pub ioq_wait : Kernel → Option ℕ → Outcome (Option ℕ × Kernel)
ioq_wait k (some t) = panic
ioq_wait k none = thread_block k blocked >>= (λ k'. ok (some k.running_thread, k'))

-- The test of the waiter and wakeup, with the value that they leave in it.
unfoldable pub wakeup : Kernel → Option ℕ → Outcome (Option ℕ × Kernel)
wakeup k none = ok (none, k)
wakeup k (some t) = thread_unblock k t >>= (λ k'. ok (none, k'))

-- ioq_getchar behind its loop.
unfoldable pub take_byte : Kernel → IoQueue → Outcome (ℕ × Kernel × IoQueue)
take_byte k q =
    let byte = q.buf q.tail in
    wakeup k q.producer
    >>= (λ w. ok (byte, w.1, record q { tail = next_pos q.tail; producer = w.0 }))

-- ioq_putchar behind its loop.
unfoldable pub put_byte : Kernel → IoQueue → ℕ → Outcome (Kernel × IoQueue)
put_byte k q byte = wakeup k q.consumer >>= (λ w. ok (
  w.1,
  record q {
    buf = λ i. if i == q.head then byte else q.buf i;
    head = next_pos q.head;
    consumer = w.0;
  },
))

unfoldable pub ioq_getchar : Kernel → IoQueue → Outcome (Progress (ℕ × Kernel × IoQueue))
ioq_getchar k q = do
  assert (not k.flag)
  empty ← ioq_empty k q
  if empty then ok must_wait else (take_byte k q >>= (λ r. ok (done r)))

unfoldable pub ioq_putchar : Kernel → IoQueue → ℕ → Outcome (Progress (Kernel × IoQueue))
ioq_putchar k q byte = do
  assert (not k.flag)
  full ← ioq_full k q
  if full then ok must_wait else (put_byte k q byte >>= (λ r. ok (done r)))
