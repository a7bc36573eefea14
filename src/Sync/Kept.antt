-- ===== src/Sync/Kept.antt =====
-- sema_down and sema_up, lock_acquire and lock_release pass their ASSERTs and keep the invariant.
use restore_the_operating_sy.Base.{
  ==→eq, ==→ne, eq→==, ap, inr, inl, refl, Bool-cases, ◌∙◌, ◌+◌, ◌-◌, ◌^◌, ◌<◌, ◌≡◌, ◌≢◌, Bool,
  true, false, [], ◌∷◌, ◌++◌, ◌==◌, arith,
}
use restore_the_operating_sy.Base.Word.{Returns, Returns-bind}
use restore_the_operating_sy.Interrupt.{IntrStatus, intr_disable}
use restore_the_operating_sy.Thread.{Kernel, blocked, is_asleep, contains, thread_block}
use restore_the_operating_sy.Thread.Queue.{IsValid, Unique-append, contains-append}
use restore_the_operating_sy.Thread.Schedule.{running_not_asleep}
use restore_the_operating_sy.Thread.Steps.{Blocks, thread_block_lem}
use restore_the_operating_sy.Sync.{
  System, outside, waiting, passed, inside, holds, set_phase, sema_down_loop, sema_down,
  lock_acquire,
}
use restore_the_operating_sy.Sync.Steps.{is_waiting}
use restore_the_operating_sy.Sync.Invariant.{
  owner_or_not, waiting_not_idle, IsSafe, owns, is_inside,
}

-- The flag is no part of the invariant.
with_flag-IsSafe :
    (s : System) (b : Bool) → IsSafe s → IsSafe (record s { kernel = record s.kernel { flag = b } })
with_flag-IsSafe s b h = record {
  valid = record {
    queue = record {
      queued = h.valid.queue.queued;
      unique = h.valid.queue.unique;
      idle_lives = h.valid.queue.idle_lives;
    };
    alone = h.valid.alone;
  };
  idle = h.idle;
  distinct = h.distinct;
  queued = h.queued;
  free = h.free;
  taken = h.taken;
  holder = h.holder;
  nested = h.nested;
  held = h.held;
  unheld = h.unheld;
  retried = h.retried;
}

-- The current thread is awake, so it is not among the waiters.
current_awake :
    (s : System) → IsSafe s → is_asleep (s.kernel.task s.kernel.running_thread).status ≡ false
current_awake s h = running_not_asleep _ (
    h.valid.alone s.kernel.running_thread
    ∙ eq→== s.kernel.running_thread s.kernel.running_thread refl)

current_not_queued :
    (s : System) → IsSafe s → contains s.kernel.running_thread s.lock.waiters ≡ false
current_not_queued s h = h.queued s.kernel.running_thread ∙ ground (arith, current_awake s h)

-- The caller of the loop joins the waiters and sleeps.
joined :
    (s : System) (old : IntrStatus) (k : Kernel)
    → IsSafe s
    → owns (s.phase s.kernel.running_thread) ≡ false
    → s.kernel.running_thread ≢ s.kernel.idle_thread
    → s.lock.value ≡ 0
    → IsValid k
    → Blocks s.kernel k
    → IsSafe (record {
      kernel = k;
      lock = record s.lock { waiters = s.lock.waiters ++ s.kernel.running_thread ∷ [] };
      phase = set_phase s s.kernel.running_thread (waiting old);
    })
joined s old k h out ne zero_value v b =
    let cur = s.kernel.running_thread in
    let absent = current_not_queued s h in
    record {
      valid = v;
      idle = rw b.0 (ground (arith, h.idle));
      distinct = Unique-append s.lock.waiters cur h.distinct absent;
      queued = λ t. contains-append t s.lock.waiters cur ∙ elim (Bool-cases (t == cur)) [
        | inl e ↦ ground (arith, b.1 t)
        | inr e ↦ elim (Bool-cases (is_waiting (s.phase t))) [
          | inl w ↦ ground (arith, b.1 t (waiting_not_idle s h t w), h.queued t)
          | inr w ↦ ground (arith, h.queued t)
        ]
      ];
      free = λ n. absurd (n zero_value);
      taken = λ z. let (o, only) = h.taken z in (o, λ t. ground (arith, only t, only cur));
      holder = λ t. ground (arith, h.holder t);
      nested = h.nested;
      held = λ t i. ground (arith, h.held t);
      unheld = h.unheld;
      retried = λ n. absurd (n zero_value);
    }

-- The caller of the loop takes the semaphore.
semaphore_taken :
    (s : System) (b : Bool)
    → IsSafe s
    → s.kernel.running_thread ≢ s.kernel.idle_thread
    → s.lock.value ≢ 0
    → IsSafe (record {
      kernel = record s.kernel { flag = b };
      lock = record s.lock { value = s.lock.value - 1 };
      phase = set_phase s s.kernel.running_thread passed;
    })
semaphore_taken s b h ne full =
    let cur = s.kernel.running_thread in
    let absent = current_not_queued s h in
    let (one, nobody) = h.free full in
    record {
      valid = (with_flag-IsSafe s b h).valid;
      idle = ground (arith, h.idle);
      distinct = h.distinct;
      queued = λ t. ground (arith, h.queued t, absent);
      free = λ n. absurd (omega arith);
      taken = λ z. (cur, λ t. ground (arith, nobody t));
      holder = λ t. ground (arith, h.holder t, nobody cur, owner_or_not (s.phase cur));
      nested = h.nested;
      held = λ t i. ground (arith, h.held t);
      unheld = h.unheld;
      retried = λ n. absurd (omega arith);
    }

pub sema_down_loop-IsSafe :
    (s : System) (old : IntrStatus)
    → IsSafe s
    → owns (s.phase s.kernel.running_thread) ≡ false
    → s.kernel.running_thread ≢ s.kernel.idle_thread
    → Returns IsSafe (sema_down_loop s old)
unfolding sema_down_loop
sema_down_loop-IsSafe s old h out ne = elim (Bool-cases (s.lock.value == 0)) [
  | inl e ↦
      rw (e, current_not_queued s h)
        (Returns-bind IsSafe (thread_block s.kernel blocked) _
          (thread_block_lem s.kernel blocked h.valid refl)
          λ k p. joined s old k h out ne (==→eq _ _ e) p.0.0 p.1)
  | inr e ↦
      let full : s.lock.value ≢ 0 = ==→ne _ _ e in
      let one : (s.lock.value - 1 == 0) ≡ true = eq→== _ _ (omega (arith, (h.free full).0)) in
      rw (e, one) (semaphore_taken s _ h ne full)
]

-- lock_acquire of a thread that does not hold the lock.
pub acquire-IsSafe :
    (s : System)
    → IsSafe s
    → s.phase s.kernel.running_thread ≡ outside
    → s.kernel.running_thread ≢ s.kernel.idle_thread
    → Returns IsSafe (lock_acquire s)
unfolding lock_acquire sema_down
acquire-IsSafe s h p ne =
    let off = (intr_disable s.kernel.flag).1 in
    let other : holds s.lock.holder s.kernel.running_thread ≡ false =
      h.holder s.kernel.running_thread ∙ ap is_inside p in
    rw other (
      sema_down_loop-IsSafe (record s { kernel = record s.kernel { flag = off } })
        (intr_disable s.kernel.flag).0 (with_flag-IsSafe s off h) (ap owns p) ne)

pub again-IsSafe :
    (s : System)
    → IsSafe s
    → s.phase s.kernel.running_thread ≡ inside
    → s.lock.holder_repeat_nr + 1 < 2 ^ 32
    → Returns IsSafe (lock_acquire s)
unfolding lock_acquire
again-IsSafe s h p small =
    let mine : holds s.lock.holder s.kernel.running_thread ≡ true =
      h.holder s.kernel.running_thread ∙ ap is_inside p in
    rw mine (record {
      valid = h.valid;
      idle = h.idle;
      distinct = h.distinct;
      queued = h.queued;
      free = h.free;
      taken = h.taken;
      holder = h.holder;
      nested = omega arith;
      held = λ t i. omega arith;
      unheld = λ n. ground (arith, ap (λ o. holds o s.kernel.running_thread) n);
      retried = h.retried;
    })
