-- ===== src/Sync/Safety.antt =====
-- Mutual exclusion and wakeups in every state that the system reaches.
use restore_the_operating_sy.Base.{
  ==→eq, ==→ne, inr, refl, ◌∙◌, Bool-cases, inl, ne→==, subst, ap, ℕ, ◌≡◌, ◌⊎◌, true, false, ◌==◌,
  arith,
}
use restore_the_operating_sy.Base.Word.{Outcome, ok, Returns}
use restore_the_operating_sy.Thread.{Kernel, is_asleep, contains}
use restore_the_operating_sy.Thread.Queue.{IsValid}
use restore_the_operating_sy.Thread.Steps.{
  thread_block_lem, thread_yield_lem, thread_unblock-IsValid,
}
use restore_the_operating_sy.Thread.Timer.{intr_timer_handler_lem}
use restore_the_operating_sy.Thread.Schedule.{thread_unblock-IsQueued}
use restore_the_operating_sy.Sync.{System, outside, lock_init}
use restore_the_operating_sy.Sync.Steps.{
  Call, acquire, again, retry, take, release, up, Step, call, tick, yield_now, sleep, wake, Reach,
  start, later, is_waiting,
}
use restore_the_operating_sy.Sync.Invariant.{
  IsSafe, owns, Retrier, set_kernel-IsSafe, waiting_not_idle,
}
use restore_the_operating_sy.Sync.Kept.{acquire-IsSafe, again-IsSafe, sema_down_loop-IsSafe}
use restore_the_operating_sy.Sync.Owner.{take-IsSafe, release-IsSafe, up-IsSafe}

-- Where the invariant holds, a call of the current thread passes its ASSERTs and keeps the invariant,
-- if it is one of these: lock_acquire by a thread that has not got the lock and is not the idle thread,
-- or by one that has got it and has taken it fewer than 2 ^ 32 - 1 times over; sema_down going on after
-- a sleep, and lock_acquire behind sema_down; lock_release by the thread that has got the lock, and the
-- sema_up at its end.
pub Call-IsSafe : (s : System) (o : Outcome System) → IsSafe s → Call s o → Returns IsSafe o
Call-IsSafe s o h (acquire p ne e) = rw e (acquire-IsSafe s h p ne)
Call-IsSafe s o h (again p small e) = rw e (again-IsSafe s h p small)
Call-IsSafe s o h (retry old p e) = rw e (
    sema_down_loop-IsSafe s old h (ap owns p)
      (waiting_not_idle s h s.kernel.running_thread (ap is_waiting p)))
Call-IsSafe s o h (take p e) = rw e (take-IsSafe s h p)
Call-IsSafe s o h (release p e) = rw e (release-IsSafe s h p)
Call-IsSafe s o h (up p e) = rw e (up-IsSafe s h p)

-- The result of a call that returns.
result {ℓ} : {A : Type ℓ} (P : A → Type 0) (o : Outcome A) (a : A) → Returns P o → o ≡ ok a → P a
result P o a r e = subst (λ q. Returns P q) e r

Step-IsSafe : (s s' : System) → IsSafe s → Step s s' → IsSafe s'
Step-IsSafe s s' h (call o c e) = result IsSafe o s' (Call-IsSafe s o h c) e
Step-IsSafe s s' h (tick k on magic e f) =
    let p = result _ _ k (intr_timer_handler_lem s.kernel h.valid magic) e in
    rw f (set_kernel-IsSafe s k h p.0.0 p.1.0 (λ t w ne. p.1.1 t ne))
Step-IsSafe s s' h (yield_now k e f) =
    let p = result _ _ k (thread_yield_lem s.kernel h.valid) e in
    rw f (set_kernel-IsSafe s k h p.0.0 p.1.0 (λ t w ne. p.1.1 t ne))
Step-IsSafe s s' h (sleep k stat free a e f) =
    let p = result _ _ k (thread_block_lem s.kernel stat h.valid a) e in
    rw f (
      set_kernel-IsSafe s k h p.0.0 p.1.0 λ t w ne.
        let other : (t == s.kernel.running_thread) ≡ false =
          ne→== _ _ (λ q. ground (arith, ap (λ i. is_waiting (s.phase i)) q)) in
        p.1.1 t ne ∙ rw other)
Step-IsSafe s s' h (wake k i free a e f) =
    let v = result _ _ k (thread_unblock-IsValid s.kernel i h.valid a) e in
    let p = result _ _ k (thread_unblock-IsQueued s.kernel i h.valid.queue a) e in
    rw f (
      set_kernel-IsSafe s k h v.0 p.5 λ t w ne.
        let other : (t == i) ≡ false =
          ne→== _ _ (λ q. ground (arith, ap (λ j. is_waiting (s.phase j)) q)) in
        ap is_asleep (p.3 t ∙ rw other))

-- A lock that lock_init has made, and no thread that uses it yet.
abbrev pub initial : Kernel → System
initial k = record { kernel = k; lock = lock_init; phase = λ t. outside }

initial-IsSafe : (k : Kernel) → IsValid k → IsSafe (initial k)
unfolding lock_init
initial-IsSafe k v = record {
  valid = v;
  idle = refl;
  distinct = tt;
  queued = λ t. refl;
  free = λ n. (refl, λ t. refl);
  taken = λ z. absurd (omega arith);
  holder = λ t. refl;
  nested = omega arith;
  held = λ t i. cc;
  unheld = λ n. refl;
  retried = λ n. inl refl;
}

-- Every state that the system reaches from the start satisfies the invariant.
pub Reach-IsSafe : {k : Kernel} {s : System} → IsValid k → Reach (initial k) s → IsSafe s
Reach-IsSafe {k} v start = initial-IsSafe k v
Reach-IsSafe v (later {t} {u} r st) = Step-IsSafe t u (Reach-IsSafe v r) st

-- In every state that the threads of a valid scheduler reach from a lock that lock_init has made, two
-- threads are never at once between the end of sema_down and sema_up, where they hold the lock.
pub mutual_exclusion :
    {k : Kernel} {s : System}
    → IsValid k
    → Reach (initial k) s
    → (i j : ℕ) → owns (s.phase i) ≡ true
    → owns (s.phase j) ≡ true
    → i ≡ j
mutual_exclusion {k} {s} v r i j p q =
    let h = Reach-IsSafe v r in
    elim (Bool-cases (s.lock.value == 0)) [
      | inl e ↦ let (o, only) = h.taken (==→eq _ _ e) in ground (arith, only i, only j)
      | inr e ↦ absurd (ground (arith, (h.free (==→ne _ _ e)).1 i))
    ]

-- In every state that the threads of a valid scheduler reach from a lock that lock_init has made, no
-- wakeup is lost: a thread that sleeps in sema_down is among the waiters, and the semaphore is taken
-- or a thread in sema_down is awake and will test the value again.
pub no_lost_wakeup :
    {k : Kernel} {s : System}
    → IsValid k
    → Reach (initial k) s
    → (t : ℕ) → is_waiting (s.phase t) ≡ true
    → is_asleep (s.kernel.task t).status ≡ true
    → (contains t s.lock.waiters ≡ true) × ((s.lock.value ≡ 0) ⊎ Retrier s)
no_lost_wakeup {k} {s} v r t w a =
    let h = Reach-IsSafe v r in
    let here : contains t s.lock.waiters ≡ true = h.queued t ∙ rw (w, a) in
    elim (Bool-cases (s.lock.value == 0)) [
      | inl e ↦ (here, inl (==→eq _ _ e))
      | inr e ↦ elim (h.retried (==→ne _ _ e)) [
        | inl none_left ↦ absurd (ground (arith, ap (contains t) none_left))
        | inr q ↦ (here, inr q)
      ]
    ]
