-- ===== src/Sync/Owner.antt =====
-- What the owner of a lock does: the end of lock_acquire, lock_release and sema_up.
use restore_the_operating_sy.Base.{
  sym, ◌⊎◌, ltb, subst, Option, ==→eq, ==→ne, eq→==, ap, inr, inl, refl, Bool-cases, ◌∙◌, ℕ, ◌+◌,
  ◌≡◌, Bool, true, false, ◌&&◌, none, some, List, [], ◌∷◌, ◌==◌, arith,
}
use restore_the_operating_sy.Base.Word.{Returns, Returns-bind}
use restore_the_operating_sy.Interrupt.{intr_set_status, intr_disable}
use restore_the_operating_sy.Thread.{Kernel, is_asleep, contains, thread_unblock}
use restore_the_operating_sy.Thread.Queue.{Unique, IsValid}
use restore_the_operating_sy.Thread.Schedule.{thread_unblock-IsQueued, asleep_not_running}
use restore_the_operating_sy.Sync.{
  System, outside, passed, inside, leaving, holds, set_phase, lock_taken, lock_release, wake_first,
  sema_up,
}
use restore_the_operating_sy.Sync.Steps.{is_waiting}
use restore_the_operating_sy.Sync.Invariant.{owner_or_not, IsSafe, owns, is_inside}

-- The threads other than the one that owns the lock do not own it.
only_owner :
    (s : System)
    → IsSafe s
    → (c : ℕ) → owns (s.phase c) ≡ true
    → (s.lock.value ≡ 0) × ((t : ℕ) → owns (s.phase t) ≡ (t == c))
only_owner s h c mine = elim (Bool-cases (s.lock.value == 0)) [
  | inl e ↦
      let z : s.lock.value ≡ 0 = ==→eq _ _ e in
      let (o, only) = h.taken z in (z, λ t. ground (arith, only t, only c))
  | inr e ↦ absurd (ground (arith, (h.free (==→ne _ _ e)).1 c))
]

no_holder : (o : Option ℕ) → ((t : ℕ) → holds o t ≡ false) → o ≡ none
no_holder none h = refl
no_holder (some t) h = absurd (ground (arith, h t))

pub take-IsSafe :
    (s : System)
    → IsSafe s
    → s.phase s.kernel.running_thread ≡ passed
    → Returns IsSafe (lock_taken s)
unfolding lock_taken
take-IsSafe s h p =
    let cur = s.kernel.running_thread in
    let (z, only) = only_owner s h cur (ap owns p) in
    let nobody = no_holder s.lock.holder (λ t. h.holder t ∙ elim (Bool-cases (t == cur)) [
      | inl e ↦ subst (λ i. is_inside (s.phase i) ≡ false) (sym (==→eq t cur e)) (ap is_inside p)
      | inr e ↦ owner_or_not (s.phase t) (only t ∙ e)
    ]) in
    rw (h.unheld nobody) (record {
      valid = h.valid;
      idle = ground (arith, h.idle);
      distinct = h.distinct;
      queued = λ t. ground (arith, h.queued t);
      free = λ n. absurd (n z);
      taken = λ e. (cur, λ t. ground (arith, only t));
      holder = λ t. ground (arith, only t, owner_or_not (s.phase t));
      nested = omega arith;
      held = λ t i. omega arith;
      unheld = λ n. cc;
      retried = λ n. absurd (n z);
    })

pub release-IsSafe :
    (s : System)
    → IsSafe s
    → s.phase s.kernel.running_thread ≡ inside
    → Returns IsSafe (lock_release s)
unfolding lock_release
release-IsSafe s h p =
    let cur = s.kernel.running_thread in
    let (z, only) = only_owner s h cur (ap owns p) in
    let mine : holds s.lock.holder cur ≡ true = h.holder cur ∙ ap is_inside p in
    let deep = h.held cur (ap is_inside p) in
    let nested = h.nested in
    rw mine (elim (Bool-cases (ltb 1 s.lock.holder_repeat_nr)) [
      | inl e ↦ rw e (record {
        valid = h.valid;
        idle = h.idle;
        distinct = h.distinct;
        queued = h.queued;
        free = h.free;
        taken = h.taken;
        holder = h.holder;
        nested = omega arith;
        held = λ t i. ground arith;
        unheld = λ n. ground (arith, ap (λ o. holds o cur) n);
        retried = h.retried;
      })
      | inr e ↦
          let last : (s.lock.holder_repeat_nr == 1) ≡ true = ground arith in
          rw (e, last)
            (record {
              valid = h.valid;
              idle = ground (arith, h.idle);
              distinct = h.distinct;
              queued = λ t. ground (arith, h.queued t);
              free = λ n. absurd (n z);
              taken = λ q. (cur, λ t. ground (arith, only t));
              holder = λ t. ground (arith, only t, owner_or_not (s.phase t));
              nested = omega arith;
              held = λ t i. ground (arith, only t, owner_or_not (s.phase t));
              unheld = λ n. refl;
              retried = λ n. absurd (n z);
            })
    ])

-- The owner leaves, once the first waiter is awake.
left_by_owner :
    (s : System) (k : Kernel) (others : List ℕ)
    → IsSafe s
    → s.phase s.kernel.running_thread ≡ leaving
    → IsValid k
    → k.idle_thread ≡ s.kernel.idle_thread
    → Unique others
    → ((t : ℕ) → contains t others ≡ (is_waiting (s.phase t) && is_asleep (k.task t).status))
    → (others ≡ [])
      ⊎ ((t : ℕ) × (is_waiting (s.phase t) ≡ true) × (is_asleep (k.task t).status ≡ false))
    → IsSafe (record {
      kernel = k;
      lock = record s.lock { value = s.lock.value + 1; waiters = others };
      phase = set_phase s s.kernel.running_thread outside;
    })
left_by_owner s k others h p v idle u q r =
    let cur = s.kernel.running_thread in
    let (z, only) = only_owner s h cur (ap owns p) in
    record {
      valid = v;
      idle = rw idle (ground (arith, h.idle));
      distinct = u;
      queued = λ t. q t ∙ ground arith;
      free = λ n. (omega arith, λ t. ground (arith, only t));
      taken = λ e. absurd (omega arith);
      holder = λ t. ground (arith, h.holder t, owner_or_not (s.phase t), only t);
      nested = h.nested;
      held = λ t i. ground (arith, h.held t);
      unheld = h.unheld;
      retried = λ n. elim r [ inl e ↦ inl e | inr (t, w, a) ↦ inr (t, ground arith, a) ];
    }

with_flag-IsValid : (k : Kernel) (b : Bool) → IsValid k → IsValid (record k { flag = b })
with_flag-IsValid k b v = record {
  queue = record {
    queued = v.queue.queued;
    unique = v.queue.unique;
    idle_lives = v.queue.idle_lives;
  };
  alone = v.alone;
}

-- What the waking of the first of the waiters `l` leaves.
abbrev Woken : System → Kernel × List ℕ → Type 0
Woken s r =
    IsValid r.0
    × (r.0.idle_thread ≡ s.kernel.idle_thread)
    × Unique r.1
    × ((t : ℕ) → contains t r.1 ≡ (is_waiting (s.phase t) && is_asleep (r.0.task t).status))
    × ((r.1 ≡ [])
        ⊎ ((t : ℕ) × (is_waiting (s.phase t) ≡ true) × (is_asleep (r.0.task t).status ≡ false)))

wake_first-Woken :
    (s : System) (k : Kernel) (l : List ℕ)
    → IsValid k
    → k.idle_thread ≡ s.kernel.idle_thread
    → Unique l
    → ((t : ℕ) → contains t l ≡ (is_waiting (s.phase t) && is_asleep (k.task t).status))
    → Returns (Woken s) (wake_first k l)
unfolding wake_first
wake_first-Woken s k [] v idle u q = (v, idle, u, q, inl refl)
wake_first-Woken s k (t ∷ others) v idle u q =
    let here : contains t (t ∷ others) ≡ true = ground arith in
    let asleep : is_asleep (k.task t).status ≡ true = ground (arith, q t) in
    let waits : is_waiting (s.phase t) ≡ true = ground (arith, q t) in
    let awake = (asleep_not_running _ asleep).0 in
    Returns-bind (Woken s) (thread_unblock k t) _ (thread_unblock-IsQueued k t v.queue asleep)
      λ k' p.
        let now : is_asleep (k'.task t).status ≡ false = ground (arith, p.3 t) in
        (
          record { queue = p.0; alone = λ i. ground (arith, p.3 i, v.alone i, p.2, awake) },
          p.5 ∙ idle,
          u.1,
          λ i. ground (arith, q i, p.3 i, u.0),
          inr (t, waits, now),
        )

pub up-IsSafe :
    (s : System) → IsSafe s → s.phase s.kernel.running_thread ≡ leaving → Returns IsSafe (sema_up s)
unfolding sema_up
up-IsSafe s h p =
    let cur = s.kernel.running_thread in
    let off = (intr_disable s.kernel.flag).1 in
    let (z, only) = only_owner s h cur (ap owns p) in
    rw (eq→== s.lock.value 0 z) (
      Returns-bind IsSafe (wake_first (record s.kernel { flag = off }) s.lock.waiters) _
        (wake_first-Woken s (record s.kernel { flag = off }) s.lock.waiters
          (with_flag-IsValid s.kernel off h.valid) refl h.distinct h.queued)
        λ r w.
          let one : (s.lock.value + 1 == 1) ≡ true = eq→== _ _ (omega arith) in
          rw one (
            left_by_owner s
              (record r.0 { flag = (intr_set_status (intr_disable s.kernel.flag).0 r.0.flag).1 })
              r.1 h p (with_flag-IsValid r.0 _ w.0) w.1 w.2 w.3 w.4))
