-- ===== src/Thread/Schedule.antt =====
-- schedule never fails an ASSERT, and keeps the queue and the statuses in agreement.
use restore_the_operating_sy.Base.{
  eq→==, not, ap₂, subst, ℕ, ◌≡◌, ◌≢◌, refl, sym, ap, ◌∙◌, true, false, List, [], ◌∷◌, ◌++◌,
  if◌then◌else◌, ◌==◌, arith, Bool-cases, inl, inr,
}
use restore_the_operating_sy.Base.Word.{
  Outcome, Returns-assert, ◌>>=◌, Returns-bind, Returns, Returns-mono,
}
use restore_the_operating_sy.Interrupt.{disable-restore, intr_disable}
use restore_the_operating_sy.Thread.{
  schedule, dispatch, Kernel, TaskStatus, running, ready, blocked, waiting, hanging, died,
  is_running, is_ready, is_asleep, contains, thread_unblock, requeue, wake_idle,
}
use restore_the_operating_sy.Thread.Queue.{
  Unique, IsValid, IsQueued, IsEntered, Unique-append, contains-append,
}

-- No thread is running.
pub record IsSettled (k : Kernel) : Type 0 where
  pub queue : IsQueued k
  pub none_running : (t : ℕ) → is_running (k.task t).status ≡ false

pub asleep_cases :
    (s : TaskStatus) → is_running s ≡ false → is_ready s ≡ false → s ≢ died → is_asleep s ≡ true
asleep_cases running r q d = ground arith
asleep_cases ready r q d = ground arith
asleep_cases blocked r q d = refl
asleep_cases waiting r q d = refl
asleep_cases hanging r q d = refl
asleep_cases died r q d = absurd (d refl)

pub asleep_not_ready : (s : TaskStatus) → is_asleep s ≡ true → is_ready s ≡ false
asleep_not_ready running a = refl
asleep_not_ready ready a = sym a
asleep_not_ready blocked a = refl
asleep_not_ready waiting a = refl
asleep_not_ready hanging a = refl
asleep_not_ready died a = refl

pub running_not_ready : (s : TaskStatus) → is_running s ≡ true → (is_ready s ≡ false) × (s ≢ died)
running_not_ready running r = (refl, λ e. cc)
running_not_ready ready r = absurd (ground arith)
running_not_ready blocked r = absurd (ground arith)
running_not_ready waiting r = absurd (ground arith)
running_not_ready hanging r = absurd (ground arith)
running_not_ready died r = absurd (ground arith)

pub running_not_asleep : (s : TaskStatus) → is_running s ≡ true → is_asleep s ≡ false
running_not_asleep running r = refl
running_not_asleep ready r = absurd (ground arith)
running_not_asleep blocked r = absurd (ground arith)
running_not_asleep waiting r = absurd (ground arith)
running_not_asleep hanging r = absurd (ground arith)
running_not_asleep died r = refl

pub ready_not_asleep : (s : TaskStatus) → is_ready s ≡ true → is_asleep s ≡ false
ready_not_asleep running r = refl
ready_not_asleep ready r = refl
ready_not_asleep blocked r = absurd (ground arith)
ready_not_asleep waiting r = absurd (ground arith)
ready_not_asleep hanging r = absurd (ground arith)
ready_not_asleep died r = refl

-- thread_unblock of a thread that sleeps puts it at the front of the queue; its ASSERTs hold.
pub thread_unblock-IsQueued :
    (k : Kernel) (t : ℕ)
    → IsQueued k
    → is_asleep (k.task t).status ≡ true
    → Returns
        (λ k'.
          IsQueued k'
          × (k'.thread_ready_list ≡ t ∷ k.thread_ready_list)
          × (k'.running_thread ≡ k.running_thread)
          × ((i : ℕ) → (k'.task i).status ≡ (if i == t then ready else (k.task i).status))
          × (k'.flag ≡ k.flag)
          × (k'.idle_thread ≡ k.idle_thread))
        (thread_unblock k t)
unfolding thread_unblock
thread_unblock-IsQueued k t q a =
    let absent : contains t k.thread_ready_list ≡ false = q.queued t ∙ asleep_not_ready _ a in
    rw (a, absent)
      (
        record {
          queued = λ i. ground (arith, q.queued i);
          unique = (absent, q.unique);
          idle_lives = λ e. q.idle_lives (ground arith);
        },
        refl,
        refl,
        λ i. ground arith,
        (disable-restore k.flag (intr_disable k.flag).1).1,
        refl,
      )

-- No thread but the idle one falls asleep or is woken.
abbrev pub Keeps : Kernel → Kernel → Type 0
Keeps k k' =
    (k'.idle_thread ≡ k.idle_thread)
    × ((t : ℕ) → t ≢ k.idle_thread → is_asleep (k'.task t).status ≡ is_asleep (k.task t).status)

requeue_lem :
    (k : Kernel)
    → IsEntered k
    → Returns
        (λ k'.
          IsSettled k'
          × (k'.thread_ready_list ≡ (
              if is_running (k.task k.running_thread).status
              then k.thread_ready_list ++ k.running_thread ∷ []
              else k.thread_ready_list))
          × (k'.idle_thread ≡ k.idle_thread)
          × Keeps k k')
        (requeue k)
unfolding requeue
requeue_lem k h = elim (Bool-cases (is_running (k.task k.running_thread).status)) [
  | inl r ↦
      let q = h.queue in
      let absent : contains k.running_thread k.thread_ready_list ≡ false =
        q.queued k.running_thread ∙ (running_not_ready _ r).0 in
      rw (r, absent)
        (
          record {
            queue = record {
              queued = λ t.
                  contains-append t k.thread_ready_list k.running_thread
                  ∙ ground (arith, q.queued t);
              unique = Unique-append k.thread_ready_list k.running_thread q.unique absent;
              idle_lives = λ e. q.idle_lives (ground arith);
            };
            none_running = λ t. ground (arith, h.others t);
          },
          refl,
          refl,
          (refl, λ t ne. ground (arith, running_not_asleep _ r)),
        )
  | inr r ↦ rw r (
    record { queue = h.queue; none_running = λ t. ground (arith, h.others t) },
    refl,
    refl,
    (refl, λ t ne. refl),
  )
]

-- The queue that schedule takes its next thread from.
abbrev pub candidates : List ℕ → ℕ → List ℕ
candidates [] idle = idle ∷ []
candidates (x ∷ xs) idle = x ∷ xs

wake_idle_lem :
    (k : Kernel) (q : List ℕ)
    → IsSettled k
    → k.thread_ready_list ≡ q
    → Returns
        (λ k'. IsSettled k' × (k'.thread_ready_list ≡ candidates q k.idle_thread) × Keeps k k')
        (wake_idle k q)
unfolding wake_idle
wake_idle_lem k [] h e =
    let absent : contains k.idle_thread k.thread_ready_list ≡ false = rw e in
    let a =
      asleep_cases _ (h.none_running k.idle_thread) (sym (h.queue.queued k.idle_thread) ∙ absent)
        h.queue.idle_lives in
    Returns-mono _ (thread_unblock k k.idle_thread)
      (thread_unblock-IsQueued k k.idle_thread h.queue a)
      λ k' p. (
        record { queue = p.0; none_running = λ t. ground (arith, p.3 t, h.none_running t) },
        p.1 ∙ ap (λ l. k.idle_thread ∷ l) e,
        (p.5, λ t ne. ground (arith, p.3 t)),
      )
wake_idle_lem k (x ∷ xs) h e = (h, e, (refl, λ t ne. refl))

dispatch_lem :
    (k : Kernel) (next : ℕ) (rest : List ℕ)
    → IsSettled k
    → k.thread_ready_list ≡ next ∷ rest
    → Returns
        (λ k'. IsValid k' × (k'.running_thread ∷ k'.thread_ready_list ≡ next ∷ rest) × Keeps k k')
        (dispatch k (next ∷ rest))
unfolding dispatch
dispatch_lem k next rest h e =
    let u : Unique (next ∷ rest) = subst Unique e h.queue.unique in
    let q =
      λ (t : ℕ). subst (λ l. contains t l ≡ is_ready (k.task t).status) e (h.queue.queued t) in
    (
      record {
        queue = record {
          queued = λ t. ground (arith, q t, u.0);
          unique = u.1;
          idle_lives = λ d. h.queue.idle_lives (ground arith);
        };
        alone = λ t. ground (arith, h.none_running t);
      },
      refl,
      (refl, λ t ne. ground (arith, ready_not_asleep _ (sym (q next) ∙ rw (eq→== next next refl)))),
    )

-- The queue that schedule finds once the current thread is back in it, and what is chosen from it.
abbrev pub line : Kernel → List ℕ
line k =
    candidates
      (if is_running (k.task k.running_thread).status
        then k.thread_ready_list ++ k.running_thread ∷ []
        else k.thread_ready_list)
      k.idle_thread

dispatch_any :
    (k : Kernel) (q l : List ℕ) (idle : ℕ)
    → IsSettled k
    → k.thread_ready_list ≡ l
    → l ≡ candidates q idle
    → Returns
        (λ k'.
          IsValid k' × (k'.running_thread ∷ k'.thread_ready_list ≡ candidates q idle) × Keeps k k')
        (dispatch k l)
dispatch_any k [] l idle h e f = rw f (dispatch_lem k idle [] h (e ∙ f))
dispatch_any k (x ∷ xs) l idle h e f = rw f (dispatch_lem k x xs h (e ∙ f))

-- A valid kernel that runs the first of the line.
abbrev pub Chosen : Kernel → Kernel → Type 0
Chosen k k' = IsValid k' × (k'.running_thread ∷ k'.thread_ready_list ≡ line k)

abbrev dispatch_head : Kernel → Outcome Kernel
dispatch_head k = dispatch k k.thread_ready_list

Keeps-trans : (a b c : Kernel) → Keeps a b → Keeps b c → Keeps a c
Keeps-trans a b c p q = (q.0 ∙ p.0, λ t ne. q.1 t (λ e. ne (e ∙ p.0)) ∙ p.1 t ne)

-- schedule, entered with the interrupts off, passes all its ASSERTs. It runs the first of the line,
-- and of the other threads wakes the idle one at most.
pub schedule_lem :
    (k : Kernel) → IsEntered k → Returns (λ k'. Chosen k k' × Keeps k k') (schedule k)
unfolding schedule
schedule_lem k h =
    Returns-assert (λ k'. Chosen k k' × Keeps k k') (not k.flag) _ (ap not h.off)
      (Returns-bind (λ k'. Chosen k k' × Keeps k k') (requeue k)
        (λ (k1 : Kernel). wake_idle k1 k1.thread_ready_list >>= dispatch_head) (requeue_lem k h)
        λ k1 p.
          Returns-bind (λ k'. Chosen k k' × Keeps k k') (wake_idle k1 k1.thread_ready_list)
            dispatch_head (wake_idle_lem k1 k1.thread_ready_list p.0 refl)
            λ k2 r.
              Returns-mono (λ k'. Chosen k k' × Keeps k k') (dispatch_head k2)
                (dispatch_any k2 _ k2.thread_ready_list k.idle_thread r.0 refl
                  (r.1 ∙ ap₂ candidates p.1 p.2))
                λ k3 d. ((d.0, d.1), Keeps-trans k k1 k3 p.3 (Keeps-trans k1 k2 k3 r.2 d.2)))

-- schedule, entered with the interrupts off, passes all its ASSERTs. The thread that it leaves
-- running is the first of the queue, behind which a thread whose time is up has been put, or the
-- idle thread if the queue is empty.
pub schedule-IsValid : (k : Kernel) → IsEntered k → Returns (Chosen k) (schedule k)
schedule-IsValid k h = Returns-mono (Chosen k) (schedule k) (schedule_lem k h) (λ k' p. p.0)

pub asleep_not_running : (s : TaskStatus) → is_asleep s ≡ true → (is_running s ≡ false) × (s ≢ died)
asleep_not_running running a = absurd (ground arith)
asleep_not_running ready a = absurd (ground arith)
asleep_not_running blocked a = (refl, λ e. cc)
asleep_not_running waiting a = (refl, λ e. cc)
asleep_not_running hanging a = (refl, λ e. cc)
asleep_not_running died a = absurd (ground arith)
