-- ===== src/Thread/Steps.antt =====
-- thread_block, thread_unblock and thread_yield keep the scheduler's invariant.
use restore_the_operating_sy.Base.{
  ◌≢◌, ◌==◌, if◌then◌else◌, subst, ◌++◌, false, [], ℕ, ◌≡◌, refl, ◌∙◌, true, List, ◌∷◌, arith,
  eq→==,
}
use restore_the_operating_sy.Base.Word.{Returns-mono, Returns, Returns-bind, ok, ◌>>=◌}
use restore_the_operating_sy.Interrupt.{intr_disable, disable-restore}
use restore_the_operating_sy.Thread.{
  ready, contains, thread_yield, thread_unblock, Kernel, TaskStatus, is_asleep, set_task, schedule,
  resume, thread_block,
}
use restore_the_operating_sy.Thread.Queue.{Unique-append, contains-append, IsValid, IsEntered}
use restore_the_operating_sy.Thread.Schedule.{
  Keeps, schedule_lem, running_not_asleep, thread_unblock-IsQueued, running_not_ready,
  asleep_not_running, line, candidates, asleep_not_ready,
}

-- Who runs, and the queue behind, after a switch to the first of `l`.
abbrev pub Switched : List ℕ → Kernel → Type 0
Switched l k = IsValid k × (k.running_thread ∷ k.thread_ready_list ≡ l)

pub resume-Switched : (l : List ℕ) (k : Kernel) → Switched l k → Switched l (resume k)
unfolding resume
resume-Switched l k (v, e) = (
  record {
    queue = record {
      queued = v.queue.queued;
      unique = v.queue.unique;
      idle_lives = v.queue.idle_lives;
    };
    alone = v.alone;
  },
  e,
)

pub resume-Keeps : (k k' : Kernel) → Keeps k k' → Keeps k (resume k')
unfolding resume
resume-Keeps k k' h = h

-- schedule and what runs behind it.
switch :
    (k : Kernel)
    → IsEntered k
    → Returns (λ k'. Switched (line k) k' × Keeps k k') (schedule k >>= λ k'. ok (resume k'))
unfolding resume
switch k h =
    Returns-bind (λ k'. Switched (line k) k' × Keeps k k') (schedule k)
      (λ (k' : Kernel). ok (resume k')) (schedule_lem k h)
      (λ k' p. (resume-Switched (line k) k' p.0, p.1))

-- The caller falls asleep, and of the other threads the idle one at most is woken.
abbrev pub Blocks : Kernel → Kernel → Type 0
Blocks k k' =
    (k'.idle_thread ≡ k.idle_thread)
    × ((t : ℕ)
        → t ≢ k.idle_thread
        → is_asleep (k'.task t).status
          ≡ (if t == k.running_thread then true else is_asleep (k.task t).status))

pub thread_block_lem :
    (k : Kernel) (stat : TaskStatus)
    → IsValid k
    → is_asleep stat ≡ true
    → Returns
        (λ k'. Switched (candidates k.thread_ready_list k.idle_thread) k' × Blocks k k')
        (thread_block k stat)
unfolding thread_block
thread_block_lem k stat v a =
    let cur = k.running_thread in
    let entered : Kernel =
      record (set_task k cur
        (record (k.task cur) { status = stat; old_status = (intr_disable k.flag).0 })) {
          flag = (intr_disable k.flag).1;
        } in
    let q = v.queue in
    let (quiet, lives) = asleep_not_running stat a in
    let same : line entered ≡ candidates k.thread_ready_list k.idle_thread = ground arith in
    let after : (k' : Kernel)
        → Switched (line entered) k' × Keeps entered k'
        → Switched (line entered) k' × Blocks k k' =
      λ k' p. (p.0, (p.1.0, λ t ne. ground (arith, p.1.1 t ne))) in
    rw (a, ← same)
      (Returns-mono (λ k'. Switched (line entered) k' × Blocks k k')
        (schedule entered >>= λ k'. ok (resume k'))
        (switch entered (record {
          queue = record {
            queued = λ t. ground (
              arith,
              q.queued t,
              asleep_not_ready stat a,
              v.alone t,
              running_not_ready _ (v.alone cur ∙ eq→== cur cur refl),
            );
            unique = q.unique;
            idle_lives = λ d. q.idle_lives (ground (arith, lives));
          };
          others = λ t ne. ground (arith, v.alone t);
          off = (disable-restore k.flag true).0;
        }))
        after)

-- thread_block with a status of a sleeping thread (TASK_BLOCKED, TASK_WAITING or TASK_HANGING) passes its
-- ASSERTs, keeps the invariant, and gives the processor to the first ready thread, or to the idle thread
-- if there is none; the ready threads behind it stay in their order, and the caller is not added.
pub thread_block-IsValid :
    (k : Kernel) (stat : TaskStatus)
    → IsValid k
    → is_asleep stat ≡ true
    → Returns (Switched (candidates k.thread_ready_list k.idle_thread)) (thread_block k stat)
thread_block-IsValid k stat v a =
    Returns-mono _ (thread_block k stat) (thread_block_lem k stat v a) (λ k' p. p.0)

-- thread_unblock of a sleeping thread passes its ASSERTs, keeps the invariant, puts the thread at the
-- front of the queue, and leaves the caller running and the interrupt flag as it was.
pub thread_unblock-IsValid :
    (k : Kernel) (t : ℕ)
    → IsValid k
    → is_asleep (k.task t).status ≡ true
    → Returns
        (λ k'.
          IsValid k'
          × (k'.thread_ready_list ≡ t ∷ k.thread_ready_list)
          × (k'.running_thread ≡ k.running_thread)
          × (k'.flag ≡ k.flag))
        (thread_unblock k t)
thread_unblock-IsValid k t v a =
    Returns-mono _ (thread_unblock k t) (thread_unblock-IsQueued k t v.queue a) λ k' p.
      let awake = (asleep_not_running _ a).0 in
      (
        record { queue = p.0; alone = λ i. ground (arith, p.3 i, v.alone i, p.2, awake) },
        p.1,
        p.2,
        p.4,
      )

pub candidates_append : (l : List ℕ) (x idle : ℕ) → candidates (l ++ x ∷ []) idle ≡ l ++ x ∷ []
candidates_append [] x idle = refl
candidates_append (y ∷ l) x idle = refl

-- The same, with the line written out.
pub switch_along :
    (k : Kernel) (l : List ℕ)
    → line k ≡ l
    → IsEntered k
    → Returns (λ k'. Switched l k' × Keeps k k') (schedule k >>= λ k'. ok (resume k'))
switch_along k l e h =
    subst (λ q. Returns (λ k'. Switched q k' × Keeps k k') (schedule k >>= λ k'. ok (resume k'))) e
      (switch k h)

pub thread_yield_lem :
    (k : Kernel)
    → IsValid k
    → Returns
        (λ k'. Switched (k.thread_ready_list ++ k.running_thread ∷ []) k' × Keeps k k')
        (thread_yield k)
unfolding thread_yield
thread_yield_lem k v =
    let cur = k.running_thread in
    let q = v.queue in
    let busy = running_not_ready _ (v.alone cur ∙ eq→== cur cur refl) in
    let absent : contains cur k.thread_ready_list ≡ false = q.queued cur ∙ busy.0 in
    let entered : Kernel =
      record (set_task k cur
        (record (k.task cur) { status = ready; old_status = (intr_disable k.flag).0 })) {
          thread_ready_list = k.thread_ready_list ++ cur ∷ [];
          flag = (intr_disable k.flag).1;
        } in
    let same : line entered ≡ k.thread_ready_list ++ cur ∷ [] =
      rw (eq→== cur cur refl) (candidates_append k.thread_ready_list cur k.idle_thread) in
    rw absent (
      Returns-mono (λ k'. Switched (k.thread_ready_list ++ cur ∷ []) k' × Keeps k k')
        (schedule entered >>= λ k'. ok (resume k'))
        (switch_along entered _ same (record {
          queue = record {
            queued = λ t. contains-append t k.thread_ready_list cur ∙ ground (arith, q.queued t);
            unique = Unique-append k.thread_ready_list cur q.unique absent;
            idle_lives = λ d. q.idle_lives (ground arith);
          };
          others = λ t ne. ground (arith, v.alone t);
          off = (disable-restore k.flag true).0;
        }))
        (λ k' p. (
          p.0,
          (
            p.1.0,
            λ t ne.
                p.1.1 t ne
                ∙ ground (arith, running_not_asleep _ (v.alone cur ∙ eq→== cur cur refl)),
          ),
        )))

-- thread_yield passes its ASSERTs, keeps the invariant, puts the caller at the end of the queue and
-- gives the processor to the first of it.
pub thread_yield-IsValid :
    (k : Kernel)
    → IsValid k
    → Returns (Switched (k.thread_ready_list ++ k.running_thread ∷ [])) (thread_yield k)
thread_yield-IsValid k v = Returns-mono _ (thread_yield k) (thread_yield_lem k v) (λ k' p. p.0)
