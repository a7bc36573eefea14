-- ===== src/Thread/Timer.antt =====
-- The clock interrupt keeps the scheduler's invariant.
use restore_the_operating_sy.Base.{
  ==→eq, ◌⊎◌, ◌<◌, ◌==◌, ◌-◌, ◌+◌, Bool-cases, inl, inr, if◌then◌else◌, ◌++◌, false, [], ◌≡◌, refl,
  ◌∙◌, true, ◌∷◌, arith, eq→==,
}
use restore_the_operating_sy.Base.Word.{
  Returns-both, Returns-assert, u32, Returns-mono, Returns, ok, ◌>>=◌,
}
use restore_the_operating_sy.Interrupt.{intr_on}
use restore_the_operating_sy.Thread.{
  Task, is_running, intr_timer_handler, Kernel, set_task, schedule, resume,
}
use restore_the_operating_sy.Thread.Queue.{IsValid}
use restore_the_operating_sy.Thread.Steps.{
  Switched, resume-Switched, resume-Keeps, candidates_append, switch_along,
}
use restore_the_operating_sy.Thread.Schedule.{Keeps, line}

pub intr_timer_handler_lem :
    (k : Kernel)
    → IsValid k
    → (k.task k.running_thread).stack_magic ≡ 0x20050102
    → Returns
        (λ k'.
          Switched
            (if (k.task k.running_thread).ticks == 0
              then k.thread_ready_list ++ k.running_thread ∷ []
              else k.running_thread ∷ k.thread_ready_list)
            k'
          × Keeps k k')
        (intr_timer_handler k)
unfolding intr_timer_handler
intr_timer_handler_lem k v magic =
    let cur = k.running_thread in
    let task = k.task cur in
    let q = v.queue in
    let busy : is_running task.status ≡ true = v.alone cur ∙ eq→== cur cur refl in
    let counted : Task = record task {
      elapsed_ticks = u32 (task.elapsed_ticks + 1);
      old_status = intr_on;
    } in
    let entered : Kernel = record k { flag = false; ticks = u32 (k.ticks + 1) } in
    Returns-assert _ (task.stack_magic == 0x20050102) _ (eq→== _ _ magic)
      (elim (Bool-cases (task.ticks == 0)) [
        | inl e ↦
            let at : Kernel = set_task entered cur counted in
            let same : line at ≡ k.thread_ready_list ++ cur ∷ [] =
              rw (eq→== cur cur refl, busy)
                (candidates_append k.thread_ready_list cur k.idle_thread) in
            rw e (
              Returns-mono (λ k'. Switched (k.thread_ready_list ++ cur ∷ []) k' × Keeps k k')
                (schedule at >>= λ k'. ok (resume k'))
                (switch_along at _ same (record {
                  queue = record {
                    queued = λ t. ground (arith, q.queued t);
                    unique = q.unique;
                    idle_lives = λ d. q.idle_lives (ground arith);
                  };
                  others = λ t ne. ground (arith, v.alone t);
                  off = refl;
                }))
                (λ k' p. (p.0, (p.1.0, λ t ne. p.1.1 t ne ∙ ground arith))))
        | inr e ↦ rw e (
            (
              resume-Switched (cur ∷ k.thread_ready_list)
                  (set_task entered cur (record counted { ticks = task.ticks - 1 }))
                  (
                    record {
                      queue = record {
                        queued = λ t. ground (arith, q.queued t);
                        unique = q.unique;
                        idle_lives = λ d. q.idle_lives (ground arith);
                      };
                      alone = λ t. ground (arith, v.alone t);
                    },
                    refl,
                  ),
              resume-Keeps k (set_task entered cur (record counted { ticks = task.ticks - 1 }))
                  (refl, λ t ne. ground arith),
            ))
      ])

-- The thread's ticks are used up, and it goes to the end of the queue, or it goes on with a tick less.
abbrev pub Ticked : Kernel → Kernel → Type 0
Ticked k k' =
    (((k.task k.running_thread).ticks ≡ 0)
      × Switched (k.thread_ready_list ++ k.running_thread ∷ []) k')
    ⊎ ((0 < (k.task k.running_thread).ticks)
        × Switched (k.running_thread ∷ k.thread_ready_list) k'
        × ((k'.task k.running_thread).ticks ≡ (k.task k.running_thread).ticks - 1)
        × ((k'.task k.running_thread).elapsed_ticks
            ≡ u32 ((k.task k.running_thread).elapsed_ticks + 1))
        × (k'.ticks ≡ u32 (k.ticks + 1)))

-- What becomes of the counters while the thread has ticks left.
ticks_left :
    (k : Kernel)
    → (k.task k.running_thread).stack_magic ≡ 0x20050102
    → ((k.task k.running_thread).ticks == 0) ≡ false
    → Returns
        (λ k'.
          ((k'.task k.running_thread).ticks ≡ (k.task k.running_thread).ticks - 1)
          × ((k'.task k.running_thread).elapsed_ticks
              ≡ u32 ((k.task k.running_thread).elapsed_ticks + 1))
          × (k'.ticks ≡ u32 (k.ticks + 1)))
        (intr_timer_handler k)
unfolding intr_timer_handler resume
ticks_left k magic e =
    let cur = k.running_thread in
    rw (eq→== _ _ magic, e) (rw (eq→== cur cur refl) refl, rw (eq→== cur cur refl) refl, refl)

-- The clock interrupt, on a thread whose stack has not run into its PCB, keeps the invariant. While
-- the thread has ticks left it goes on, with one tick less, and its elapsed ticks and those of the
-- clock go up by one, as 32-bit numbers; otherwise the thread goes to the end of the queue and the
-- first of the queue runs.
pub intr_timer_handler-IsValid :
    (k : Kernel)
    → IsValid k
    → (k.task k.running_thread).stack_magic ≡ 0x20050102
    → Returns (Ticked k) (intr_timer_handler k)
intr_timer_handler-IsValid k v magic =
    let handled = intr_timer_handler_lem k v magic in
    elim (Bool-cases ((k.task k.running_thread).ticks == 0)) [
      | inl e ↦
          Returns-mono _ (intr_timer_handler k) (rw e at handled) (λ k' p. inl (==→eq _ _ e, p.0))
      | inr e ↦
          Returns-mono _ (intr_timer_handler k)
            (Returns-both _ _ (intr_timer_handler k) (rw e at handled) (ticks_left k magic e))
            (λ k' p. inr (ground (arith, e), p.0.0, p.1.0, p.1.1, p.1.2))
    ]
