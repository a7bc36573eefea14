-- ===== src/Thread/Queue.antt =====
-- The invariant of the scheduler, and the queue's membership test.
use restore_the_operating_sy.Base.{ℕ, ◌≡◌, ◌≢◌, refl, false, ◌||◌, List, [], ◌∷◌, ◌++◌, ◌==◌, arith}
use restore_the_operating_sy.Thread.{Kernel, is_running, is_ready, contains, died}

abbrev pub Unique : List ℕ → Type 0
Unique [] = Unit
Unique (x ∷ xs) = (contains x xs ≡ false) × Unique xs

pub contains-append :
    (t : ℕ) (xs : List ℕ) (y : ℕ) → contains t (xs ++ y ∷ []) ≡ (contains t xs || (y == t))
contains-append t [] y = ground arith
contains-append t (x ∷ xs) y = ground (arith, contains-append t xs y)

pub Unique-append :
    (xs : List ℕ) (y : ℕ) → Unique xs → contains y xs ≡ false → Unique (xs ++ y ∷ [])
Unique-append [] y u c = (refl, tt)
Unique-append (x ∷ xs) y u c =
    (ground (arith, contains-append x xs y), Unique-append xs y u.1 (ground arith))

-- The queue and the statuses agree, and the idle thread has not ended.
pub record IsQueued (k : Kernel) : Type 0 where
  pub queued : (t : ℕ) → contains t k.thread_ready_list ≡ is_ready (k.task t).status
  pub unique : Unique k.thread_ready_list
  pub idle_lives : (k.task k.idle_thread).status ≢ died

-- Between the operations: every ready thread is in the queue, once, and no other; the current thread
-- is the only running one.
pub record IsValid (k : Kernel) : Type 0 where
  pub queue : IsQueued k
  pub alone : (t : ℕ) → is_running (k.task t).status ≡ (t == k.running_thread)

-- On the way into schedule: no thread but the current one is running, and the interrupts are off.
pub record IsEntered (k : Kernel) : Type 0 where
  pub queue : IsQueued k
  pub others : (t : ℕ) → t ≢ k.running_thread → is_running (k.task t).status ≡ false
  pub off : k.flag ≡ false
