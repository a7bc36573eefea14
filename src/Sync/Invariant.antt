-- ===== src/Sync/Invariant.antt =====
-- What holds of a lock and its threads between any two steps, and of whoever does not touch the lock.
use restore_the_operating_sy.Base.{
  refl, inr, ◌∙◌, inl, Bool-cases, subst, ℕ, ◌^◌, ◌<◌, ◌≡◌, ◌≢◌, ◌⊎◌, Bool, true, false, ◌&&◌, none,
  [], ◌==◌, arith,
}
use restore_the_operating_sy.Thread.{Kernel, is_asleep, contains}
use restore_the_operating_sy.Thread.Queue.{Unique, IsValid}
use restore_the_operating_sy.Sync.{System, Phase, outside, waiting, passed, inside, leaving, holds}
use restore_the_operating_sy.Sync.Steps.{is_waiting, set_kernel}

-- Between the end of sema_down and sema_up.
abbrev pub owns : Phase → Bool
owns outside = false
owns (waiting old) = false
owns passed = true
owns inside = true
owns leaving = true

abbrev pub is_inside : Phase → Bool
is_inside inside = true
is_inside outside = false
is_inside (waiting old) = false
is_inside passed = false
is_inside leaving = false

pub owner_or_not : (p : Phase) → owns p ≡ false → is_inside p ≡ false
owner_or_not outside o = refl
owner_or_not (waiting old) o = refl
owner_or_not passed o = refl
owner_or_not inside o = o
owner_or_not leaving o = refl

-- A thread that is in the loop of sema_down and not asleep, so that it will test the value again.
abbrev pub Retrier : System → Type 0
Retrier s = (t : ℕ) × (is_waiting (s.phase t) ≡ true) × (is_asleep (s.kernel.task t).status ≡ false)

pub record IsSafe (s : System) : Type 0 where
  pub valid : IsValid s.kernel
  pub idle : s.phase s.kernel.idle_thread ≡ outside
  pub distinct : Unique s.lock.waiters
  pub queued :
      (t : ℕ)
      → contains t s.lock.waiters ≡ (is_waiting (s.phase t) && is_asleep (s.kernel.task t).status)
  pub free : s.lock.value ≢ 0 → (s.lock.value ≡ 1) × ((t : ℕ) → owns (s.phase t) ≡ false)
  pub taken : s.lock.value ≡ 0 → (o : ℕ) × ((t : ℕ) → owns (s.phase t) ≡ (t == o))
  pub holder : (t : ℕ) → holds s.lock.holder t ≡ is_inside (s.phase t)
  pub nested : s.lock.holder_repeat_nr < 2 ^ 32
  pub held : (t : ℕ) → is_inside (s.phase t) ≡ true → 0 < s.lock.holder_repeat_nr
  pub unheld : s.lock.holder ≡ none → s.lock.holder_repeat_nr ≡ 0
  pub retried : s.lock.value ≢ 0 → (s.lock.waiters ≡ []) ⊎ Retrier s

-- A waiter is not the idle thread.
pub waiting_not_idle :
    (s : System) → IsSafe s → (t : ℕ) → is_waiting (s.phase t) ≡ true → t ≢ s.kernel.idle_thread
waiting_not_idle s h t w e =
    let at : is_waiting (s.phase s.kernel.idle_thread) ≡ true =
      subst (λ i. is_waiting (s.phase i) ≡ true) e w in
    ground (arith, h.idle)

-- Whatever the scheduler does that neither puts a waiter to sleep nor wakes one leaves all this true.
pub set_kernel-IsSafe :
    (s : System) (k : Kernel)
    → IsSafe s
    → IsValid k
    → k.idle_thread ≡ s.kernel.idle_thread
    → ((t : ℕ)
        → is_waiting (s.phase t) ≡ true
        → t ≢ s.kernel.idle_thread
        → is_asleep (k.task t).status ≡ is_asleep (s.kernel.task t).status)
    → IsSafe (set_kernel s k)
set_kernel-IsSafe s k h v e same =
    let kept : (t : ℕ)
        → is_waiting (s.phase t) ≡ true
        → is_asleep (k.task t).status ≡ is_asleep (s.kernel.task t).status =
      λ t w. same t w (waiting_not_idle s h t w) in
    record {
      valid = v;
      idle = rw e h.idle;
      distinct = h.distinct;
      queued = λ t. elim (Bool-cases (is_waiting (s.phase t))) [
        | inl w ↦ h.queued t ∙ rw (kept t w)
        | inr w ↦ h.queued t ∙ rw w
      ];
      free = h.free;
      taken = h.taken;
      holder = h.holder;
      nested = h.nested;
      held = h.held;
      unheld = h.unheld;
      retried = λ n. elim (h.retried n) [
        | inl none_left ↦ inl none_left
        | inr (t, w, a) ↦ inr (t, w, kept t w ∙ a)
      ];
    }
