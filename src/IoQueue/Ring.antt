-- ===== src/IoQueue/Ring.antt =====
-- The ring holds the bytes that were put and not yet got, in their order, and at most 63 of them.
use restore_the_operating_sy.Base.Word.{Returns-assert, ◌>>=◌, ok, Returns-bind, Returns}
use restore_the_operating_sy.Base.{
  eq→==, ap, not, length-append, ==→ne, inr, ==→eq, inl, Bool-cases, ne→==, arith, ◌==◌, refl,
  if◌then◌else◌, ◌%◌, false, [], none, true, ◌+◌, ◌≡◌, ◌++◌, ◌<◌, some, length, ◌∷◌, Option, List,
  ℕ,
}
use restore_the_operating_sy.IoQueue.{
  Option, ℕ, IoQueue, Progress, must_wait, done, bufsize, next_pos, ioq_full, ioq_empty, wakeup,
  take_byte, put_byte, ioq_getchar, ioq_putchar,
}
use restore_the_operating_sy.Thread.{Kernel, is_asleep, thread_unblock}
use restore_the_operating_sy.Thread.Queue.{IsValid}
use restore_the_operating_sy.Thread.Steps.{thread_unblock-IsValid}

-- `l` stands in the ring from position `pos` on.
abbrev pub Stored : (ℕ → ℕ) → ℕ → List ℕ → Type 0
Stored buf pos [] = Unit
Stored buf pos (b ∷ l) = (buf pos ≡ b) × Stored buf (next_pos pos) l

-- The abstract view: a sequence shorter than the ring.
pub record Holds (q : IoQueue) (l : List ℕ) : Type 0 where
  pub short : length l < bufsize
  pub tail_in : q.tail < bufsize
  pub head_at : q.head ≡ (q.tail + length l) % bufsize
  pub stored : Stored q.buf q.tail l

-- A thread that is noted as waiting sleeps.
abbrev pub Asleep : Kernel → Option ℕ → Type 0
Asleep k none = Unit
Asleep k (some t) = is_asleep (k.task t).status ≡ true

stored_put :
    (buf : ℕ → ℕ) (pos head byte : ℕ) (l : List ℕ)
    → pos < bufsize
    → length l < bufsize
    → head ≡ (pos + length l) % bufsize
    → Stored buf pos l
    → Stored (λ i. if i == head then byte else buf i) pos (l ++ byte ∷ [])
stored_put buf pos head byte [] p s e h = (ground (arith, e), tt)
stored_put buf pos head byte (b ∷ l) p s e (at, h) =
    let other : (pos == head) ≡ false = ne→== _ _ (λ q. omega (arith, e, q)) in
    (
      rw other at,
      stored_put buf (next_pos pos) head byte l (omega arith) (omega arith) (omega (arith, e)) h,
    )

-- Who was noted as waiting stands at the front of the ready queue now; otherwise it is as it was.
abbrev pub Woken : Kernel → Option ℕ → Kernel → Type 0
Woken k none k' = k'.thread_ready_list ≡ k.thread_ready_list
Woken k (some t) k' = k'.thread_ready_list ≡ t ∷ k.thread_ready_list

-- wakeup leaves no one noted.
pub wakeup_lem :
    (k : Kernel) (waiter : Option ℕ)
    → IsValid k
    → Asleep k waiter
    → Returns
        (λ w.
          (w.0 ≡ none)
          × IsValid w.1
          × (w.1.running_thread ≡ k.running_thread)
          × (w.1.flag ≡ k.flag)
          × Woken k waiter w.1)
        (wakeup k waiter)
unfolding wakeup
wakeup_lem k none v a = (refl, v, refl, refl, refl)
wakeup_lem k (some t) v a =
    Returns-bind _ (thread_unblock k t) _ (thread_unblock-IsValid k t v a)
      λ k' p. (refl, p.0, p.2, p.3, p.1)

-- What the caller of ioq_putchar meets, with the consumer that was noted: a full ring, or the byte
-- behind the others.
abbrev pub Put : Kernel → Option ℕ → List ℕ → ℕ → Progress (Kernel × IoQueue) → Type 0
Put k waiter l byte must_wait = length l ≡ 63
Put k waiter l byte (done (k', q')) =
    (length l < 63)
    × Holds q' (l ++ byte ∷ [])
    × IsValid k'
    × (k'.running_thread ≡ k.running_thread)
    × (k'.flag ≡ k.flag)
    × (q'.consumer ≡ none)
    × Woken k waiter k'

put_byte_lem :
    (k : Kernel) (q : IoQueue) (l : List ℕ) (byte : ℕ)
    → IsValid k
    → Holds q l
    → Asleep k q.consumer
    → length l < 63
    → Returns (λ r. Put k q.consumer l byte (done r)) (put_byte k q byte)
unfolding put_byte
put_byte_lem k q l byte v h a room =
    Returns-bind _ (wakeup k q.consumer) _ (wakeup_lem k q.consumer v a) λ w p.
      let long : length (l ++ byte ∷ []) ≡ length l + 1 = length-append l (byte ∷ []) in
      (
        room,
        record {
          short = omega (arith, long);
          tail_in = h.tail_in;
          head_at = omega (arith, long, h.head_at);
          stored = stored_put q.buf q.tail q.head byte l h.tail_in h.short h.head_at h.stored;
        },
        p.1,
        p.2,
        p.3,
        p.0,
        p.4,
      )

room_or_wait :
    (k : Kernel) (q : IoQueue) (l : List ℕ) (byte : ℕ)
    → IsValid k
    → Holds q l
    → Asleep k q.consumer
    → Returns (Put k q.consumer l byte) (
        if next_pos q.head == q.tail
        then ok must_wait
        else (put_byte k q byte >>= (λ r. ok (done r))))
room_or_wait k q l byte v h a = elim (Bool-cases (next_pos q.head == q.tail)) [
  | inl e ↦ rw e (omega (arith, h.head_at, h.short, ==→eq _ _ e))
  | inr e ↦ rw e (
      Returns-bind (Put k q.consumer l byte) (put_byte k q byte) _
        (put_byte_lem k q l byte v h a (omega (arith, h.head_at, h.tail_in, h.short, ==→ne _ _ e)))
        (λ r p. p))
]

-- With the interrupts off, the thread that is noted as the consumer asleep, and a ring that stands for
-- a sequence, ioq_putchar passes its ASSERTs. It waits if the sequence has 63 bytes; otherwise the
-- byte is put behind it, the consumer that was noted is put at the front of the ready queue and none
-- is noted any more, the scheduler's invariant is kept, the caller still runs and the interrupts are
-- as they were.
pub ioq_putchar-Put :
    (k : Kernel) (q : IoQueue) (l : List ℕ) (byte : ℕ)
    → k.flag ≡ false
    → IsValid k
    → Holds q l
    → Asleep k q.consumer
    → Returns (Put k q.consumer l byte) (ioq_putchar k q byte)
unfolding ioq_putchar ioq_full put_byte
ioq_putchar-Put k q l byte off v h a =
    let quiet : not k.flag ≡ true = ap not off in
    Returns-assert (Put k q.consumer l byte) (not k.flag) _ quiet (
      Returns-bind (Put k q.consumer l byte) (ioq_full k q) _
        (Returns-assert (λ b. b ≡ (next_pos q.head == q.tail)) (not k.flag) _ quiet refl)
        (λ b e. rw e (room_or_wait k q l byte v h a)))

-- What the caller of ioq_getchar meets, with the producer that was noted: an empty ring, or the first
-- byte.
abbrev pub Got : Kernel → Option ℕ → List ℕ → Progress (ℕ × Kernel × IoQueue) → Type 0
Got k waiter l must_wait = l ≡ []
Got k waiter l (done (byte, k', q')) =
    (rest : List ℕ) × (l ≡ byte ∷ rest)
    × Holds q' rest
    × IsValid k'
    × (k'.running_thread ≡ k.running_thread)
    × (k'.flag ≡ k.flag)
    × (q'.producer ≡ none)
    × Woken k waiter k'

byte_or_wait :
    (k : Kernel) (q : IoQueue) (l : List ℕ)
    → IsValid k
    → Holds q l
    → Asleep k q.producer
    → Returns
        (Got k q.producer l)
        (if q.head == q.tail then ok must_wait else (take_byte k q >>= (λ r. ok (done r))))
unfolding take_byte
byte_or_wait k q [] v h a =
    let e : q.head == q.tail ≡ true = eq→== _ _ (omega (arith, h.head_at, h.tail_in)) in rw e refl
byte_or_wait k q (b ∷ l) v h a =
    let e : q.head == q.tail ≡ false =
      ne→== _ _ (λ e. omega (arith, h.head_at, h.tail_in, h.short, e)) in
    rw e (
      Returns-bind (Got k q.producer (b ∷ l)) (take_byte k q) _
        (Returns-bind (λ r. Got k q.producer (b ∷ l) (done r)) (wakeup k q.producer) _
          (wakeup_lem k q.producer v a)
          λ w p. (
            l,
            rw (h.stored.0) refl,
            record {
              short = omega (arith, h.short);
              tail_in = omega arith;
              head_at = omega (arith, h.head_at);
              stored = h.stored.1;
            },
            p.1,
            p.2,
            p.3,
            p.0,
            p.4,
          ))
        (λ r p. p))

-- With the interrupts off, the thread that is noted as the producer asleep, and a ring that stands for
-- a sequence, ioq_getchar passes its ASSERTs. It waits if the sequence is empty; otherwise it gives
-- the first byte and leaves the others, the producer that was noted is put at the front of the ready
-- queue and none is noted any more, the scheduler's invariant is kept, the caller still runs and the
-- interrupts are as they were.
pub ioq_getchar-Got :
    (k : Kernel) (q : IoQueue) (l : List ℕ)
    → k.flag ≡ false
    → IsValid k
    → Holds q l
    → Asleep k q.producer
    → Returns (Got k q.producer l) (ioq_getchar k q)
unfolding ioq_getchar ioq_empty take_byte
ioq_getchar-Got k q l off v h a =
    let quiet : not k.flag ≡ true = ap not off in
    Returns-assert (Got k q.producer l) (not k.flag) _ quiet (
      Returns-bind (Got k q.producer l) (ioq_empty k q) _
        (Returns-assert (λ b. b ≡ (q.head == q.tail)) (not k.flag) _ quiet refl)
        (λ b e. rw e (byte_or_wait k q l v h a)))
