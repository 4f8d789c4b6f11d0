-- ===== src/Std/Queue/Lost.antt =====
-- Which of the queued tasks are run.
use bin_tools.Base.{
  ℕ, ◌+◌, ◌-◌, ◌<◌, Bool, true, false, List, [], ◌∷◌, ◌==◌, Bool-cases, if◌then◌else◌, ◌≡◌, refl,
  arith, inl, inr,
}
use bin_tools.Std.Queue.{
  Queue, Call, put_task, idle_round, enqueue, dequeue, run_calls, init_thread_pool,
}

-- The nodes that are queued are no null pointers.
abbrev pub AreNodes : List Call → Type 0
AreNodes [] = Unit
AreNodes (put_task t ∷ calls) = (0 < t) × AreNodes calls
AreNodes (idle_round ∷ calls) = AreNodes calls

-- A queue that has a last node and no first one runs nothing any more.
drained :
    (calls : List Call) (q : Queue)
    → AreNodes calls
    → 0 < q.rear
    → q.front ≡ 0
    → run_calls q calls ≡ []
unfolding run_calls enqueue dequeue
drained [] q nodes r f = refl
drained (put_task t ∷ calls) q nodes r f =
    let some_rear : (q.rear == 0) ≡ false = ground arith in
    rw some_rear (
      drained calls (record { front = q.front; rear = t; len = q.len + 1; prev = _ }) nodes.1
        nodes.0 f)
drained (idle_round ∷ calls) q nodes r f = elim (Bool-cases (q.len == 0)) [
  | inl e ↦ rw e (drained calls q nodes r f)
  | inr e ↦
      let no_front : (q.front == 0) ≡ true = ground arith in
      rw (e, no_front)
        (drained calls (record { front = 0; rear = q.rear; len = q.len - 1; prev = q.prev }) nodes r
          refl)
]

abbrev pub has_round : List Call → Bool
has_round [] = false
has_round (put_task t ∷ calls) = has_round calls
has_round (idle_round ∷ calls) = true

-- The first task that is put, when a thread comes round after it.
abbrev pub served : List Call → List ℕ
served [] = []
served (put_task t ∷ calls) = if has_round calls then t ∷ [] else []
served (idle_round ∷ calls) = served calls

waiting :
    (calls : List Call) (q : Queue)
    → AreNodes calls
    → 0 < q.rear
    → 0 < q.front
    → 0 < q.len
    → run_calls q calls ≡ (if has_round calls then q.front ∷ [] else [])
unfolding run_calls enqueue dequeue
waiting [] q nodes r f l = refl
waiting (put_task t ∷ calls) q nodes r f l =
    let some_rear : (q.rear == 0) ≡ false = ground arith in
    rw some_rear (
      waiting calls (record { front = q.front; rear = t; len = q.len + 1; prev = _ }) nodes.1
        nodes.0 f (omega arith))
waiting (idle_round ∷ calls) q nodes r f l =
    let some_len : (q.len == 0) ≡ false = ground arith in
    let some_front : (q.front == 0) ≡ false = ground arith in
    let rest =
      drained calls (record { front = 0; rear = q.rear; len = q.len - 1; prev = q.prev }) nodes r
        refl in
    rw (some_len, some_front) (rw rest refl)

-- Whatever the order in which tasks are put and threads come round, the pool runs at most one task:
-- the first that is put, when a thread comes round after it. All later tasks are lost.
pub run_calls-served :
    (calls : List Call) → AreNodes calls → run_calls init_thread_pool calls ≡ served calls
unfolding run_calls enqueue dequeue
run_calls-served [] nodes = refl
run_calls-served (put_task t ∷ calls) nodes =
    waiting calls (record { front = t; rear = t; len = 1; prev = λ t. 0 }) nodes.1 nodes.0 nodes.0
      (omega arith)
run_calls-served (idle_round ∷ calls) nodes = run_calls-served calls nodes
