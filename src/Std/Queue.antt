-- ===== src/Std/Queue.antt =====
-- The task queue of core/std/thread.c. A task is the number of its node; 0 is a null pointer.
pub mod Lost
mod Tests
use bin_tools.Base.{
  ℕ, zero, suc, ◌+◌, ◌-◌, List, [], ◌∷◌, Option, none, some, ◌==◌, if◌then◌else◌, update,
}

pub record Queue : Type 0 where
  pub front : ℕ
  pub rear : ℕ
  pub len : ℕ
  pub prev : ℕ → ℕ

-- The node `t` of a task, in a pool that has been made.
unfoldable pub enqueue : Queue → ℕ → Queue
enqueue q t =
    if q.rear == 0
    then record { front = t; rear = t; len = q.len + 1; prev = q.prev }
    else record { front = q.front; rear = t; len = q.len + 1; prev = update q.prev t q.rear }

unfoldable pub dequeue : Queue → ℕ × Queue
dequeue q =
    if q.len == 0
    then (0, q)
    else (q.front, record { front = 0; rear = q.rear; len = q.len - 1; prev = q.prev })

-- What the threads of the pool do to the queue, one after the other.
pub data Call : Type 0 where
  put_task : ℕ → Call
  idle_round : Call

-- The tasks that are run: `if (t) t->work(t->argc, t->args)`.
unfoldable pub run_calls : Queue → List Call → List ℕ
run_calls q [] = []
run_calls q (put_task t ∷ calls) = run_calls (enqueue q t) calls
run_calls q (idle_round ∷ calls) =
    let (t, q') = dequeue q in let rest = run_calls q' calls in if t == 0 then rest else t ∷ rest

-- `init_thread_pool`: a pool from zeroed memory.
abbrev pub init_thread_pool : Queue
init_thread_pool = record { front = 0; rear = 0; len = 0; prev = λ t. 0 }
