-- ===== src/Std/Queue/Tests.antt =====
-- A pool that is given two tasks.
use bin_tools.Base.{List, [], ◌∷◌, ◌≡◌, refl, arith}
use bin_tools.Std.Queue.Lost.{AreNodes, served, run_calls-served}
use bin_tools.Std.Queue.{Call, put_task, idle_round, enqueue, dequeue, run_calls, init_thread_pool}

abbrev two_tasks : List Call
two_tasks =
    idle_round ∷ put_task 16 ∷ put_task 48 ∷ idle_round ∷ idle_round ∷ put_task 80 ∷ idle_round ∷ []

two_tasks-AreNodes : AreNodes two_tasks
two_tasks-AreNodes = (omega arith, (omega arith, (omega arith, tt)))

run_calls-served_example : run_calls init_thread_pool two_tasks ≡ served two_tasks
run_calls-served_example = run_calls-served two_tasks two_tasks-AreNodes

only_the_first : run_calls init_thread_pool two_tasks ≡ 16 ∷ []
unfolding run_calls enqueue dequeue
only_the_first = refl
