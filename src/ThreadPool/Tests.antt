-- ===== src/ThreadPool/Tests.antt =====
-- Runs of the thread pool, and its theorems at concrete data.
use pick_up_the_light_server.Prelude.{◌≡◌, refl, true, false, [], ◌∷◌, ◌++◌, arith, set}
use pick_up_the_light_server.Outcome.{ok, undefined}
use pick_up_the_light_server.ThreadPool.{
  absent, ready, waiting, working, worked, exited, Pool, notify_all, shut_down, new_pool, add_task,
  serve, resume, return_task, finish_task, start_threads, notify_one,
}
use pick_up_the_light_server.ThreadPool.Slots.{count, is_present}
use pick_up_the_light_server.ThreadPool.Steps.{
  Step, begins, resumes, returns, finishes, adds, Run, idle, then_step,
}
use pick_up_the_light_server.ThreadPool.Consistent.{IsConsistent}
use pick_up_the_light_server.ThreadPool.Invariant.{new_reached-IsConsistent}
use pick_up_the_light_server.ThreadPool.Manage.{start_threads-live_num}
use pick_up_the_light_server.ThreadPool.Queue.{queue_order}
use pick_up_the_light_server.ThreadPool.Joins.Ends.{Joining, shut_down-Joining}

abbrev fresh : Pool
fresh = record {
  task_q = [];
  workers = ready ∷ ready ∷ ready ∷ absent ∷ absent ∷ absent ∷ [];
  min_num = 3;
  max_num = 6;
  live_num = 3;
  busy_num = 0;
  destroy_num = 0;
  shutdown = false;
}

new_pool_six : new_pool 6 ≡ ok fresh
unfolding new_pool
new_pool_six = refl

-- On a machine with two cores the constructor writes past the end of its vector.
new_pool_two : new_pool 2 ≡ undefined
unfolding new_pool
new_pool_two = refl

-- The task 7 is added, the first thread starts it, and is through with it.
abbrev added : Pool
added = record fresh { task_q = 7 ∷ [] }

abbrev started : Pool
started = record fresh { workers = set fresh.workers 0 (working 7); busy_num = 1 }

-- The call of the task has returned.
abbrev returned : Pool
returned = record fresh { workers = set fresh.workers 0 worked; busy_num = 1 }

one_task : Run fresh (7 ∷ []) (7 ∷ []) fresh
unfolding add_task notify_one serve return_task finish_task
one_task =
    let first : Step fresh (7 ∷ []) [] added = adds 7 0 in
    let second : Step added [] (7 ∷ []) started = begins 0 refl in
    let third : Step started [] [] returned = returns 0 7 refl in
    let fourth : Step returned [] [] fresh = finishes 0 refl in
    then_step (then_step (then_step (then_step idle first) second) third) fourth

new_reached-IsConsistent_example : IsConsistent fresh
new_reached-IsConsistent_example =
    new_reached-IsConsistent 6 fresh fresh (7 ∷ []) (7 ∷ []) new_pool_six one_task

queue_order_example : fresh.task_q ++ 7 ∷ [] ≡ (7 ∷ []) ++ fresh.task_q
queue_order_example = queue_order fresh fresh (7 ∷ []) (7 ∷ []) one_task

-- Six tasks for four threads that are all at work.
abbrev crowded : Pool
crowded = record {
  task_q = 5 ∷ 6 ∷ 7 ∷ 8 ∷ 9 ∷ 10 ∷ [];
  workers = working 1 ∷ working 2 ∷ working 3 ∷ absent ∷ working 4 ∷ absent ∷ absent ∷ [];
  min_num = 3;
  max_num = 7;
  live_num = 4;
  busy_num = 4;
  destroy_num = 0;
  shutdown = false;
}

crowded-IsConsistent : IsConsistent crowded
crowded-IsConsistent = record {
  slots = refl;
  live = refl;
  busy = refl;
  enough = omega arith;
  few_go = omega arith;
}

start_threads-live_num_example :
    ((start_threads crowded).live_num ≡ 6)
    × (count is_present (start_threads crowded).workers ≡ (start_threads crowded).live_num)
start_threads-live_num_example = start_threads-live_num crowded crowded-IsConsistent (omega arith)

-- The pool is closed while a thread sleeps and one is at work; the sleeper is notified and returns.
abbrev sleepy : Pool
sleepy = record {
  task_q = 8 ∷ [];
  workers = waiting ∷ working 7 ∷ absent ∷ [];
  min_num = 2;
  max_num = 3;
  live_num = 2;
  busy_num = 1;
  destroy_num = 1;
  shutdown = false;
}

abbrev closed_pool : Pool
closed_pool = record sleepy { shutdown = true; destroy_num = 0 }

abbrev one_returned : Pool
one_returned = record closed_pool { workers = exited ∷ working 7 ∷ absent ∷ [] }

sleeper_returns : Run (notify_all closed_pool) [] [] one_returned
unfolding resume serve
sleeper_returns = then_step idle (resumes 0 refl)

shut_down-Joining_example : Joining closed_pool 1 [] one_returned
unfolding shut_down resume serve sleeper_returns
shut_down-Joining_example =
    shut_down-Joining sleepy closed_pool one_returned [] [] [] [] idle sleeper_returns
