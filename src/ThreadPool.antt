-- ===== src/ThreadPool.antt =====
-- threadpool.h and threadpool.cpp: a task queue, worker threads that serve it and a manager thread
-- that changes their number. Every access is made under the pool's mutex, so what a thread does
-- while it holds the mutex is one step; which thread is next is left open (`ThreadPool.Steps`).
pub mod Slots
pub mod Grow
pub mod Steps
pub mod Consistent
pub mod Manage
pub mod Invariant
pub mod Queue
pub mod Joins
mod Tests
use pick_up_the_light_server.Prelude.{
  ℕ, zero, suc, ◌+◌, ◌-◌, ◌*◌, Bool, true, false, not, ◌&&◌, Option, none, some, List, [], ◌∷◌,
  ◌++◌, map, ltb, length, replicate, set, get_elem?, if◌then◌else◌,
}
use pick_up_the_light_server.Outcome.{Outcome, ok, undefined}
use pick_up_the_light_server.Protocol.{change_thread_number, min_thread_number}

-- A task is known by a number.
abbrev pub Task : Type 0
Task = ℕ

-- A slot of `worker_threads`: no thread (an id equal to `thread::id()`), or a thread at one of the
-- points where it holds no lock.
pub data Worker : Type 0 where
  absent : Worker
  ready : Worker  -- before it takes the lock at the head of its loop
  waiting : Worker  -- asleep in `poll_cond.wait`
  woken : Worker  -- notified, before it has the lock again
  working : Task → Worker
  worked : Worker  -- its task is through, before the thread takes the lock to count that
  exited : Worker  -- returned because of `shutdown`

pub record Pool : Type 0 where
  pub task_q : List Task
  pub workers : List Worker
  pub min_num : ℕ
  pub max_num : ℕ
  pub live_num : ℕ
  pub busy_num : ℕ
  pub destroy_num : ℕ
  pub shutdown : Bool

-- The constructor, on a machine with `cores` cores. It writes `min_num` slots of a vector of
-- `cores` slots, without a test of the index.
unfoldable pub new_pool : ℕ → Outcome Pool
new_pool cores =
    if ltb cores min_thread_number
    then undefined
    else ok (record {
      task_q = [];
      workers = replicate min_thread_number ready ++ replicate (cores - min_thread_number) absent;
      min_num = min_thread_number;
      max_num = cores;
      live_num = min_thread_number;
      busy_num = 0;
      destroy_num = 0;
      shutdown = false;
    })

abbrev pub put_worker : Pool → ℕ → Worker → Pool
put_worker p i w = record p { workers = set p.workers i w }

abbrev pub wake : Worker → Worker
wake waiting = woken
wake w = w

-- `notify_all`
abbrev pub notify_all : Pool → Pool
notify_all p = record p { workers = map wake p.workers }

-- `notify_one`: the thread that it wakes, if one waits, is the choice of the system.
unfoldable pub notify_one : Pool → ℕ → Pool
notify_one p i = elim (get_elem? p.workers i) [ some waiting ↦ put_worker p i woken | _ ↦ p ]

-- `add_task(Task&)`
unfoldable pub add_task : Pool → Task → ℕ → Pool
unfolding notify_one
add_task p t i = if p.shutdown then p else notify_one (record p { task_q = p.task_q ++ t ∷ [] }) i

-- The overload that binds a function to its arguments, which wakes every sleeper.
unfoldable pub add_task_bound : Pool → Task → Pool
add_task_bound p t = if p.shutdown then p else notify_all (record p { task_q = p.task_q ++ t ∷ [] })

unfoldable pub get_live_num : Pool → ℕ
get_live_num p = p.live_num

unfoldable pub get_busy_num : Pool → ℕ
get_busy_num p = p.busy_num

-- The destructor until it waits for the manager; afterwards it makes `notify_all`.
unfoldable pub shut_down : Pool → Pool
shut_down p = record p { shutdown = true; destroy_num = 0 }

-- `worker_execute` from the test of its inner loop, with the lock held: the thread goes to sleep,
-- exits, or takes the first task.
unfoldable pub serve : Pool → ℕ → Pool
serve p i = elim p.task_q [
  | [] ↦ if p.shutdown then put_worker p i exited else put_worker p i waiting
  | t ∷ rest ↦
      if p.shutdown
      then put_worker p i exited
      else put_worker (record p { task_q = rest; busy_num = p.busy_num + 1 }) i (working t)
]

-- A thread that has one thread less to destroy: it dies where enough live, and otherwise goes on to
-- the test. `detach_cur_thread` empties its slot.
unfoldable pub destroy : Pool → ℕ → Pool
unfolding serve
destroy q i =
    if ltb q.min_num q.live_num
    then put_worker (record q { live_num = q.live_num - 1 }) i absent
    else serve q i

-- A thread that has been notified.
unfoldable pub resume : Pool → ℕ → Pool
unfolding serve destroy
resume p i =
    if ltb 0 p.destroy_num
    then destroy (record p { destroy_num = p.destroy_num - 1 }) i
    else serve p i

-- The last that the call `task()` does, and its return.
unfoldable pub return_task : Pool → ℕ → Pool
return_task p i = put_worker p i worked

-- What a thread does under the lock once its task has returned.
unfoldable pub finish_task : Pool → ℕ → Pool
finish_task p i = put_worker (record p { busy_num = p.busy_num - 1 }) i ready

-- The loop that starts threads in empty slots, over the slots that are left: the slots after it,
-- and the number of live threads. `count` threads have been started.
abbrev pub is_empty : Worker → Bool
is_empty absent = true
is_empty w = false

unfoldable pub grow : ℕ → ℕ → ℕ → List Worker → List Worker × ℕ
grow max_num count live [] = ([], live)
grow max_num count live (w ∷ ws) =
    let after = grow max_num (count + 1) (live + 1) ws in
    let same = grow max_num count live ws in
    if ltb count change_thread_number && ltb live max_num
    then (if is_empty w then (ready ∷ after.0, after.1) else (w ∷ same.0, same.1))
    else (w ∷ ws, live)

-- The first half of a round of `manager_execute`.
unfoldable pub start_threads : Pool → Pool
unfolding grow
start_threads p =
    let grown = grow p.max_num 0 p.live_num p.workers in
    if ltb p.live_num (length p.task_q) && ltb p.live_num p.max_num
    then record p { workers = grown.0; live_num = grown.1 }
    else p

-- The second half.
unfoldable pub stop_threads : Pool → Pool
stop_threads p =
    if ltb (p.busy_num * 2) p.live_num && ltb p.min_num p.live_num
    then notify_all (record p { destroy_num = change_thread_number })
    else p

-- One round of `manager_execute`, which does nothing more once the pool is shut down.
unfoldable pub manage : Pool → Pool
unfolding start_threads stop_threads
manage p = if p.shutdown then p else stop_threads (start_threads p)
