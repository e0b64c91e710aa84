-- ===== src/ThreadPool/Steps.antt =====
-- The pool in operation: what the threads of threadpool.cpp do while they hold the mutex, in any
-- order, with the tasks that each step adds to the queue and those that it hands to a thread.
use pick_up_the_light_server.Prelude.{
  ℕ, ◌≡◌, Option, some, List, [], ◌∷◌, ◌++◌, get_elem?, if◌then◌else◌,
}
use pick_up_the_light_server.ThreadPool.{
  Task, Worker, ready, waiting, woken, working, worked, Pool, notify_all, add_task, add_task_bound,
  shut_down, serve, resume, return_task, finish_task, manage,
}

-- The task that the thread in slot `i` has.
abbrev pub at_work : Option Worker → List Task
at_work (some (working t)) = t ∷ []
at_work _ = []

abbrev pub task_of : Pool → ℕ → List Task
task_of p i = at_work (get_elem? p.workers i)

abbrev pub accepted : Pool → Task → List Task
accepted p t = if p.shutdown then [] else t ∷ []

-- `Step p added started q`
pub data Step (p : Pool) : List Task → List Task → Pool → Type 0 where
  begins :
      (i : ℕ) → get_elem? p.workers i ≡ some ready → Step p [] (task_of (serve p i) i) (serve p i)
  resumes :
      (i : ℕ) → get_elem? p.workers i ≡ some woken → Step p [] (task_of (resume p i) i) (resume p i)
  -- A condition variable may wake up a thread that nobody notified.
  wakes_up :
      (i : ℕ)
      → get_elem? p.workers i ≡ some waiting
      → Step p [] (task_of (resume p i) i) (resume p i)
  returns :
      (i : ℕ) (t : Task) → get_elem? p.workers i ≡ some (working t) → Step p [] [] (return_task p i)
  finishes : (i : ℕ) → get_elem? p.workers i ≡ some worked → Step p [] [] (finish_task p i)
  adds : (t : Task) (i : ℕ) → Step p (accepted p t) [] (add_task p t i)
  adds_bound : (t : Task) → Step p (accepted p t) [] (add_task_bound p t)
  manages : Step p [] [] (manage p)
  shuts_down : Step p [] [] (shut_down p)
  notifies : Step p [] [] (notify_all p)

-- A run, with all that was added and all that was started, in order.
pub data Run (p : Pool) : List Task → List Task → Pool → Type 0 where
  idle : Run p [] [] p
  then_step :
      {added started added' started' : List Task} {q r : Pool}
      → Run p added started q
      → Step q added' started' r
      → Run p (added ++ added') (started ++ started') r
