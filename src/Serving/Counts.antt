-- ===== src/Serving/Counts.antt =====
-- How many tasks of the pool are for a descriptor.
use pick_up_the_light_server.Prelude.{
  ℕ, ◌+◌, ◌-◌, ◌≤◌, ◌≡◌, refl, Bool, false, ◌==◌, some, List, [], ◌∷◌, ◌++◌, arith, get_elem?,
}
use pick_up_the_light_server.Epoll.Counts.{times, times-append}
use pick_up_the_light_server.Table.{number_key}
use pick_up_the_light_server.ThreadPool.{
  Worker, absent, ready, waiting, woken, working, worked, exited, wake, Pool, notify_one, add_task,
  serve, resume, destroy, return_task, finish_task, grow, start_threads, stop_threads, manage,
}
use pick_up_the_light_server.ThreadPool.Slots.{weight, count, count-set, count-wake}

abbrev pub holds : ℕ → Worker → Bool
holds fd (working t) = t == fd
holds fd w = false

-- The tasks of a descriptor that are queued or have not returned.
abbrev pub tasks : ℕ → Pool → ℕ
tasks fd p = times fd p.task_q + count (holds fd) p.workers

module _ (fd : ℕ) where
  holds-wake : (w : Worker) → holds fd (wake w) ≡ holds fd w
  holds-wake absent = refl
  holds-wake ready = refl
  holds-wake waiting = refl
  holds-wake woken = refl
  holds-wake (working t) = refl
  holds-wake worked = refl
  holds-wake exited = refl

  -- A thread that has no task, at the test of its inner loop.
  serve-tasks_case :
      (p : Pool) (i : ℕ) (v : Worker) (q : List ℕ)
      → p.task_q ≡ q
      → get_elem? p.workers i ≡ some v
      → holds fd v ≡ false
      → tasks fd (serve p i) ≡ tasks fd p
  unfolding serve
  serve-tasks_case p i v [] e h idle = ground (
    arith,
    e,
    idle,
    count-set (holds fd) p.workers i v exited h,
    count-set (holds fd) p.workers i v waiting h,
  )
  serve-tasks_case p i v (t ∷ rest) e h idle = ground (
    arith,
    e,
    idle,
    count-set (holds fd) p.workers i v exited h,
    count-set (holds fd) p.workers i v (working t) h,
  )

  pub serve-tasks :
      (p : Pool) (i : ℕ) (v : Worker)
      → get_elem? p.workers i ≡ some v
      → holds fd v ≡ false
      → tasks fd (serve p i) ≡ tasks fd p
  serve-tasks p i v h idle = serve-tasks_case p i v p.task_q refl h idle

  pub resume-tasks :
      (p : Pool) (i : ℕ) (v : Worker)
      → get_elem? p.workers i ≡ some v
      → holds fd v ≡ false
      → tasks fd (resume p i) ≡ tasks fd p
  unfolding resume destroy
  resume-tasks p i v h idle =
      let fewer : Pool = record p { destroy_num = p.destroy_num - 1 } in
      ground (
        arith,
        idle,
        serve-tasks p i v h idle,
        serve-tasks fewer i v h idle,
        count-set (holds fd) p.workers i v absent h,
      )

  grow-holds :
      (max_num n live : ℕ) (ws : List Worker)
      → count (holds fd) (grow max_num n live ws).0 ≡ count (holds fd) ws
  unfolding grow
  grow-holds max_num n live [] = refl
  grow-holds max_num n live (absent ∷ ws) =
      ground (arith, grow-holds max_num (n + 1) (live + 1) ws, grow-holds max_num n live ws)
  grow-holds max_num n live (w ∷ ws) =
      ground (arith, grow-holds max_num (n + 1) (live + 1) ws, grow-holds max_num n live ws)

  pub manage-tasks : (p : Pool) → tasks fd (manage p) ≡ tasks fd p
  unfolding manage start_threads stop_threads
  manage-tasks p = ground (
    arith,
    grow-holds p.max_num 0 p.live_num p.workers,
    count-wake (holds fd) holds-wake p.workers,
    count-wake (holds fd) holds-wake (grow p.max_num 0 p.live_num p.workers).0,
  )

  notify_one-tasks : (p : Pool) (i : ℕ) → tasks fd (notify_one p i) ≡ tasks fd p
  unfolding notify_one
  notify_one-tasks p i = ground (arith, count-set (holds fd) p.workers i waiting woken)

  pub add_task-tasks :
      (p : Pool) (t i : ℕ) → tasks fd (add_task p t i) ≤ tasks fd p + weight (t == fd)
  unfolding add_task
  add_task-tasks p t i =
      let more : Pool = record p { task_q = p.task_q ++ t ∷ [] } in
      ground (arith, notify_one-tasks more i, times-append fd p.task_q (t ∷ []))

  pub add_task-tasks_open :
      (p : Pool) (t i : ℕ)
      → p.shutdown ≡ false
      → tasks fd (add_task p t i) ≡ tasks fd p + weight (t == fd)
  unfolding add_task
  add_task-tasks_open p t i h =
      let more : Pool = record p { task_q = p.task_q ++ t ∷ [] } in
      ground (arith, h, notify_one-tasks more i, times-append fd p.task_q (t ∷ []))

  pub return_task-tasks :
      (p : Pool) (i t : ℕ)
      → get_elem? p.workers i ≡ some (working t)
      → tasks fd (return_task p i) + weight (t == fd) ≡ tasks fd p
  unfolding return_task
  return_task-tasks p i t h = ground (arith, count-set (holds fd) p.workers i (working t) worked h)

  pub finish_task-tasks :
      (p : Pool) (i : ℕ)
      → get_elem? p.workers i ≡ some worked
      → tasks fd (finish_task p i) ≡ tasks fd p
  unfolding finish_task
  finish_task-tasks p i h = ground (arith, count-set (holds fd) p.workers i worked ready h)
