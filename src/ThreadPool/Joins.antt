-- ===== src/ThreadPool/Joins.antt =====
-- The destructor of the pool: from `shutdown` on, until it has joined its threads.
pub mod Closing
pub mod Ends
use pick_up_the_light_server.Prelude.{
  ℕ, zero, suc, ◌+◌, ◌-◌, ◌<◌, ◌≡◌, refl, ◌⊎◌, inl, inr, Bool, true, false, some, List, [], ◌∷◌,
  ◌++◌, map, arith, ap, ◌∙◌, set, get_elem?, get_elem?-set_self, get_elem?-lt,
}
use pick_up_the_light_server.ThreadPool.{
  Task, Worker, absent, ready, waiting, woken, working, worked, exited, Pool, notify_all, wake,
  add_task, add_task_bound, shut_down, serve, resume, destroy, finish_task, manage,
}
use pick_up_the_light_server.ThreadPool.Slots.{count, count-set, weight}
use pick_up_the_light_server.ThreadPool.Steps.{
  Step, begins, resumes, wakes_up, returns, finishes, adds, adds_bound, manages, shuts_down,
  notifies, Run, idle, then_step, task_of, accepted,
}

-- How many steps a thread of a closed pool makes before it has returned.
abbrev pub steps_of : Worker → ℕ
steps_of absent = 0
steps_of ready = 1
steps_of waiting = 1
steps_of woken = 1
steps_of (working t) = 3
steps_of worked = 2
steps_of exited = 0

abbrev pub steps_left : List Worker → ℕ
steps_left [] = 0
steps_left (w ∷ ws) = steps_of w + steps_left ws

abbrev pub is_running : Worker → Bool
is_running absent = false
is_running exited = false
is_running w = true

abbrev pub is_asleep : Worker → Bool
is_asleep waiting = true
is_asleep w = false

-- Whether a thread of the pool has made the step.
abbrev pub turn : {p q : Pool} {added started : List Task} → Step p added started q → ℕ
turn (begins i h) = 1
turn (resumes i h) = 1
turn (wakes_up i h) = 1
turn (returns i t h) = 1
turn (finishes i h) = 1
turn (adds t i) = 0
turn (adds_bound t) = 0
turn manages = 0
turn shuts_down = 0
turn notifies = 0

abbrev pub turns : {p q : Pool} {added started : List Task} → Run p added started q → ℕ
turns idle = 0
turns (then_step run step) = turns run + turn step

-- A thread can make a step that nobody has to start.
abbrev pub CanMove : Pool → Type 0
CanMove p = (started : List Task) × (q : Pool) × (s : Step p [] started q) × (turn s ≡ 1)

-- The pool is closed, and no thread sleeps.
pub record IsClosing (p : Pool) : Type 0 where
  pub closed : p.shutdown ≡ true
  pub awake : count is_asleep p.workers ≡ 0

pub steps_left-set :
    (ws : List Worker) (i : ℕ) (v w : Worker)
    → get_elem? ws i ≡ some v
    → steps_left (set ws i w) + steps_of v ≡ steps_left ws + steps_of w
steps_left-set [] i v w h = ground arith
steps_left-set (x ∷ xs) zero v w h = ground arith
steps_left-set (x ∷ xs) (suc i) v w h = ground (arith, steps_left-set xs i v w h)

wake-steps_of : (w : Worker) → steps_of (wake w) ≡ steps_of w
wake-steps_of absent = refl
wake-steps_of ready = refl
wake-steps_of waiting = refl
wake-steps_of woken = refl
wake-steps_of (working t) = refl
wake-steps_of worked = refl
wake-steps_of exited = refl

wake-is_asleep : (w : Worker) → is_asleep (wake w) ≡ false
wake-is_asleep absent = refl
wake-is_asleep ready = refl
wake-is_asleep waiting = refl
wake-is_asleep woken = refl
wake-is_asleep (working t) = refl
wake-is_asleep worked = refl
wake-is_asleep exited = refl

pub steps_left-wake : (ws : List Worker) → steps_left (map wake ws) ≡ steps_left ws
steps_left-wake [] = refl
steps_left-wake (w ∷ ws) = ground (arith, wake-steps_of w, steps_left-wake ws)

pub count-wake_asleep : (ws : List Worker) → count is_asleep (map wake ws) ≡ 0
count-wake_asleep [] = refl
count-wake_asleep (w ∷ ws) = ground (arith, wake-is_asleep w, count-wake_asleep ws)

-- What a step of a closed pool does: `n` of the steps that are left are made.
pub record Closes (p : Pool) (n : ℕ) (started : List Task) (q : Pool) : Type 0 where
  pub counted : n + steps_left q.workers ≡ steps_left p.workers
  pub none_started : started ≡ []
  pub queued : q.task_q ≡ p.task_q
  pub closing : IsClosing q
