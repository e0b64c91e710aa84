-- ===== src/ThreadPool/Joins/Closing.antt =====
-- The steps of a pool that is closed.
use pick_up_the_light_server.Prelude.{
  ℕ, suc, ◌-◌, ◌≡◌, refl, Bool, true, false, some, List, [], ◌∷◌, arith, ltb, ap, ◌∙◌, set,
  get_elem?, get_elem?-set_self, get_elem?-lt, if◌then◌else◌,
}
use pick_up_the_light_server.ThreadPool.{
  Task, Worker, absent, ready, waiting, woken, working, worked, exited, Pool, notify_all, add_task,
  add_task_bound, shut_down, serve, resume, destroy, return_task, finish_task, manage,
}
use pick_up_the_light_server.ThreadPool.Slots.{count-set}
use pick_up_the_light_server.ThreadPool.Steps.{
  Step, begins, resumes, wakes_up, returns, finishes, adds, adds_bound, manages, shuts_down,
  notifies, task_of,
}
use pick_up_the_light_server.ThreadPool.Joins.{
  steps_of, is_asleep, turn, IsClosing, Closes, steps_left-set, steps_left-wake, count-wake_asleep,
}

-- A thread that has nothing to do but to return leaves its slot.
leaves :
    (p q : Pool) (i : ℕ) (v w : Worker)
    → IsClosing p
    → get_elem? p.workers i ≡ some v
    → steps_of v ≡ suc (steps_of w)
    → is_asleep w ≡ false
    → task_of q i ≡ []
    → q.workers ≡ set p.workers i w
    → q.task_q ≡ p.task_q
    → q.shutdown ≡ true
    → Closes p 1 (task_of q i) q
leaves p q i v w c h one awake no_task e queue shut = record {
  counted = ground (arith, e, one, steps_left-set p.workers i v w h);
  none_started = no_task;
  queued = queue;
  closing = record {
    closed = shut;
    awake = ground (arith, e, c.awake, awake, count-set is_asleep p.workers i v w h);
  };
}

serve_closed_case :
    (p : Pool) (i : ℕ) (tasks : List Task)
    → p.task_q ≡ tasks
    → p.shutdown ≡ true
    → serve p i ≡ record p { workers = set p.workers i exited }
unfolding serve
serve_closed_case p i [] e h = ground (arith, e, h)
serve_closed_case p i (t ∷ rest) e h = ground (arith, e, h)

serve_closed :
    (p : Pool) (i : ℕ)
    → p.shutdown ≡ true
    → serve p i ≡ record p { workers = set p.workers i exited }
serve_closed p i h = serve_closed_case p i p.task_q refl h

occupied :
    (p : Pool) (i : ℕ) (v w : Worker)
    → get_elem? p.workers i ≡ some v
    → get_elem? (set p.workers i w) i ≡ some w
occupied p i v w h = get_elem?-set_self p.workers i w (get_elem?-lt p.workers i v h)

serve-Closes :
    (p : Pool) (i : ℕ) (v : Worker)
    → IsClosing p
    → get_elem? p.workers i ≡ some v
    → steps_of v ≡ 1
    → Closes p 1 (task_of (serve p i) i) (serve p i)
serve-Closes p i v c h one =
    let e = serve_closed p i c.closed in
    leaves p (serve p i) i v exited c h one refl (ground (arith, e, occupied p i v exited h))
      (ap (λ q. q.workers) e) (ap (λ q. q.task_q) e) (ap (λ q. q.shutdown) e ∙ c.closed)

either :
    (p : Pool) (i : ℕ) (b : Bool) {q r : Pool}
    → Closes p 1 (task_of q i) q
    → Closes p 1 (task_of r i) r
    → Closes p 1 (task_of (if b then q else r) i) (if b then q else r)
either p i true c d = c
either p i false c d = d

-- The count of the threads to destroy has no part in the closing.
same_threads :
    (p : Pool) (d : ℕ) {started : List Task} {q : Pool}
    → Closes (record p { destroy_num = d }) 1 started q
    → Closes p 1 started q
same_threads p d c = record {
  counted = c.counted;
  none_started = c.none_started;
  queued = c.queued;
  closing = c.closing;
}

destroy-Closes :
    (p : Pool) (i : ℕ) (v : Worker)
    → IsClosing p
    → get_elem? p.workers i ≡ some v
    → steps_of v ≡ 1
    → Closes p 1 (task_of (destroy p i) i) (destroy p i)
unfolding destroy
destroy-Closes p i v c h one =
    let dead : Pool = record p { workers = set p.workers i absent; live_num = p.live_num - 1 } in
    let gone : Closes p 1 (task_of dead i) dead =
      leaves p dead i v absent c h one refl (ground (arith, occupied p i v absent h)) refl refl
        c.closed in
    either p i (ltb p.min_num p.live_num) gone (serve-Closes p i v c h one)

resume-Closes :
    (p : Pool) (i : ℕ) (v : Worker)
    → IsClosing p
    → get_elem? p.workers i ≡ some v
    → steps_of v ≡ 1
    → Closes p 1 (task_of (resume p i) i) (resume p i)
unfolding resume
resume-Closes p i v c h one =
    let fewer : Pool = record p { destroy_num = p.destroy_num - 1 } in
    let same : IsClosing fewer = record { closed = c.closed; awake = c.awake } in
    either p i (ltb 0 p.destroy_num)
      (same_threads p (p.destroy_num - 1) (destroy-Closes fewer i v same h one))
      (serve-Closes p i v c h one)

return_task-Closes :
    (p : Pool) (i : ℕ) (t : Task)
    → IsClosing p
    → get_elem? p.workers i ≡ some (working t)
    → Closes p 1 [] (return_task p i)
unfolding return_task
return_task-Closes p i t c h = record {
  counted = ground (arith, steps_left-set p.workers i (working t) worked h);
  none_started = refl;
  queued = refl;
  closing = record {
    closed = c.closed;
    awake = ground (arith, c.awake, count-set is_asleep p.workers i (working t) worked h);
  };
}

finish_task-Closes :
    (p : Pool) (i : ℕ)
    → IsClosing p
    → get_elem? p.workers i ≡ some worked
    → Closes p 1 [] (finish_task p i)
unfolding finish_task
finish_task-Closes p i c h = record {
  counted = ground (arith, steps_left-set p.workers i worked ready h);
  none_started = refl;
  queued = refl;
  closing = record {
    closed = c.closed;
    awake = ground (arith, c.awake, count-set is_asleep p.workers i worked ready h);
  };
}

stays : (p : Pool) → IsClosing p → Closes p 0 [] p
stays p c = record { counted = omega arith; none_started = refl; queued = refl; closing = c }

refused : (p q : Pool) (b : Bool) → b ≡ true → IsClosing p → Closes p 0 [] (if b then p else q)
refused p q b h c = rw h (stays p c)

pub notify_all-Closes : (p : Pool) → p.shutdown ≡ true → Closes p 0 [] (notify_all p)
notify_all-Closes p shut = record {
  counted = omega (arith, steps_left-wake p.workers);
  none_started = refl;
  queued = refl;
  closing = record { closed = shut; awake = count-wake_asleep p.workers };
}

pub Step-Closes :
    (p q : Pool) (added started : List Task) (s : Step p added started q)
    → IsClosing p
    → Closes p (turn s) started q
unfolding add_task add_task_bound shut_down manage
Step-Closes p q a s (begins i h) c = serve-Closes p i ready c h refl
Step-Closes p q a s (resumes i h) c = resume-Closes p i woken c h refl
Step-Closes p q a s (wakes_up i h) c = resume-Closes p i waiting c h refl
Step-Closes p q a s (returns i t h) c = return_task-Closes p i t c h
Step-Closes p q a s (finishes i h) c = finish_task-Closes p i c h
Step-Closes p q a s (adds t i) c = refused p _ p.shutdown c.closed c
Step-Closes p q a s (adds_bound t) c = refused p _ p.shutdown c.closed c
Step-Closes p q a s manages c = refused p _ p.shutdown c.closed c
Step-Closes p q a s shuts_down c = record {
  counted = omega arith;
  none_started = refl;
  queued = refl;
  closing = record { closed = refl; awake = c.awake };
}
Step-Closes p q a s notifies c = notify_all-Closes p c.closed

resume-shutdown : (p : Pool) (i : ℕ) → p.shutdown ≡ true → (resume p i).shutdown ≡ true
unfolding resume destroy
resume-shutdown p i h =
    let fewer : Pool = record p { destroy_num = p.destroy_num - 1 } in
    ground (arith, h, serve_closed p i h, serve_closed fewer i h)

-- A pool that is closed stays so, also while threads sleep.
pub Step-shutdown :
    (p q : Pool) (added started : List Task)
    → Step p added started q
    → p.shutdown ≡ true
    → q.shutdown ≡ true
unfolding add_task add_task_bound shut_down manage return_task finish_task
Step-shutdown p q a s (begins i h) c = ap (λ r. r.shutdown) (serve_closed p i c) ∙ c
Step-shutdown p q a s (resumes i h) c = resume-shutdown p i c
Step-shutdown p q a s (wakes_up i h) c = resume-shutdown p i c
Step-shutdown p q a s (returns i t h) c = c
Step-shutdown p q a s (finishes i h) c = c
Step-shutdown p q a s (adds t i) c = ground (arith, c)
Step-shutdown p q a s (adds_bound t) c = ground (arith, c)
Step-shutdown p q a s manages c = ground (arith, c)
Step-shutdown p q a s shuts_down c = refl
Step-shutdown p q a s notifies c = c
