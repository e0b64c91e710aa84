-- ===== src/ThreadPool/Invariant.antt =====
-- The counters of the pool, step by step.
use pick_up_the_light_server.Prelude.{
  ℕ, ◌+◌, ◌-◌, ◌≡◌, refl, some, List, [], ◌∷◌, ◌++◌, arith, length, ltb, set, length-set, get_elem?,
}
use pick_up_the_light_server.Outcome.{ok}
use pick_up_the_light_server.ThreadPool.{
  Task, Worker, absent, ready, waiting, woken, working, worked, exited, Pool, notify_one, new_pool,
  add_task, add_task_bound, shut_down, serve, resume, destroy, return_task, finish_task,
}
use pick_up_the_light_server.ThreadPool.Slots.{count, weight, is_working, is_present, count-set}
use pick_up_the_light_server.ThreadPool.Steps.{
  Step, begins, resumes, wakes_up, returns, finishes, adds, adds_bound, manages, shuts_down,
  notifies, Run, idle, then_step,
}
use pick_up_the_light_server.ThreadPool.Manage.{manage-IsConsistent}
use pick_up_the_light_server.ThreadPool.Consistent.{
  IsConsistent, new_pool-IsConsistent, either, notify_all-IsConsistent,
}

-- A thread that holds the lock and has no task.
abbrev Idle : Pool → ℕ → Type 0
Idle p i =
    (v : Worker) × (get_elem? p.workers i ≡ some v)
    × (weight (is_present v) ≡ 1)
    × (weight (is_working v) ≡ 0)

-- The facts on the slots that a new occupant `w` of slot `i` needs.
record Moved (ws : List Worker) (i : ℕ) (w : Worker) : Type 0 where
  slots : length (set ws i w) ≡ length ws
  present : count is_present (set ws i w) + 1 ≡ count is_present ws + weight (is_present w)
  at_work : count is_working (set ws i w) ≡ count is_working ws + weight (is_working w)

move : (p : Pool) (i : ℕ) (w : Worker) → Idle p i → Moved p.workers i w
move p i w (v, h, there, free) = record {
  slots = length-set p.workers i w;
  present = omega (arith, count-set is_present p.workers i v w h, there);
  at_work = omega (arith, count-set is_working p.workers i v w h, free);
}

serve-IsConsistent_case :
    (p : Pool) (i : ℕ) (tasks : List Task)
    → p.task_q ≡ tasks
    → Idle p i
    → IsConsistent p
    → IsConsistent (serve p i)
unfolding serve
serve-IsConsistent_case p i [] e d c =
    let out = move p i exited d in
    let asleep = move p i waiting d in
    record {
      slots = ground (arith, e, c.slots, out.slots, asleep.slots);
      live = ground (arith, e, c.live, out.present, asleep.present);
      busy = ground (arith, e, c.busy, out.at_work, asleep.at_work);
      enough = ground (arith, e, c.enough);
      few_go = ground (arith, e, c.few_go);
    }
serve-IsConsistent_case p i (t ∷ rest) e d c =
    let out = move p i exited d in
    let taken = move p i (working t) d in
    record {
      slots = ground (arith, e, c.slots, out.slots, taken.slots);
      live = ground (arith, e, c.live, out.present, taken.present);
      busy = ground (arith, e, c.busy, out.at_work, taken.at_work);
      enough = ground (arith, e, c.enough);
      few_go = ground (arith, e, c.few_go);
    }

serve-IsConsistent : (p : Pool) (i : ℕ) → Idle p i → IsConsistent p → IsConsistent (serve p i)
serve-IsConsistent p i = serve-IsConsistent_case p i p.task_q refl

destroy-IsConsistent : (p : Pool) (i : ℕ) → Idle p i → IsConsistent p → IsConsistent (destroy p i)
unfolding destroy
destroy-IsConsistent p i d c =
    let served = serve-IsConsistent p i d c in
    let gone = move p i absent d in
    record {
      slots = ground (arith, c.slots, gone.slots, served.slots);
      live = ground (arith, c.live, gone.present, served.live);
      busy = ground (arith, c.busy, gone.at_work, served.busy);
      enough = ground (arith, served.enough);
      few_go = ground (arith, c.few_go, served.few_go);
    }

fewer : (p : Pool) → IsConsistent p → IsConsistent (record p { destroy_num = p.destroy_num - 1 })
fewer p c = record {
  slots = c.slots;
  live = c.live;
  busy = c.busy;
  enough = c.enough;
  few_go = omega (arith, c.few_go);
}

resume-IsConsistent : (p : Pool) (i : ℕ) → Idle p i → IsConsistent p → IsConsistent (resume p i)
unfolding resume
resume-IsConsistent p i d c =
    either (ltb 0 p.destroy_num)
      (destroy-IsConsistent (record p { destroy_num = p.destroy_num - 1 }) i d (fewer p c))
      (serve-IsConsistent p i d c)

return_task-IsConsistent :
    (p : Pool) (i : ℕ) (t : Task)
    → get_elem? p.workers i ≡ some (working t)
    → IsConsistent p
    → IsConsistent (return_task p i)
unfolding return_task
return_task-IsConsistent p i t h c =
    let present = count-set is_present p.workers i (working t) worked h in
    let at_work = count-set is_working p.workers i (working t) worked h in
    record {
      slots = omega (arith, c.slots, length-set p.workers i worked);
      live = omega (arith, c.live, present);
      busy = omega (arith, c.busy, at_work);
      enough = c.enough;
      few_go = c.few_go;
    }

finish_task-IsConsistent :
    (p : Pool) (i : ℕ)
    → get_elem? p.workers i ≡ some worked
    → IsConsistent p
    → IsConsistent (finish_task p i)
unfolding finish_task
finish_task-IsConsistent p i h c =
    let present = count-set is_present p.workers i worked ready h in
    let at_work = count-set is_working p.workers i worked ready h in
    record {
      slots = omega (arith, c.slots, length-set p.workers i ready);
      live = omega (arith, c.live, present);
      busy = omega (arith, c.busy, at_work);
      enough = c.enough;
      few_go = c.few_go;
    }

notify_one-IsConsistent : (p : Pool) (i : ℕ) → IsConsistent p → IsConsistent (notify_one p i)
unfolding notify_one
notify_one-IsConsistent p i c =
    let present = count-set is_present p.workers i waiting woken in
    let at_work = count-set is_working p.workers i waiting woken in
    record {
      slots = ground (arith, c.slots, length-set p.workers i woken);
      live = ground (arith, c.live, present);
      busy = ground (arith, c.busy, at_work);
      enough = ground (arith, c.enough);
      few_go = ground (arith, c.few_go);
    }

enqueue :
    (p : Pool) (t : Task) → IsConsistent p → IsConsistent (record p { task_q = p.task_q ++ t ∷ [] })
enqueue p t c = record {
  slots = c.slots;
  live = c.live;
  busy = c.busy;
  enough = c.enough;
  few_go = c.few_go;
}

pub Step-IsConsistent :
    (p q : Pool) (added started : List Task)
    → Step p added started q
    → IsConsistent p
    → IsConsistent q
unfolding add_task add_task_bound shut_down
Step-IsConsistent p q a s (begins i h) c = serve-IsConsistent p i (ready, h, refl, refl) c
Step-IsConsistent p q a s (resumes i h) c = resume-IsConsistent p i (woken, h, refl, refl) c
Step-IsConsistent p q a s (wakes_up i h) c = resume-IsConsistent p i (waiting, h, refl, refl) c
Step-IsConsistent p q a s (returns i t h) c = return_task-IsConsistent p i t h c
Step-IsConsistent p q a s (finishes i h) c = finish_task-IsConsistent p i h c
Step-IsConsistent p q a s (adds t i) c =
    either p.shutdown c
      (notify_one-IsConsistent (record p { task_q = p.task_q ++ t ∷ [] }) i (enqueue p t c))
Step-IsConsistent p q a s (adds_bound t) c =
    either p.shutdown c
      (notify_all-IsConsistent (record p { task_q = p.task_q ++ t ∷ [] }) (enqueue p t c))
Step-IsConsistent p q a s manages c = manage-IsConsistent p c
Step-IsConsistent p q a s shuts_down c = record {
  slots = c.slots;
  live = c.live;
  busy = c.busy;
  enough = c.enough;
  few_go = omega arith;
}
Step-IsConsistent p q a s notifies c = notify_all-IsConsistent p c

reached-IsConsistent :
    (p q : Pool) (added started : List Task)
    → Run p added started q
    → IsConsistent p
    → IsConsistent q
reached-IsConsistent p q a s idle c = c
reached-IsConsistent p r a s (then_step {added} {started} {added'} {started'} {q} run step) c =
    Step-IsConsistent q r added' started' step (reached-IsConsistent p q added started run c)

-- On a machine where the constructor stays within its vector, each state that the threads can
-- reach, in any interleaving, has counters that agree with the threads, `min_num` live threads or
-- more, and at most two threads to destroy.
pub new_reached-IsConsistent :
    (cores : ℕ) (p q : Pool) (added started : List Task)
    → new_pool cores ≡ ok p
    → Run p added started q
    → IsConsistent q
new_reached-IsConsistent cores p q added started h run =
    reached-IsConsistent p q added started run (new_pool-IsConsistent cores p h)
