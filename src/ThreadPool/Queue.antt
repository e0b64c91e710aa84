-- ===== src/ThreadPool/Queue.antt =====
-- The order in which the pool starts tasks.
use pick_up_the_light_server.Prelude.{
  ℕ, ◌-◌, ◌≡◌, refl, some, List, [], ◌∷◌, ◌++◌, arith, ap, ◌∙◌, sym, set, get_elem?, append_assoc,
  append-nil, get_elem?-set_self, get_elem?-lt,
}
use pick_up_the_light_server.ThreadPool.{
  Task, Worker, absent, ready, waiting, woken, working, exited, Pool, notify_one, add_task,
  add_task_bound, shut_down, serve, resume, destroy, return_task, finish_task, start_threads,
  stop_threads, manage,
}
use pick_up_the_light_server.ThreadPool.Steps.{
  Step, begins, resumes, wakes_up, returns, finishes, adds, adds_bound, manages, shuts_down,
  notifies, Run, idle, then_step, task_of,
}

occupied :
    (p : Pool) (i : ℕ) (v w : Worker)
    → get_elem? p.workers i ≡ some v
    → get_elem? (set p.workers i w) i ≡ some w
occupied p i v w h = get_elem?-set_self p.workers i w (get_elem?-lt p.workers i v h)

serve_order_case :
    (p : Pool) (i : ℕ) (v : Worker) (tasks : List Task)
    → p.task_q ≡ tasks
    → get_elem? p.workers i ≡ some v
    → p.task_q ≡ task_of (serve p i) i ++ (serve p i).task_q
unfolding serve
serve_order_case p i v [] e h = ground (arith, e, occupied p i v exited h, occupied p i v waiting h)
serve_order_case p i v (t ∷ rest) e h =
    ground (arith, e, occupied p i v exited h, occupied p i v (working t) h)

serve_order :
    (p : Pool) (i : ℕ) (v : Worker)
    → get_elem? p.workers i ≡ some v
    → p.task_q ≡ task_of (serve p i) i ++ (serve p i).task_q
serve_order p i v h = serve_order_case p i v p.task_q refl h

resume_order :
    (p : Pool) (i : ℕ) (v : Worker)
    → get_elem? p.workers i ≡ some v
    → p.task_q ≡ task_of (resume p i) i ++ (resume p i).task_q
unfolding resume destroy
resume_order p i v h =
    let fewer : Pool = record p { destroy_num = p.destroy_num - 1 } in
    ground (arith, serve_order p i v h, serve_order fewer i v h, occupied p i v absent h)

notify_one_order : (p : Pool) (i : ℕ) → (notify_one p i).task_q ≡ p.task_q
unfolding notify_one
notify_one_order p i = ground arith

manage_order : (p : Pool) → (manage p).task_q ≡ p.task_q
unfolding manage start_threads stop_threads
manage_order p = ground arith

each_order :
    (p q : Pool) (added started : List Task)
    → Step p added started q
    → p.task_q ++ added ≡ started ++ q.task_q
unfolding add_task add_task_bound shut_down return_task finish_task
each_order p q a s (begins i h) = ground (arith, append-nil p.task_q, serve_order p i ready h)
each_order p q a s (resumes i h) = ground (arith, append-nil p.task_q, resume_order p i woken h)
each_order p q a s (wakes_up i h) = ground (arith, append-nil p.task_q, resume_order p i waiting h)
each_order p q a s (returns i t h) = append-nil p.task_q
each_order p q a s (finishes i h) = append-nil p.task_q
each_order p q a s (adds t i) =
    ground
      (arith, append-nil p.task_q, notify_one_order (record p { task_q = p.task_q ++ t ∷ [] }) i)
each_order p q a s (adds_bound t) = ground (arith, append-nil p.task_q)
each_order p q a s manages = ground (arith, append-nil p.task_q, manage_order p)
each_order p q a s shuts_down = append-nil p.task_q
each_order p q a s notifies = append-nil p.task_q

-- In every run, the tasks that were in the queue, followed by those that `add_task` took, are those
-- that threads have started, in that order, followed by those that are in the queue still: no task
-- is lost, repeated or overtaken.
pub queue_order :
    (p q : Pool) (added started : List Task)
    → Run p added started q
    → p.task_q ++ added ≡ started ++ q.task_q
queue_order p q a s idle = append-nil p.task_q
queue_order p r a s (then_step {added} {started} {added'} {started'} {q} run step) =
    sym (append_assoc p.task_q added added')
    ∙ ap (λ l. l ++ added') (queue_order p q added started run)
    ∙ append_assoc started q.task_q added'
    ∙ ap (λ l. started ++ l) (each_order q r added' started' step)
    ∙ sym (append_assoc started started' r.task_q)
