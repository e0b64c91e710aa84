-- ===== src/ThreadPool/Joins/Ends.antt =====
-- The threads that the destructor joins return.
use pick_up_the_light_server.Prelude.{
  ℕ, suc, ◌+◌, ◌≡◌, refl, ◌⊎◌, inl, inr, true, false, some, List, [], ◌∷◌, arith, ◌∙◌, get_elem?,
}
use pick_up_the_light_server.ThreadPool.{
  Task, Worker, absent, ready, waiting, woken, working, worked, exited, Pool, notify_all, shut_down,
}
use pick_up_the_light_server.ThreadPool.Slots.{count}
use pick_up_the_light_server.ThreadPool.Steps.{
  begins, resumes, returns, finishes, Run, idle, then_step,
}
use pick_up_the_light_server.ThreadPool.Joins.{
  steps_left, is_running, is_asleep, turns, CanMove, IsClosing, Closes,
}
use pick_up_the_light_server.ThreadPool.Joins.Closing.{
  Step-Closes, Step-shutdown, notify_all-Closes,
}

Run-shutdown :
    (p q : Pool) (added started : List Task)
    → Run p added started q
    → p.shutdown ≡ true
    → q.shutdown ≡ true
Run-shutdown p q a s idle h = h
Run-shutdown p r a s (then_step {added} {started} {added'} {started'} {q} run step) h =
    Step-shutdown q r added' started' step (Run-shutdown p q added started run h)

Run-Closes :
    (p q : Pool) (added started : List Task) (run : Run p added started q)
    → IsClosing p
    → Closes p (turns run) started q
Run-Closes p q a s idle c = record {
  counted = omega arith;
  none_started = refl;
  queued = refl;
  closing = c;
}
Run-Closes p r a s (then_step {added} {started} {added'} {started'} {q} run step) c =
    let before = Run-Closes p q added started run c in
    let now = Step-Closes q r added' started' step before.closing in
    record {
      counted = omega (arith, before.counted, now.counted);
      none_started = ground (arith, before.none_started, now.none_started);
      queued = now.queued ∙ before.queued;
      closing = now.closing;
    }

-- A thread of the list that has a step to make, or that there is none.
data Found (ws : List Worker) : Type 0 where
  before_lock : (i : ℕ) → get_elem? ws i ≡ some ready → Found ws
  notified : (i : ℕ) → get_elem? ws i ≡ some woken → Found ws
  at_work : (i : ℕ) (t : Task) → get_elem? ws i ≡ some (working t) → Found ws
  task_returned : (i : ℕ) → get_elem? ws i ≡ some worked → Found ws
  none_left : count is_running ws ≡ 0 → Found ws

next_slot : (w : Worker) (ws : List Worker) → is_running w ≡ false → Found ws → Found (w ∷ ws)
next_slot w ws e (before_lock i h) = before_lock (suc i) h
next_slot w ws e (notified i h) = notified (suc i) h
next_slot w ws e (at_work i t h) = at_work (suc i) t h
next_slot w ws e (task_returned i h) = task_returned (suc i) h
next_slot w ws e (none_left h) = none_left (ground (arith, e, h))

find : (ws : List Worker) → count is_asleep ws ≡ 0 → Found ws
find [] h = none_left refl
find (absent ∷ ws) h = next_slot absent ws refl (find ws (omega (arith, h)))
find (exited ∷ ws) h = next_slot exited ws refl (find ws (omega (arith, h)))
find (ready ∷ ws) h = before_lock 0 refl
find (waiting ∷ ws) h = ground (arith, h)
find (woken ∷ ws) h = notified 0 refl
find (working t ∷ ws) h = at_work 0 t refl
find (worked ∷ ws) h = task_returned 0 refl

next_step : (p : Pool) → Found p.workers → (count is_running p.workers ≡ 0) ⊎ CanMove p
next_step p (before_lock i h) = inr (_, _, begins i h, refl)
next_step p (notified i h) = inr (_, _, resumes i h, refl)
next_step p (at_work i t h) = inr (_, _, returns i t h, refl)
next_step p (task_returned i h) = inr (_, _, finishes i h, refl)
next_step p (none_left h) = inl h

-- How far the joins are at the pool `q`, where the destructor came to them at the pool `r`, and
-- threads have made `made` steps since.
pub record Joining (r : Pool) (made : ℕ) (started : List Task) (q : Pool) : Type 0 where
  pub counted : made + steps_left q.workers ≡ steps_left r.workers
  pub awake : count is_asleep q.workers ≡ 0
  pub none_started : started ≡ []
  pub queued : q.task_q ≡ r.task_q
  pub goes_on : (count is_running q.workers ≡ 0) ⊎ CanMove q

-- From `shutdown` and `notify_all` on, in every interleaving, no thread sleeps or starts a task any
-- more, and every step of a thread is one of a number that was fixed at the `notify_all`, three for a
-- thread with a task, two for one whose task is through and one for another; as long as a thread has
-- not returned, one can make such a step. The tasks in the queue stay there.
pub shut_down-Joining :
    (p r q : Pool) (added started added' started' : List Task)
    → Run (shut_down p) added started r
    → (run : Run (notify_all r) added' started' q) → Joining r (turns run) started' q
unfolding shut_down
shut_down-Joining p r q a s a' s' first run =
    let woken_up = notify_all-Closes r (Run-shutdown (shut_down p) r a s first refl) in
    let c = Run-Closes (notify_all r) q a' s' run woken_up.closing in
    record {
      counted = omega (arith, woken_up.counted, c.counted);
      awake = c.closing.awake;
      none_started = c.none_started;
      queued = c.queued;
      goes_on = next_step q (find q.workers c.closing.awake);
    }
