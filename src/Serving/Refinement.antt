-- ===== src/Serving/Refinement.antt =====
-- The steps of the server against the state machine of `Serving.Phases`.
use pick_up_the_light_server.Prelude.{
  ℕ, ◌-◌, ◌==◌, ltb, ◌≡◌, refl, sym, subst, ◌∙◌, Bool, false, some, [], ◌∷◌, arith, if◌then◌else◌,
}
use pick_up_the_light_server.Outcome.{ok}
use pick_up_the_light_server.Platform.{Platform, World}
use pick_up_the_light_server.ThreadPool.{
  Pool, new_pool, serve, resume, destroy, manage, start_threads, stop_threads, add_task, notify_one,
  return_task, finish_task,
}
use pick_up_the_light_server.MyServer.Accept.{Accept, Opening, open_listener}
use pick_up_the_light_server.MyServer.Frame.{descriptors}
use pick_up_the_light_server.Serving.{Server, dispatch, after_turn, connect}
use pick_up_the_light_server.Epoll.Counts.{times}
use pick_up_the_light_server.Serving.Turns.{
  Event, quiet, reported, silent, turn_event, next_request-Turn,
}
use pick_up_the_light_server.Evaluator.Drops.{drops}
use pick_up_the_light_server.Serving.Checks.{check_connections-drops}
use pick_up_the_light_server.Serving.Steps.{
  Schedule, begins, resumes, wakes_up, finishes, manages, Step, listens, connects, dispatches,
  schedules, turns, checks, Run, stays, then_step,
}
use pick_up_the_light_server.Serving.Exclusive.{
  IsExclusive, SparesBusy, Run-IsExclusive, tasks-Schedule,
}
use pick_up_the_light_server.Serving.Launch.{IsUnused, launched}
use pick_up_the_light_server.Serving.Phases.{
  phase_of, phase, next, quiet-phase, event_if, accept_event, dispatch-phase, phase-Turn,
  check-phase, connect-phase,
}

-- Nothing shuts the pool down while the server runs.
new_pool-open : (cores : ℕ) (p : Pool) → new_pool cores ≡ ok p → p.shutdown ≡ false
unfolding new_pool
new_pool-open cores p h = ground (arith, h)

serve-shutdown : (p : Pool) (i : ℕ) → (serve p i).shutdown ≡ p.shutdown
unfolding serve
serve-shutdown p i = ground arith

resume-shutdown : (p : Pool) (i : ℕ) → (resume p i).shutdown ≡ p.shutdown
unfolding resume destroy
resume-shutdown p i =
    ground
      (arith, serve-shutdown p i, serve-shutdown (record p { destroy_num = p.destroy_num - 1 }) i)

manage-shutdown : (p : Pool) → (manage p).shutdown ≡ p.shutdown
unfolding manage start_threads stop_threads
manage-shutdown p = ground arith

add_task-shutdown : (p : Pool) (t i : ℕ) → (add_task p t i).shutdown ≡ p.shutdown
unfolding add_task notify_one
add_task-shutdown p t i = ground arith

if-shutdown :
    (b : Bool) (p : Pool) (i : ℕ) → (if b then p else return_task p i).shutdown ≡ p.shutdown
unfolding return_task
if-shutdown b p i = ground arith

finish_task-shutdown : (p : Pool) (i : ℕ) → (finish_task p i).shutdown ≡ p.shutdown
unfolding finish_task
finish_task-shutdown p i = refl

shutdown-Schedule : {p q : Pool} → Schedule p q → q.shutdown ≡ p.shutdown
shutdown-Schedule {p} (begins i h) = serve-shutdown p i
shutdown-Schedule {p} (resumes i h) = resume-shutdown p i
shutdown-Schedule {p} (wakes_up i h) = resume-shutdown p i
shutdown-Schedule {p} (finishes i h) = finish_task-shutdown p i
shutdown-Schedule {p} manages = manage-shutdown p

module _ (P : Platform) (accept : Accept P) (listen_fd : ℕ) where
  Step-shutdown :
      {s t : Server P}
      → Step P accept listen_fd (SparesBusy P) s t
      → t.pool.shutdown ≡ s.pool.shutdown
  unfolding dispatch after_turn connect
  Step-shutdown (listens evs none_left few watched) = refl
  Step-shutdown (connects rest head fresh) = refl
  Step-shutdown {s} (dispatches fd rest i head other) = add_task-shutdown s.pool fd i
  Step-shutdown (schedules move) = shutdown-Schedule move
  Step-shutdown {s} (turns i fd goes_on w held turn) = if-shutdown goes_on s.pool i
  Step-shutdown (checks w spares done) = refl

  Run-shutdown :
      {s t : Server P}
      → Run P accept listen_fd (SparesBusy P) s t
      → t.pool.shutdown ≡ s.pool.shutdown
  Run-shutdown stays = refl
  Run-shutdown (then_step run step) = Step-shutdown step ∙ Run-shutdown run

  -- What a step of the server is for one descriptor. A turn of a task is for the descriptor of the
  -- task, and is named by what it read.
  abbrev pub event : ℕ → {s t : Server P} → Step P accept listen_fd (SparesBusy P) s t → Event
  event k (listens evs none_left few watched) = quiet
  event k {s} (connects rest head fresh) = accept_event P k (accept listen_fd s.world.net).0
  event k (dispatches fd rest i head other) = event_if P (fd == k) reported
  event k (schedules move) = quiet
  event k {s} (turns i fd goes_on w held turn) = event_if P (fd == k) (turn_event P fd s.world)
  event k {s} (checks w spares done) =
      event_if P (ltb 0 (times k (drops s.world.evaluator.m_map))) silent

  Step-phase :
      (k : ℕ) {s t : Server P}
      → IsExclusive P s
      → s.pool.shutdown ≡ false
      → (step : Step P accept listen_fd (SparesBusy P) s t)
      → next (event k step) (phase P k s) ≡ some (phase P k t)
  unfolding after_turn
  Step-phase k {s} h open_ (listens evs none_left few watched) = quiet-phase P k s (h k)
  Step-phase k {s} h open_ (connects rest head fresh) =
      connect-phase P accept listen_fd k rest s (accept listen_fd s.world.net).0 refl fresh (h k)
  Step-phase k {s} h open_ (dispatches fd rest i head other) =
      dispatch-phase P k fd rest i s head open_ (h k)
  Step-phase k {s} h open_ (schedules {q} move) =
      subst
        (λ n.
          next quiet (phase P k s)
          ≡ some (phase_of (times k s.world.watched) n (times k s.world.closed) (times k s.opened)))
        (sym (tasks-Schedule P k move)) (quiet-phase P k s (h k))
  Step-phase k {s} h open_ (turns i fd goes_on w held turn) =
      phase-Turn P k fd goes_on s.pool i s.batch s.opened held
        (next_request-Turn P fd s.world w goes_on turn) (h k)
  Step-phase k {s} h open_ (checks w spares done) =
      check-phase P k s (descriptors P w) spares (check_connections-drops P s.world w done) (h k)

  -- From the launch of the server on, where checks spare the busy connections, every step of the main
  -- thread, of a thread of the pool or of a check takes each descriptor to the one phase that the
  -- state machine has for what happens to it: a task is started only for a descriptor that is open
  -- and in epoll; one that reads a whole header keeps the descriptor; one that finds no data puts it
  -- back into epoll; one that reads the end of the stream closes it; and a connection of which a part
  -- of a header was read is lost until a check closes it.
  pub launch-phases :
      (o : Opening) (cores : ℕ) (v w : World P) (p : Pool) (s t : Server P)
      → open_listener P o v ≡ (ok (some listen_fd), w)
      → new_pool cores ≡ ok p
      → IsUnused P v
      → Run P accept listen_fd
          (SparesBusy P)
          (record { world = w; pool = p; batch = []; opened = listen_fd ∷ [] })
          s
      → (step : Step P accept listen_fd (SparesBusy P) s t) (fd : ℕ)
      → next (event fd step) (phase P fd s) ≡ some (phase P fd t)
  launch-phases o cores v w p s t h made u run step fd =
      Step-phase fd
        (Run-IsExclusive P accept listen_fd run (launched P o cores listen_fd v w p h made u))
        (Run-shutdown run ∙ new_pool-open cores p made) step
