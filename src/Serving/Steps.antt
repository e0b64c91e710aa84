-- ===== src/Serving/Steps.antt =====
-- The interleavings of the main thread, the threads of the pool and the thread that checks the
-- heartbeats. A turn of a task's loop, with the handling of one request, is one step.
use pick_up_the_light_server.Prelude.{
  ℕ, ◌≤◌, ◌≡◌, ◌≢◌, Bool, some, List, [], ◌∷◌, get_elem?, length,
}
use pick_up_the_light_server.Outcome.{ok}
use pick_up_the_light_server.Protocol.{max_epoll_events}
use pick_up_the_light_server.Platform.{Platform, World}
use pick_up_the_light_server.ThreadPool.{
  Pool, ready, waiting, woken, working, worked, serve, resume, finish_task, manage,
}
use pick_up_the_light_server.MyServer.{next_request}
use pick_up_the_light_server.MyServer.Accept.{Client, Accept}
use pick_up_the_light_server.Serving.{Server, check_connections, dispatch, after_turn, connect}
use pick_up_the_light_server.Epoll.Counts.{times}

-- The steps of the pool that neither bring a task nor are a task's own. A thread whose task is through
-- still has to take the lock: whatever the task did last, such as putting its descriptor back into
-- epoll, is seen by the other threads before that.
pub data Schedule (p : Pool) : Pool → Type 0 where
  begins : (i : ℕ) → get_elem? p.workers i ≡ some ready → Schedule p (serve p i)
  resumes : (i : ℕ) → get_elem? p.workers i ≡ some woken → Schedule p (resume p i)
  wakes_up : (i : ℕ) → get_elem? p.workers i ≡ some waiting → Schedule p (resume p i)
  finishes : (i : ℕ) → get_elem? p.workers i ≡ some worked → Schedule p (finish_task p i)
  manages : Schedule p (manage p)

module _ (P : Platform) (accept : Accept P) (listen_fd : ℕ) where
  -- The kernel does not give out a descriptor that is open: every time that it gave it out before, it
  -- was closed.
  abbrev pub GivesFresh : Server P → Type 0
  GivesFresh s =
      (c : Client)
      → (accept listen_fd s.world.net).0 ≡ some c
      → times c.fd s.opened ≤ times c.fd s.world.closed

  -- `Checks s` is what is assumed of a state in which the heartbeats are checked.
  pub data Step (Checks : Server P → Type 0) (s : Server P) : Server P → Type 0 where
    -- `epoll_wait` reports only descriptors that are watched, each once.
    listens :
        (evs : List ℕ)
        → s.batch ≡ []
        → length evs ≤ max_epoll_events
        → ((fd : ℕ) → times fd evs ≤ times fd s.world.watched)
        → Step Checks s (record s { batch = evs })
    connects :
        (rest : List ℕ)
        → s.batch ≡ listen_fd ∷ rest
        → GivesFresh s
        → Step Checks s (connect P accept listen_fd rest s)
    dispatches :
        (fd : ℕ) (rest : List ℕ) (i : ℕ)
        → s.batch ≡ fd ∷ rest
        → fd ≢ listen_fd
        → Step Checks s (dispatch P fd rest i s)
    schedules : {q : Pool} → Schedule s.pool q → Step Checks s (record s { pool = q })
    -- A turn that throws ends the process.
    turns :
        (i fd : ℕ) (goes_on : Bool) (w : World P)
        → get_elem? s.pool.workers i ≡ some (working fd)
        → next_request P fd s.world ≡ (ok goes_on, w)
        → Step Checks s (after_turn P i goes_on w s)
    checks :
        (w : World P)
        → Checks s
        → check_connections P s.world ≡ (ok tt, w)
        → Step Checks s (record s { world = w })

  pub data Run (Checks : Server P → Type 0) (s : Server P) : Server P → Type 0 where
    stays : Run Checks s s
    then_step : {t u : Server P} → Run Checks s t → Step Checks t u → Run Checks s u
