-- ===== src/Serving/Exclusive.antt =====
-- The tasks of a descriptor, over the steps of the server.
use pick_up_the_light_server.Prelude.{
  ℕ, ◌+◌, ◌≤◌, ◌≡◌, refl, sym, ap, subst, Bool, true, false, Option, none, some, List, ◌∷◌, arith,
  get_elem?, if◌then◌else◌,
}
use pick_up_the_light_server.Table.{number_key}
use pick_up_the_light_server.Table.Laws.{keys}
use pick_up_the_light_server.Evaluator as Table
use pick_up_the_light_server.Platform.{Platform}
use pick_up_the_light_server.Epoll.{add_fd, delete_fd}
use pick_up_the_light_server.ThreadPool.{Pool, ready, waiting, woken, working, return_task}
use pick_up_the_light_server.MyServer.Accept.{
  Client, Accept, ip_of, welcome, process_single_connect,
}
use pick_up_the_light_server.MyServer.Frame.{Descriptors, descriptors}
use pick_up_the_light_server.Serving.{Server, dispatch, after_turn, connect}
use pick_up_the_light_server.Epoll.Counts.{times, times-watch, times-unwatch, times-insert}
use pick_up_the_light_server.Serving.Counts.{
  tasks, serve-tasks, resume-tasks, manage-tasks, add_task-tasks, return_task-tasks,
  finish_task-tasks,
}
use pick_up_the_light_server.Serving.Turns.{
  Event, Turn, goes, strands, rearms, leaves, next_request-Turn,
}
use pick_up_the_light_server.Evaluator.Drops.{drops, times-unwatch_all, times-drops, unwatch_all}
use pick_up_the_light_server.Serving.Checks.{times-close_all, check_connections-drops, close_all}
use pick_up_the_light_server.Serving.Steps.{
  Schedule, begins, resumes, wakes_up, finishes, manages, GivesFresh, Step, listens, connects,
  dispatches, schedules, turns, checks, Run, stays, then_step,
}

-- The account of one descriptor: how often it is watched, has a task that is queued or not through,
-- was closed, is in the table of connections, is among the events to come, and was opened.
pub record Balance (watched at_task closed known reported opened : ℕ) : Type 0 where
  pub tied : watched + at_task + closed ≤ opened
  pub entered : known + closed ≤ opened
  pub current : reported ≤ watched
  pub once : opened ≤ closed + 1

module _ (P : Platform) where
  abbrev pub BalanceAt : ℕ → Descriptors → Pool → List ℕ → List ℕ → Type 0
  BalanceAt k d pool batch opened =
      Balance (times k d.1) (tasks k pool) (times k d.2) (times k d.0) (times k batch)
        (times k opened)

  abbrev pub IsExclusive : Server P → Type 0
  IsExclusive s = (k : ℕ) → BalanceAt k (descriptors P s.world) s.pool s.batch s.opened

  -- A check that spares every connection that has a task or an event to come.
  abbrev pub SparesBusy : Server P → Type 0
  SparesBusy s =
      (fd : ℕ)
      → 1 ≤ times fd (drops s.world.evaluator.m_map)
      → (tasks fd s.pool ≡ 0) × (times fd s.batch ≡ 0)

  pub tasks-Schedule : (k : ℕ) {p q : Pool} → Schedule p q → tasks k q ≡ tasks k p
  tasks-Schedule k {p} (begins i h) = serve-tasks k p i ready h refl
  tasks-Schedule k {p} (resumes i h) = resume-tasks k p i woken h refl
  tasks-Schedule k {p} (wakes_up i h) = resume-tasks k p i waiting h refl
  tasks-Schedule k {p} (finishes i h) = finish_task-tasks k p i h
  tasks-Schedule k {p} manages = manage-tasks k p

  dispatch-Balance :
      (k fd : ℕ) (rest : List ℕ) (i : ℕ) (s : Server P)
      → s.batch ≡ fd ∷ rest
      → BalanceAt k (descriptors P s.world) s.pool s.batch s.opened
      → BalanceAt k
          (descriptors P (dispatch P fd rest i s).world)
          (dispatch P fd rest i s).pool
          rest
          s.opened
  unfolding dispatch delete_fd
  dispatch-Balance k fd rest i s e b =
      ground
        (arith, ap (times k) e, times-unwatch fd k s.world.watched, add_task-tasks k s.pool fd i)

  goes_on-Balance :
      (k fd : ℕ) {d e : Descriptors} {event : Event} (goes_on : Bool) (p : Pool) (i : ℕ)
      (batch opened : List ℕ)
      → get_elem? p.workers i ≡ some (working fd)
      → Turn fd d e event goes_on
      → BalanceAt k d p batch opened
      → BalanceAt k e (if goes_on then p else return_task p i) batch opened
  goes_on-Balance k fd {d} {e} true p i batch opened h (goes same) b =
      subst (λ x. BalanceAt k x p batch opened) (sym same) b
  goes_on-Balance k fd {d} {e} false p i batch opened h (strands same) b =
      ground (arith, same, return_task-tasks k p i fd h)
  goes_on-Balance k fd {d} {e} false p i batch opened h (rearms new) b =
      ground (arith, new, times-watch fd k d.1, return_task-tasks k p i fd h)
  goes_on-Balance k fd {d} {e} false p i batch opened h (leaves in_table new) b =
      ground
        (arith, new, times-unwatch fd k d.0, times-unwatch fd k d.1, return_task-tasks k p i fd h)

  check-Balance :
      (k : ℕ) (s : Server P) (d : Descriptors)
      → SparesBusy s
      → (let fds = drops s.world.evaluator.m_map in
          d ≡ (
            unwatch_all fds (keys s.world.evaluator.m_map),
            unwatch_all fds s.world.watched,
            close_all fds s.world.closed,
          ))
      → BalanceAt k (descriptors P s.world) s.pool s.batch s.opened
      → BalanceAt k d s.pool s.batch s.opened
  check-Balance k s d spares e b =
      let fds = drops s.world.evaluator.m_map in
      ground (
        arith,
        e,
        spares k,
        times-unwatch_all k fds (keys s.world.evaluator.m_map),
        times-unwatch_all k fds s.world.watched,
        times-close_all k fds s.world.closed,
        times-drops k s.world.evaluator.m_map,
      )

  module _ (accept : Accept P) (listen_fd : ℕ) where
    connect-Balance :
        (k : ℕ) (rest : List ℕ) (s : Server P) (client : Option Client)
        → (accept listen_fd s.world.net).0 ≡ client
        → s.batch ≡ listen_fd ∷ rest
        → GivesFresh P accept listen_fd s
        → BalanceAt k (descriptors P s.world) s.pool s.batch s.opened
        → (let t = connect P accept listen_fd rest s in
            BalanceAt k (descriptors P t.world) t.pool t.batch t.opened)
    unfolding connect process_single_connect welcome add_fd Table.add
    connect-Balance k rest s none e head fresh b = ground (arith, e, ap (times k) head)
    connect-Balance k rest s (some c) e head fresh b = ground (
      arith,
      e,
      fresh c e,
      ap (times k) head,
      times-watch c.fd k s.world.watched,
      times-insert c.fd k (Table.new_info (ip_of c)) s.world.evaluator.m_map,
    )

    Step-IsExclusive :
        {s t : Server P} → Step P accept listen_fd SparesBusy s t → IsExclusive s → IsExclusive t
    unfolding dispatch after_turn
    Step-IsExclusive {s} (listens evs none_left few watched) h k = record {
      tied = (h k).tied;
      entered = (h k).entered;
      current = watched k;
      once = (h k).once;
    }
    Step-IsExclusive {s} (connects rest head fresh) h k =
        connect-Balance k rest s (accept listen_fd s.world.net).0 refl head fresh (h k)
    Step-IsExclusive {s} (dispatches fd rest i head other) h k =
        dispatch-Balance k fd rest i s head (h k)
    Step-IsExclusive {s} (schedules {q} move) h k = omega (arith, h k, tasks-Schedule k move)
    Step-IsExclusive {s} (turns i fd goes_on w held turn) h k =
        goes_on-Balance k fd goes_on s.pool i s.batch s.opened held
          (next_request-Turn P fd s.world w goes_on turn) (h k)
    Step-IsExclusive {s} (checks w spares done) h k =
        check-Balance k s (descriptors P w) spares (check_connections-drops P s.world w done) (h k)

    pub Run-IsExclusive :
        {s t : Server P} → Run P accept listen_fd SparesBusy s t → IsExclusive s → IsExclusive t
    Run-IsExclusive stays h = h
    Run-IsExclusive (then_step run step) h = Step-IsExclusive step (Run-IsExclusive run h)
