-- ===== src/Serving/Phases.antt =====
-- The life of a descriptor, as the server on epoll means it: a state machine with four phases, and a fifth
-- for what must not happen.
use pick_up_the_light_server.Prelude.{
  ℕ, ◌+◌, ◌==◌, ◌≡◌, ap, Bool, true, false, ltb, Option, none, some, List, ◌∷◌, arith, get_elem?,
  if◌then◌else◌,
}
use pick_up_the_light_server.Table.{number_key}
use pick_up_the_light_server.Table.Laws.{keys}
use pick_up_the_light_server.Evaluator as Table
use pick_up_the_light_server.Platform.{Platform}
use pick_up_the_light_server.Epoll.{add_fd, delete_fd}
use pick_up_the_light_server.ThreadPool.{Pool, working, return_task}
use pick_up_the_light_server.MyServer.Accept.{Client, Accept, welcome, process_single_connect}
use pick_up_the_light_server.MyServer.Frame.{Descriptors, descriptors}
use pick_up_the_light_server.Serving.{Server, dispatch, connect}
use pick_up_the_light_server.Epoll.Counts.{times, times-watch, times-unwatch}
use pick_up_the_light_server.Serving.Counts.{tasks, add_task-tasks_open, return_task-tasks}
use pick_up_the_light_server.Serving.Turns.{
  Event, quiet, accepted, reported, request, part, no_data, peer_gone, silent, Turn, goes, strands,
  rearms, leaves,
}
use pick_up_the_light_server.Evaluator.Drops.{drops, times-unwatch_all, times-drops, unwatch_all}
use pick_up_the_light_server.Serving.Checks.{times-close_all, close_all}
use pick_up_the_light_server.Serving.Steps.{GivesFresh}
use pick_up_the_light_server.Serving.Exclusive.{BalanceAt, SparesBusy}

pub data Phase : Type 0 where
  shut : Phase  -- not open
  idle : Phase  -- open and in epoll
  busy : Phase  -- open, with a task that is queued or has not made its last call
  lost : Phase  -- open, but neither in epoll nor with a task
  stray : Phase  -- not open or with a task, but in epoll, or not open but with a task

-- The state machine. A lost connection is not served again: it is lost until it is closed.
abbrev pub next : Event → Phase → Option Phase
next quiet shut = some shut
next quiet idle = some idle
next quiet busy = some busy
next quiet lost = some lost
next accepted shut = some idle
next reported idle = some busy
next request busy = some busy
next part busy = some lost
next no_data busy = some idle
next peer_gone busy = some shut
next silent idle = some shut
next silent lost = some shut
next _ _ = none

abbrev pub phase_of : (watched at_task closed opened : ℕ) → Phase
phase_of watched at_task closed opened =
    if ltb closed opened
    then (if ltb 0 watched
        then (if ltb 0 at_task then stray else idle)
        else (if ltb 0 at_task then busy else lost))
    else (if ltb 0 (watched + at_task) then stray else shut)

module _ (P : Platform) where
  abbrev pub phase_at : ℕ → Descriptors → Pool → List ℕ → Phase
  phase_at k d pool opened = phase_of (times k d.1) (tasks k pool) (times k d.2) (times k opened)

  abbrev pub phase : ℕ → Server P → Phase
  phase k s = phase_at k (descriptors P s.world) s.pool s.opened

  pub quiet-phase :
      (k : ℕ) (s : Server P)
      → BalanceAt P k (descriptors P s.world) s.pool s.batch s.opened
      → next quiet (phase k s) ≡ some (phase k s)
  quiet-phase k s b = ground (arith, b)

  abbrev pub event_if : Bool → Event → Event
  event_if true event = event
  event_if false event = quiet

  pub dispatch-phase :
      (k fd : ℕ) (rest : List ℕ) (i : ℕ) (s : Server P)
      → s.batch ≡ fd ∷ rest
      → s.pool.shutdown ≡ false
      → BalanceAt P k (descriptors P s.world) s.pool s.batch s.opened
      → next (event_if (fd == k) reported) (phase k s) ≡ some (phase k (dispatch P fd rest i s))
  unfolding dispatch delete_fd
  dispatch-phase k fd rest i s e open_ b = ground (
    arith,
    b,
    ap (times k) e,
    times-unwatch fd k s.world.watched,
    add_task-tasks_open k s.pool fd i open_,
  )

  pub phase-Turn :
      (k fd : ℕ) {d e : Descriptors} {event : Event} (goes_on : Bool) (p : Pool) (i : ℕ)
      (batch opened : List ℕ)
      → get_elem? p.workers i ≡ some (working fd)
      → Turn fd d e event goes_on
      → BalanceAt P k d p batch opened
      → next (event_if (fd == k) event) (phase_at k d p opened)
        ≡ some (phase_at k e (if goes_on then p else return_task p i) opened)
  phase-Turn k fd {d} {e} true p i batch opened h (goes same) b =
      ground (arith, same, b, return_task-tasks k p i fd h)
  phase-Turn k fd {d} {e} false p i batch opened h (strands same) b =
      ground (arith, same, b, return_task-tasks k p i fd h)
  phase-Turn k fd {d} {e} false p i batch opened h (rearms new) b =
      ground (arith, new, b, times-watch fd k d.1, return_task-tasks k p i fd h)
  phase-Turn k fd {d} {e} false p i batch opened h (leaves in_table new) b =
      ground (arith, new, b, times-unwatch fd k d.1, return_task-tasks k p i fd h)

  pub check-phase :
      (k : ℕ) (s : Server P) (d : Descriptors)
      → SparesBusy P s
      → (let fds = drops s.world.evaluator.m_map in
          d ≡ (
            unwatch_all fds (keys s.world.evaluator.m_map),
            unwatch_all fds s.world.watched,
            close_all fds s.world.closed,
          ))
      → BalanceAt P k (descriptors P s.world) s.pool s.batch s.opened
      → next (event_if (ltb 0 (times k (drops s.world.evaluator.m_map))) silent) (phase k s)
        ≡ some (phase_at k d s.pool s.opened)
  check-phase k s d spares e b =
      let fds = drops s.world.evaluator.m_map in
      ground (
        arith,
        e,
        b,
        spares k,
        times-unwatch_all k fds s.world.watched,
        times-close_all k fds s.world.closed,
        times-drops k s.world.evaluator.m_map,
      )

  abbrev pub accept_event : ℕ → Option Client → Event
  accept_event k none = quiet
  accept_event k (some c) = event_if (c.fd == k) accepted

  module _ (accept : Accept P) (listen_fd : ℕ) where
    pub connect-phase :
        (k : ℕ) (rest : List ℕ) (s : Server P) (client : Option Client)
        → (accept listen_fd s.world.net).0 ≡ client
        → GivesFresh P accept listen_fd s
        → BalanceAt P k (descriptors P s.world) s.pool s.batch s.opened
        → next (accept_event k client) (phase k s)
          ≡ some (phase k (connect P accept listen_fd rest s))
    unfolding connect process_single_connect welcome add_fd Table.add
    connect-phase k rest s none e fresh b = ground (arith, e, b)
    connect-phase k rest s (some c) e fresh b =
        ground (arith, e, b, fresh c e, times-watch c.fd k s.world.watched)
