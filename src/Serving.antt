-- ===== src/Serving.antt =====
-- The server on epoll in operation: the loop of `launch` in myserver.cpp, the thread pool whose
-- tasks are `processClientRequest`, and the thread that checks the heartbeats.
pub mod Counts
pub mod Steps
pub mod Turns
pub mod Checks
pub mod Exclusive
pub mod Launch
pub mod Race
pub mod Phases
pub mod Refinement
mod Tests
use pick_up_the_light_server.Prelude.{
  ℕ, Bool, true, false, Option, none, some, List, [], ◌∷◌, ◌++◌, if◌then◌else◌,
}
use pick_up_the_light_server.Prelude.Int.{ℤ, pos, negsuc}
use pick_up_the_light_server.Outcome.{Outcome, ok, Exec, pure, modify, gets, ◌>>=◌, ◌>>◌}
use pick_up_the_light_server.Table.{number_key}
use pick_up_the_light_server.Evaluator as Table
use pick_up_the_light_server.Evaluator.{HangUp, epoll_delete, close, Evaluator}
use pick_up_the_light_server.Platform.{Platform, World, Run}
use pick_up_the_light_server.Epoll.{delete_fd}
use pick_up_the_light_server.ThreadPool.{Pool, add_task, return_task}
use pick_up_the_light_server.MyServer.Accept.{Client, Accept, is_positive, process_single_connect}

-- The task of a descriptor is known by its number. `batch` holds the events that `epoll_wait` has
-- reported and that the loop has not come to, `opened` the descriptors that the kernel has given
-- out, the latest first.
pub record Server (P : Platform) : Type 0 where
  pub world : World P
  pub pool : Pool
  pub batch : List ℕ
  pub opened : List ℕ

module _ (P : Platform) where
  -- What the check does outside the table.
  unfoldable pub hang_up_all : List (HangUp ℕ) → Run P Unit
  unfolding delete_fd
  hang_up_all [] = pure tt
  hang_up_all (epoll_delete fd ∷ rest) = delete_fd P fd >> hang_up_all rest
  hang_up_all (close fd ∷ rest) =
      modify (λ w. record w { closed = fd ∷ w.closed }) >> hang_up_all rest

  -- A round of a thread that checks the heartbeats, with its effects on epoll and on the
  -- descriptors.
  unfoldable pub check_with : Exec (Evaluator ℕ) (Unit {0}) → Run P Unit
  unfolding hang_up_all
  check_with check w =
      let (r, e) = check (record w.evaluator { hang_ups = [] }) in
      ((λ v. (r, v)) >> hang_up_all e.hang_ups)
        (record w { evaluator = record e { hang_ups = w.evaluator.hang_ups ++ e.hang_ups } })

  -- The thread that `UserStatusEvaluator::start` launches.
  unfoldable pub check_connections : Run P Unit
  unfolding check_with Table.check
  check_connections = check_with Table.check

  -- The branch of the loop of `launch` for a client's descriptor. `add_task` wakes the thread in
  -- slot `i`, if one sleeps there.
  unfoldable pub dispatch : ℕ → List ℕ → ℕ → Server P → Server P
  unfolding delete_fd add_task
  dispatch fd rest i s = record s {
    world = (delete_fd P fd s.world).1;
    pool = add_task s.pool fd i;
    batch = rest;
  }

  -- A thread of the pool after one turn of the loop of `processClientRequest`, which returns where the
  -- loop does not go on. The task is through with that turn, whose last call has put the descriptor
  -- back or closed it: what is left is to return, and, in a later step, to take the lock of the pool and
  -- count that. The main thread may start the next task of the descriptor before these.
  unfoldable pub after_turn : ℕ → Bool → World P → Server P → Server P
  unfolding return_task
  after_turn i goes_on w s = record s {
    world = w;
    pool = if goes_on then s.pool else return_task s.pool i;
  }

  module _ (accept : Accept P) where
    -- The branch for the listening descriptor, one call of `processSingleConnect` at a time: the loop
    -- of `processConnect` stays at the event as long as the value is positive.
    unfoldable pub connect : ℕ → List ℕ → Server P → Server P
    unfolding process_single_connect
    connect listen_fd rest s =
        let (r, w) = process_single_connect P accept listen_fd s.world in
        let fds = (accept listen_fd s.world.net).0 in
        record s {
          world = w;
          batch = elim r [ ok n ↦ if is_positive P accept n then s.batch else rest | _ ↦ rest ];
          opened = elim fds [ none ↦ s.opened | some c ↦ c.fd ∷ s.opened ];
        }
