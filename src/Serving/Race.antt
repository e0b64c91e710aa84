-- ===== src/Serving/Race.antt =====
-- A check that does not spare a connection with a task: its descriptor is closed, and goes to the next
-- client while the task still has it.
use pick_up_the_light_server.Prelude.{
  ℕ, ◌+◌, ◌≤◌, ◌<◌, ◌≡◌, ◌≢◌, refl, subst, false, none, some, List, [], ◌∷◌, arith,
}
use pick_up_the_light_server.Outcome.{ok}
use pick_up_the_light_server.Table.{number_key}
use pick_up_the_light_server.Evaluator as Table
use pick_up_the_light_server.Platform.{Platform, World}
use pick_up_the_light_server.Epoll.{add_fd}
use pick_up_the_light_server.MyServer.Accept.{Client, Accept, welcome, process_single_connect}
use pick_up_the_light_server.MyServer.Accept.Loop.{enter}
use pick_up_the_light_server.Serving.{Server, check_connections, dispatch, connect}
use pick_up_the_light_server.Epoll.Counts.{times, times-watch}
use pick_up_the_light_server.Serving.Counts.{tasks, add_task-tasks_open}
use pick_up_the_light_server.Evaluator.Drops.{drops}
use pick_up_the_light_server.Serving.Checks.{check_connections-drops, times-close_all}
use pick_up_the_light_server.Serving.Steps.{
  GivesFresh, Step, listens, connects, dispatches, checks, Run, stays, then_step,
}
use pick_up_the_light_server.Serving.Exclusive.{IsExclusive}

module _ (P : Platform) (accept : Accept P) (listen_fd : ℕ) where
  -- The server after a client was accepted, and after none was.
  abbrev accepted : Client → P.sockets.Net → Server P → Server P
  accepted c net s = record s {
    world = record (enter P c s.world) { net = net };
    opened = c.fd ∷ s.opened;
  }

  abbrev refused : P.sockets.Net → List ℕ → Server P → Server P
  refused net rest s = record s { world = record s.world { net = net }; batch = rest }

  connect-accepted :
      (rest : List ℕ) (s : Server P) (c : Client) (net : P.sockets.Net)
      → accept listen_fd s.world.net ≡ (some c, net)
      → 0 < c.fd
      → connect P accept listen_fd rest s ≡ accepted c net s
  unfolding connect process_single_connect welcome add_fd Table.add
  connect-accepted rest s c net e positive = rw e (ground (arith, positive))

  connect-refused :
      (rest : List ℕ) (s : Server P) (net : P.sockets.Net)
      → accept listen_fd s.world.net ≡ (none, net)
      → connect P accept listen_fd rest s ≡ refused net rest s
  unfolding connect process_single_connect welcome
  connect-refused rest s net e = rw e refl

  abbrev pub AnyTime : Server P → Type 0
  AnyTime s = Unit

  gives_none :
      (s : Server P) (net : P.sockets.Net)
      → accept listen_fd s.world.net ≡ (none, net)
      → GivesFresh P accept listen_fd s
  gives_none s net e c h = absurd (ground (arith, e, h))

  gives_one :
      (s : Server P) (c : Client) (net : P.sockets.Net)
      → accept listen_fd s.world.net ≡ (some c, net)
      → times c.fd s.opened ≤ times c.fd s.world.closed
      → GivesFresh P accept listen_fd s
  gives_one s c net e fresh d h =
      let same : c ≡ d = ground (arith, e, h) in
      subst (λ (x : Client). times x.fd s.opened ≤ times x.fd s.world.closed) same fresh

  -- Where a connection is dropped by a check while a task for it is queued or at work, and the kernel
  -- gives its number to the next client, the first data of that client brings a second task for the
  -- same descriptor: the old task and the new one then read from the new client's connection.
  pub check-two_tasks :
      (s : Server P) (c : Client) (w : World P) (net net' : P.sockets.Net)
      → IsExclusive P s
      → s.batch ≡ listen_fd ∷ []
      → s.pool.shutdown ≡ false
      → check_connections P s.world ≡ (ok tt, w)
      → 1 ≤ times c.fd (drops s.world.evaluator.m_map)
      → 0 < c.fd
      → c.fd ≢ listen_fd
      → accept listen_fd w.net ≡ (some c, net)
      → accept listen_fd net ≡ (none, net')
      → (t : Server P) × Run P accept listen_fd AnyTime s t
        × (tasks c.fd t.pool ≡ tasks c.fd s.pool + 1)
  unfolding dispatch
  check-two_tasks s c w net net' exclusive head open_ checked silent positive other first second =
      let s1 : Server P = record s { world = w } in
      let s2 = accepted c net s1 in
      let s3 = refused net' [] s2 in
      let s4 : Server P = record s3 { batch = c.fd ∷ [] } in
      let fds = drops s.world.evaluator.m_map in
      let closed : times c.fd w.closed ≡ times c.fd fds + times c.fd s.world.closed = ground (
        arith,
        check_connections-drops P s.world w checked,
        times-close_all c.fd fds s.world.closed,
      ) in
      let fresh : times c.fd s1.opened ≤ times c.fd s1.world.closed =
        omega (arith, closed, (exclusive c.fd).once, silent) in
      let run1 : Run P accept listen_fd AnyTime s s1 = then_step stays (checks w tt checked) in
      let run2 : Run P accept listen_fd AnyTime s s2 = then_step run1 (
        subst (Step P accept listen_fd AnyTime s1) (connect-accepted [] s1 c net first positive)
          (connects [] head (gives_one s1 c net first fresh))) in
      let run3 : Run P accept listen_fd AnyTime s s3 = then_step run2 (
        subst (Step P accept listen_fd AnyTime s2) (connect-refused [] s2 net' second)
          (connects [] head (gives_none s2 net' second))) in
      let run4 : Run P accept listen_fd AnyTime s s4 = then_step run3 (
        listens (c.fd ∷ []) refl (omega arith)
          (λ k. ground (arith, times-watch c.fd k w.watched))) in
      (
        dispatch P c.fd [] 0 s4,
        then_step run4 (dispatches c.fd [] 0 refl other),
        ground (arith, add_task-tasks_open c.fd s.pool c.fd 0 open_),
      )
