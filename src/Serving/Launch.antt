-- ===== src/Serving/Launch.antt =====
-- The server from its launch on.
use pick_up_the_light_server.Prelude.{ℕ, ◌+◌, ◌-◌, ◌≤◌, ◌≡◌, some, [], ◌∷◌, arith, replicate}
use pick_up_the_light_server.Outcome.{ok}
use pick_up_the_light_server.Table.{number_key}
use pick_up_the_light_server.Platform.{Platform, World}
use pick_up_the_light_server.Epoll.{add_fd}
use pick_up_the_light_server.ThreadPool.{Pool, new_pool, ready, absent}
use pick_up_the_light_server.ThreadPool.Slots.{count-append, count-replicate}
use pick_up_the_light_server.MyServer.Accept.{Accept, Opening, open_listener}
use pick_up_the_light_server.Serving.{Server}
use pick_up_the_light_server.Epoll.Counts.{times}
use pick_up_the_light_server.Serving.Counts.{tasks, holds}
use pick_up_the_light_server.Serving.Steps.{Run}
use pick_up_the_light_server.Serving.Exclusive.{IsExclusive, SparesBusy, Run-IsExclusive}

new_pool-tasks : (k cores : ℕ) (p : Pool) → new_pool cores ≡ ok p → tasks k p ≡ 0
unfolding new_pool
new_pool-tasks k cores p h = ground (
  arith,
  h,
  count-append (holds k) (replicate 3 ready) (replicate (cores - 3) absent),
  count-replicate (holds k) (cores - 3) absent,
)

module _ (P : Platform) where
  -- No connection has been made, and nothing is watched.
  pub record IsUnused (w : World P) : Type 0 where
    pub no_connection : w.evaluator.m_map ≡ []
    pub no_event : w.watched ≡ []
    pub no_close : w.closed ≡ []

  opened-world :
      (o : Opening) (listen_fd : ℕ) (v w : World P)
      → open_listener P o v ≡ (ok (some listen_fd), w)
      → IsUnused v
      → (w.evaluator.m_map ≡ []) × (w.watched ≡ listen_fd ∷ []) × (w.closed ≡ [])
  unfolding open_listener add_fd
  opened-world o listen_fd v w h u = ground (arith, u.no_event, u.no_close, u.no_connection)

  pub launched :
      (o : Opening) (cores listen_fd : ℕ) (v w : World P) (p : Pool)
      → open_listener P o v ≡ (ok (some listen_fd), w)
      → new_pool cores ≡ ok p
      → IsUnused v
      → IsExclusive P (record { world = w; pool = p; batch = []; opened = listen_fd ∷ [] })
  launched o cores listen_fd v w p h made u k =
      let (a, b, c) = opened-world o listen_fd v w h u in
      ground (arith, a, b, c, new_pool-tasks k cores p made)

  -- From the launch of the server on, in every interleaving of the main thread, the threads of the
  -- pool and checks that spare the connections that have a task or an event to come: a descriptor has
  -- one task at most that is queued or has not made its last call, which puts the descriptor back or
  -- closes it, and is not watched while it has such a task, and one that is watched or has such a task
  -- is open.
  pub launch-exclusive :
      (accept : Accept P) (o : Opening) (cores listen_fd : ℕ) (v w : World P) (p : Pool)
      (s : Server P)
      → open_listener P o v ≡ (ok (some listen_fd), w)
      → new_pool cores ≡ ok p
      → IsUnused v
      → Run P accept listen_fd
          (SparesBusy P)
          (record { world = w; pool = p; batch = []; opened = listen_fd ∷ [] })
          s
      → (fd : ℕ)
      → (times fd s.world.watched + tasks fd s.pool ≤ 1)
        × (times fd s.world.watched + tasks fd s.pool + times fd s.world.closed ≤ times fd s.opened)
  launch-exclusive accept o cores listen_fd v w p s h made u run fd =
      let b =
        Run-IsExclusive P accept listen_fd run (launched o cores listen_fd v w p h made u) fd in
      omega (arith, b.tied, b.once)
