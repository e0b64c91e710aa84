-- ===== src/Serving/Tests.antt =====
-- The server in operation, at concrete data.
use pick_up_the_light_server.Prelude.{◌+◌, ◌≤◌, ◌≡◌, refl, true, false, none, some, [], ◌∷◌, arith}
use pick_up_the_light_server.Outcome.{ok}
use pick_up_the_light_server.Table.{number_key, erase}
use pick_up_the_light_server.Evaluator as Table
use pick_up_the_light_server.Platform.{Platform, World}
use pick_up_the_light_server.Platform.Concrete.{null, concrete, quiet_world}
use pick_up_the_light_server.ThreadPool.{Pool, new_pool, ready}
use pick_up_the_light_server.MyServer.Accept.{Accept, Opening, open_listener}
use pick_up_the_light_server.Serving.{Server, check_connections, connect}
use pick_up_the_light_server.Epoll.Counts.{times}
use pick_up_the_light_server.Serving.Counts.{tasks}
use pick_up_the_light_server.Serving.Steps.{
  GivesFresh, Step, listens, connects, Run, stays, then_step,
}
use pick_up_the_light_server.Serving.Exclusive.{IsExclusive, SparesBusy}
use pick_up_the_light_server.Serving.Launch.{IsUnused, launch-exclusive}
use pick_up_the_light_server.Serving.Race.{check-two_tasks, AnyTime}
use pick_up_the_light_server.Serving.Phases.{phase, next}
use pick_up_the_light_server.Serving.Refinement.{event, launch-phases}

abbrev platform : Platform
platform = concrete null (λ query log. none)

-- Every byte of the network is a client that waits, with the next descriptor.
abbrev accept : Accept platform
accept listen_fd net = elim net.inbox [
  | [] ↦ (none, net)
  | b ∷ bs ↦ (some (record { fd = b + 1; address = []; port = 80 }), record net { inbox = bs })
]

abbrev unused : World platform
unused = record (quiet_world null (λ query log. none)) {
  evaluator = record { m_map = []; hang_ups = [] };
  net = record { inbox = 6 ∷ []; outbox = []; signals = 0 };
}

abbrev opening : Opening
opening = record { listen_fd = some 3; bound = true; listening = true }

abbrev three_ready : Pool
three_ready = record {
  task_q = [];
  workers = ready ∷ ready ∷ ready ∷ [];
  min_num = 3;
  max_num = 3;
  live_num = 3;
  busy_num = 0;
  destroy_num = 0;
  shutdown = false;
}

abbrev listening : World platform
listening = record unused { watched = 3 ∷ [] }

abbrev start : Server platform
start = record { world = listening; pool = three_ready; batch = []; opened = 3 ∷ [] }

opens : open_listener platform opening unused ≡ (ok (some 3), listening)
unfolding open_listener
opens = refl

makes : new_pool 3 ≡ ok three_ready
unfolding new_pool
makes = refl

unused-IsUnused : IsUnused platform unused
unused-IsUnused = record { no_connection = refl; no_event = refl; no_close = refl }

abbrev waiting_client : Server platform
waiting_client = record start { batch = 3 ∷ [] }

-- The event of the listening socket.
reported : Run platform accept 3 (SparesBusy platform) start waiting_client
reported = then_step stays (listens (3 ∷ []) refl (omega arith) (λ fd. omega arith))

fresh : GivesFresh platform accept 3 waiting_client
fresh c e = ground (arith, e)

takes :
    Step platform accept 3
      (SparesBusy platform)
      waiting_client
      (connect platform accept 3 [] waiting_client)
takes = connects [] refl fresh

launch-exclusive_example :
    (times 7 (connect platform accept 3 [] waiting_client).world.watched
        + tasks 7 (connect platform accept 3 [] waiting_client).pool
      ≤ 1)
    × (times 7 (connect platform accept 3 [] waiting_client).world.watched
          + tasks 7 (connect platform accept 3 [] waiting_client).pool
          + times 7 (connect platform accept 3 [] waiting_client).world.closed
        ≤ times 7 (connect platform accept 3 [] waiting_client).opened)
launch-exclusive_example =
    launch-exclusive platform accept opening 3 3 unused listening three_ready
      (connect platform accept 3 [] waiting_client) opens makes unused-IsUnused
      (then_step reported takes) 7

launch-phases_example :
    next (event platform accept 3 7 takes) (phase platform 7 waiting_client)
    ≡ some (phase platform 7 (connect platform accept 3 [] waiting_client))
launch-phases_example =
    launch-phases platform accept 3 opening 3 unused listening three_ready waiting_client
      (connect platform accept 3 [] waiting_client) opens makes unused-IsUnused reported takes 7

-- Connection 7 has a task in the queue, and has been silent for too long. A client waits.
abbrev silent : Server platform
silent = record {
  world = record listening {
    evaluator = record {
      m_map = (7, record { ip = []; user_id = []; num = 3 }) ∷ [];
      hang_ups = [];
    };
  };
  pool = record three_ready { task_q = 7 ∷ [] };
  batch = 3 ∷ [];
  opened = 7 ∷ 3 ∷ [];
}

abbrev checked : World platform
checked = record listening {
  evaluator = record { m_map = []; hang_ups = Table.epoll_delete 7 ∷ Table.close 7 ∷ [] };
  closed = 7 ∷ [];
}

silent-IsExclusive : IsExclusive platform silent
silent-IsExclusive k = ground arith

drops_it : check_connections platform silent.world ≡ (ok tt, checked)
unfolding check_connections erase
drops_it = refl

check-two_tasks_example :
    (t : Server platform) × Run platform accept 3 (AnyTime platform accept 3) silent t
    × (tasks 7 t.pool ≡ tasks 7 silent.pool + 1)
check-two_tasks_example =
    check-two_tasks platform accept 3 silent (record { fd = 7; address = []; port = 80 }) checked
      (record listening.net { inbox = [] }) (record listening.net { inbox = [] }) silent-IsExclusive
      refl refl drops_it (omega arith) (omega arith) (λ e. omega arith) refl refl
