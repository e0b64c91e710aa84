-- ===== src/BoostServer.antt =====
-- boostserver.h, boostserver.cpp and main.cpp: the server on boost::asio, from `main` on. A handler
-- that a thread of the `io_context` runs is one step.
pub mod Endings
pub mod Served
mod Tests
use pick_up_the_light_server.Prelude.{
  ℕ, ◌+◌, Bool, true, false, Option, none, some, List, [], ◌∷◌, ◌++◌, ◌==◌, if◌then◌else◌,
}
use pick_up_the_light_server.Outcome.{
  Outcome, ok, throws, system_error, Exec, pure, throw, modify, ◌>>=◌, ◌>>◌,
}
use pick_up_the_light_server.Text.{Bytes, bytes}
use pick_up_the_light_server.Table.{Table, number_key, lookup, insert, erase, adjust}
use pick_up_the_light_server.Evaluator as Table
use pick_up_the_light_server.Evaluator.{add_boost, check_boost}
use pick_up_the_light_server.Platform.{Platform, World, Run, on_evaluator}
use pick_up_the_light_server.Database.{init_data_base}
use pick_up_the_light_server.Serving.{check_with}
use pick_up_the_light_server.Session.{Completion, on_receive}

-- The socket objects are numbered as they are made: `accepting` is the one that waits for a client.
-- `sessions` are the waits for a header that have not completed, the latest first: the socket object,
-- and the bytes that the session's `m_pheader` has. A second wait on one socket object would be a
-- second entry.
pub record Boost (P : Platform) : Type 0 where
  pub world : World P
  pub sessions : List (ℕ × Bytes)
  pub accepting : ℕ

-- How an `async_accept` completes. A client that has gone by then makes `remote_endpoint` throw, in
-- the handler or in the constructor of the session.
pub data Arrival : Type 0 where
  connected : Arrival
  gone : Arrival
  gone_before_session : Arrival
  failed : Arrival

pub data BoostEvent : Type 0 where
  arrives : Arrival → BoostEvent
  completes : ℕ → Completion → BoostEvent
  checks : BoostEvent

-- The waits without the first one on the socket object.
unfoldable pub take_wait : ℕ → List (ℕ × Bytes) → List (ℕ × Bytes)
take_wait socket_ptr [] = []
take_wait socket_ptr (wait ∷ waits) =
    let rest = take_wait socket_ptr waits in if wait.0 == socket_ptr then waits else wait ∷ rest

module _ (P : Platform) where
  -- `create_directory`, which throws where a parent is missing.
  abbrev pub CreateDirectory : Type 0
  CreateDirectory = Bytes → P.files.Disk → Bool × P.files.Disk

  -- The `try` block of `main`: the first failure ends it.
  unfoldable pub create_all : CreateDirectory → List Bytes → Run P Unit
  create_all create [] w = (ok tt, w)
  create_all create (path ∷ paths) w =
      let (done, disk') = create path w.disk in
      let rest = create_all create paths (record w { disk = disk' }) in
      elim done [ true ↦ rest | false ↦ (ok tt, record w { disk = disk' }) ]

  -- `main` until it starts the server.
  unfoldable pub prepare : CreateDirectory → Run P Unit
  unfolding create_all init_data_base bytes
  prepare create =
      create_all create (
        bytes "/root/my_test/MyServer/cache/profilePicture/"
        ∷ bytes "/root/my_test/MyServer/cache/chatPicture/"
        ∷ bytes "/root/my_test/MyServer/cache/previewPicture/"
        ∷ bytes "/opt/nginx-video/"
        ∷ [])
      >> init_data_base P

  abbrev pub on_world : {A : Type 0} → Run P A → Exec (Boost P) A
  on_world m s = let (r, w) = m s.world in (r, record s { world = w })

  -- `start_accept`: a new socket object waits for a client.
  unfoldable pub start_accept : Exec (Boost P) Unit
  start_accept = modify (λ s. record s { accepting = s.accepting + 1 })

  -- `std::make_shared<Session>(socket_ptr)->start()`. The header is not initialised.
  unfoldable pub start_session : ℕ → Exec (Boost P) Unit
  start_session socket_ptr =
      modify (λ s. record s { sessions = (socket_ptr, P.garbage 8) ∷ s.sessions })

  -- The handler of `async_accept`, for the socket object that waited.
  unfoldable pub on_accept : ℕ → Arrival → Exec (Boost P) Unit
  unfolding start_accept start_session add_boost
  on_accept socket_ptr connected = do
    noted ← on_world (on_evaluator P (add_boost socket_ptr))
    started ← start_session socket_ptr
    start_accept
  on_accept socket_ptr gone = throw system_error
  on_accept socket_ptr gone_before_session =
      on_world (on_evaluator P (add_boost socket_ptr)) >> throw system_error
  on_accept socket_ptr failed = start_accept

  -- What `processClientRequest` of the session does at the end of its handler: it waits for the next
  -- header, or not.
  unfoldable pub wait_again : ℕ → Option Bytes → Exec (Boost P) Unit
  wait_again socket_ptr none = pure tt
  wait_again socket_ptr (some m_pheader) =
      modify (λ s. record s { sessions = (socket_ptr, m_pheader) ∷ s.sessions })

  -- A completion reaches a session that waits for one, and ends that wait.
  unfoldable pub on_completion : ℕ → Completion → Option Bytes → Exec (Boost P) Unit
  unfolding wait_again on_receive take_wait
  on_completion socket_ptr c none s = (ok tt, s)
  on_completion socket_ptr c (some m_pheader) s =
      (on_world (on_receive P socket_ptr m_pheader c) >>= wait_again socket_ptr)
        (record s { sessions = take_wait socket_ptr s.sessions })

  -- One round of the thread that `UserStatusEvaluator::start_boost` launches.
  unfoldable pub check_sockets : Run P Unit
  unfolding check_with check_boost
  check_sockets = check_with P check_boost

  unfoldable pub handle : BoostEvent → Exec (Boost P) Unit
  unfolding on_accept on_completion check_sockets lookup
  handle (arrives a) s = on_accept s.accepting a s
  handle (completes socket_ptr c) s = on_completion socket_ptr c (lookup socket_ptr s.sessions) s
  handle checks s = on_world check_sockets s

  -- The server until a handler throws, which ends the process.
  unfoldable pub run : List BoostEvent → Exec (Boost P) Unit
  unfolding handle
  run [] = pure tt
  run (event ∷ events) = handle event >> run events

  -- `launch` of `BoostServer`, in the world that `prepare` has left.
  unfoldable pub launch : World P → List BoostEvent → Outcome (Unit {0}) × Boost P
  unfolding run start_accept
  launch w events =
      (start_accept >> run events) (record { world = w; sessions = []; accepting = 0 })
