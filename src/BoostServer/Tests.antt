-- ===== src/BoostServer/Tests.antt =====
-- The server on boost::asio at concrete data.
use pick_up_the_light_server.Prelude.{none, List, [], ◌∷◌}
use pick_up_the_light_server.Table.{number_key}
use pick_up_the_light_server.Platform.{Platform, World}
use pick_up_the_light_server.Platform.Concrete.{null, concrete, quiet_world}
use pick_up_the_light_server.Session.{received, eof, other_error}
use pick_up_the_light_server.BoostServer.{
  Boost, connected, failed, BoostEvent, arrives, completes, checks,
}

abbrev platform : Platform
platform = concrete null (λ query log. none)

abbrev world : World platform
world = record (quiet_world null (λ query log. none)) {
  evaluator = record { m_map = []; hang_ups = [] };
}

-- Three clients come, one try to accept fails; the first client sends a heartbeat and is checked, the
-- second closes its connection, and the third is cut off by an error.
abbrev events : List BoostEvent
events =
    arrives connected
    ∷ arrives connected
    ∷ arrives failed
    ∷ arrives connected
    ∷ completes 1 (received (0 ∷ 0 ∷ 0 ∷ 0 ∷ 0 ∷ 0 ∷ 0 ∷ 0 ∷ []))
    ∷ checks
    ∷ completes 2 eof
    ∷ completes 4 other_error
    ∷ []

abbrev after : Boost platform
after = record {
  world = record world {
    evaluator = record {
      m_map =
          (4, record { ip = []; user_id = []; num = 1 })
          ∷ (1, record { ip = []; user_id = []; num = 1 })
          ∷ [];
      hang_ups = [];
    };
    closed = 2 ∷ [];
  };
  sessions = (1, 0 ∷ 0 ∷ 0 ∷ 0 ∷ 0 ∷ 0 ∷ 0 ∷ 0 ∷ []) ∷ [];
  accepting = 5;
}
