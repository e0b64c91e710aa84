-- ===== src/BoostServer/Served.antt =====
-- The connections of the server on boost::asio, from its launch on.
use pick_up_the_light_server.Prelude.{ℕ, ◌+◌, ◌≤◌, ◌≡◌, List}
use pick_up_the_light_server.Outcome.{Outcome}
use pick_up_the_light_server.Text.{Bytes}
use pick_up_the_light_server.Table.{number_key}
use pick_up_the_light_server.Table.Laws.{keys}
use pick_up_the_light_server.Evaluator as Table
use pick_up_the_light_server.Evaluator.{Info, HangUp, close, check_boost}
use pick_up_the_light_server.Epoll.Counts.{times}
use pick_up_the_light_server.Platform.{Platform}
use pick_up_the_light_server.MyServer.Frame.{Descriptors, descriptors}
use pick_up_the_light_server.BoostServer.{Boost}

-- The account of one socket object: how often it has a session that waits, is in the table of
-- connections, and was closed.
pub record Account (waiting known closed : ℕ) : Type 0 where
  pub single : waiting ≤ 1
  pub monitored : waiting ≤ known + closed

module _ (P : Platform) where
  abbrev AccountAt : ℕ → List (ℕ × Bytes) → Descriptors → Type 0
  AccountAt k sessions d = Account (times k (keys sessions)) (times k d.0) (times k d.2)

  pub record IsServed (b : Boost P) : Type 0 where
    pub account : (k : ℕ) → AccountAt k b.sessions (descriptors P b.world)
    pub unused :
        (k : ℕ)
        → b.accepting ≤ k
        → (times k (keys b.sessions) ≡ 0) × (times k (keys b.world.evaluator.m_map) ≡ 0)
