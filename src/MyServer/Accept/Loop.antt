-- ===== src/MyServer/Accept/Loop.antt =====
-- The loop that accepts, on a listening socket with a queue of clients.
use pick_up_the_light_server.Prelude.{
  ℕ, zero, suc, ◌<◌, ◌≡◌, refl, none, some, List, [], ◌∷◌, arith, length,
}
use pick_up_the_light_server.Outcome.{ok}
use pick_up_the_light_server.Table.{number_key, insert}
use pick_up_the_light_server.Evaluator as Table
use pick_up_the_light_server.Platform.{Platform, World}
use pick_up_the_light_server.Epoll.{watch, add_fd}
use pick_up_the_light_server.MyServer.Accept.{
  Client, Accept, ip_of, welcome, process_single_connect, process_connect,
}

-- A listening socket with the clients that wait at it, the next first. Its descriptors are positive:
-- descriptor 0 is the standard input.
pub record IsListening (P : Platform) (accept : Accept P) (listen_fd : ℕ) : Type 0 where
  pub queue : P.sockets.Net → List Client
  pub rest : P.sockets.Net → P.sockets.Net
  pub next :
      (net : P.sockets.Net) (c : Client) (cs : List Client)
      → queue net ≡ c ∷ cs
      → (accept listen_fd net ≡ (some c, rest net)) × (queue (rest net) ≡ cs) × (0 < c.fd)
  pub empty : (net : P.sockets.Net) → queue net ≡ [] → accept listen_fd net ≡ (none, net)

module _ (P : Platform) where
  -- A client in the table of connections and in epoll.
  abbrev pub enter : Client → World P → World P
  enter c w = record w {
    evaluator = record w.evaluator {
      m_map = insert c.fd (Table.new_info (ip_of c)) w.evaluator.m_map;
    };
    watched = watch c.fd w.watched;
  }

  abbrev pub enter_all : List Client → World P → World P
  enter_all [] w = w
  enter_all (c ∷ cs) w = enter_all cs (enter c w)

  enter_all-net :
      (cs : List Client) (w : World P) (m n : P.sockets.Net)
      → ◌≡◌ {A = World P}
          (record (enter_all cs (record w { net = m })) { net = n })
          (record (enter_all cs w) { net = n })
  enter_all-net [] w m n = refl
  enter_all-net (c ∷ cs) w m n = enter_all-net cs (enter c w) m n

  module _ (accept : Accept P) (listen_fd : ℕ) (I : IsListening P accept listen_fd) where
    -- The loop ends, given more rounds than clients wait. By then every client that waited is in the
    -- table of connections with a fresh counter, and in epoll, in the order of arrival; none waits any
    -- longer, and nothing else has changed.
    pub process_connect-all :
        (cs : List Client) (rounds : ℕ) (w : World P)
        → I.queue w.net ≡ cs
        → length cs < rounds
        → (net' : P.sockets.Net) × (I.queue net' ≡ [])
          × (process_connect P accept rounds listen_fd w
              ≡ (ok tt, record (enter_all cs w) { net = net' }))
    unfolding process_connect process_single_connect welcome add_fd Table.add
    process_connect-all [] (suc rounds) w q enough = (w.net, q, rw (I.empty w.net q) refl)
    process_connect-all (c ∷ cs) (suc rounds) w q enough =
        let (taken, left, positive) = I.next w.net c cs q in
        let (net', none_left, loop) =
          process_connect-all cs rounds (record (enter c w) { net = I.rest w.net }) left
            (omega arith) in
        (
          net',
          none_left,
          rw taken
              (ground (arith, positive, loop, enter_all-net cs (enter c w) (I.rest w.net) net')),
        )
    process_connect-all cs zero w q enough = elim enough [ ]
