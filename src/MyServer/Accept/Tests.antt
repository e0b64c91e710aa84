-- ===== src/MyServer/Accept/Tests.antt =====
-- Accepting at concrete data.
use pick_up_the_light_server.Prelude.{ℕ, ◌+◌, ◌<◌, ◌≡◌, refl, none, some, List, [], ◌∷◌, map, arith}
use pick_up_the_light_server.Outcome.{ok}
use pick_up_the_light_server.Platform.{Platform, World}
use pick_up_the_light_server.Platform.Concrete.{null, concrete, quiet_world}
use pick_up_the_light_server.MyServer.Accept.{Client, Accept, process_connect}
use pick_up_the_light_server.MyServer.Accept.Loop.{IsListening, enter_all, process_connect-all}

abbrev platform : Platform
platform = concrete null (λ query log. none)

-- Every byte of the network is a client that waits.
abbrev client : ℕ → Client
client b = record { fd = b + 1; address = b ∷ []; port = 80 }

abbrev accept : Accept platform
accept listen_fd net = elim net.inbox [
  | [] ↦ (none, net)
  | b ∷ bs ↦ (some (client b), record net { inbox = bs })
]

abbrev Net : Type 0
Net = platform.sockets.Net

taken :
    (net : Net) (inbox : List ℕ) (c : Client) (cs : List Client)
    → net.inbox ≡ inbox
    → map client inbox ≡ c ∷ cs
    → (accept 3 net ≡ (some c, (accept 3 net).1))
      × (map client (accept 3 net).1.inbox ≡ cs)
      × (0 < c.fd)
taken net [] c cs e h = ground (arith, h)
taken net (b ∷ bs) c cs e h = ground (arith, e, h)

none_left :
    (net : Net) (inbox : List ℕ)
    → net.inbox ≡ inbox
    → map client inbox ≡ []
    → accept 3 net ≡ (none, net)
none_left net [] e h = ground (arith, e)
none_left net (b ∷ bs) e h = ground (arith, h)

abbrev listening : IsListening platform accept 3
listening = record {
  queue = λ net. map client net.inbox;
  rest = λ net. (accept 3 net).1;
  next = λ net c cs h. taken net net.inbox c cs refl h;
  empty = λ net h. none_left net net.inbox refl h;
}

-- Two clients wait.
abbrev world : World platform
world = record (quiet_world null (λ query log. none)) {
  net = record { inbox = 10 ∷ 20 ∷ []; outbox = []; signals = 0 };
}

process_connect-all_example :
    (net' : Net) × (map client net'.inbox ≡ [])
    × (process_connect platform accept 5 3 world
        ≡ (ok tt, record (enter_all platform (client 10 ∷ client 20 ∷ []) world) { net = net' }))
process_connect-all_example =
    process_connect-all platform accept 3 listening (client 10 ∷ client 20 ∷ []) 5 world refl
      (omega arith)
