-- ===== src/MyServer/Tests.antt =====
-- Theorems on the server at concrete data.
use pick_up_the_light_server.Prelude.{◌≡◌, Option, none, [], ◌∷◌, ◌++◌, arith}
use pick_up_the_light_server.Outcome.{ok}
use pick_up_the_light_server.Text.{Bytes}
use pick_up_the_light_server.Table.{number_key}
use pick_up_the_light_server.Protocol.{login}
use pick_up_the_light_server.Transfer.Pipe.{pipe-IsStream, interrupts-pipe}
use pick_up_the_light_server.Platform.{Platform, World}
use pick_up_the_light_server.Platform.Concrete.{null, values, concrete}
use pick_up_the_light_server.MyServer.{read_packet, process_single_request}
use pick_up_the_light_server.MyServer.Requests.{read_packet-fits}
use pick_up_the_light_server.MyServer.Framing.{request}
use pick_up_the_light_server.MyServer.Frame.{descriptors, process_single_request-descriptors}

-- A platform on which no text is JSON.
abbrev platform : Platform
platform =
    let p = concrete null (λ query log. none) in
    record p { json = record (values null) { parse = λ bs. none } }

-- Connection 7 is watched, and `inbox` is what its client has sent.
abbrev world : Bytes → World platform
world inbox = record {
  db = [];
  disk = [];
  net = record { inbox = inbox; outbox = []; signals = 1 };
  live_list = [];
  evaluator = record { m_map = (7, record { ip = []; user_id = []; num = 0 }) ∷ []; hang_ups = [] };
  id_worker = record {
    worker_id = 0;
    datacenter_id = 0;
    sequence = 0;
    last_timestamp = 0;
    reads = 0;
  };
  watched = 7 ∷ [];
  closed = [];
}

abbrev drained : World platform
drained = record (world []) { net = record { inbox = []; outbox = []; signals = 0 } }

read_packet-fits_example :
    (r : Option Bytes) × (w' : World platform) × (read_packet platform 7 20 (world (88 ∷ 88 ∷ []))
      ≡ (ok r, w'))
read_packet-fits_example =
    read_packet-fits platform pipe-IsStream 7 20 (world (88 ∷ 88 ∷ [])) (omega arith)
      (omega (arith, interrupts-pipe (world (88 ∷ 88 ∷ [])).net))

-- A login with two bytes of data, and the first byte of what comes behind it.
abbrev body : Bytes
body = 88 ∷ 89 ∷ []

abbrev with_login : World platform
with_login = world (request login body ++ 1 ∷ [])

abbrev after_header : platform.sockets.Net
after_header = record { inbox = 88 ∷ 89 ∷ 1 ∷ []; outbox = []; signals = 0 }

process_single_request-descriptors_example :
    descriptors platform
      (process_single_request platform 7
        (record { purpose = 2; data_size = 2 })
        (record with_login { net = after_header })).1
    ≡ (7 ∷ [], 7 ∷ [], [])
process_single_request-descriptors_example =
    process_single_request-descriptors platform 7 (record { purpose = 2; data_size = 2 })
      (record with_login { net = after_header })
