-- ===== src/Transfer/Tests.antt =====
-- Runs of the transfer loops over sockets in memory, and their theorems at concrete data.
use pick_up_the_light_server.Prelude.{◌≡◌, refl, [], ◌∷◌, arith}
use pick_up_the_light_server.Prelude.Int.{ℤ, pos, negsuc}
use pick_up_the_light_server.Outcome.{ok, waiting}
use pick_up_the_light_server.Text.{Bytes}
use pick_up_the_light_server.Transfer.{blocking, Filled, my_recv, my_send}
use pick_up_the_light_server.Transfer.Receive.{Reads, my_recv-Reads}
use pick_up_the_light_server.Transfer.Receive.Rounds.{my_recv-ends}
use pick_up_the_light_server.Transfer.Send.{Delivers, my_send-Delivers, my_send-ends}
use pick_up_the_light_server.Transfer.Pipe.{
  Pipe, pipe_sockets, pipe-IsStream, pipe-IsSink, interrupts-pipe, breaks-pipe,
}

abbrev pipe : Pipe
pipe = record { inbox = 1 ∷ 2 ∷ 3 ∷ 4 ∷ 5 ∷ []; outbox = 9 ∷ []; signals = 2 }

abbrev emptied : Pipe
emptied = record { inbox = []; outbox = 9 ∷ []; signals = 0 }

abbrev message : Bytes
message = 6 ∷ 7 ∷ 8 ∷ 9 ∷ []

-- Seven bytes are asked for, and five come before the end of the stream.
short_read :
    my_recv pipe_sockets 9 4 (pos 7) blocking pipe
    ≡ (ok (record { ret = pos 5; buf = 1 ∷ 2 ∷ 3 ∷ 4 ∷ 5 ∷ [] }), emptied)
unfolding my_recv
short_read = refl

still_waiting : (my_recv pipe_sockets 2 4 (pos 7) blocking pipe).0 ≡ waiting
unfolding my_recv
still_waiting = refl

negative_length :
    (my_recv pipe_sockets 9 4 (negsuc 5) blocking pipe).0 ≡ ok (record { ret = pos 0; buf = [] })
unfolding my_recv
negative_length = refl

my_recv-Reads_example :
    Reads pipe_sockets pipe-IsStream 4 blocking 7 pipe emptied
      (record { ret = pos 5; buf = 1 ∷ 2 ∷ 3 ∷ 4 ∷ 5 ∷ [] })
unfolding my_recv
my_recv-Reads_example = my_recv-Reads pipe_sockets pipe-IsStream 9 4 7 blocking pipe emptied _ refl

my_recv-ends_example :
    (f : Filled) × (q : Pipe) × (my_recv pipe_sockets 10 4 (pos 7) blocking pipe ≡ (ok f, q))
my_recv-ends_example =
    my_recv-ends pipe_sockets pipe-IsStream 10 4 7 blocking pipe
      (omega (arith, interrupts-pipe pipe))

my_send-Delivers_example :
    Delivers pipe_sockets pipe-IsSink 4 message pipe
      (record pipe { outbox = 9 ∷ message; signals = 0 })
      (pos 4)
unfolding my_send
my_send-Delivers_example = my_send-Delivers pipe_sockets pipe-IsSink 9 4 message pipe _ _ refl

my_send-ends_example : (r : ℤ) × (q : Pipe) × (my_send pipe_sockets 7 4 message pipe ≡ (ok r, q))
my_send-ends_example =
    my_send-ends pipe_sockets pipe-IsSink 7 4 message pipe (omega (arith, breaks-pipe pipe))
