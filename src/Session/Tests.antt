-- ===== src/Session/Tests.antt =====
-- Events at concrete data.
use pick_up_the_light_server.Prelude.{
  ℕ, ◌<◌, ◌≤◌, ◌≡◌, refl, Option, none, some, [], ◌∷◌, ◌++◌, arith, take, drop, length, ltb,
  if◌then◌else◌, length-take, take-append-drop,
}
use pick_up_the_light_server.Text.{Bytes, c_string}
use pick_up_the_light_server.Transfer.Pipe.{Pipe}
use pick_up_the_light_server.Session.Framing.{
  IsAsioStream, header_of, session_handler, on_receive-framed,
}
use pick_up_the_light_server.Outcome.{ok, pure, ◌>>◌}
use pick_up_the_light_server.Protocol.{login, NetPacketHeader, header_bytes, to_purpose, buf_size}
use pick_up_the_light_server.Platform.{Platform, World}
use pick_up_the_light_server.Platform.Concrete.{null, concrete, quiet_world}
use pick_up_the_light_server.SendFile.{front_of}
use pick_up_the_light_server.Session.{received, fill_buffer, asio_read, session_serve, on_receive}
use pick_up_the_light_server.Session.Events.{on_receive-front_half, fill_buffer-bounded}

abbrev platform : Platform
platform = concrete null (λ query log. none)

-- User 5 is live at address 6, and has sent two bytes.
abbrev world : World platform
world = record (quiet_world null (λ query log. none)) {
  live_list = (5 ∷ [], 6 ∷ []) ∷ [];
  net = record { inbox = 88 ∷ 89 ∷ []; outbox = []; signals = 0 };
}

abbrev old : NetPacketHeader
old = record { purpose = 2; data_size = 30 }

abbrev new : NetPacketHeader
new = record { purpose = 0; data_size = 0 }

on_receive-front_half_example :
    on_receive platform 7 (header_bytes old) (received (take 4 (header_bytes new))) world
    ≡ (session_serve platform 7 30 (to_purpose 0)
          >> pure (some (front_of (take 4 (header_bytes new)) (header_bytes old))))
        world
on_receive-front_half_example =
    on_receive-front_half platform 7 old new world (omega arith) (omega arith)

two_read : fill_buffer platform 7 2 world ≡ (
  ok (some (88 ∷ 89 ∷ [])),
  record world { net = record { inbox = []; outbox = []; signals = 0 } },
)
unfolding fill_buffer asio_read
two_read = refl

fill_buffer-bounded_example :
    (0 < 2)
    × (2 ≤ buf_size)
    × (platform.asio_read 7 2 world.net
        ≡ (some (88 ∷ 89 ∷ []), record { inbox = []; outbox = []; signals = 0 }))
fill_buffer-bounded_example =
    fill_buffer-bounded platform 7 2 (88 ∷ 89 ∷ []) world
      (record world { net = record { inbox = []; outbox = []; signals = 0 } }) two_read

read_all :
    (n : ℕ) (inbox outbox bs : Bytes) (s : ℕ) (q : Pipe)
    → ◌≡◌ {A = Option Bytes × Pipe}
        (
          if ltb (length inbox) n then none else some (take n inbox),
          record { inbox = drop n inbox; outbox = outbox; signals = s },
        )
        (some bs, q)
    → (length bs ≡ n) × (inbox ≡ bs ++ q.inbox)
read_all n inbox outbox bs s q h =
    (ground (arith, length-take n inbox), ground (arith, take-append-drop n inbox))

platform-IsAsioStream : IsAsioStream platform
platform-IsAsioStream = record {
  pending = λ socket_ptr pipe. pipe.inbox;
  read_all = λ socket_ptr n p q bs h. read_all n p.inbox p.outbox bs p.signals q h;
}

no_zero : c_string (88 ∷ 89 ∷ []) ≡ 88 ∷ 89 ∷ []
unfolding c_string
no_zero = refl

-- The header of a login has been received; its two bytes of data and a byte of the next request are
-- in the stream.
abbrev with_login : World platform
with_login = record world { net = record { inbox = 88 ∷ 89 ∷ 1 ∷ []; outbox = []; signals = 0 } }

pending-login : platform-IsAsioStream.pending 7 with_login.net ≡ (88 ∷ 89 ∷ []) ++ 1 ∷ []
unfolding platform-IsAsioStream
pending-login = refl

on_receive-framed_example :
    (on_receive platform 7
        (header_bytes old)
        (received (header_bytes (header_of login (88 ∷ 89 ∷ []))))
        with_login
      ≡ (session_handler platform 7 login (88 ∷ 89 ∷ [])
            >> pure (
                some (front_of (header_bytes (header_of login (88 ∷ 89 ∷ []))) (header_bytes old))))
          (record world { net = record { inbox = 1 ∷ []; outbox = []; signals = 0 } }))
    × (platform-IsAsioStream.pending 7 (record { inbox = 1 ∷ []; outbox = []; signals = 0 })
        ≡ 1 ∷ [])
on_receive-framed_example =
    on_receive-framed platform platform-IsAsioStream 7 (header_bytes old) login (88 ∷ 89 ∷ [])
      (1 ∷ []) (88 ∷ 89 ∷ []) with_login (record { inbox = 1 ∷ []; outbox = []; signals = 0 }) refl
      (omega arith) (omega arith) no_zero pending-login refl
