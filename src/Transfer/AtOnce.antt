-- ===== src/Transfer/AtOnce.antt =====
-- A connection in memory that hands over at once whatever it has of what is asked for.
use pick_up_the_light_server.Prelude.{
  ℕ, suc, ◌<◌, ◌≤◌, ◌≡◌, refl, [], ◌∷◌, ◌++◌, arith, length, length-take, take, drop,
  take-append-drop, take-append_length, drop-append_length,
}
use pick_up_the_light_server.Prelude.Int.{pos}
use pick_up_the_light_server.Outcome.{ok}
use pick_up_the_light_server.Text.{Bytes}
use pick_up_the_light_server.Transfer.{
  Received, got, put, Sockets, Flags, recv_loop, received, my_recv,
}
use pick_up_the_light_server.Transfer.Receive.{IsStream}
use pick_up_the_light_server.Transfer.Pipe.{take-nil}

abbrev pub at_once : Sockets
at_once = record {
  Net = Bytes;
  recv = λ fd n flags inbox. (got (take n inbox), drop n inbox);
  send = λ fd bs inbox. (put (length bs), inbox);
}

recv_got :
    (n : ℕ) (inbox inbox' bs : Bytes)
    → ◌≡◌ {A = Received × Bytes} (got (take n inbox), drop n inbox) (got bs, inbox')
    → (length bs ≤ n) × (inbox ≡ bs ++ inbox') × (0 ≤ 0)
recv_got n inbox inbox' bs h =
    (ground (arith, length-take n inbox), ground (arith, take-append-drop n inbox), omega arith)

recv_closed :
    (n : ℕ) (inbox inbox' : Bytes)
    → ◌≡◌ {A = Received × Bytes} (got (take n inbox), drop n inbox) (got [], inbox')
    → 0 < n
    → inbox' ≡ []
recv_closed n inbox inbox' h asked = ground (arith, take-nil n inbox)

pub at_once-IsStream : IsStream at_once
at_once-IsStream = record {
  pending = λ fd inbox. inbox;
  interrupts = λ inbox. 0;
  recv_got = λ fd n flags inbox inbox' bs h. recv_got n inbox inbox' bs h;
  recv_closed = λ fd n flags inbox inbox' h asked. recv_closed n inbox inbox' h asked;
  recv_refused = λ fd n flags inbox inbox' e h. ground arith;
  recv_interrupted = λ fd n flags inbox inbox' h. ground arith;
}

pub pending-at_once : (fd : ℕ) (inbox : Bytes) → at_once-IsStream.pending fd inbox ≡ inbox
unfolding at_once-IsStream
pending-at_once fd inbox = refl

-- One call of `recv` that fills the buffer is enough.
pub my_recv-at_once :
    (fd : ℕ) (flags : Flags) (front rest : Bytes) (rounds : ℕ)
    → 0 < length front
    → my_recv at_once (suc (suc rounds)) fd (pos (length front)) flags (front ++ rest)
      ≡ (ok (record { ret = pos (length front); buf = front }), rest)
unfolding my_recv recv_loop received
my_recv-at_once fd flags [] rest rounds h = ground (arith, h)
my_recv-at_once fd flags (b ∷ front) rest rounds h =
    ground (arith, h, take-append_length front rest, drop-append_length front rest)
