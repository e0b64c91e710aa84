-- ===== src/Transfer/Pipe.antt =====
-- Sockets in memory that meet what the proofs ask of a kernel: three bytes to a call at most, after
-- a number of calls that a signal breaks.
use Prim.Native.Nat.{min}
use pick_up_the_light_server.Prelude.{
  ℕ, zero, suc, ◌≤◌, ◌<◌, ◌≡◌, refl, [], ◌∷◌, ◌++◌, arith, length, length-take, take, drop,
  take-append-drop,
}
use pick_up_the_light_server.Text.{Bytes}
use pick_up_the_light_server.Transfer.{
  Errno, eintr, Received, got, recv_failed, Sent, put, send_failed, Sockets,
}
use pick_up_the_light_server.Transfer.Receive.{IsStream}
use pick_up_the_light_server.Transfer.Send.{IsSink}

-- One connection: what is still to be read, what has been written, and the signals to come.
pub record Pipe : Type 0 where
  pub inbox : Bytes
  pub outbox : Bytes
  pub signals : ℕ

abbrev pipe_recv : ℕ → Bytes → Bytes → ℕ → Received × Pipe
pipe_recv n inbox outbox zero = (
  got (take (min n 3) inbox),
  record { inbox = drop (min n 3) inbox; outbox = outbox; signals = 0 },
)
pipe_recv n inbox outbox (suc s) =
    (recv_failed eintr, record { inbox = inbox; outbox = outbox; signals = s })

abbrev pipe_send : Bytes → Bytes → Bytes → ℕ → Sent × Pipe
pipe_send bs inbox outbox zero = (
  put (min (length bs) 3),
  record { inbox = inbox; outbox = outbox ++ take (min (length bs) 3) bs; signals = 0 },
)
pipe_send bs inbox outbox (suc s) =
    (send_failed eintr, record { inbox = inbox; outbox = outbox; signals = s })

abbrev pub pipe_sockets : Sockets
pipe_sockets = record {
  Net = Pipe;
  recv = λ fd n flags p. pipe_recv n p.inbox p.outbox p.signals;
  send = λ fd bs p. pipe_send bs p.inbox p.outbox p.signals;
}

recv_got :
    (n : ℕ) (inbox outbox : Bytes) (s : ℕ) (q : Pipe) (bs : Bytes)
    → pipe_recv n inbox outbox s ≡ (got bs, q)
    → (length bs ≤ n) × (inbox ≡ bs ++ q.inbox) × (q.signals ≤ s)
recv_got n inbox outbox zero q bs h = (
  ground (arith, length-take (min n 3) inbox),
  ground (arith, take-append-drop (min n 3) inbox),
  ground arith,
)
recv_got n inbox outbox (suc s) q bs h = ground arith

pub take-nil : (n : ℕ) (bs : Bytes) → 0 < n → take n bs ≡ [] → drop n bs ≡ []
take-nil zero bs h e = elim h [ ]
take-nil (suc n) [] h e = refl
take-nil (suc n) (b ∷ bs) h e = ground arith

recv_closed :
    (n : ℕ) (inbox outbox : Bytes) (s : ℕ) (q : Pipe)
    → pipe_recv n inbox outbox s ≡ (got [], q)
    → 0 < n
    → q.inbox ≡ []
recv_closed n inbox outbox zero q h pos = ground (arith, take-nil (min n 3) inbox)
recv_closed n inbox outbox (suc s) q h pos = ground arith

recv_refused :
    (n : ℕ) (inbox outbox : Bytes) (s : ℕ) (q : Pipe) (e : Errno)
    → pipe_recv n inbox outbox s ≡ (recv_failed e, q)
    → (q.inbox ≡ inbox) × (q.signals < s)
recv_refused n inbox outbox zero q e h = ground arith
recv_refused n inbox outbox (suc s) q e h = ground arith

send_put :
    (bs inbox outbox : Bytes) (s : ℕ) (q : Pipe) (n : ℕ)
    → pipe_send bs inbox outbox s ≡ (put n, q)
    → (n ≤ length bs) × (q.outbox ≡ outbox ++ take n bs) × (q.signals ≤ s)
send_put bs inbox outbox zero q n h = (ground arith, ground arith, ground arith)
send_put bs inbox outbox (suc s) q n h = ground arith

send_refused :
    (bs inbox outbox : Bytes) (s : ℕ) (q : Pipe) (e : Errno)
    → pipe_send bs inbox outbox s ≡ (send_failed e, q)
    → (q.outbox ≡ outbox) × (q.signals < s)
send_refused bs inbox outbox zero q e h = ground arith
send_refused bs inbox outbox (suc s) q e h = ground arith

pub pipe-IsStream : IsStream pipe_sockets
pipe-IsStream = record {
  pending = λ fd p. p.inbox;
  interrupts = λ p. p.signals;
  recv_got = λ fd n flags p q bs h. recv_got n p.inbox p.outbox p.signals q bs h;
  recv_closed = λ fd n flags p q h pos. recv_closed n p.inbox p.outbox p.signals q h pos;
  recv_refused = λ fd n flags p q e h. (recv_refused n p.inbox p.outbox p.signals q e h).0;
  recv_interrupted = λ fd n flags p q h. (recv_refused n p.inbox p.outbox p.signals q eintr h).1;
}

pub pipe-IsSink : IsSink pipe_sockets
pipe-IsSink = record {
  delivered = λ fd p. p.outbox;
  breaks = λ p. p.signals;
  send_put = λ fd bs p q n h. send_put bs p.inbox p.outbox p.signals q n h;
  send_refused = λ fd bs p q e h. (send_refused bs p.inbox p.outbox p.signals q e h).0;
  send_interrupted = λ fd bs p q h. (send_refused bs p.inbox p.outbox p.signals q eintr h).1;
}

pub interrupts-pipe : (p : Pipe) → pipe-IsStream.interrupts p ≡ p.signals
unfolding pipe-IsStream
interrupts-pipe p = refl

pub breaks-pipe : (p : Pipe) → pipe-IsSink.breaks p ≡ p.signals
unfolding pipe-IsSink
breaks-pipe p = refl

pub pending-pipe : (fd : ℕ) (p : Pipe) → pipe-IsStream.pending fd p ≡ p.inbox
unfolding pipe-IsStream
pending-pipe fd p = refl
