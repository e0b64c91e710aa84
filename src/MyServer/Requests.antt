-- ===== src/MyServer/Requests.antt =====
-- The data of a request.
use pick_up_the_light_server.Prelude.{
  ℕ, ◌+◌, ◌^◌, ◌<◌, ◌≤◌, ◌≡◌, refl, ap, ◌∙◌, Bool, true, false, Option, none, some, [], ◌∷◌, arith,
  length, Bool-cases, inl, inr,
}
use pick_up_the_light_server.Prelude.Int.{pos, to_int, is_short}
use pick_up_the_light_server.Outcome.{ok}
use pick_up_the_light_server.Text.{Bytes, c_string}
use pick_up_the_light_server.Protocol.{Purpose, heart, send_file, buf_size}
use pick_up_the_light_server.Transfer.{Filled, blocking, my_recv}
use pick_up_the_light_server.Transfer.Receive.{IsStream, my_recv-Reads}
use pick_up_the_light_server.Transfer.Receive.Rounds.{my_recv-ends}
use pick_up_the_light_server.Platform.{Platform, World}
use pick_up_the_light_server.MyServer.{text_of, take_packet, recv_bytes, read_packet}

-- The requests whose data is one JSON text.
abbrev pub carries_json : Purpose → Bool
carries_json heart = false
carries_json send_file = false
carries_json _ = true

module _ (P : Platform) where
  to_int-pos : (size : ℕ) → size < 2 ^ 31 → to_int size ≡ pos size
  to_int-pos size h = ground (arith, h)

  pub read_packet-taken :
      (fd size : ℕ) (w : World P) (f : Filled) (net' : P.sockets.Net)
      → my_recv P.sockets P.rounds fd (pos size) blocking w.net ≡ (ok f, net')
      → size < 2 ^ 31
      → read_packet P fd size w ≡ (take_packet P size f, record w { net = net' })
  unfolding read_packet recv_bytes
  read_packet-taken fd size w f net' h small = rw (to_int-pos size small, h) refl

  c_string_short : (bs : Bytes) → length (c_string bs) ≤ length bs
  unfolding c_string
  c_string_short [] = omega arith
  c_string_short (b ∷ bs) = ground (arith, c_string_short bs)

  take_packet-returns :
      (size : ℕ) (f : Filled)
      → length f.buf < buf_size
      → (r : Option Bytes) × (take_packet P size f ≡ ok r)
  unfolding take_packet text_of
  take_packet-returns size f fits = elim (Bool-cases (is_short f.ret size)) [
    | inl short ↦ (none, ground (arith, fits, short))
    | inr whole ↦ (some (c_string f.buf), ground (arith, fits, whole, c_string_short f.buf))
  ]

  module _ (I : IsStream P.sockets) where
    -- A packet that is smaller than the buffer is read without a write past it, and the read returns,
    -- given rounds for its bytes and for the signals to come.
    pub read_packet-fits :
        (fd size : ℕ) (w : World P)
        → size < buf_size
        → size + I.interrupts w.net < P.rounds
        → (r : Option Bytes) × (w' : World P) × (read_packet P fd size w ≡ (ok r, w'))
    read_packet-fits fd size w fits enough =
        let (f, net', h) = my_recv-ends P.sockets I P.rounds fd size blocking w.net enough in
        let reads = my_recv-Reads P.sockets I P.rounds fd size blocking w.net net' f h in
        let (r, taken) = take_packet-returns size f (omega (arith, reads.fits, fits)) in
        (
          r,
          record w { net = net' },
          read_packet-taken fd size w f net' h (omega (arith, fits))
              ∙ ap (λ o. (o, record w { net = net' })) taken,
        )
