-- ===== src/Session/Events.antt =====
-- The events of a session.
use Prim.Native.Nat.{min}
use pick_up_the_light_server.Prelude.{
  ℕ, ◌^◌, ◌<◌, ◌≤◌, ◌≡◌, refl, ap, sym, ◌∙◌, Bool, true, false, Option, none, some, arith, take,
}
use pick_up_the_light_server.Outcome.{ok, pure, ◌>>◌}
use pick_up_the_light_server.Text.{Bytes}
use pick_up_the_light_server.Protocol.{
  NetPacketHeader, header_bytes, to_header, to_purpose, buf_size,
}
use pick_up_the_light_server.Evaluator as Table
use pick_up_the_light_server.Platform.{Platform, World}
use pick_up_the_light_server.SendFile.{front_of}
use pick_up_the_light_server.Session.{
  Completion, received, eof, operation_aborted, other_error, asio_read, fill_buffer, session_serve,
  session_request, on_receive,
}

-- A completion with an error, after which the session waits for nothing.
abbrev pub is_end : Completion → Bool
is_end (received bs) = false
is_end _ = true

front_half :
    (old new : NetPacketHeader)
    → new.purpose < 2 ^ 32
    → old.data_size < 2 ^ 32
    → to_header (front_of (take 4 (header_bytes new)) (header_bytes old))
      ≡ some (record { purpose = new.purpose; data_size = old.data_size })
unfolding to_header header_bytes
front_half old new p s = ground arith

module _ (P : Platform) where
  -- Every end of a session leaves the live list as it was, also where the user was live: the
  -- listed stream outlives the connection.
  pub on_receive-live_list :
      (socket_ptr : ℕ) (m_pheader : Bytes) (c : Completion) (w : World P)
      → is_end c ≡ true
      → ((on_receive P socket_ptr m_pheader c w).0 ≡ ok none)
        × ((on_receive P socket_ptr m_pheader c w).1.live_list ≡ w.live_list)
  unfolding on_receive Table.remove
  on_receive-live_list socket_ptr m_pheader (received bs) w h = ground (arith, h)
  on_receive-live_list socket_ptr m_pheader eof w h = (refl, refl)
  on_receive-live_list socket_ptr m_pheader operation_aborted w h = (refl, refl)
  on_receive-live_list socket_ptr m_pheader other_error w h = (refl, refl)

  -- Where only the first four bytes of a header arrive, the request is served as if the size were
  -- that of the request before it.
  pub on_receive-front_half :
      (socket_ptr : ℕ) (old new : NetPacketHeader) (w : World P)
      → new.purpose < 2 ^ 32
      → old.data_size < 2 ^ 32
      → on_receive P socket_ptr (header_bytes old) (received (take 4 (header_bytes new))) w
        ≡ (session_serve P socket_ptr old.data_size (to_purpose new.purpose)
              >> pure (some (front_of (take 4 (header_bytes new)) (header_bytes old))))
            w
  unfolding on_receive session_request
  on_receive-front_half socket_ptr old new w p s =
      ap
        (λ h.
          (session_request P socket_ptr h
              >> pure (some (front_of (take 4 (header_bytes new)) (header_bytes old))))
            w)
        (front_half old new p s)

  filled :
      (socket_ptr size : ℕ) (bs : Bytes) (w w' : World P) (r : Option Bytes × P.sockets.Net)
      → P.asio_read socket_ptr (min size buf_size) w.net ≡ r
      → fill_buffer P socket_ptr size w ≡ (ok (some bs), w')
      → (0 < size) × (min size buf_size ≡ size) × (r ≡ (some bs, w'.net))
  unfolding fill_buffer asio_read
  filled socket_ptr size bs w w' (none, net) e h = ground (arith, e, h)
  filled socket_ptr size bs w w' (some cs, net) e h =
      (ground (arith, e, h), ground (arith, e, h), ground (arith, e, h))

  -- A request is served from the buffer of a session only where its data fits the buffer, and then
  -- its data is what the socket read.
  pub fill_buffer-bounded :
      (socket_ptr size : ℕ) (bs : Bytes) (w w' : World P)
      → fill_buffer P socket_ptr size w ≡ (ok (some bs), w')
      → (0 < size) × (size ≤ buf_size) × (P.asio_read socket_ptr size w.net ≡ (some bs, w'.net))
  fill_buffer-bounded socket_ptr size bs w w' h =
      let (some_data, whole, read) =
        filled socket_ptr size bs w w' (P.asio_read socket_ptr (min size buf_size) w.net) refl h in
      (some_data, omega (arith, whole), ap (λ n. P.asio_read socket_ptr n w.net) (sym whole) ∙ read)
