-- ===== src/Session/Framing.antt =====
-- A request on the stream of a session.
use Prim.Native.Nat.{min}
use pick_up_the_light_server.Prelude.{
  ℕ, ◌<◌, ◌≡◌, refl, sym, ap, ◌∙◌, true, some, ◌++◌, arith, length,
}
use pick_up_the_light_server.Outcome.{ok, pure, ◌>>◌}
use pick_up_the_light_server.Text.{Bytes, c_string}
use pick_up_the_light_server.Protocol.{
  Purpose, heart, register, login, send_file, get_file, get_info, modify_info, chat, purpose_code,
  NetPacketHeader, header_bytes, to_header, buf_size,
}
use pick_up_the_light_server.Protocol.Layout.{
  to_header-header_bytes, to_purpose-purpose_code, purpose_code-lt,
}
use pick_up_the_light_server.Platform.{Platform, World, Run}
use pick_up_the_light_server.ModifyInfo.{modify_info_boost}
use pick_up_the_light_server.SendInfo.{send_info_boost}
use pick_up_the_light_server.SendFile.{front_of, send_file_boost}
use pick_up_the_light_server.MyServer.{text_of}
use pick_up_the_light_server.MyServer.Requests.{carries_json}
use pick_up_the_light_server.MyServer.Framing.{same_length}
use pick_up_the_light_server.Session.{
  received, asio_read, fill_buffer, session_register, session_login, session_chat, session_serve,
  session_request, on_receive,
}

-- What asio documents of `read` on a socket: all of the length, or an exception. `pending` are the
-- bytes of a connection that have not been read yet.
pub record IsAsioStream (P : Platform) : Type 0 where
  pub pending : ℕ → P.sockets.Net → Bytes
  pub read_all :
      (socket_ptr n : ℕ) (net net' : P.sockets.Net) (bs : Bytes)
      → P.asio_read socket_ptr n net ≡ (some bs, net')
      → (length bs ≡ n) × (pending socket_ptr net ≡ bs ++ pending socket_ptr net')

abbrev pub header_of : Purpose → Bytes → NetPacketHeader
header_of purpose body = record { purpose = purpose_code purpose; data_size = length body }

module _ (P : Platform) where
  -- What the request comes to, once its data is in the buffer of the session.
  abbrev pub session_handler : ℕ → Purpose → Bytes → Run P Unit
  session_handler socket_ptr register = session_register P socket_ptr
  session_handler socket_ptr login = session_login P socket_ptr
  session_handler socket_ptr get_file = send_file_boost P socket_ptr
  session_handler socket_ptr get_info = send_info_boost P socket_ptr
  session_handler socket_ptr modify_info = modify_info_boost P socket_ptr
  session_handler socket_ptr chat = session_chat P
  session_handler socket_ptr heart = λ text. pure tt
  session_handler socket_ptr send_file = λ text. pure tt

  buffer_filled :
      (socket_ptr : ℕ) (body : Bytes) (w : World P) (net' : P.sockets.Net)
      → 0 < length body
      → length body < buf_size
      → P.asio_read socket_ptr (length body) w.net ≡ (some body, net')
      → fill_buffer P socket_ptr (length body) w ≡ (ok (some body), record w { net = net' })
  unfolding fill_buffer asio_read
  buffer_filled socket_ptr body w net' some_data fits read =
      let whole : min (length body) buf_size ≡ length body = omega (arith, fits) in
      rw (whole, read) (ground (arith, some_data, fits))

  text_whole :
      (body : Bytes) → length body < buf_size → c_string body ≡ body → text_of body ≡ ok body
  unfolding text_of
  text_whole body fits text = ground (arith, fits, text)

  serve-session_handler :
      (socket_ptr : ℕ) (purpose : Purpose) (body : Bytes) (w w' : World P)
      → carries_json purpose ≡ true
      → text_of body ≡ ok body
      → fill_buffer P socket_ptr (length body) w ≡ (ok (some body), w')
      → session_serve P socket_ptr (length body) (some purpose) w
        ≡ session_handler socket_ptr purpose body w'
  unfolding session_serve
  serve-session_handler socket_ptr register body w w' c text read = rw (read, text) refl
  serve-session_handler socket_ptr login body w w' c text read = rw (read, text) refl
  serve-session_handler socket_ptr get_file body w w' c text read = rw (read, text) refl
  serve-session_handler socket_ptr get_info body w w' c text read = rw (read, text) refl
  serve-session_handler socket_ptr modify_info body w w' c text read = rw (read, text) refl
  serve-session_handler socket_ptr chat body w w' c text read = rw read refl
  serve-session_handler socket_ptr heart body w w' c text read = ground (arith, c)
  serve-session_handler socket_ptr send_file body w w' c text read = ground (arith, c)

  request_served :
      (socket_ptr : ℕ) (purpose : Purpose) (body : Bytes) (w w' : World P)
      → carries_json purpose ≡ true
      → text_of body ≡ ok body
      → fill_buffer P socket_ptr (length body) w ≡ (ok (some body), w')
      → session_request P socket_ptr (some (header_of purpose body)) w
        ≡ session_handler socket_ptr purpose body w'
  unfolding session_request
  request_served socket_ptr purpose body w w' c text read =
      rw (to_purpose-purpose_code purpose)
        (serve-session_handler socket_ptr purpose body w w' c text read)

  handler_turn :
      (socket_ptr : ℕ) (m_pheader bs : Bytes) (h : NetPacketHeader) (w : World P)
      → to_header (front_of bs m_pheader) ≡ some h
      → on_receive P socket_ptr m_pheader (received bs) w
        ≡ (session_request P socket_ptr (some h) >> pure (some (front_of bs m_pheader))) w
  unfolding on_receive
  handler_turn socket_ptr m_pheader bs h w e =
      ap (λ r. (session_request P socket_ptr r >> pure (some (front_of bs m_pheader))) w) e

  module _ (I : IsAsioStream P) where
    open I use {pending, read_all}

    read_body :
        (socket_ptr : ℕ) (body rest bs : Bytes) (net net' : P.sockets.Net)
        → pending socket_ptr net ≡ body ++ rest
        → P.asio_read socket_ptr (length body) net ≡ (some bs, net')
        → (P.asio_read socket_ptr (length body) net ≡ (some body, net'))
          × (pending socket_ptr net' ≡ rest)
    read_body socket_ptr body rest bs net net' e read =
        let (whole, front) = read_all socket_ptr (length body) net net' bs read in
        let (same, left) =
          same_length bs body (pending socket_ptr net') rest whole (sym front ∙ e) in
        (read ∙ ap (λ l. (some l, net')) same, left)

    -- Where the whole header of a request of a kind that carries one JSON text reaches a session,
    -- whose data fits the buffer and has no zero byte and is the next in the stream, and the read of
    -- the data does not throw, the session hands exactly that text to the handler of its kind,
    -- leaves the stream at the next request, and waits for the next header; what its header held
    -- before does not matter.
    pub on_receive-framed :
        (socket_ptr : ℕ) (m_pheader : Bytes) (purpose : Purpose) (body rest bs : Bytes)
        (w : World P) (net' : P.sockets.Net)
        → carries_json purpose ≡ true
        → 0 < length body
        → length body < buf_size
        → c_string body ≡ body
        → pending socket_ptr w.net ≡ body ++ rest
        → P.asio_read socket_ptr (length body) w.net ≡ (some bs, net')
        → (on_receive P socket_ptr m_pheader (received (header_bytes (header_of purpose body))) w
            ≡ (session_handler socket_ptr purpose body
                  >> pure (some (front_of (header_bytes (header_of purpose body)) m_pheader)))
                (record w { net = net' }))
          × (pending socket_ptr net' ≡ rest)
    on_receive-framed socket_ptr m_pheader purpose body rest bs w net' c some_data fits text e
          read =
        let (all, left) = read_body socket_ptr body rest bs w.net net' e read in
        let h = header_of purpose body in
        let is_header : to_header (front_of (header_bytes h) m_pheader) ≡ some h =
          to_header-header_bytes h _ (purpose_code-lt purpose) (omega (arith, fits)) in
        let served =
          request_served socket_ptr purpose body w (record w { net = net' }) c
            (text_whole body fits text) (buffer_filled socket_ptr body w net' some_data fits all) in
        (handler_turn socket_ptr m_pheader (header_bytes h) h w is_header ∙ rw served refl, left)
