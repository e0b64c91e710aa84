-- ===== src/MyServer/Framing.antt =====
-- Requests on a stream: one after the other, however the network cuts them into pieces.
use pick_up_the_light_server.Prelude.{
  ℕ, ◌^◌, ◌<◌, ◌≡◌, ◌≢◌, refl, sym, inl, inr, length-append, ap, ◌∙◌, subst, true, some, [], ◌++◌,
  arith, length, take, drop, append-nil, append_assoc, take-append_length, drop-append_length,
}
use pick_up_the_light_server.Prelude.Int.{pos, minus_one}
use pick_up_the_light_server.Outcome.{ok, pure, ◌>>◌}
use pick_up_the_light_server.Text.{Bytes, c_string}
use pick_up_the_light_server.Protocol.{
  Purpose, heart, register, login, send_file, get_file, get_info, modify_info, chat, purpose_code,
  NetPacketHeader, header_bytes, to_header, header_size, buf_size,
}
use pick_up_the_light_server.Protocol.Layout.{
  to_header-header_bytes, length-header_bytes, to_purpose-purpose_code, purpose_code-lt,
}
use pick_up_the_light_server.Transfer.{Filled, Flags, blocking, dont_wait, my_recv}
use pick_up_the_light_server.Transfer.Receive.{IsStream, Reads, my_recv-Reads}
use pick_up_the_light_server.Platform.{Platform, World, Run}
use pick_up_the_light_server.ModifyInfo as Modify
use pick_up_the_light_server.SendInfo as Info
use pick_up_the_light_server.SendFile as Send
use pick_up_the_light_server.MyServer.{
  text_of, take_packet, recv_bytes, read_packet, serve_register, serve_login, serve_chat, serve,
  process_single_request, handle_header, next_request,
}
use pick_up_the_light_server.MyServer.Requests.{carries_json, read_packet-taken}

-- A request as a client sends it.
abbrev pub request : Purpose → Bytes → Bytes
request purpose body =
    header_bytes (record { purpose = purpose_code purpose; data_size = length body }) ++ body

pub same_length : (a b x y : Bytes) → length a ≡ length b → a ++ x ≡ b ++ y → (a ≡ b) × (x ≡ y)
same_length a b x y e h = (
  sym (take-append_length a x)
      ∙ ap (λ n. take n (a ++ x)) e
      ∙ ap (take (length b)) h
      ∙ take-append_length b y,
  sym (drop-append_length a x)
      ∙ ap (λ n. drop n (a ++ x)) e
      ∙ ap (drop (length b)) h
      ∙ drop-append_length b y,
)

module _ (P : Platform) where
  -- What the request comes to, once its data is read.
  abbrev pub handler : ℕ → Purpose → Bytes → Run P Unit
  handler fd register = serve_register P fd
  handler fd login = serve_login P fd
  handler fd get_file = Send.send_file P fd
  handler fd get_info = Info.send_info P fd
  handler fd modify_info = Modify.modify_info P fd
  handler fd chat = serve_chat P
  handler fd heart = λ text. pure tt
  handler fd send_file = λ text. pure tt

  serve-handler :
      (fd size : ℕ) (purpose : Purpose) (text : Bytes) (w w' : World P)
      → carries_json purpose ≡ true
      → read_packet P fd size w ≡ (ok (some text), w')
      → serve P fd size (some purpose) w ≡ handler fd purpose text w'
  unfolding serve
  serve-handler fd size register text w w' c read = rw read refl
  serve-handler fd size login text w w' c read = rw read refl
  serve-handler fd size get_file text w w' c read = rw read refl
  serve-handler fd size get_info text w w' c read = rw read refl
  serve-handler fd size modify_info text w w' c read = rw read refl
  serve-handler fd size chat text w w' c read = rw read refl
  serve-handler fd size heart text w w' c read = ground (arith, c)
  serve-handler fd size send_file text w w' c read = ground (arith, c)

  module _ (I : IsStream P.sockets) where
    open I use {pending}

    -- Where all that is asked for is in the stream, a read that does not fail takes it.
    filled_up :
        (fd : ℕ) (flags : Flags) (front rest : Bytes) (net net' : P.sockets.Net) (f : Filled)
        → pending fd net ≡ front ++ rest
        → Reads P.sockets I fd flags (length front) net net' f
        → f.ret ≢ minus_one
        → length f.buf ≡ length front
    filled_up fd flags front rest net net' f e reads returns = elim reads.complete [
      | inl failed ↦ absurd (returns failed)
      | inr (inl whole) ↦ whole
      | inr (inr end) ↦ omega (
        arith,
        reads.fits,
        ap length (sym e ∙ reads.prefix ∙ ap (λ l. f.buf ++ l) end),
        length-append front rest,
        length-append f.buf [],
      )
    ]

    pub front_read :
        (fd : ℕ) (flags : Flags) (front rest : Bytes) (net net' : P.sockets.Net) (f : Filled)
        → pending fd net ≡ front ++ rest
        → my_recv P.sockets P.rounds fd (pos (length front)) flags net ≡ (ok f, net')
        → f.ret ≢ minus_one
        → (f.ret ≡ pos (length front)) × (f.buf ≡ front) × (pending fd net' ≡ rest)
    front_read fd flags front rest net net' f e h returns =
        let reads = my_recv-Reads P.sockets I P.rounds fd (length front) flags net net' f h in
        let whole = filled_up fd flags front rest net net' f e reads returns in
        let value : f.ret ≡ pos (length front) = elim reads.counted [
          | inl failed ↦ absurd (returns failed)
          | inr all ↦ all ∙ ap pos whole
        ] in
        let (same, left) =
          same_length f.buf front (pending fd net') rest whole (sym reads.prefix ∙ e) in
        (value, same, left)

    -- The data of a request, at the front of the stream.
    body_read :
        (fd : ℕ) (body rest : Bytes) (w : World P) (g : Filled) (net' : P.sockets.Net)
        → length body < buf_size
        → 0 < length body
        → c_string body ≡ body
        → pending fd w.net ≡ body ++ rest
        → my_recv P.sockets P.rounds fd (pos (length body)) blocking w.net ≡ (ok g, net')
        → g.ret ≢ minus_one
        → (read_packet P fd (length body) w ≡ (ok (some body), record w { net = net' }))
          × (pending fd net' ≡ rest)
    unfolding take_packet text_of
    body_read fd body rest w g net' fits some_data text e h returns =
        let (all, is_body, left) = front_read fd blocking body rest w.net net' g e h returns in
        (
          read_packet-taken P fd (length body) w g net' h (omega (arith, fits))
              ∙ ground (arith, is_body, text, all, fits, some_data),
          left,
        )

    pub header_turn :
        (fd : ℕ) (h : NetPacketHeader) (w : World P) (f : Filled) (net' : P.sockets.Net)
        → my_recv P.sockets P.rounds fd (pos header_size) dont_wait w.net ≡ (ok f, net')
        → f.ret ≡ pos header_size
        → to_header f.buf ≡ some h
        → next_request P fd w
          ≡ (process_single_request P fd h >> pure true) (record w { net = net' })
    unfolding next_request recv_bytes handle_header
    header_turn fd h w f net' first all is = rw (first, all, is) refl

    served :
        (fd : ℕ) (purpose : Purpose) (body : Bytes) (w w' : World P)
        → carries_json purpose ≡ true
        → read_packet P fd (length body) w ≡ (ok (some body), w')
        → process_single_request P fd
            (record { purpose = purpose_code purpose; data_size = length body })
            w
          ≡ handler fd purpose body w'
    unfolding process_single_request
    served fd purpose body w w' c read =
        rw (to_purpose-purpose_code purpose)
          (serve-handler fd (length body) purpose body w w' c read)

    pub sent_header :
        (h : NetPacketHeader) (buf : Bytes)
        → h.purpose < 2 ^ 32
        → h.data_size < 2 ^ 32
        → buf ≡ header_bytes h
        → to_header buf ≡ some h
    sent_header h buf p s e =
        ap to_header (e ∙ sym (append-nil (header_bytes h))) ∙ to_header-header_bytes h [] p s

    -- Where the stream of a connection goes on with a request of a kind that carries one JSON text,
    -- with data that fits the buffer and has no zero byte, and neither of the two reads of the turn
    -- returns -1, then, however the network has cut the stream into pieces, the turn hands exactly
    -- the text that the client sent to the handler of its kind, and leaves the stream at the next
    -- request.
    pub next_request-framed :
        (fd : ℕ) (purpose : Purpose) (body rest : Bytes) (w : World P) (f g : Filled)
        (net' net'' : P.sockets.Net)
        → carries_json purpose ≡ true
        → length body < buf_size
        → 0 < length body
        → c_string body ≡ body
        → pending fd w.net ≡ request purpose body ++ rest
        → my_recv P.sockets P.rounds fd (pos header_size) dont_wait w.net ≡ (ok f, net')
        → f.ret ≢ minus_one
        → my_recv P.sockets P.rounds fd (pos (length body)) blocking net' ≡ (ok g, net'')
        → g.ret ≢ minus_one
        → (next_request P fd w ≡ (handler fd purpose body >> pure true) (record w { net = net'' }))
          × (pending fd net'' ≡ rest)
    next_request-framed fd purpose body rest w f g net' net'' c fits some_data text e first
          f_returns second g_returns =
        let h : NetPacketHeader = record {
          purpose = purpose_code purpose;
          data_size = length body;
        } in
        let (f_all, is_header, left) =
          front_read fd dont_wait (header_bytes h) (body ++ rest) w.net net' f
            (e ∙ append_assoc (header_bytes h) body rest)
            (subst (λ n. my_recv P.sockets P.rounds fd (pos n) dont_wait w.net ≡ (ok f, net'))
              (sym (length-header_bytes h)) first)
            f_returns in
        let (read, rest_left) =
          body_read fd body rest (record w { net = net' }) g net'' fits some_data text left second
            g_returns in
        (
          header_turn fd h w f net' first (f_all ∙ ap pos (length-header_bytes h))
                (sent_header h f.buf (purpose_code-lt purpose) (omega (arith, fits)) is_header)
              ∙ rw
                  (served fd purpose body (record w { net = net' }) (record w { net = net'' }) c
                    read)
                  refl,
          rest_left,
        )
