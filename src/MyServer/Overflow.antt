-- ===== src/MyServer/Overflow.antt =====
-- A request that announces more data than the buffer of a task has room for.
mod Tests
use pick_up_the_light_server.Prelude.{
  ℕ, ◌^◌, ◌<◌, ◌≡◌, ◌≢◌, refl, sym, ap, subst, ◌∙◌, true, some, ◌++◌, arith, length, append_assoc,
}
use pick_up_the_light_server.Prelude.Int.{pos, minus_one}
use pick_up_the_light_server.Outcome.{ok, undefined}
use pick_up_the_light_server.Text.{Bytes}
use pick_up_the_light_server.Protocol.{
  Purpose, heart, register, login, send_file, get_file, get_info, modify_info, chat, purpose_code,
  NetPacketHeader, header_bytes, header_size, buf_size,
}
use pick_up_the_light_server.Protocol.Layout.{
  length-header_bytes, to_purpose-purpose_code, purpose_code-lt,
}
use pick_up_the_light_server.Transfer.{Filled, blocking, dont_wait, my_recv}
use pick_up_the_light_server.Transfer.Receive.{IsStream}
use pick_up_the_light_server.Platform.{Platform, World}
use pick_up_the_light_server.MyServer.{
  take_packet, read_packet, serve, process_single_request, next_request,
}
use pick_up_the_light_server.MyServer.Requests.{carries_json, read_packet-taken}
use pick_up_the_light_server.MyServer.Framing.{request, front_read, header_turn, sent_header}

module _ (P : Platform) where
  serve-undefined :
      (fd size : ℕ) (purpose : Purpose) (w w' : World P)
      → carries_json purpose ≡ true
      → read_packet P fd size w ≡ (undefined, w')
      → serve P fd size (some purpose) w ≡ (undefined, w')
  unfolding serve
  serve-undefined fd size register w w' c read = rw read refl
  serve-undefined fd size login w w' c read = rw read refl
  serve-undefined fd size get_file w w' c read = rw read refl
  serve-undefined fd size get_info w w' c read = rw read refl
  serve-undefined fd size modify_info w w' c read = rw read refl
  serve-undefined fd size chat w w' c read = rw read refl
  serve-undefined fd size heart w w' c read = ground (arith, c)
  serve-undefined fd size send_file w w' c read = ground (arith, c)

  module _ (I : IsStream P.sockets) where
    open I use {pending}

    body_overflows :
        (fd : ℕ) (body rest : Bytes) (w : World P) (g : Filled) (net' : P.sockets.Net)
        → buf_size < length body
        → length body < 2 ^ 31
        → pending fd w.net ≡ body ++ rest
        → my_recv P.sockets P.rounds fd (pos (length body)) blocking w.net ≡ (ok g, net')
        → g.ret ≢ minus_one
        → read_packet P fd (length body) w ≡ (undefined, record w { net = net' })
    unfolding take_packet
    body_overflows fd body rest w g net' big small e h g_ok =
        let (all, is_body, left) = front_read P I fd blocking body rest w.net net' g e h g_ok in
        read_packet-taken P fd (length body) w g net' h small ∙ ground (arith, is_body, big)

    -- Nothing compares the size that a header gives with the buffer: where a client sends a request
    -- of a kind that carries one JSON text with more than `BUF_SIZE` bytes of data (and less than
    -- 2 GiB), and neither of the two reads of the turn returns -1, the turn writes past the buffer.
    pub next_request-overflow :
        (fd : ℕ) (purpose : Purpose) (body rest : Bytes) (w : World P) (f g : Filled)
        (net' net'' : P.sockets.Net)
        → carries_json purpose ≡ true
        → buf_size < length body
        → length body < 2 ^ 31
        → pending fd w.net ≡ request purpose body ++ rest
        → my_recv P.sockets P.rounds fd (pos header_size) dont_wait w.net ≡ (ok f, net')
        → f.ret ≢ minus_one
        → my_recv P.sockets P.rounds fd (pos (length body)) blocking net' ≡ (ok g, net'')
        → g.ret ≢ minus_one
        → next_request P fd w ≡ (undefined, record w { net = net'' })
    unfolding process_single_request
    next_request-overflow fd purpose body rest w f g net' net'' c big small e first f_ok second
          g_ok =
        let h : NetPacketHeader = record {
          purpose = purpose_code purpose;
          data_size = length body;
        } in
        let (f_all, is_header, left) =
          front_read P I fd dont_wait (header_bytes h) (body ++ rest) w.net net' f
            (e ∙ append_assoc (header_bytes h) body rest)
            (subst (λ n. my_recv P.sockets P.rounds fd (pos n) dont_wait w.net ≡ (ok f, net'))
              (sym (length-header_bytes h)) first)
            f_ok in
        let over =
          body_overflows fd body rest (record w { net = net' }) g net'' big small left second
            g_ok in
        header_turn P I fd h w f net' first (f_all ∙ ap pos (length-header_bytes h))
          (sent_header P I h f.buf (purpose_code-lt purpose) (omega (arith, small)) is_header)
        ∙ rw
            (
              to_purpose-purpose_code purpose,
              serve-undefined fd (length body) purpose (record w { net = net' })
                  (record w { net = net'' }) c over,
            )
            refl
