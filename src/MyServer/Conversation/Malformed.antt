-- ===== src/MyServer/Conversation/Malformed.antt =====
-- A connection in which a request comes that is not JSON.
use pick_up_the_light_server.Prelude.{
  ℕ, suc, ◌+◌, ◌≡◌, ◌≢◌, refl, ◌∙◌, true, none, List, ◌++◌, arith, length,
}
use pick_up_the_light_server.Prelude.Int.{pos, minus_one}
use pick_up_the_light_server.Outcome.{ok, throws, parse_error, pure, ◌>>◌}
use pick_up_the_light_server.Text.{Bytes}
use pick_up_the_light_server.Protocol.{
  Purpose, heart, register, login, send_file, get_file, get_info, modify_info, chat, header_size,
}
use pick_up_the_light_server.Transfer.{Filled, blocking, dont_wait, my_recv}
use pick_up_the_light_server.Transfer.Receive.{IsStream}
use pick_up_the_light_server.Platform.{Platform, World, Run}
use pick_up_the_light_server.Accounts.{do_register, do_login}
use pick_up_the_light_server.ModifyInfo as Modify
use pick_up_the_light_server.SendInfo as Info
use pick_up_the_light_server.SendFile as Send
use pick_up_the_light_server.MyServer.{
  serve_register, serve_login, serve_chat, next_request, process_client_request,
}
use pick_up_the_light_server.MyServer.Requests.{carries_json}
use pick_up_the_light_server.MyServer.Framing.{request, handler, next_request-framed}
use pick_up_the_light_server.MyServer.Conversation.{
  TextRequest, Sent, stream, Handled, stream-Handled,
}

module _ (P : Platform) where
  handler-parse_error :
      (fd : ℕ) (purpose : Purpose) (text : Bytes) (w : World P)
      → carries_json purpose ≡ true
      → P.json.parse text ≡ none
      → handler P fd purpose text w ≡ (throws parse_error, w)
  unfolding serve_register serve_login serve_chat do_register do_login Modify.modify_info
      Modify.modify_info_on Info.send_info Info.send_info_on Send.send_file Send.send_file_on
  handler-parse_error fd register text w c bad = rw bad refl
  handler-parse_error fd login text w c bad = rw bad refl
  handler-parse_error fd get_file text w c bad = rw bad refl
  handler-parse_error fd get_info text w c bad = rw bad refl
  handler-parse_error fd modify_info text w c bad = rw bad refl
  handler-parse_error fd chat text w c bad = rw bad refl
  handler-parse_error fd heart text w c bad = ground (arith, c)
  handler-parse_error fd send_file text w c bad = ground (arith, c)

  thrown :
      (n fd : ℕ) (w w' v : World P) (run : Run P Unit)
      → next_request P fd w ≡ (run >> pure true) w'
      → run w' ≡ (throws parse_error, v)
      → process_client_request P (suc n) fd w ≡ (throws parse_error, v)
  unfolding process_client_request
  thrown n fd w w' v run e throws_it = rw (e, throws_it) refl

  -- Where a client sends requests that are handled, and then one of a kind that carries one JSON
  -- text whose data is not JSON, and no read returns -1, the task lets the parse error of the JSON
  -- library escape, whatever the client has sent behind the request: nothing in the task catches it.
  -- All that came before has been handled, and of the malformed request nothing but the read is done.
  pub process_client_request-parse_error :
      (I : IsStream P.sockets) (fd n : ℕ) (requests : List Sent) (bad : TextRequest) (rest : Bytes)
      (w u : World P) (f g : Filled) (net' net'' : P.sockets.Net)
      → Handled P I fd requests w u
      → I.pending fd w.net ≡ stream requests ++ (request bad.purpose bad.body ++ rest)
      → P.json.parse bad.body ≡ none
      → my_recv P.sockets P.rounds fd (pos header_size) dont_wait u.net ≡ (ok f, net')
      → f.ret ≢ minus_one
      → my_recv P.sockets P.rounds fd (pos (length bad.body)) blocking net' ≡ (ok g, net'')
      → g.ret ≢ minus_one
      → process_client_request P (length requests + suc n) fd w
        ≡ (throws parse_error, record u { net = net'' })
  process_client_request-parse_error I fd n requests bad rest w u f g net' net'' handled e not_json
        first f_ok second g_ok =
      let (done, left) =
        stream-Handled P I fd (suc n) requests (request bad.purpose bad.body ++ rest) w u handled
          e in
      let (turn, after) =
        next_request-framed P I fd bad.purpose bad.body rest u f g net' net'' bad.json bad.fits
          bad.some_data bad.text left first f_ok second g_ok in
      done
      ∙ thrown n fd u (record u { net = net'' }) (record u { net = net'' })
          (handler P fd bad.purpose bad.body) turn
          (handler-parse_error fd bad.purpose bad.body (record u { net = net'' }) bad.json not_json)
