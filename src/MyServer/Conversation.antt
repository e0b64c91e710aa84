-- ===== src/MyServer/Conversation.antt =====
-- A whole connection on the server on epoll: the requests of a client, and then its end.
pub mod Malformed
mod Tests
use pick_up_the_light_server.Prelude.{
  ℕ, suc, ◌+◌, ◌<◌, ◌≡◌, ◌≢◌, refl, sym, ap, subst, ◌∙◌, true, List, [], ◌∷◌, ◌++◌, arith, length,
  append_assoc, append-nil, length-append, inl, inr,
}
use pick_up_the_light_server.Prelude.Int.{pos, minus_one}
use pick_up_the_light_server.Outcome.{ok, pure, ◌>>◌}
use pick_up_the_light_server.Text.{Bytes, c_string}
use pick_up_the_light_server.Table.{number_key, lookup}
use pick_up_the_light_server.Protocol.{
  Purpose, heart, purpose_code, NetPacketHeader, header_bytes, header_size, buf_size,
}
use pick_up_the_light_server.Transfer.{Filled, blocking, dont_wait, my_recv}
use pick_up_the_light_server.Transfer.Receive.{IsStream, my_recv-Reads}
use pick_up_the_light_server.Platform.{Platform, World, Run, on_evaluator}
use pick_up_the_light_server.Evaluator as Table
use pick_up_the_light_server.Protocol.Layout.{
  length-header_bytes, to_purpose-purpose_code, purpose_code-lt,
}
use pick_up_the_light_server.MyServer.{
  serve, process_single_request, next_request, process_client_request,
}
use pick_up_the_light_server.MyServer.Requests.{carries_json}
use pick_up_the_light_server.MyServer.Framing.{
  request, handler, front_read, header_turn, sent_header, next_request-framed,
}
use pick_up_the_light_server.MyServer.Disconnect.{leaving, process_client_request-closed}

-- A request of a kind that carries one JSON text.
pub record TextRequest : Type 0 where
  pub purpose : Purpose
  pub body : Bytes
  pub json : carries_json purpose ≡ true
  pub fits : length body < buf_size
  pub some_data : 0 < length body
  pub text : c_string body ≡ body

pub data Sent : Type 0 where
  heartbeat : Sent
  text_request : TextRequest → Sent

-- The requests, one behind the other, as the client sends them.
abbrev pub stream : List Sent → Bytes
stream [] = []
stream (heartbeat ∷ requests) = request heart [] ++ stream requests
stream (text_request s ∷ requests) = request s.purpose s.body ++ stream requests

module _ (P : Platform) (I : IsStream P.sockets) (fd : ℕ) where
  open I use {pending}

  -- The requests have been handled one after the other, from the first world to the second: no read
  -- returned -1, each handler got its text and returned, and its answers did not change what was
  -- left to read.
  pub data Handled : List Sent → World P → World P → Type 0 where
    none_sent : {w : World P} → Handled [] w w
    one_beat :
        {requests : List Sent} {w v u : World P} (f : Filled) (net' : P.sockets.Net)
        → my_recv P.sockets P.rounds fd (pos header_size) dont_wait w.net ≡ (ok f, net')
        → f.ret ≢ minus_one
        → on_evaluator P (Table.set_0 fd) (record w { net = net' }) ≡ (ok tt, v)
        → Handled requests v u
        → Handled (heartbeat ∷ requests) w u
    one_text :
        {s : TextRequest} {requests : List Sent} {w v u : World P} (f g : Filled)
        (net' net'' : P.sockets.Net)
        → my_recv P.sockets P.rounds fd (pos header_size) dont_wait w.net ≡ (ok f, net')
        → f.ret ≢ minus_one
        → my_recv P.sockets P.rounds fd (pos (length s.body)) blocking net' ≡ (ok g, net'')
        → g.ret ≢ minus_one
        → handler P fd s.purpose s.body (record w { net = net'' }) ≡ (ok tt, v)
        → pending fd v.net ≡ pending fd net''
        → Handled requests v u
        → Handled (text_request s ∷ requests) w u

  turn :
      (n : ℕ) (w w' v : World P) (run : Run P Unit)
      → next_request P fd w ≡ (run >> pure true) w'
      → run w' ≡ (ok tt, v)
      → process_client_request P (suc n) fd w ≡ process_client_request P n fd v
  unfolding process_client_request
  turn n w w' v run e returns = rw (e, returns) refl

  beat_served :
      (w : World P)
      → process_single_request P fd (record { purpose = purpose_code heart; data_size = 0 }) w
        ≡ on_evaluator P (Table.set_0 fd) w
  unfolding process_single_request serve purpose_code
  beat_served w = refl

  beat_turn :
      (w : World P) (f : Filled) (net' : P.sockets.Net) (rest : Bytes)
      → pending fd w.net ≡ request heart [] ++ rest
      → my_recv P.sockets P.rounds fd (pos header_size) dont_wait w.net ≡ (ok f, net')
      → f.ret ≢ minus_one
      → (next_request P fd w
          ≡ (on_evaluator P (Table.set_0 fd) >> pure true) (record w { net = net' }))
        × (pending fd net' ≡ rest)
  beat_turn w f net' rest e first f_ok =
      let h : NetPacketHeader = record { purpose = purpose_code heart; data_size = 0 } in
      let (f_all, is_header, left) =
        front_read P I fd dont_wait (header_bytes h) rest w.net net' f
          (e ∙ append_assoc (header_bytes h) [] rest)
          (subst (λ n. my_recv P.sockets P.rounds fd (pos n) dont_wait w.net ≡ (ok f, net'))
            (sym (length-header_bytes h)) first)
          f_ok in
      (
        header_turn P I fd h w f net' first (f_all ∙ ap pos (length-header_bytes h))
              (sent_header P I h f.buf (purpose_code-lt heart) (omega arith) is_header)
            ∙ rw (beat_served (record w { net = net' })) refl,
        left,
      )

  beat_net :
      (w v : World P)
      → on_evaluator P (Table.set_0 fd) w ≡ (ok tt, v)
      → pending fd w.net ≡ pending fd v.net
  beat_net w v e = ap (λ r. pending fd r.1.net) e

  pub stream-Handled :
      (n : ℕ) (requests : List Sent) (rest : Bytes) (w u : World P)
      → Handled requests w u
      → pending fd w.net ≡ stream requests ++ rest
      → (process_client_request P (length requests + n) fd w ≡ process_client_request P n fd u)
        × (pending fd u.net ≡ rest)
  stream-Handled n requests rest w u none_sent e =
      (ap (λ m. process_client_request P m fd w) (omega arith), e)
  stream-Handled n requests rest w u
        (one_beat {requests = later} {v = v} f net' first f_ok returns more) e =
      let (done, left) =
        beat_turn w f net' (stream later ++ rest)
          (e ∙ append_assoc (request heart []) (stream later) rest) first f_ok in
      let same = beat_net (record w { net = net' }) v returns in
      let (others, end) = stream-Handled n later rest v u more (sym same ∙ left) in
      let one =
        turn (length later + n) w (record w { net = net' }) v (on_evaluator P (Table.set_0 fd)) done
          returns in
      (ap (λ m. process_client_request P m fd w) (omega arith) ∙ one ∙ others, end)
  stream-Handled n requests rest w u
        (one_text {s} {requests = later} {v = v} f g net' net'' first f_ok second g_ok returns same
          more)
        e =
      let (done, left) =
        next_request-framed P I fd s.purpose s.body (stream later ++ rest) w f g net' net'' s.json
          s.fits s.some_data s.text
          (e ∙ append_assoc (request s.purpose s.body) (stream later) rest) first f_ok second
          g_ok in
      let (others, end) = stream-Handled n later rest v u more (same ∙ left) in
      let one = turn (length later + n) w _ v (handler P fd s.purpose s.body) done returns in
      (ap (λ m. process_client_request P m fd w) (omega arith) ∙ one ∙ others, end)

  -- A read behind the last request that does not fail finds the end.
  end_read :
      (net net' : P.sockets.Net) (f : Filled)
      → pending fd net ≡ []
      → my_recv P.sockets P.rounds fd (pos header_size) dont_wait net ≡ (ok f, net')
      → f.ret ≢ minus_one
      → f.ret ≡ pos 0
  end_read net net' f e h f_ok =
      let reads = my_recv-Reads P.sockets I P.rounds fd header_size dont_wait net net' f h in
      let empty : length f.buf ≡ 0 =
        omega (arith, ap length (sym reads.prefix ∙ e), length-append f.buf (pending fd net')) in
      elim reads.counted [ inl failed ↦ absurd (f_ok failed) | inr all ↦ all ∙ ap pos empty ]

  -- Where a client sends heartbeats and requests that carry one JSON text, each with data that fits
  -- the buffer and has no zero byte, and closes the connection behind them, and where no read
  -- returns -1 and every handler returns, the task hands to the handlers exactly these requests,
  -- each once and in their order, however the network cuts the stream into pieces, and ends with
  -- the disconnect, after one turn for each request and one for the end.
  pub process_client_request-Handled :
      (n : ℕ) (requests : List Sent) (w u : World P) (f : Filled) (net' : P.sockets.Net)
      → Handled requests w u
      → pending fd w.net ≡ stream requests
      → my_recv P.sockets P.rounds fd (pos header_size) dont_wait u.net ≡ (ok f, net')
      → f.ret ≢ minus_one
      → process_client_request P (length requests + suc n) fd w
        ≡ leaving P fd (lookup fd u.evaluator.m_map) (record u { net = net' })
  process_client_request-Handled n requests w u f net' handled e last f_ok =
      let (done, nothing_left) =
        stream-Handled (suc n) requests [] w u handled (e ∙ sym (append-nil (stream requests))) in
      done
      ∙ process_client_request-closed P n fd u f net' last
          (end_read u.net net' f nothing_left last f_ok)
