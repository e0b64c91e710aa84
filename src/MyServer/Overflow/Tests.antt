-- ===== src/MyServer/Overflow/Tests.antt =====
-- A login with one byte more of data than the buffer holds.
use pick_up_the_light_server.Prelude.{
  ℕ, suc, ◌<◌, ◌≡◌, refl, sym, ◌∙◌, true, none, some, [], ◌∷◌, ◌++◌, arith, length, take, drop,
  replicate, length-replicate, append_assoc,
}
use pick_up_the_light_server.Prelude.Int.{pos}
use pick_up_the_light_server.Outcome.{ok, undefined}
use pick_up_the_light_server.Text.{Bytes}
use pick_up_the_light_server.Protocol.{
  login, purpose_code, NetPacketHeader, header_bytes, header_size, buf_size,
}
use pick_up_the_light_server.Protocol.Layout.{length-header_bytes}
use pick_up_the_light_server.Transfer.{blocking, dont_wait, my_recv}
use pick_up_the_light_server.Transfer.AtOnce.{
  at_once, at_once-IsStream, pending-at_once, my_recv-at_once,
}
use pick_up_the_light_server.Snowflake.{new_id_worker}
use pick_up_the_light_server.Platform.{Platform, World}
use pick_up_the_light_server.Platform.Concrete.{null, concrete}
use pick_up_the_light_server.MyServer.{next_request}
use pick_up_the_light_server.MyServer.Overflow.{next_request-overflow}

abbrev platform : Platform
platform = record (concrete null (λ query log. none)) {
  sockets = at_once;
  asio_read = λ socket_ptr n inbox. (some (take n inbox), drop n inbox);
  asio_write = λ socket_ptr bs inbox. (true, inbox);
}

-- Kept abstract, so that nothing counts its bytes one by one.
body : Bytes
body = replicate (suc buf_size) 88

length-body : length body ≡ suc buf_size
unfolding body
length-body = length-replicate {A = ℕ} (suc buf_size) 88

some_data : 0 < length body
some_data = omega (arith, length-body)

abbrev sent_header : NetPacketHeader
sent_header = record { purpose = purpose_code login; data_size = length body }

abbrev world : Bytes → World platform
world inbox = record {
  db = [];
  disk = [];
  net = inbox;
  live_list = [];
  evaluator = record { m_map = (7, record { ip = []; user_id = []; num = 0 }) ∷ []; hang_ups = [] };
  id_worker = new_id_worker;
  watched = [];
  closed = [];
}

abbrev bytes_sent : Bytes
bytes_sent = header_bytes sent_header ++ (body ++ [])

header_read :
    my_recv at_once 100 7 (pos header_size) dont_wait bytes_sent
    ≡ (ok (record { ret = pos header_size; buf = header_bytes sent_header }), body ++ [])
header_read =
    let n = length-header_bytes sent_header in
    rw (← n)
      (my_recv-at_once 7 dont_wait (header_bytes sent_header) (body ++ []) 98 (omega (arith, n)))

body_read :
    my_recv at_once 100 7 (pos (length body)) blocking (body ++ [])
    ≡ (ok (record { ret = pos (length body); buf = body }), [])
body_read = my_recv-at_once 7 blocking body [] 98 some_data

next_request-overflow_example : next_request platform 7 (world bytes_sent) ≡ (undefined, world [])
next_request-overflow_example =
    next_request-overflow platform at_once-IsStream 7 login body [] (world bytes_sent)
      (record { ret = pos header_size; buf = header_bytes sent_header })
      (record { ret = pos (length body); buf = body }) (body ++ []) [] refl
      (omega (arith, length-body)) (omega (arith, length-body))
      (pending-at_once 7 bytes_sent ∙ sym (append_assoc (header_bytes sent_header) body []))
      header_read (λ e. ground arith) body_read (λ e. ground arith)
