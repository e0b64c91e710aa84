-- ===== src/MyServer/Disconnect.antt =====
-- How a task of the server ends.
use pick_up_the_light_server.Prelude.{ℕ, suc, ◌≡◌, refl, ◌∙◌, Option, none, some, ◌∷◌, arith}
use pick_up_the_light_server.Prelude.Int.{pos}
use pick_up_the_light_server.Outcome.{Outcome, ok, throws, out_of_range, ◌>>=◌}
use pick_up_the_light_server.Text.{Bytes}
use pick_up_the_light_server.Table.{number_key, bytes_key, lookup, erase}
use pick_up_the_light_server.Evaluator as Table
use pick_up_the_light_server.LiveList as Live
use pick_up_the_light_server.Protocol.{header_size}
use pick_up_the_light_server.Transfer.{Filled, dont_wait, my_recv}
use pick_up_the_light_server.Platform.{Platform, World}
use pick_up_the_light_server.Epoll.{unwatch, delete_fd}
use pick_up_the_light_server.MyServer.{
  recv_bytes, disconnect, handle_header, next_request, go_on, process_client_request,
}

module _ (P : Platform) where
  -- The world after the disconnect of a connection whose user is `user_id`.
  abbrev pub left : ℕ → Bytes → World P → World P
  left fd user_id w = record w {
    live_list = erase user_id w.live_list;
    evaluator = record w.evaluator { m_map = erase fd w.evaluator.m_map };
    watched = unwatch fd w.watched;
    closed = fd ∷ w.closed;
  }

  -- What the task does after the read of a header, by its value.
  after_read :
      (requests fd : ℕ) (w : World P) (f : Filled) (net' : P.sockets.Net)
      → my_recv P.sockets P.rounds fd (pos header_size) dont_wait w.net ≡ (ok f, net')
      → process_client_request P (suc requests) fd w
        ≡ (handle_header P fd f >>= go_on P (process_client_request P requests fd))
            (record w { net = net' })
  unfolding process_client_request next_request recv_bytes
  after_read requests fd w f net' h = rw h refl

  abbrev pub leaving : ℕ → Option Table.Info → World P → Outcome (Unit {0}) × World P
  leaving fd none w = (throws out_of_range, w)
  leaving fd (some info) w = (ok tt, left fd info.user_id w)

  pub disconnect_case :
      (fd : ℕ) (entry : Option Table.Info) (w : World P)
      → lookup fd w.evaluator.m_map ≡ entry
      → disconnect P fd w ≡ leaving fd entry w
  unfolding disconnect Table.get_ip Table.get_user_id Table.at_get Table.remove Live.remove
      delete_fd
  disconnect_case fd none w e = ground (arith, e)
  disconnect_case fd (some info) w e = ground (arith, e)

  at_end :
      (fd : ℕ) (again : World P → Outcome (Unit {0}) × World P) (f : Filled) (w : World P)
      (entry : Option Table.Info)
      → f.ret ≡ pos 0
      → lookup fd w.evaluator.m_map ≡ entry
      → (handle_header P fd f >>= go_on P again) w ≡ leaving fd entry w
  unfolding handle_header
  at_end fd again f w none end e = rw end (ground (arith, disconnect_case fd none w e))
  at_end fd again f w (some info) end e =
      rw end (ground (arith, disconnect_case fd (some info) w e))

  -- Where the peer has closed and the connection is in the table, the task takes the user off the
  -- live list and the connection out of the table and out of epoll, and closes the descriptor.
  -- Where the heartbeat check has dropped the connection already, it throws instead.
  pub process_client_request-closed :
      (requests fd : ℕ) (w : World P) (f : Filled) (net' : P.sockets.Net)
      → my_recv P.sockets P.rounds fd (pos header_size) dont_wait w.net ≡ (ok f, net')
      → f.ret ≡ pos 0
      → process_client_request P (suc requests) fd w
        ≡ leaving fd (lookup fd w.evaluator.m_map) (record w { net = net' })
  process_client_request-closed requests fd w f net' h end =
      after_read requests fd w f net' h
      ∙ at_end fd (process_client_request P requests fd) f (record w { net = net' })
          (lookup fd w.evaluator.m_map) end refl
