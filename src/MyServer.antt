-- ===== src/MyServer.antt =====
-- myserver.h and myserver.cpp: the server on epoll. A task of the thread pool reads the requests of
-- one descriptor until there are no more, and runs each of them.
pub mod Requests
pub mod Framing
pub mod Accept
pub mod Disconnect
pub mod Conversation
pub mod Overflow
pub mod Frame
mod Tests
use pick_up_the_light_server.Prelude.{
  ℕ, zero, suc, Bool, true, false, Option, none, some, List, [], ◌∷◌, ◌++◌, ◌==◌, length, ltb,
  if◌then◌else◌,
}
use pick_up_the_light_server.Prelude.Int.{ℤ, pos, negsuc, to_int, is_short}
use pick_up_the_light_server.Outcome.{
  Outcome, ok, throws, undefined, waiting, Exec, pure, lift, modify, gets, ◌>>=◌, ◌>>◌,
}
use pick_up_the_light_server.Text.{Bytes, bytes, c_string, to_string}
use pick_up_the_light_server.Table.{number_key}
use pick_up_the_light_server.Protocol.{
  Purpose, heart, register, login, send_file, get_file, get_info, modify_info, chat, to_purpose,
  NetPacketHeader, to_header, header_size, buf_size, MessageType, characters, message_type_code,
  to_message_type,
}
use pick_up_the_light_server.Transfer.{Flags, blocking, dont_wait, Filled, my_recv}
use pick_up_the_light_server.Evaluator as Table
use pick_up_the_light_server.Platform.{
  Platform, World, Run, parse, str_field, num_field, Channel, transmit, fd_channel, on_net,
  on_evaluator,
}
use pick_up_the_light_server.Database.{query_execute}
use pick_up_the_light_server.LiveList as Live
use pick_up_the_light_server.Epoll.{add_fd, delete_fd}
use pick_up_the_light_server.NetPackets.{NetPacket, packet_bytes, register_p, login_p}
use pick_up_the_light_server.Accounts.{do_register, do_login}
use pick_up_the_light_server.ModifyInfo as Modify
use pick_up_the_light_server.SendInfo as Info
use pick_up_the_light_server.SendFile as Send
use pick_up_the_light_server.ReceiveFile.{receive_file}

-- The `std::string` made of a buffer of `BUF_SIZE` bytes whose front was filled and whose rest is
-- zero: a text that fills the buffer has no end in it.
unfoldable pub text_of : Bytes → Outcome Bytes
unfolding c_string
text_of buf = let t = c_string buf in if ltb (length t) buf_size then ok t else undefined

abbrev as_some : Outcome Bytes → Outcome (Option Bytes)
as_some (ok t) = ok (some t)
as_some (throws e) = throws e
as_some undefined = undefined
as_some waiting = waiting

unfoldable pub insert_message : MessageType → Bytes → Bytes → Bytes → Bytes
unfolding bytes to_string message_type_code
insert_message kind send_id receive_id content =
    bytes "insert into Message(sendId, receiveId, messageType, message, time) values('"
    ++ send_id
    ++ bytes "', '"
    ++ receive_id
    ++ bytes "', '"
    ++ to_string (message_type_code kind)
    ++ bytes "', '"
    ++ content
    ++ bytes "', (select now()))"

module _ (P : Platform) where
  open P use {json, sockets, rounds}

  pub recv_bytes : ℕ → ℤ → Flags → Run P Filled
  unfolding my_recv
  recv_bytes fd len flags = on_net P (my_recv sockets rounds fd len flags)

  -- `my_recv(fd, buf, size, 0)` into `char buf[BUF_SIZE]`, the test of its value, and the text that
  -- the controllers get. `none` is the early return.
  unfoldable pub take_packet : ℕ → Filled → Outcome (Option Bytes)
  unfolding text_of
  take_packet size f =
      if ltb buf_size (length f.buf)
      then undefined
      else (if is_short f.ret size then ok none else as_some (text_of f.buf))

  unfoldable pub read_packet : ℕ → ℕ → Run P (Option Bytes)
  unfolding recv_bytes take_packet
  read_packet fd size = do f ← recv_bytes fd (to_int size) blocking; lift (take_packet size f)

  -- A request whose data was read, or the early return.
  abbrev with_packet : (Bytes → Run P Unit) → Option Bytes → Run P Unit
  with_packet serve none = pure tt
  with_packet serve (some text) = serve text

  pub serve_register : ℕ → Bytes → Run P Unit
  unfolding do_register register_p packet_bytes fd_channel
  serve_register fd text = do
    success ← do_register P text
    p ← lift (register_p json success)
    transmit P (fd_channel P fd) (packet_bytes p)

  pub serve_login : ℕ → Bytes → Run P Unit
  unfolding do_login login_p packet_bytes fd_channel
  serve_login fd text = do
    success ← do_login P fd text
    p ← lift (login_p json success)
    transmit P (fd_channel P fd) (packet_bytes p)

  -- The chat messages that carry text or a video; images come as files.
  unfoldable pub serve_message : json.Json → Option MessageType → Run P Unit
  unfolding query_execute insert_message bytes
  serve_message msg (some characters) = do
    send_id ← str_field P (bytes "sendId") msg
    receive_id ← str_field P (bytes "receiveId") msg
    content ← str_field P (bytes "content") msg
    query_execute P (insert_message characters send_id receive_id content) >> pure tt
  serve_message msg (some MessageType.video_preview_img) = do
    send_id ← str_field P (bytes "sendId") msg
    receive_id ← str_field P (bytes "receiveId") msg
    video_id ← str_field P (bytes "videoId") msg
    query_execute P (insert_message MessageType.video_preview_img send_id receive_id video_id)
        >> pure tt
  serve_message msg _ = pure tt

  pub serve_chat : Bytes → Run P Unit
  unfolding serve_message to_message_type bytes
  serve_chat text = do
    msg ← parse P text
    kind ← num_field P (bytes "messagetype") msg
    serve_message msg (to_message_type kind)

  -- The content of a file, behind its description.
  serve_content : ℕ → ℕ → Bytes → Run P Unit
  unfolding recv_bytes receive_file
  serve_content fd size info = do
    f ← recv_bytes fd (to_int size) blocking
    if is_short f.ret size then pure tt else receive_file P fd info f.buf >> pure tt

  serve_file : ℕ → ℕ → Run P Unit
  unfolding read_packet serve_content
  serve_file fd size = do info ← read_packet fd buf_size; with_packet (serve_content fd size) info

  -- `processSingleRequest`: the `switch` over the purpose.
  unfoldable pub serve : ℕ → ℕ → Option Purpose → Run P Unit
  unfolding read_packet serve_register serve_login serve_chat serve_file Table.set_0
      Modify.modify_info Info.send_info Send.send_file
  serve fd size (some register) = read_packet fd size >>= with_packet (serve_register fd)
  serve fd size (some login) = read_packet fd size >>= with_packet (serve_login fd)
  serve fd size (some heart) = on_evaluator P (Table.set_0 fd)
  serve fd size (some send_file) = serve_file fd size
  serve fd size (some get_file) = read_packet fd size >>= with_packet (Send.send_file P fd)
  serve fd size (some get_info) = read_packet fd size >>= with_packet (Info.send_info P fd)
  serve fd size (some modify_info) = read_packet fd size >>= with_packet (Modify.modify_info P fd)
  serve fd size (some chat) = read_packet fd size >>= with_packet serve_chat
  serve fd size none = pure tt

  unfoldable pub process_single_request : ℕ → NetPacketHeader → Run P Unit
  unfolding serve to_purpose
  process_single_request fd pheader = serve fd pheader.data_size (to_purpose pheader.purpose)

  -- The peer has closed the connection.
  unfoldable pub disconnect : ℕ → Run P Unit
  unfolding Table.get_ip Table.get_user_id Table.remove Live.remove delete_fd
  disconnect fd = do
    ip ← λ w. (Table.get_ip fd w.evaluator, w)
    user_id ← λ w. (Table.get_user_id fd w.evaluator, w)
    unlisted ← Live.remove P user_id
    forgotten ← on_evaluator P (Table.remove fd)
    unwatched ← delete_fd P fd
    modify (λ w. record w { closed = fd ∷ w.closed })

  -- What the loop does with the value of the read of a header. The result tells whether it goes on.
  unfoldable pub handle_header : ℕ → Filled → Run P Bool
  unfolding process_single_request disconnect add_fd to_header
  handle_header fd f = elim f.ret [
    | negsuc n ↦ add_fd P fd >> pure false
    | pos n ↦
        if n == 0
        then disconnect fd >> pure false
        else (if n == header_size
            then elim (to_header f.buf) [
              | none ↦ pure false
              | some h ↦ process_single_request fd h >> pure true
            ]
            else pure false)
  ]

  -- One turn of the loop of `processClientRequest`.
  unfoldable pub next_request : ℕ → Run P Bool
  unfolding handle_header recv_bytes
  next_request fd = recv_bytes fd (pos header_size) dont_wait >>= handle_header fd

  abbrev pub go_on : Run P Unit → Bool → Run P Unit
  go_on again true = again
  go_on again false = pure tt

  -- `processClientRequest`, followed for a number of requests.
  unfoldable pub process_client_request : ℕ → ℕ → Run P Unit
  unfolding next_request
  process_client_request zero fd = lift waiting
  process_client_request (suc requests) fd =
      next_request fd >>= go_on (process_client_request requests fd)
