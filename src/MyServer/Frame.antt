-- ===== src/MyServer/Frame.antt =====
-- What the handling of a request leaves alone.
use pick_up_the_light_server.Prelude.{arith, ℕ, true, Option, none, some, List, ◌≡◌, refl}
use pick_up_the_light_server.Prelude.Int.{to_int, is_short}
use pick_up_the_light_server.Outcome.{ok, parse_error, pure, ◌>>=◌, ◌>>◌}
use pick_up_the_light_server.Text.{Bytes, bytes}
use pick_up_the_light_server.Table.{Table, lookup, number_key}
use pick_up_the_light_server.Table.Laws.{keys, keys-adjust}
use pick_up_the_light_server.Evaluator as Table
use pick_up_the_light_server.Evaluator.{add_user_id, set_0}
use pick_up_the_light_server.Protocol.{
  Purpose, heart, register, login, send_file, get_file, get_info, modify_info, chat, to_purpose,
  NetPacketHeader, buf_size, MessageType, characters, to_message_type,
}
use pick_up_the_light_server.Transfer.{blocking, Flags, my_recv}
use pick_up_the_light_server.Prelude.Int.{ℤ}
use pick_up_the_light_server.Platform.{Platform, World, Run, fd_channel, on_evaluator}
use pick_up_the_light_server.Platform.Frame.{
  Keeps, bind-Keeps, then-Keeps, same-Keeps, if-Keeps, want-Keeps, str_field-Keeps, num_field-Keeps,
  query_execute-Keeps, Quiet, transmit-Keeps, fd_channel-Quiet, IsApart,
}
use pick_up_the_light_server.NetPackets.{packet_bytes, register_p, login_p}
use pick_up_the_light_server.Accounts.Frame.{do_register-Keeps, do_login-Keeps}
use pick_up_the_light_server.Database.{query_execute}
use pick_up_the_light_server.ModifyInfo as Modify
use pick_up_the_light_server.ModifyInfo.Frame.{modify_info_on-Keeps}
use pick_up_the_light_server.SendInfo as Info
use pick_up_the_light_server.SendInfo.Frame.{send_info_on-Keeps}
use pick_up_the_light_server.SendFile as Send
use pick_up_the_light_server.SendFile.Frame.{send_file_on-Keeps}
use pick_up_the_light_server.ReceiveFile.{receive_file}
use pick_up_the_light_server.ReceiveFile.Frame.{receive_file_on-Keeps}
use pick_up_the_light_server.MyServer.{
  recv_bytes, take_packet, read_packet, with_packet, serve_register, serve_login, serve_message,
  serve_chat, serve_content, serve_file, serve, process_single_request, insert_message,
}

-- A part of the world that the controllers do not reach. They change entries of the table of
-- connections in two ways.
module _ (P : Platform) {B : Type 0} (part : World P → B) where
  pub record IsOutside : Type 0 where
    pub apart : IsApart P part
    pub net_free : (w : World P) (n : P.sockets.Net) → part (record w { net = n }) ≡ part w
    pub live_free :
        (w : World P) (m : Table Bytes Bytes) → part (record w { live_list = m }) ≡ part w
    pub notes : (fd : ℕ) (id : Bytes) → Keeps part (on_evaluator P (add_user_id fd id))
    pub resets : (fd : ℕ) → Keeps part (on_evaluator P (set_0 fd))

module _ (P : Platform) {B : Type 0} (part : World P → B) (outside : IsOutside P part) where
  open P use {json}
  open json use {Json}

  over_fd : (fd : ℕ) → Quiet P part (fd_channel P fd)
  over_fd fd = fd_channel-Quiet P part outside.net_free fd

  pub recv_bytes-Keeps : (fd : ℕ) (len : ℤ) (flags : Flags) → Keeps part (recv_bytes P fd len flags)
  unfolding recv_bytes
  recv_bytes-Keeps fd len flags = record {
    kept = λ w. outside.net_free w (my_recv P.sockets P.rounds fd len flags w.net).1;
  }

  with_packet-Keeps :
      (next : Bytes → Run P Unit) (text : Option Bytes)
      → ((bs : Bytes) → Keeps part (next bs))
      → Keeps part (with_packet P next text)
  with_packet-Keeps next none h = same-Keeps part (ok tt)
  with_packet-Keeps next (some bs) h = h bs

  packet-Keeps :
      (fd size : ℕ) (next : Bytes → Run P Unit)
      → ((bs : Bytes) → Keeps part (next bs))
      → Keeps part (read_packet P fd size >>= with_packet P next)
  unfolding read_packet
  packet-Keeps fd size next h =
      bind-Keeps part
        (bind-Keeps part (recv_bytes-Keeps fd (to_int size) blocking)
          λ f. same-Keeps part (take_packet P size f))
        λ text. with_packet-Keeps next text h

  serve_register-Keeps : (fd : ℕ) (text : Bytes) → Keeps part (serve_register P fd text)
  unfolding serve_register
  serve_register-Keeps fd text =
      bind-Keeps part (do_register-Keeps P part outside.apart text) λ success.
        bind-Keeps part (same-Keeps part (register_p json success))
          λ p. transmit-Keeps P part (fd_channel P fd) (over_fd fd) (packet_bytes p)

  serve_login-Keeps : (fd : ℕ) (text : Bytes) → Keeps part (serve_login P fd text)
  unfolding serve_login
  serve_login-Keeps fd text =
      bind-Keeps part (do_login-Keeps P part outside.notes fd text) λ success.
        bind-Keeps part (same-Keeps part (login_p json success))
          λ p. transmit-Keeps P part (fd_channel P fd) (over_fd fd) (packet_bytes p)

  insert-Keeps :
      (kind : MessageType) (send_id receive_id content : Bytes)
      → Keeps part (query_execute P (insert_message kind send_id receive_id content) >> pure tt)
  insert-Keeps kind send_id receive_id content =
      then-Keeps part
        (query_execute-Keeps P part outside.apart.db_free
          (insert_message kind send_id receive_id content))
        (same-Keeps part (ok tt))

  pub serve_message-Keeps :
      (msg : Json) (kind : Option MessageType) → Keeps part (serve_message P msg kind)
  unfolding serve_message
  serve_message-Keeps msg (some characters) =
      bind-Keeps part (str_field-Keeps P part (bytes "sendId") msg) λ s.
        bind-Keeps part (str_field-Keeps P part (bytes "receiveId") msg) λ r.
          bind-Keeps part (str_field-Keeps P part (bytes "content") msg)
            λ c. insert-Keeps characters s r c
  serve_message-Keeps msg (some MessageType.video_preview_img) =
      bind-Keeps part (str_field-Keeps P part (bytes "sendId") msg) λ s.
        bind-Keeps part (str_field-Keeps P part (bytes "receiveId") msg) λ r.
          bind-Keeps part (str_field-Keeps P part (bytes "videoId") msg)
            λ c. insert-Keeps MessageType.video_preview_img s r c
  serve_message-Keeps msg _ = same-Keeps part (ok tt)

  serve_chat-Keeps : (text : Bytes) → Keeps part (serve_chat P text)
  unfolding serve_chat
  serve_chat-Keeps text = bind-Keeps part (want-Keeps P part parse_error (json.parse text)) λ msg.
      bind-Keeps part (num_field-Keeps P part (bytes "messagetype") msg)
        λ kind. serve_message-Keeps msg (to_message_type kind)

  serve_content-Keeps : (fd size : ℕ) (info : Bytes) → Keeps part (serve_content P fd size info)
  unfolding serve_content receive_file
  serve_content-Keeps fd size info =
      bind-Keeps part (recv_bytes-Keeps fd (to_int size) blocking) λ f.
        if-Keeps part (is_short f.ret size) (same-Keeps part (ok tt)) (
          then-Keeps part
            (receive_file_on-Keeps P part outside.apart (fd_channel P fd) (over_fd fd) true info
              f.buf)
            (same-Keeps part (ok tt)))

  pub serve-Keeps : (fd size : ℕ) (purpose : Option Purpose) → Keeps part (serve P fd size purpose)
  unfolding serve serve_file Modify.modify_info Info.send_info Send.send_file
  serve-Keeps fd size (some register) =
      packet-Keeps fd size (serve_register P fd) (serve_register-Keeps fd)
  serve-Keeps fd size (some login) = packet-Keeps fd size (serve_login P fd) (serve_login-Keeps fd)
  serve-Keeps fd size (some heart) = outside.resets fd
  serve-Keeps fd size (some send_file) =
      packet-Keeps fd buf_size (serve_content P fd size) (serve_content-Keeps fd size)
  serve-Keeps fd size (some get_file) =
      packet-Keeps fd size (Send.send_file_on P (fd_channel P fd))
        (send_file_on-Keeps P part (fd_channel P fd) (over_fd fd))
  serve-Keeps fd size (some get_info) = packet-Keeps fd size (Info.send_info P fd) λ text.
      send_info_on-Keeps P part (fd_channel P fd) (bytes "http://192.168.156.74/") text (over_fd fd)
        outside.apart.db_free
  serve-Keeps fd size (some modify_info) =
      packet-Keeps fd size (Modify.modify_info_on P (fd_channel P fd))
        (modify_info_on-Keeps P part (fd_channel P fd) (over_fd fd) outside.live_free outside.apart)
  serve-Keeps fd size (some chat) = packet-Keeps fd size (serve_chat P) serve_chat-Keeps
  serve-Keeps fd size none = same-Keeps part (ok tt)

-- What ties a connection to the server: the descriptors in the table of connections, those that
-- epoll watches, and those that were closed.
abbrev pub Descriptors : Type 0
Descriptors = List ℕ × List ℕ × List ℕ

abbrev pub descriptors : (P : Platform) → World P → Descriptors
descriptors P w = (keys w.evaluator.m_map, w.watched, w.closed)

module _ (P : Platform) where
  put-Keeps :
      (fd : ℕ) (f : Table.Info → Table.Info)
      → Keeps (descriptors P) (on_evaluator P (Table.at_put fd f))
  unfolding Table.at_put
  put-Keeps fd f = record { kept = λ w. put_kept w (lookup fd w.evaluator.m_map) refl }
    where
      put_kept :
          (w : World P) (entry : Option Table.Info)
          → lookup fd w.evaluator.m_map ≡ entry
          → descriptors P (on_evaluator P (Table.at_put fd f) w).1 ≡ descriptors P w
      put_kept w none e = ground (arith, e)
      put_kept w (some info) e = ground (arith, e, keys-adjust fd f w.evaluator.m_map)

  pub descriptors-IsOutside : IsOutside P (descriptors P)
  unfolding Table.set_0 Table.add_user_id
  descriptors-IsOutside = record {
    apart = record { db_free = λ w d. refl; disk_free = λ w d. refl; id_free = λ w g. refl };
    net_free = λ w n. refl;
    live_free = λ w m. refl;
    notes = λ fd id. put-Keeps fd (λ info. record info { user_id = id });
    resets = λ fd. put-Keeps fd (λ info. record info { num = 0 });
  }

  -- However a request is handled and however its handling ends, it leaves alone which connections are
  -- in the table, which descriptors epoll watches, and which are closed.
  pub process_single_request-descriptors :
      (fd : ℕ) (pheader : NetPacketHeader) (w : World P)
      → descriptors P (process_single_request P fd pheader w).1 ≡ descriptors P w
  unfolding process_single_request
  process_single_request-descriptors fd pheader =
      (serve-Keeps P (descriptors P) descriptors-IsOutside fd pheader.data_size
        (to_purpose pheader.purpose)).kept
