-- ===== src/Session/Frame.antt =====
-- What a session leaves alone while it handles a request.
use Prim.Native.Nat.{min}
use pick_up_the_light_server.Prelude.{
  ℕ, ◌-◌, ◌^◌, false, Option, none, some, ◌==◌, replicate, if◌then◌else◌,
}
use pick_up_the_light_server.Outcome.{ok, undefined, parse_error, lift, ◌>>=◌}
use pick_up_the_light_server.Text.{Bytes, bytes}
use pick_up_the_light_server.Protocol.{
  Purpose, heart, register, login, send_file, get_file, get_info, modify_info, chat, to_purpose,
  NetPacketHeader, buf_size, to_message_type,
}
use pick_up_the_light_server.Platform.{Platform, World, Run, socket_channel}
use pick_up_the_light_server.Platform.Frame.{
  Keeps, bind-Keeps, then-Keeps, same-Keeps, if-Keeps, want-Keeps, num_field-Keeps, Quiet,
  transmit-Keeps, socket_channel-Quiet,
}
use pick_up_the_light_server.NetPackets.{packet_bytes, register_p, login_p}
use pick_up_the_light_server.Accounts.{do_login_boost}
use pick_up_the_light_server.Accounts.Frame.{do_register-Keeps, do_login-Keeps}
use pick_up_the_light_server.ModifyInfo.{modify_info_on, modify_info_boost}
use pick_up_the_light_server.ModifyInfo.Frame.{modify_info_on-Keeps}
use pick_up_the_light_server.SendInfo.{send_info_boost}
use pick_up_the_light_server.SendInfo.Frame.{send_info_on-Keeps}
use pick_up_the_light_server.SendFile.{front_of, send_file_on, send_file_boost}
use pick_up_the_light_server.SendFile.Frame.{send_file_on-Keeps}
use pick_up_the_light_server.ReceiveFile.{receive_file_boost}
use pick_up_the_light_server.ReceiveFile.Frame.{receive_file_on-Keeps}
use pick_up_the_light_server.MyServer.{text_of}
use pick_up_the_light_server.MyServer.Frame.{IsOutside, serve_message-Keeps}
use pick_up_the_light_server.Session.{
  asio_read, is_short_read, fill_buffer, with_buffer, with_text, session_register, session_login,
  session_chat, session_content, session_serve, session_request,
}

module _ (P : Platform) {B : Type 0} (part : World P → B) (outside : IsOutside P part) where
  open P use {json}
  open json use {Json}

  over_socket : (socket_ptr : ℕ) → Quiet P part (socket_channel P socket_ptr)
  over_socket socket_ptr = socket_channel-Quiet P part outside.net_free socket_ptr

  asio_read-Keeps : (socket_ptr n : ℕ) → Keeps part (asio_read P socket_ptr n)
  unfolding asio_read
  asio_read-Keeps socket_ptr n = record {
    kept = λ w. outside.net_free w (P.asio_read socket_ptr n w.net).1;
  }

  with_buffer-Keeps :
      (next : Bytes → Run P Unit) (text : Option Bytes)
      → ((bs : Bytes) → Keeps part (next bs))
      → Keeps part (with_buffer P next text)
  with_buffer-Keeps next none h = same-Keeps part (ok tt)
  with_buffer-Keeps next (some bs) h = h bs

  buffer-Keeps :
      (socket_ptr size : ℕ) (next : Bytes → Run P Unit)
      → ((bs : Bytes) → Keeps part (next bs))
      → Keeps part (fill_buffer P socket_ptr size >>= with_buffer P next)
  unfolding fill_buffer
  buffer-Keeps socket_ptr size next h =
      bind-Keeps part
        (bind-Keeps part (asio_read-Keeps socket_ptr (min size buf_size)) λ bs.
          same-Keeps part (ok (if is_short_read P (min size buf_size) size then none else some bs)))
        λ text. with_buffer-Keeps next text h

  text-Keeps :
      (socket_ptr size : ℕ) (next : Bytes → Run P Unit)
      → ((bs : Bytes) → Keeps part (next bs))
      → Keeps part (fill_buffer P socket_ptr size >>= with_text P next)
  text-Keeps socket_ptr size next h =
      buffer-Keeps socket_ptr size (λ bs. lift (text_of bs) >>= next)
        λ bs. bind-Keeps part (same-Keeps part (text_of bs)) h

  session_register-Keeps :
      (socket_ptr : ℕ) (text : Bytes) → Keeps part (session_register P socket_ptr text)
  unfolding session_register
  session_register-Keeps socket_ptr text =
      bind-Keeps part (do_register-Keeps P part outside.apart text) λ success.
        bind-Keeps part (same-Keeps part (register_p json success)) λ p.
          transmit-Keeps P part (socket_channel P socket_ptr) (over_socket socket_ptr)
            (packet_bytes p)

  session_login-Keeps :
      (socket_ptr : ℕ) (text : Bytes) → Keeps part (session_login P socket_ptr text)
  unfolding session_login do_login_boost
  session_login-Keeps socket_ptr text =
      bind-Keeps part (do_login-Keeps P part outside.notes socket_ptr text) λ success.
        bind-Keeps part (same-Keeps part (login_p json success)) λ p.
          transmit-Keeps P part (socket_channel P socket_ptr) (over_socket socket_ptr)
            (packet_bytes p)

  session_chat-Keeps : (bs : Bytes) → Keeps part (session_chat P bs)
  unfolding session_chat
  session_chat-Keeps bs =
      bind-Keeps part
        (want-Keeps P part parse_error (json.parse (front_of bs (replicate buf_size 0))))
        λ msg.
          bind-Keeps part (num_field-Keeps P part (bytes "messagetype") msg)
            λ kind. serve_message-Keeps P part outside msg (to_message_type kind)

  session_content-Keeps :
      (socket_ptr size : ℕ) (bs : Bytes) → Keeps part (session_content P socket_ptr size bs)
  unfolding session_content receive_file_boost
  session_content-Keeps socket_ptr size bs =
      bind-Keeps part (asio_read-Keeps socket_ptr size) λ content.
        bind-Keeps part (same-Keeps part (if size == 2 ^ 32 - 1 then undefined else ok tt)) λ made.
          if-Keeps part (is_short_read P size size) (same-Keeps part (ok tt)) (
            bind-Keeps part (same-Keeps part (text_of bs)) λ info.
              then-Keeps part
                (receive_file_on-Keeps P part outside.apart (socket_channel P socket_ptr)
                  (over_socket socket_ptr) false info content)
                (same-Keeps part (ok tt)))

  session_serve-Keeps :
      (socket_ptr size : ℕ) (purpose : Option Purpose)
      → Keeps part (session_serve P socket_ptr size purpose)
  unfolding session_serve modify_info_boost send_info_boost send_file_boost
  session_serve-Keeps socket_ptr size (some register) =
      text-Keeps socket_ptr size (session_register P socket_ptr) (session_register-Keeps socket_ptr)
  session_serve-Keeps socket_ptr size (some login) =
      text-Keeps socket_ptr size (session_login P socket_ptr) (session_login-Keeps socket_ptr)
  session_serve-Keeps socket_ptr size (some heart) = outside.resets socket_ptr
  session_serve-Keeps socket_ptr size (some send_file) =
      buffer-Keeps socket_ptr buf_size (session_content P socket_ptr size)
        (session_content-Keeps socket_ptr size)
  session_serve-Keeps socket_ptr size (some get_file) =
      text-Keeps socket_ptr size (send_file_on P (socket_channel P socket_ptr))
        (send_file_on-Keeps P part (socket_channel P socket_ptr) (over_socket socket_ptr))
  session_serve-Keeps socket_ptr size (some get_info) =
      text-Keeps socket_ptr size (send_info_boost P socket_ptr) λ text.
        send_info_on-Keeps P part (socket_channel P socket_ptr) (bytes "http://127.0.0.1/") text
          (over_socket socket_ptr) outside.apart.db_free
  session_serve-Keeps socket_ptr size (some modify_info) =
      text-Keeps socket_ptr size (modify_info_on P (socket_channel P socket_ptr)) (
        modify_info_on-Keeps P part (socket_channel P socket_ptr) (over_socket socket_ptr)
          outside.live_free outside.apart)
  session_serve-Keeps socket_ptr size (some chat) =
      buffer-Keeps socket_ptr size (session_chat P) session_chat-Keeps
  session_serve-Keeps socket_ptr size none = same-Keeps part (ok tt)

  pub session_request-Keeps :
      (socket_ptr : ℕ) (header : Option NetPacketHeader)
      → Keeps part (session_request P socket_ptr header)
  unfolding session_request
  session_request-Keeps socket_ptr none = same-Keeps part (ok tt)
  session_request-Keeps socket_ptr (some h) =
      session_serve-Keeps socket_ptr h.data_size (to_purpose h.purpose)
