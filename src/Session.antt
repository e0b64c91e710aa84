-- ===== src/Session.antt =====
-- session.h and session.cpp: the session of one client on boost::asio. A header is received without
-- blocking, the rest of a request is read and served in the completion handler.
pub mod Events
pub mod Framing
pub mod Frame
mod Tests
use Prim.Native.Nat.{min}
use pick_up_the_light_server.Prelude.{
  ℕ, ◌-◌, ◌^◌, Bool, true, false, Option, none, some, List, [], ◌∷◌, ◌++◌, not, ◌||◌, ◌==◌, length,
  drop, replicate, ltb, if◌then◌else◌,
}
use pick_up_the_light_server.Outcome.{
  Outcome, ok, throws, undefined, system_error, Exec, pure, lift, modify, ◌>>=◌, ◌>>◌,
}
use pick_up_the_light_server.Text.{Bytes, bytes}
use pick_up_the_light_server.Table.{number_key}
use pick_up_the_light_server.Protocol.{
  Purpose, heart, register, login, send_file, get_file, get_info, modify_info, chat, to_purpose,
  NetPacketHeader, to_header, buf_size, MessageType, to_message_type,
}
use pick_up_the_light_server.Evaluator as Table
use pick_up_the_light_server.Platform.{
  Platform, World, Run, parse, num_field, transmit, socket_channel, on_net, on_evaluator,
}
use pick_up_the_light_server.NetPackets.{NetPacket, packet_bytes, register_p, login_p}
use pick_up_the_light_server.Accounts.{do_register, do_login_boost}
use pick_up_the_light_server.ModifyInfo.{modify_info_boost}
use pick_up_the_light_server.SendInfo.{send_info_boost}
use pick_up_the_light_server.SendFile.{front_of, send_file_boost}
use pick_up_the_light_server.ReceiveFile.{receive_file_boost}
use pick_up_the_light_server.MyServer.{text_of, serve_message}

-- The answers of `async_receive`: bytes of a header, of which there may be fewer than eight, or an
-- error.
pub data Completion : Type 0 where
  received : Bytes → Completion
  eof : Completion
  operation_aborted : Completion
  other_error : Completion

module _ (P : Platform) where
  open P use {json}

  -- `boost::asio::read(...)`, which reads all or throws.
  asio_read : ℕ → ℕ → Run P Bytes
  asio_read socket_ptr n = on_net P (λ net.
      let (r, net') = P.asio_read socket_ptr n net in
      (elim r [ none ↦ throws system_error | some bs ↦ ok bs ], net'))

  -- `ret==-1 || ret==0 || ret!=size`, after a read of `n` bytes into an `int` that is compared as
  -- an `unsigned int`.
  abbrev pub is_short_read : ℕ → ℕ → Bool
  is_short_read n size = n == 2 ^ 32 - 1 || (n == 0 || not (n == size))

  -- A read into `m_buf`. `asio::buffer` bounds it by the array, so the read of a larger packet stops
  -- there, and the request is dropped. `none` is the early return.
  unfoldable pub fill_buffer : ℕ → ℕ → Run P (Option Bytes)
  unfolding asio_read
  fill_buffer socket_ptr size = do
    bs ← asio_read socket_ptr (min size buf_size)
    pure (if is_short_read (min size buf_size) size then none else some bs)

  abbrev with_buffer : (Bytes → Run P Unit) → Option Bytes → Run P Unit
  with_buffer serve none = pure tt
  with_buffer serve (some bs) = serve bs

  -- `m_buf.data()` as a string.
  abbrev with_text : (Bytes → Run P Unit) → Option Bytes → Run P Unit
  with_text serve = with_buffer (λ bs. lift (text_of bs) >>= serve)

  pub session_register : ℕ → Bytes → Run P Unit
  unfolding do_register register_p packet_bytes socket_channel
  session_register socket_ptr text = do
    success ← do_register P text
    p ← lift (register_p json success)
    transmit P (socket_channel P socket_ptr) (packet_bytes p)

  pub session_login : ℕ → Bytes → Run P Unit
  unfolding do_login_boost login_p packet_bytes socket_channel
  session_login socket_ptr text = do
    success ← do_login_boost P socket_ptr text
    p ← lift (login_p json success)
    transmit P (socket_channel P socket_ptr) (packet_bytes p)

  -- The whole array is parsed, with the zeros behind the text.
  pub session_chat : Bytes → Run P Unit
  unfolding serve_message to_message_type bytes
  session_chat bs = do
    msg ← parse P (front_of bs (replicate buf_size 0))
    kind ← num_field P (bytes "messagetype") msg
    serve_message P msg (to_message_type kind)

  -- The content of a file, behind its description, into a new buffer of `size+1` bytes, which wraps
  -- to none for the largest size.
  session_content : ℕ → ℕ → Bytes → Run P Unit
  unfolding asio_read receive_file_boost
  session_content socket_ptr size bs = do
    content ← asio_read socket_ptr size
    allocated ← lift (if size == 2 ^ 32 - 1 then undefined else ok tt)
    if is_short_read size size
        then pure tt
        else (lift (text_of bs) >>= λ info. receive_file_boost P socket_ptr info content >> pure tt)

  -- `processSingleRequest`
  unfoldable pub session_serve : ℕ → ℕ → Option Purpose → Run P Unit
  unfolding fill_buffer session_register session_login session_chat session_content text_of
      Table.set_0 send_file_boost send_info_boost modify_info_boost
  session_serve socket_ptr size (some register) =
      fill_buffer socket_ptr size >>= with_text (session_register socket_ptr)
  session_serve socket_ptr size (some login) =
      fill_buffer socket_ptr size >>= with_text (session_login socket_ptr)
  session_serve socket_ptr size (some heart) = on_evaluator P (Table.set_0 socket_ptr)
  session_serve socket_ptr size (some send_file) =
      fill_buffer socket_ptr buf_size >>= with_buffer (session_content socket_ptr size)
  session_serve socket_ptr size (some get_file) =
      fill_buffer socket_ptr size >>= with_text (send_file_boost P socket_ptr)
  session_serve socket_ptr size (some get_info) =
      fill_buffer socket_ptr size >>= with_text (send_info_boost P socket_ptr)
  session_serve socket_ptr size (some modify_info) =
      fill_buffer socket_ptr size >>= with_text (modify_info_boost P socket_ptr)
  session_serve socket_ptr size (some chat) =
      fill_buffer socket_ptr size >>= with_buffer session_chat
  session_serve socket_ptr size none = pure tt

  pub session_request : ℕ → Option NetPacketHeader → Run P Unit
  unfolding session_serve to_purpose
  session_request socket_ptr none = pure tt
  session_request socket_ptr (some h) = session_serve socket_ptr h.data_size (to_purpose h.purpose)

  -- The completion handler, on the eight bytes that `m_pheader` had: what arrived overwrites their
  -- front. The result tells whether the next header is waited for, and with which bytes.
  unfoldable pub on_receive : ℕ → Bytes → Completion → Run P (Option Bytes)
  unfolding session_request to_header Table.remove
  on_receive socket_ptr m_pheader (received bs) =
      session_request socket_ptr (to_header (front_of bs m_pheader))
      >> pure (some (front_of bs m_pheader))
  on_receive socket_ptr m_pheader eof = do
    forgotten ← on_evaluator P (Table.remove socket_ptr)
    closed ← modify (λ w. record w { closed = socket_ptr ∷ w.closed })
    pure none
  on_receive socket_ptr m_pheader operation_aborted = pure none
  on_receive socket_ptr m_pheader other_error = pure none
