-- ===== src/NetPackets.antt =====
-- netpacketgenerator.h and netpacketgenerator.cpp: the packets that the server answers with. The
-- data of a packet is the text of a JSON object, copied with `strcpy` into `BUF_SIZE` bytes.
pub mod Wire
mod Tests
use pick_up_the_light_server.Prelude.{
  ℕ, suc, ◌+◌, Bool, true, false, Option, none, some, List, [], ◌∷◌, ◌++◌, take, length, ltb,
  if◌then◌else◌,
}
use pick_up_the_light_server.Prelude.Int.{pos}
use pick_up_the_light_server.Outcome.{Outcome, ok, throws, undefined, type_error}
use pick_up_the_light_server.Text.{Bytes, bytes}
use pick_up_the_light_server.Protocol.{
  NetPacketHeader, header_bytes, header_size, buf_size, Purpose, register, login, send_file,
  get_info, modify_info, purpose_code, InfoType, comment, vod_list, video_like, follow, fans,
  live_list, nick_name, user_video, user_video_like, message, video_push, info_type_code,
}
use pick_up_the_light_server.Platform.{JsonLib}

-- `NetPacket`. `data_text` is the string that `strcpy` put at the front of the buffer.
pub record NetPacket : Type 0 where
  pub packet_header : NetPacketHeader
  pub data_text : Bytes

-- What `my_send(fd, &p, sizeof(NetPacketHeader)+p.packetHeader.data_size, 0)` sends.
unfoldable pub packet_bytes : NetPacket → Bytes
unfolding header_bytes
packet_bytes p = header_bytes p.packet_header ++ take p.packet_header.data_size p.data_text

module _ (J : JsonLib) where
  open J use {Json, null, dump, put_field, from_string, from_int}

  -- The part that all generators end with. JSON text has no zero byte, so `strcpy` copies the whole
  -- of it and a zero behind it, and writes past the buffer if they do not fit.
  unfoldable pub to_packet : Purpose → Json → Outcome NetPacket
  to_packet purpose json_msg = elim (dump json_msg) [
    | none ↦ throws type_error
    | some str_msg ↦
        if ltb buf_size (length str_msg + 1)
        then undefined
        else ok (record {
          packet_header = record { purpose = purpose_code purpose; data_size = length str_msg };
          data_text = str_msg;
        })
  ]

  success_text : Bool → Bytes
  unfolding bytes
  success_text true = bytes "true"
  success_text false = bytes "false"

  unfoldable pub register_p : Bool → Outcome NetPacket
  unfolding to_packet success_text bytes
  register_p success =
      to_packet register (put_field (bytes "success") (from_string (success_text success)) null)

  unfoldable pub login_p : Bool → Outcome NetPacket
  unfolding to_packet success_text bytes
  login_p success =
      to_packet login (put_field (bytes "success") (from_string (success_text success)) null)

  unfoldable pub send_video_id_p : Bytes → Outcome NetPacket
  unfolding to_packet bytes
  send_video_id_p video_id =
      to_packet send_file (put_field (bytes "videoId") (from_string video_id) null)

  -- The object that the answers about a kind of information are built on.
  info_msg : InfoType → Json
  unfolding bytes info_type_code
  info_msg infotype = put_field (bytes "infotype") (from_int (pos (info_type_code infotype))) null

  unfoldable pub send_comments_p : Json → Outcome NetPacket
  unfolding to_packet info_msg bytes
  send_comments_p comments =
      to_packet get_info (put_field (bytes "comments") comments (info_msg comment))

  unfoldable pub send_vod_list_p : Json → Outcome NetPacket
  unfolding to_packet info_msg bytes
  send_vod_list_p list = to_packet get_info (put_field (bytes "vodList") list (info_msg vod_list))

  unfoldable pub send_like_info_p : Json → Outcome NetPacket
  unfolding to_packet info_msg bytes
  send_like_info_p like_info =
      to_packet get_info (put_field (bytes "likeInfo") like_info (info_msg video_like))

  unfoldable pub send_follow_info_p : Json → Outcome NetPacket
  unfolding to_packet info_msg bytes
  send_follow_info_p follow_info =
      to_packet get_info (put_field (bytes "followInfo") follow_info (info_msg follow))

  unfoldable pub send_fans_info_p : Json → Outcome NetPacket
  unfolding to_packet info_msg bytes
  send_fans_info_p fans_info =
      to_packet get_info (put_field (bytes "fansInfo") fans_info (info_msg fans))

  unfoldable pub send_live_info_p : Json → Outcome NetPacket
  unfolding to_packet info_msg bytes
  send_live_info_p live_info =
      to_packet modify_info (put_field (bytes "liveInfo") live_info (info_msg live_list))

  unfoldable pub send_live_list_p : Json → Outcome NetPacket
  unfolding to_packet info_msg bytes
  send_live_list_p list =
      to_packet get_info (put_field (bytes "liveList") list (info_msg live_list))

  unfoldable pub send_nick_name_info_p : Json → Outcome NetPacket
  unfolding to_packet info_msg bytes
  send_nick_name_info_p nick_name_info =
      to_packet get_info (put_field (bytes "nickNameInfo") nick_name_info (info_msg nick_name))

  unfoldable pub send_user_video_info_p : Bytes → Json → Outcome NetPacket
  unfolding to_packet info_msg bytes
  send_user_video_info_p user_id list = to_packet get_info (
      put_field (bytes "userVideoList") list
        (put_field (bytes "userId") (from_string user_id) (info_msg user_video)))

  unfoldable pub send_user_video_like_info_p : Bytes → Json → Outcome NetPacket
  unfolding to_packet info_msg bytes
  send_user_video_like_info_p user_id list = to_packet get_info (
      put_field (bytes "userVideoLikeList") list
        (put_field (bytes "userId") (from_string user_id) (info_msg user_video_like)))

  unfoldable pub send_message_info_p : Json → Outcome NetPacket
  unfolding to_packet info_msg bytes
  send_message_info_p messages =
      to_packet get_info (put_field (bytes "messages") messages (info_msg message))

  unfoldable pub send_video_push_info_p : Json → Outcome NetPacket
  unfolding to_packet info_msg bytes
  send_video_push_info_p videos =
      to_packet get_info (put_field (bytes "videos") videos (info_msg video_push))
