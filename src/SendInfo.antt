-- ===== src/SendInfo.antt =====
-- sendinfocontrol.h and sendinfocontrol.cpp: what clients ask to know. A function for each case of
-- the `switch`, and for each JSON object that an answer is built of.
mod Objects
mod Answers
mod Pushes
pub mod Cases
pub mod Frame
pub mod Push
mod Tests
unfoldable pub use Objects.*
unfoldable pub use Answers.*
unfoldable pub use Pushes.*
use pick_up_the_light_server.Prelude.{ℕ, Bool, true, false, Option, none, some, List, [], ◌∷◌, ◌++◌}
use pick_up_the_light_server.Prelude.Int.{ℤ}
use pick_up_the_light_server.Outcome.{Outcome, ok, bad_conversion, Exec, pure, lift, ◌>>=◌, ◌>>◌}
use pick_up_the_light_server.Text.{Bytes, bytes}
use pick_up_the_light_server.Table.{Table}
use pick_up_the_light_server.Protocol.{
  InfoType, comment, video_like, follow, fans, vod_list, live_list, nick_name, user_video,
  user_video_like, message, video_push, to_info_type,
}
use pick_up_the_light_server.Platform.{
  transmit, Platform, World, Run, JsonLib, parse, str_field, num_field, cell, want, int_to_string,
  Channel, fd_channel, socket_channel,
}
use pick_up_the_light_server.Database.{query_execute, query_store}
use pick_up_the_light_server.LiveList.{get_live_list}
use pick_up_the_light_server.NetPackets.{
  NetPacket, packet_bytes, send_comments_p, send_vod_list_p, send_like_info_p, send_follow_info_p,
  send_fans_info_p, send_live_list_p, send_nick_name_info_p, send_user_video_info_p,
  send_user_video_like_info_p, send_message_info_p, send_video_push_info_p,
}

module _ (P : Platform) where
  open P use {json, mysql}
  open json use {Json, null, put_field, push_back, from_string}

  abbrev all_rows : (List Bytes → Run P Json) → List Bytes → List (List Bytes) → Run P Json
  all_rows each row rows = push_rows P each null (row ∷ rows)

  comment_row : List Bytes → Run P Json
  unfolding to_json_comment_info
  comment_row row = do
    id ← cell P 0 row
    reply_comment_id ← cell P 1 row
    publisher_id ← cell P 2 row
    video_id ← cell P 3 row
    content ← cell P 4 row
    time ← cell P 5 row
    pure (to_json_comment_info json id reply_comment_id publisher_id video_id content time)

  unfoldable pub send_comment : Channel P → Json → Run P Unit
  unfolding comment_row answer_rows push_rows query_store send_comments_p bytes
  send_comment ch json_msg = do
    video_id ← str_field P (bytes "id") json_msg
    res ←
        query_store P
          (bytes "select * from Comment where videoId=" ++ video_id ++ bytes " order by time desc")
    answer_rows P ch (all_rows comment_row) (send_comments_p json) res

  -- `base` is the address of the video server, which the two overloads write in different ways.
  vod_row : Bytes → List Bytes → Run P Json
  unfolding to_json_vod_list_info
  vod_row base row = do
    video_id ← cell P 0 row
    suffix ← cell P 2 row
    publisher_id ← cell P 1 row
    profile ← cell P 3 row
    time ← cell P 5 row
    pure
        (to_json_vod_list_info json video_id publisher_id (base ++ video_id ++ suffix) profile time)

  unfoldable pub send_vod_list : Channel P → Bytes → Json → Run P Unit
  unfolding vod_row answer_rows push_rows query_store send_vod_list_p int_to_string bytes
  send_vod_list ch base json_msg = do
    offset ← num_field P (bytes "offset") json_msg
    num ← num_field P (bytes "num") json_msg
    res ← query_store P (
        bytes "select * from Video limit "
        ++ int_to_string offset
        ++ bytes ","
        ++ int_to_string num)
    answer_rows P ch (all_rows (vod_row base)) (send_vod_list_p json) res

  like_row : List Bytes → List (List Bytes) → Run P Json
  unfolding to_json_like_info
  like_row row rows = do
    count ← cell P 0 row
    mine ← cell P 1 row
    like_count ← want P bad_conversion (mysql.cell_to_int count)
    if_like ← want P bad_conversion (mysql.cell_to_bool mine)
    pure (to_json_like_info json like_count if_like)

  unfoldable pub send_video_like : Channel P → Json → Run P Unit
  unfolding like_row answer_rows query_store send_like_info_p bytes
  send_video_like ch json_msg = do
    video_id ← str_field P (bytes "id") json_msg
    user_id ← str_field P (bytes "userId") json_msg
    res ← query_store P (
        bytes
          "select count(distinct userId),(select if(count(*)=1,true,false) from VideoLike where videoId="
        ++ video_id
        ++ bytes " and userId="
        ++ user_id
        ++ bytes ") from VideoLike where videoId="
        ++ video_id)
    answer_rows P ch like_row (send_like_info_p json) res

  -- A row of one cell.
  abbrev one_cell : (Bytes → Json) → List Bytes → Run P Json
  one_cell f row = cell P 0 row >>= λ v. pure (f v)

  unfoldable pub send_follow : Channel P → Json → Run P Unit
  unfolding answer_rows push_rows query_store send_follow_info_p to_json_follow_info bytes
  send_follow ch json_msg = do
    user_id ← str_field P (bytes "userId") json_msg
    res ← query_store P (bytes "select userId from Follow where followerId=" ++ user_id)
    answer_rows P ch (all_rows (one_cell (to_json_follow_info json))) (send_follow_info_p json) res

  unfoldable pub send_fans : Channel P → Json → Run P Unit
  unfolding answer_rows push_rows query_store send_fans_info_p to_json_fans_info bytes
  send_fans ch json_msg = do
    user_id ← str_field P (bytes "userId") json_msg
    res ← query_store P (bytes "select followerId from Follow where userId=" ++ user_id)
    answer_rows P ch (all_rows (one_cell (to_json_fans_info json))) (send_fans_info_p json) res

  -- The live list, entry by entry.
  live_json : Json → Table Bytes Bytes → Json
  unfolding to_json_live_list_info
  live_json list [] = list
  live_json list ((publisher_id, url) ∷ m) =
      live_json (push_back list (to_json_live_list_info json publisher_id url)) m

  unfoldable pub send_live_list : Channel P → Run P Unit
  unfolding live_json get_live_list send_packet send_live_list_p
  send_live_list ch = do
    m ← get_live_list P
    send_packet P ch (send_live_list_p json (live_json null m))

  unfoldable pub send_nick_name : Channel P → Json → Run P Unit
  unfolding answer_rows query_store send_nick_name_info_p to_json_nick_name_info bytes
  send_nick_name ch json_msg = do
    user_id ← str_field P (bytes "userId") json_msg
    res ← query_store P (bytes "select nickName from User where id=" ++ user_id)
    answer_rows P ch (λ row rows. one_cell (to_json_nick_name_info json user_id) row)
        (send_nick_name_info_p json) res

  unfoldable pub send_user_video : Channel P → Json → Run P Unit
  unfolding answer_rows push_rows query_store send_user_video_info_p to_json_user_video_info bytes
  send_user_video ch json_msg = do
    user_id ← str_field P (bytes "userId") json_msg
    res ← query_store P (bytes "select id from Video where publisherId=" ++ user_id)
    answer_rows P ch (all_rows (one_cell (to_json_user_video_info json)))
        (send_user_video_info_p json user_id) res

  unfoldable pub send_user_video_like : Channel P → Json → Run P Unit
  unfolding answer_rows push_rows query_store send_user_video_like_info_p to_json_user_video_info
      bytes
  send_user_video_like ch json_msg = do
    user_id ← str_field P (bytes "userId") json_msg
    res ← query_store P (bytes "select videoId from VideoLike where userId=" ++ user_id)
    answer_rows P ch (all_rows (one_cell (to_json_user_video_info json)))
        (send_user_video_like_info_p json user_id) res

  message_row : List Bytes → Run P Json
  unfolding to_json_message_info
  message_row row = do
    send_id ← cell P 0 row
    receive_id ← cell P 1 row
    message_type ← cell P 2 row
    content ← cell P 3 row
    time ← cell P 4 row
    pure (to_json_message_info json send_id receive_id message_type content time)

  unfoldable pub send_message : Channel P → Json → Run P Unit
  unfolding message_row answer_rows push_rows query_store send_message_info_p bytes
  send_message ch json_msg = do
    user_id1 ← str_field P (bytes "userId1") json_msg
    user_id2 ← str_field P (bytes "userId2") json_msg
    res ← query_store P (
        bytes "select * from (select * from Message where sendId = "
        ++ user_id1
        ++ bytes " and receiveId = "
        ++ user_id2
        ++ bytes " union select * from Message where sendId = "
        ++ user_id2
        ++ bytes " and receiveId = "
        ++ user_id1
        ++ bytes ") as t order by time desc")
    answer_rows P ch (all_rows message_row) (send_message_info_p json) res

  -- The `switch`.
  unfoldable pub send : Channel P → Bytes → Json → Option InfoType → Run P Unit
  unfolding send_comment send_vod_list send_video_like send_follow send_fans send_live_list
      send_nick_name send_user_video send_user_video_like send_message send_video_push
  send ch base json_msg (some comment) = send_comment ch json_msg
  send ch base json_msg (some vod_list) = send_vod_list ch base json_msg
  send ch base json_msg (some video_like) = send_video_like ch json_msg
  send ch base json_msg (some follow) = send_follow ch json_msg
  send ch base json_msg (some fans) = send_fans ch json_msg
  send ch base json_msg (some live_list) = send_live_list ch
  send ch base json_msg (some nick_name) = send_nick_name ch json_msg
  send ch base json_msg (some user_video) = send_user_video ch json_msg
  send ch base json_msg (some user_video_like) = send_user_video_like ch json_msg
  send ch base json_msg (some message) = send_message ch json_msg
  send ch base json_msg (some video_push) = send_video_push P ch json_msg
  send ch base json_msg _ = pure tt

  unfoldable pub send_info_on : Channel P → Bytes → Bytes → Run P Unit
  unfolding send to_info_type bytes
  send_info_on ch base buf = do
    json_msg ← parse P buf
    infotype ← num_field P (bytes "infotype") json_msg
    send ch base json_msg (to_info_type infotype)

  unfoldable pub send_info : ℕ → Bytes → Run P Unit
  unfolding send_info_on fd_channel bytes
  send_info fd = send_info_on (fd_channel P fd) (bytes "http://192.168.156.74/")

  -- The overload for a socket.
  unfoldable pub send_info_boost : ℕ → Bytes → Run P Unit
  unfolding send_info_on socket_channel bytes
  send_info_boost socket_ptr =
      send_info_on (socket_channel P socket_ptr) (bytes "http://127.0.0.1/")
