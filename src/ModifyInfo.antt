-- ===== src/ModifyInfo.antt =====
-- modifyinfocontrol.h and modifyinfocontrol.cpp: changes to comments, videos, likes, follows, live
-- streams and names. A function for each case of the `switch`.
pub mod Frame
use pick_up_the_light_server.Prelude.{
  ℕ, Bool, true, false, Option, none, some, List, [], ◌∷◌, ◌++◌, if◌then◌else◌,
}
use pick_up_the_light_server.Outcome.{Outcome, ok, Exec, pure, lift, ◌>>=◌, ◌>>◌}
use pick_up_the_light_server.Text.{Bytes, bytes}
use pick_up_the_light_server.Protocol.{
  InfoType, comment, video_like, comment_like, follow, fans, vod_list, live_list, nick_name,
  video_profile, user_video, user_video_like, message, video_push, to_info_type,
}
use pick_up_the_light_server.Platform.{
  transmit, Platform, World, Run, parse, str_field, num_field, bool_field, cell, new_id, Channel,
  fd_channel, socket_channel,
}
use pick_up_the_light_server.Database.{query_execute, query_store}
use pick_up_the_light_server.LiveList as Live
use pick_up_the_light_server.NetPackets.{NetPacket, packet_bytes, send_live_info_p}

-- The commands, as text.
unfoldable pub insert_comment : Bytes → Bytes → Bytes → Bytes → Bytes → Bytes
unfolding bytes
insert_comment id reply_comment_id publisher_id video_id content =
    bytes "insert into Comment(id, replyCommentId, publisherId, videoId, content, time) values('"
    ++ id
    ++ bytes "', '"
    ++ reply_comment_id
    ++ bytes "', '"
    ++ publisher_id
    ++ bytes "','"
    ++ video_id
    ++ bytes "','"
    ++ content
    ++ bytes "',(select now()))"

unfoldable pub select_suffix : Bytes → Bytes
unfolding bytes
select_suffix video_id = bytes "select videoSuffix from Video where id=" ++ video_id

unfoldable pub delete_video : Bytes → Bytes
unfolding bytes
delete_video video_id = bytes "delete from Video where id = " ++ video_id

unfoldable pub delete_video_likes : Bytes → Bytes
unfolding bytes
delete_video_likes video_id = bytes "delete from VideoLike where videoId = " ++ video_id

unfoldable pub video_path : Bytes → Bytes → Bytes
unfolding bytes
video_path video_id suffix = bytes "/opt/nginx-video/" ++ video_id ++ suffix

-- A pair that is put into a table of pairs, or taken out of it.
unfoldable pub like_video : Bool → Bytes → Bytes → Bytes
unfolding bytes
like_video true video_id user_id =
    bytes "insert into VideoLike values('" ++ video_id ++ bytes "','" ++ user_id ++ bytes "')"
like_video false video_id user_id =
    bytes "delete from VideoLike where videoId=" ++ video_id ++ bytes " and userId=" ++ user_id

-- The column `videoId` of the second command is not one that `CommentLike` has.
unfoldable pub like_comment : Bool → Bytes → Bytes → Bytes
unfolding bytes
like_comment true comment_id user_id =
    bytes "insert into CommentLike values('" ++ comment_id ++ bytes "','" ++ user_id ++ bytes "')"
like_comment false comment_id user_id =
    bytes "delete from CommentLike where videoId=" ++ comment_id ++ bytes " and userId=" ++ user_id

unfoldable pub follow_user : Bool → Bytes → Bytes → Bytes
unfolding bytes
follow_user true user_id follower_id =
    bytes "insert into Follow values('" ++ user_id ++ bytes "','" ++ follower_id ++ bytes "')"
follow_user false user_id follower_id =
    bytes "delete from Follow where userId=" ++ user_id ++ bytes " and followerId=" ++ follower_id

unfoldable pub update_nick_name : Bytes → Bytes → Bytes
unfolding bytes
update_nick_name user_id name =
    bytes "update User set nickName = '" ++ name ++ bytes "' where id =" ++ user_id

unfoldable pub update_profile : Bytes → Bytes → Bytes
unfolding bytes
update_profile video_id profile =
    bytes "update Video set profile = '" ++ profile ++ bytes "' where id =" ++ video_id

unfoldable pub live_url : Bytes → Bytes
unfolding bytes
live_url user_id = bytes "rtmp://127.0.0.1:1935/live/" ++ user_id

module _ (P : Platform) where
  open P use {json, mysql, files}
  open json use {Json, null, put_field, from_string}

  abbrev run_command : Bytes → Run P Unit
  run_command command = query_execute P command >> pure tt

  unfoldable pub modify_comment : Json → Run P Unit
  unfolding query_execute new_id insert_comment bytes
  modify_comment json_msg = do
    id ← new_id P
    reply_comment_id ← str_field P (bytes "replyCommentId") json_msg
    publisher_id ← str_field P (bytes "publisherId") json_msg
    video_id ← str_field P (bytes "videoId") json_msg
    content ← str_field P (bytes "content") json_msg
    run_command (insert_comment id reply_comment_id publisher_id video_id content)

  -- The suffix of the video, empty where the database does not tell it.
  unfoldable pub video_suffix : Option (List (List Bytes)) → Run P Bytes
  video_suffix none = pure []
  video_suffix (some []) = pure []
  video_suffix (some (row ∷ rows)) = cell P 0 row

  unfoldable pub remove_file : Bytes → Run P Bool
  remove_file path w =
      let (done, disk') = files.remove_file path w.disk in (ok done, record w { disk = disk' })

  unfoldable pub modify_video : Json → Run P Unit
  unfolding query_execute query_store select_suffix video_suffix remove_file video_path delete_video
      delete_video_likes bytes
  modify_video json_msg = do
    video_id ← str_field P (bytes "videoId") json_msg
    res ← query_store P (select_suffix video_id)
    suffix ← video_suffix res
    removed ← remove_file (video_path video_id suffix)
    deleted ← query_execute P (delete_video video_id)
    run_command (delete_video_likes video_id)

  unfoldable pub modify_video_like : Json → Run P Unit
  unfolding query_execute like_video bytes
  modify_video_like json_msg = do
    video_id ← str_field P (bytes "id") json_msg
    user_id ← str_field P (bytes "userId") json_msg
    if_like ← bool_field P (bytes "ifLike") json_msg
    run_command (like_video if_like video_id user_id)

  unfoldable pub modify_comment_like : Json → Run P Unit
  unfolding query_execute like_comment bytes
  modify_comment_like json_msg = do
    comment_id ← str_field P (bytes "id") json_msg
    user_id ← str_field P (bytes "userId") json_msg
    if_like ← bool_field P (bytes "ifLike") json_msg
    run_command (like_comment if_like comment_id user_id)

  unfoldable pub modify_follow : Json → Run P Unit
  unfolding query_execute follow_user bytes
  modify_follow json_msg = do
    user_id ← str_field P (bytes "userId") json_msg
    follower_id ← str_field P (bytes "followerId") json_msg
    if_follow ← bool_field P (bytes "ifFollow") json_msg
    run_command (follow_user if_follow user_id follower_id)

  unfoldable pub start_live : Channel P → Bytes → Run P Unit
  unfolding Live.add send_live_info_p packet_bytes live_url bytes
  start_live ch user_id = do
    added ← Live.add P user_id (live_url user_id)
    p ← lift (send_live_info_p json (put_field (bytes "url") (from_string (live_url user_id)) null))
    transmit P ch (packet_bytes p)

  unfoldable pub modify_live_list : Channel P → Json → Run P Unit
  unfolding Live.remove start_live bytes
  modify_live_list ch json_msg = do
    user_id ← str_field P (bytes "userId") json_msg
    if_start ← bool_field P (bytes "ifStart") json_msg
    if if_start then start_live ch user_id else Live.remove P user_id

  unfoldable pub modify_nick_name : Json → Run P Unit
  unfolding query_execute update_nick_name bytes
  modify_nick_name json_msg = do
    user_id ← str_field P (bytes "userId") json_msg
    name ← str_field P (bytes "newNickName") json_msg
    run_command (update_nick_name user_id name)

  unfoldable pub modify_video_profile : Json → Run P Unit
  unfolding query_execute update_profile bytes
  modify_video_profile json_msg = do
    video_id ← str_field P (bytes "videoId") json_msg
    profile ← str_field P (bytes "newProfile") json_msg
    run_command (update_profile video_id profile)

  -- The `switch`.
  unfoldable pub modify : Channel P → Json → Option InfoType → Run P Unit
  unfolding modify_comment modify_video modify_video_like modify_comment_like modify_follow
      modify_live_list modify_nick_name modify_video_profile
  modify ch json_msg (some comment) = modify_comment json_msg
  modify ch json_msg (some InfoType.video) = modify_video json_msg
  modify ch json_msg (some video_like) = modify_video_like json_msg
  modify ch json_msg (some comment_like) = modify_comment_like json_msg
  modify ch json_msg (some follow) = modify_follow json_msg
  modify ch json_msg (some live_list) = modify_live_list ch json_msg
  modify ch json_msg (some nick_name) = modify_nick_name json_msg
  modify ch json_msg (some video_profile) = modify_video_profile json_msg
  modify ch json_msg _ = pure tt

  unfoldable pub modify_info_on : Channel P → Bytes → Run P Unit
  unfolding modify to_info_type bytes
  modify_info_on ch buf = do
    json_msg ← parse P buf
    infotype ← num_field P (bytes "infotype") json_msg
    modify ch json_msg (to_info_type infotype)

  unfoldable pub modify_info : ℕ → Bytes → Run P Unit
  unfolding modify_info_on fd_channel
  modify_info fd = modify_info_on (fd_channel P fd)

  -- The overload for a socket.
  unfoldable pub modify_info_boost : ℕ → Bytes → Run P Unit
  unfolding modify_info_on socket_channel
  modify_info_boost socket_ptr = modify_info_on (socket_channel P socket_ptr)
