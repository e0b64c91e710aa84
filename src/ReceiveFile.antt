-- ===== src/ReceiveFile.antt =====
-- receivefilecontrol.h and receivefilecontrol.cpp: files that clients upload. The two overloads
-- differ in the call that sends, and in the quotes around the user's id in one command.
pub mod Push
pub mod Frame
mod Tests
use pick_up_the_light_server.Prelude.{
  ℕ, Bool, true, false, Option, none, some, List, [], ◌∷◌, ◌++◌, if◌then◌else◌,
}
use pick_up_the_light_server.Prelude.Int.{pos}
use pick_up_the_light_server.Outcome.{Outcome, ok, Exec, pure, lift, modify, ◌>>=◌, ◌>>◌}
use pick_up_the_light_server.Text.{Bytes, bytes, to_string}
use pick_up_the_light_server.Protocol.{
  FileType, profile_picture, file_type_code, MessageType, message_type_code,
}
use pick_up_the_light_server.Platform.{
  Platform, World, Run, JsonLib, parse, field, str_field, cell, new_id, Channel, transmit,
  fd_channel, socket_channel,
}
use pick_up_the_light_server.Database.{query_execute, query_store}
use pick_up_the_light_server.NetPackets.{packet_bytes, send_video_id_p}

-- `jsonMsg["filetype"] == FileType::...`, tried for one type after the other.
module _ (J : JsonLib) where
  is_type : J.Json → FileType → Bool
  unfolding file_type_code
  is_type v t = J.equals_int v (pos (file_type_code t))

  unfoldable pub file_type : J.Json → Option FileType
  unfolding is_type
  file_type v =
      if is_type v profile_picture
      then some profile_picture
      else (if is_type v FileType.chat_img
          then some FileType.chat_img
          else (if is_type v FileType.video_preview_img
              then some FileType.video_preview_img
              else (if is_type v FileType.video then some FileType.video else none)))

-- Where the file goes, and the command that makes it known. `video_id` is empty but for a video.
pub record Upload : Type 0 where
  pub filepath : Bytes
  pub command : Bytes
  pub video_id : Bytes

unfoldable pub update_picture : Bool → Bytes → Bytes → Bytes
unfolding bytes
update_picture true suffix id =
    bytes "update User set pictureSuffix='" ++ suffix ++ bytes "' where id='" ++ id ++ bytes "'"
update_picture false suffix id =
    bytes "update User set pictureSuffix='" ++ suffix ++ bytes "' where id=" ++ id

unfoldable pub insert_image : Bytes → Bytes → Bytes → Bytes
unfolding bytes to_string message_type_code
insert_image send_id receive_id name =
    bytes "insert into Message(sendId, receiveId, messageType, message, time) values('"
    ++ send_id
    ++ bytes "', '"
    ++ receive_id
    ++ bytes "', '"
    ++ to_string (message_type_code MessageType.chat_img)
    ++ bytes "', '"
    ++ name
    ++ bytes "', (select now()))"

unfoldable pub update_preview : Bytes → Bytes → Bytes
unfolding bytes
update_preview suffix id =
    bytes "update Video set previewSuffix = '"
    ++ suffix
    ++ bytes "' where id = '"
    ++ id
    ++ bytes "'"

unfoldable pub insert_video : Bytes → Bytes → Bytes → Bytes → Bytes
unfolding bytes
insert_video video_id publisher_id suffix profile =
    bytes "insert into Video(id, publisherId, videoSuffix, profile, time) values('"
    ++ video_id
    ++ bytes "', '"
    ++ publisher_id
    ++ bytes "', '"
    ++ suffix
    ++ bytes "', '"
    ++ profile
    ++ bytes "',(select now()))"

unfoldable pub select_followers : Bytes → Bytes
unfolding bytes
select_followers user_id = bytes "select followerId from Follow where userId = " ++ user_id

unfoldable pub insert_push : Bytes → Bytes → Bytes
unfolding bytes
insert_push follower_id video_id =
    bytes "insert into VideoPush Values('" ++ follower_id ++ bytes "', '" ++ video_id ++ bytes "')"

module _ (P : Platform) where
  open P use {json, mysql, files}
  open json use {Json}

  upload_picture : Bool → Json → Run P Upload
  unfolding update_picture bytes
  upload_picture quoted msg = do
    id ← str_field P (bytes "id") msg
    suffix ← str_field P (bytes "suffix") msg
    pure (record {
      filepath = bytes "/root/my_test/MyServer/cache/profilePicture/" ++ id ++ suffix;
      command = update_picture quoted suffix id;
      video_id = [];
    })

  upload_image : Json → Run P Upload
  unfolding insert_image new_id bytes
  upload_image msg = do
    chat_img_id ← new_id P
    suffix ← str_field P (bytes "suffix") msg
    send_id ← str_field P (bytes "sendId") msg
    receive_id ← str_field P (bytes "receiveId") msg
    pure (record {
      filepath = bytes "/root/my_test/MyServer/cache/chatPicture/" ++ chat_img_id ++ suffix;
      command = insert_image send_id receive_id (chat_img_id ++ suffix);
      video_id = [];
    })

  upload_preview : Json → Run P Upload
  unfolding update_preview bytes
  upload_preview msg = do
    id ← str_field P (bytes "id") msg
    suffix ← str_field P (bytes "suffix") msg
    pure (record {
      filepath = bytes "/root/my_test/MyServer/cache/previewPicture/" ++ id ++ suffix;
      command = update_preview suffix id;
      video_id = [];
    })

  -- The id of a new video is told to the client before the file is written.
  upload_video : Channel P → Json → Run P Upload
  unfolding insert_video new_id send_video_id_p packet_bytes bytes
  upload_video ch msg = do
    video_id ← new_id P
    suffix ← str_field P (bytes "suffix") msg
    publisher_id ← str_field P (bytes "id") msg
    profile ← str_field P (bytes "profile") msg
    p ← lift (send_video_id_p json video_id)
    told ← transmit P ch (packet_bytes p)
    pure (record {
      filepath = bytes "/opt/nginx-video/" ++ video_id ++ suffix;
      command = insert_video video_id publisher_id suffix profile;
      video_id = video_id;
    })

  unfoldable pub upload : Channel P → Bool → Json → Option FileType → Run P Upload
  unfolding upload_picture upload_image upload_preview upload_video
  upload ch quoted msg (some profile_picture) = upload_picture quoted msg
  upload ch quoted msg (some FileType.chat_img) = upload_image msg
  upload ch quoted msg (some FileType.video_preview_img) = upload_preview msg
  upload ch quoted msg (some FileType.video) = upload_video ch msg
  upload ch quoted msg none = pure (record { filepath = []; command = []; video_id = [] })

  unfoldable pub write_file : Bytes → Bytes → Run P Unit
  write_file path content = modify (λ w. record w { disk = files.write_file path content w.disk })

  -- A row in `VideoPush` for each follower.
  unfoldable pub push_to : Bytes → List (List Bytes) → Run P Unit
  unfolding query_execute insert_push
  push_to video_id [] = pure tt
  push_to video_id (row ∷ rows) = do
    follower_id ← cell P 0 row
    pushed ← query_execute P (insert_push follower_id video_id)
    push_to video_id rows

  push_found : Bytes → Option (List (List Bytes)) → Run P Unit
  unfolding push_to
  push_found video_id none = pure tt
  push_found video_id (some rows) = push_to video_id rows

  -- The push of a new video.
  unfoldable pub push_video : Bytes → Json → Option FileType → Run P Unit
  unfolding push_found query_store select_followers bytes
  push_video video_id msg (some FileType.video) = do
    user_id ← str_field P (bytes "id") msg
    res ← query_store P (select_followers user_id)
    push_found video_id res
  push_video video_id msg _ = pure tt

  unfoldable pub receive_file_on : Channel P → Bool → Bytes → Bytes → Run P Bool
  unfolding file_type upload write_file push_video query_execute bytes
  receive_file_on ch quoted file_info file_data = do
    msg ← parse P file_info
    v ← field P (bytes "filetype") msg
    u ← upload ch quoted msg (file_type json v)
    written ← write_file u.filepath file_data
    known ← query_execute P u.command
    pushed ← push_video u.video_id msg (file_type json v)
    pure true

  unfoldable pub receive_file : ℕ → Bytes → Bytes → Run P Bool
  unfolding receive_file_on fd_channel
  receive_file fd = receive_file_on (fd_channel P fd) true

  -- The overload for a socket.
  unfoldable pub receive_file_boost : ℕ → Bytes → Bytes → Run P Bool
  unfolding receive_file_on socket_channel
  receive_file_boost socket_ptr = receive_file_on (socket_channel P socket_ptr) false
