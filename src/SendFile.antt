-- ===== src/SendFile.antt =====
-- sendfilecontrol.h and sendfilecontrol.cpp: files that clients download. A file travels in a packet
-- with a header, a buffer for the description of the file, and the content.
pub mod Wire
pub mod Frame
mod Tests
use pick_up_the_light_server.Prelude.{
  ℕ, ◌+◌, ◌%◌, ◌^◌, Bool, true, false, ◌||◌, Option, none, some, List, [], ◌∷◌, ◌++◌, drop, take,
  length, ltb, ◌==◌, if◌then◌else◌,
}
use pick_up_the_light_server.Prelude.Int.{ℤ, pos, negsuc}
use pick_up_the_light_server.Outcome.{
  Outcome, ok, undefined, type_error, Exec, pure, lift, gets, ◌>>=◌, ◌>>◌,
}
use pick_up_the_light_server.Text.{Bytes, bytes}
use pick_up_the_light_server.Protocol.{
  FileType, profile_picture, file_type_code, NetPacketHeader, header_bytes, get_file, purpose_code,
  buf_size, file_buf_size,
}
use pick_up_the_light_server.Platform.{
  Platform, World, Run, JsonLib, parse, field, str_field, cell, want, Channel, transmit, fd_channel,
  socket_channel,
}
use pick_up_the_light_server.Database.{query_store}
use pick_up_the_light_server.ReceiveFile.{file_type}

module _ (J : JsonLib) where
  open J use {Json, null, put_field, from_string, from_int}

  unfoldable pub to_json_pfile_info : FileType → Bytes → Bytes → Json
  unfolding file_type_code bytes
  to_json_pfile_info filetype id suffix = put_field (bytes "suffix") (from_string suffix) (
      put_field (bytes "id") (from_string id)
        (put_field (bytes "filetype") (from_int (pos (file_type_code filetype))) null))

  unfoldable pub to_json_vfile_info : FileType → Bytes → Bytes → Bytes → Json
  unfolding file_type_code bytes
  to_json_vfile_info filetype video_id publisher_id suffix =
      put_field (bytes "suffix") (from_string suffix) (
        put_field (bytes "publisherId") (from_string publisher_id) (
          put_field (bytes "videoId") (from_string video_id)
            (put_field (bytes "filetype") (from_int (pos (file_type_code filetype))) null)))

-- A buffer in fresh memory whose front has been written.
abbrev pub front_of : Bytes → Bytes → Bytes
front_of bs fresh = bs ++ drop (length bs) fresh

-- The result of the sends: -1 and 0 are failures.
abbrev pub is_sent : ℤ → Bool
is_sent (negsuc n) = false
is_sent (pos n) = if n == 0 then false else true

module _ (P : Platform) where
  open P use {json, files, garbage}
  open json use {Json}

  -- 0 where the file is not there, and wrapped to 32 bits as in its variable.
  unfoldable pub get_file_size : Bytes → Run P ℕ
  get_file_size path =
      gets (λ w. elim (files.file_size path w.disk) [ none ↦ 0 | some n ↦ n % 2 ^ 32 ])

  file_header : ℕ → Bytes
  unfolding header_bytes purpose_code
  file_header size = header_bytes (record { purpose = purpose_code get_file; data_size = size })

  -- The `FileNetPacket`, as far as it is sent: the header, the description at the front of its
  -- buffer, and the content of the file at the front of its own. Neither copy is bounded.
  unfoldable pub file_packet : ℕ → Bytes → Bytes → Outcome Bytes
  unfolding file_header
  file_packet size info content =
      if ltb buf_size (length info + 1) || ltb file_buf_size size
      then undefined
      else ok (
          file_header size
          ++ front_of (info ++ 0 ∷ []) (garbage buf_size)
          ++ front_of (take size content) (garbage size))

  -- `send_pfile` and `send_vfile` behind the size.
  send_content : Channel P → Bytes → Json → ℕ → Option Bytes → Run P Bool
  unfolding file_packet
  send_content ch path info size none = pure false
  send_content ch path info size (some content) = do
    text ← want P type_error (json.dump info)
    packet ← lift (file_packet size text content)
    ret ← ch.send packet
    pure (is_sent ret)

  send_sized : Channel P → Bytes → Json → ℕ → Run P Bool
  unfolding send_content file_header
  send_sized ch path info size =
      if size == 0
      then transmit P ch (file_header 0) >> pure false
      else (gets (λ w. files.read_file path w.disk) >>= send_content ch path info size)

  -- What the two functions share, which differ in the description of the file.
  unfoldable pub send_described : Channel P → Bytes → Json → Run P Bool
  unfolding get_file_size send_sized
  send_described ch path info = do size ← get_file_size path; send_sized ch path info size

  unfoldable pub send_pfile : Channel P → FileType → Bytes → Bytes → Bytes → Run P Bool
  unfolding send_described to_json_pfile_info
  send_pfile ch filetype path id suffix =
      send_described ch path (to_json_pfile_info json filetype id suffix)

  unfoldable pub send_vfile : Channel P → FileType → Bytes → Bytes → Bytes → Bytes → Run P Bool
  unfolding send_described to_json_vfile_info
  send_vfile ch filetype path video_id publisher_id suffix =
      send_described ch path (to_json_vfile_info json filetype video_id publisher_id suffix)

  -- The first cell of a result, empty where there is none.
  unfoldable pub first_cell : Option (List (List Bytes)) → Run P Bytes
  first_cell none = pure []
  first_cell (some []) = pure []
  first_cell (some (row ∷ rows)) = cell P 0 row

  two_cells : Option (List (List Bytes)) → Run P (Bytes × Bytes)
  two_cells none = pure ([], [])
  two_cells (some []) = pure ([], [])
  two_cells (some (row ∷ rows)) = do a ← cell P 0 row; b ← cell P 1 row; pure (a, b)

  unfoldable pub send_profile_picture : Channel P → Json → Run P Bool
  unfolding send_pfile first_cell query_store bytes
  send_profile_picture ch msg = do
    id ← str_field P (bytes "id") msg
    res ← query_store P (bytes "select pictureSuffix from User where id=" ++ id)
    suffix ← first_cell res
    send_pfile ch profile_picture
        (bytes "/root/my_test/MyServer/cache/profilePicture/" ++ id ++ suffix) id suffix

  unfoldable pub send_video : Channel P → Json → Run P Bool
  unfolding send_vfile two_cells query_store bytes
  send_video ch msg = do
    id ← str_field P (bytes "id") msg
    res ← query_store P (bytes "select videoSuffix,publisherId from Video where id=" ++ id)
    cells ← two_cells res
    send_vfile ch FileType.video (bytes "/opt/nginx-video/" ++ id ++ cells.0) id cells.1 cells.0

  unfoldable pub send_chat_img : Channel P → Json → Run P Bool
  unfolding send_pfile bytes
  send_chat_img ch msg = do
    name ← str_field P (bytes "imgName") msg
    id ← str_field P (bytes "id") msg
    send_pfile ch FileType.chat_img (bytes "/root/my_test/MyServer/cache/chatPicture/" ++ name) id
        name

  unfoldable pub send_preview : Channel P → Json → Run P Bool
  unfolding send_pfile first_cell query_store bytes
  send_preview ch msg = do
    video_id ← str_field P (bytes "videoId") msg
    res ← query_store P (bytes "select previewSuffix from Video where id=" ++ video_id)
    suffix ← first_cell res
    id ← str_field P (bytes "id") msg
    send_pfile ch FileType.video_preview_img
        (bytes "/root/my_test/MyServer/cache/previewPicture/" ++ video_id ++ suffix) id
        (video_id ++ suffix)

  -- Whether the file was sent is only logged.
  unfoldable pub send_typed : Channel P → Json → Option FileType → Run P Unit
  unfolding send_profile_picture send_video send_chat_img send_preview
  send_typed ch msg (some profile_picture) = send_profile_picture ch msg >> pure tt
  send_typed ch msg (some FileType.video) = send_video ch msg >> pure tt
  send_typed ch msg (some FileType.chat_img) = send_chat_img ch msg >> pure tt
  send_typed ch msg (some FileType.video_preview_img) = send_preview ch msg >> pure tt
  send_typed ch msg none = pure tt

  unfoldable pub send_file_on : Channel P → Bytes → Run P Unit
  unfolding send_typed file_type bytes
  send_file_on ch buf = do
    msg ← parse P buf
    v ← field P (bytes "filetype") msg
    send_typed ch msg (file_type json v)

  unfoldable pub send_file : ℕ → Bytes → Run P Unit
  unfolding send_file_on fd_channel
  send_file fd = send_file_on (fd_channel P fd)

  -- The overload for a socket.
  unfoldable pub send_file_boost : ℕ → Bytes → Run P Unit
  unfolding send_file_on socket_channel
  send_file_boost socket_ptr = send_file_on (socket_channel P socket_ptr)
