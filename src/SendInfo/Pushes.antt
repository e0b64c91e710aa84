-- ===== src/SendInfo/Pushes.antt =====
-- sendinfocontrol.cpp: the case `VideoPush` of `send_info`.
use pick_up_the_light_server.Prelude.{Option, none, some, List, [], ◌∷◌, ◌++◌}
use pick_up_the_light_server.Outcome.{pure, ◌>>=◌, ◌>>◌}
use pick_up_the_light_server.Text.{Bytes, bytes}
use pick_up_the_light_server.Platform.{Platform, Run, str_field, cell, Channel}
use pick_up_the_light_server.Database.{query_execute, query_store}
use pick_up_the_light_server.NetPackets.{send_video_push_info_p}
use pick_up_the_light_server.SendInfo.Answers.{send_packet}

module _ (P : Platform) where
  open P use {json, mysql}
  open json use {Json, null, put_field, push_back, from_string}

  -- The publisher of a pushed video, where the database knows one: otherwise the object keeps what
  -- it has.
  unfoldable pub put_publisher : Json → Option (List (List Bytes)) → Run P Json
  unfolding bytes
  put_publisher video none = pure video
  put_publisher video (some []) = pure video
  put_publisher video (some (row ∷ rows)) =
      cell P 0 row >>= λ v. pure (put_field (bytes "publisherId") (from_string v) video)

  unfoldable pub select_publisher : Bytes → Bytes
  unfolding bytes
  select_publisher video_id = bytes "select publisherId from Video where id = " ++ video_id

  -- The loop over the pushed videos. One object `video` serves all rounds.
  unfoldable pub push_videos : Json → Json → List (List Bytes) → Run P Json
  unfolding put_publisher query_store select_publisher bytes
  push_videos video videos [] = pure videos
  push_videos video videos (row ∷ rows) = do
    video_id ← cell P 0 row
    res ← query_store P (select_publisher video_id)
    next ← put_publisher (put_field (bytes "videoId") (from_string video_id) video) res
    push_videos next (push_back videos next) rows

  unfoldable pub select_pushes : Bytes → Bytes
  unfolding bytes
  select_pushes user_id = bytes "select videoId from VideoPush where userId = " ++ user_id

  unfoldable pub delete_pushes : Bytes → Bytes
  unfolding bytes
  delete_pushes user_id = bytes "delete from VideoPush where userId = " ++ user_id

  -- The answer, and the deletion of what has been pushed.
  unfoldable pub answer_pushes : Channel P → Bytes → Option (List (List Bytes)) → Run P Unit
  unfolding push_videos send_packet query_execute delete_pushes send_video_push_info_p
  answer_pushes ch user_id none = pure tt
  answer_pushes ch user_id (some []) = send_packet P ch (send_video_push_info_p json null)
  answer_pushes ch user_id (some (row ∷ rows)) = do
    videos ← push_videos null null (row ∷ rows)
    sent ← send_packet P ch (send_video_push_info_p json videos)
    query_execute P (delete_pushes user_id) >> pure tt

  unfoldable pub send_video_push : Channel P → Json → Run P Unit
  unfolding answer_pushes query_store select_pushes bytes
  send_video_push ch json_msg = do
    user_id ← str_field P (bytes "userId") json_msg
    res ← query_store P (select_pushes user_id)
    answer_pushes ch user_id res
