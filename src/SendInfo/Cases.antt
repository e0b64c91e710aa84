-- ===== src/SendInfo/Cases.antt =====
-- What each case of `send_info` leaves alone.
use pick_up_the_light_server.Prelude.{◌≡◌, refl, Option, none, some, List, [], ◌∷◌}
use pick_up_the_light_server.Outcome.{Outcome, ok, bad_conversion, pure, ◌>>=◌}
use pick_up_the_light_server.Text.{Bytes, bytes}
use pick_up_the_light_server.Protocol.{
  InfoType, comment, video_like, follow, fans, vod_list, live_list, nick_name, user_video,
  user_video_like, message, video_push,
}
use pick_up_the_light_server.Platform.{Platform, World, Run, cell, Channel}
use pick_up_the_light_server.Platform.Frame.{
  transmit-Keeps, Keeps, bind-Keeps, then-Keeps, same-Keeps, want-Keeps, str_field-Keeps,
  num_field-Keeps, cell-Keeps, query_store-Keeps, Quiet,
}
use pick_up_the_light_server.Database.{query_store, query_execute}
use pick_up_the_light_server.NetPackets.{
  NetPacket, packet_bytes, send_comments_p, send_vod_list_p, send_like_info_p, send_follow_info_p,
  send_fans_info_p, send_nick_name_info_p, send_user_video_info_p, send_user_video_like_info_p,
  send_message_info_p, send_video_push_info_p,
}
use pick_up_the_light_server.LiveList.{get_live_list}
use pick_up_the_light_server.SendInfo.{
  push_rows, send_packet, answer_rows, comment_row, send_comment, vod_row, send_vod_list, like_row,
  send_video_like, send_follow, send_fans, send_live_list, send_nick_name, send_user_video,
  send_user_video_like, message_row, send_message, put_publisher, push_videos, answer_pushes,
  send_video_push, send, to_json_nick_name_info,
}

module _ (P : Platform) {B : Type 0} (part : World P → B) (ch : Channel P)
    (quiet : Quiet P part ch) where
  open P use {json, mysql}
  open json use {Json}

  done : {A : Type 0} (a : A) → Keeps part (pure a)
  done a = same-Keeps part (ok a)

  push_rows-Keeps :
      (each : List Bytes → Run P Json) (list : Json) (rows : List (List Bytes))
      → ((row : List Bytes) → Keeps part (each row))
      → Keeps part (push_rows P each list rows)
  unfolding push_rows
  push_rows-Keeps each list [] h = done list
  push_rows-Keeps each list (row ∷ rows) h =
      bind-Keeps part (h row) (λ v. push_rows-Keeps each (json.push_back list v) rows h)

  pub send_packet-Keeps : (made : Outcome NetPacket) → Keeps part (send_packet P ch made)
  unfolding send_packet
  send_packet-Keeps made =
      bind-Keeps part (same-Keeps part made) (λ p. transmit-Keeps P part ch quiet (packet_bytes p))

  answer_rows-Keeps :
      (build : List Bytes → List (List Bytes) → Run P Json) (packet : Json → Outcome NetPacket)
      (res : Option (List (List Bytes)))
      → ((row : List Bytes) (rows : List (List Bytes)) → Keeps part (build row rows))
      → Keeps part (answer_rows P ch build packet res)
  unfolding answer_rows
  answer_rows-Keeps build packet none h = done tt
  answer_rows-Keeps build packet (some []) h = send_packet-Keeps (packet json.null)
  answer_rows-Keeps build packet (some (row ∷ rows)) h =
      bind-Keeps part (h row rows) (λ v. send_packet-Keeps (packet v))

  -- A query whose rows are pushed one by one.
  list-Keeps :
      (command : Bytes) (each : List Bytes → Run P Json) (packet : Json → Outcome NetPacket)
      → ((row : List Bytes) → Keeps part (each row))
      → Keeps part (
          query_store P command
          >>= answer_rows P ch (λ row rows. push_rows P each json.null (row ∷ rows)) packet)
  list-Keeps command each packet h = bind-Keeps part (query_store-Keeps P part command) (λ res.
      answer_rows-Keeps (λ row rows. push_rows P each json.null (row ∷ rows)) packet res
        (λ row rows. push_rows-Keeps each json.null (row ∷ rows) h))

  -- The first cell of a row.
  one_cell-Keeps :
      (f : Bytes → Json) (row : List Bytes) → Keeps part (cell P 0 row >>= λ v. pure (f v))
  one_cell-Keeps f row = bind-Keeps part (cell-Keeps P part 0 row) (λ v. done (f v))

  comment_row-Keeps : (row : List Bytes) → Keeps part (comment_row P row)
  unfolding comment_row
  comment_row-Keeps row = bind-Keeps part (cell-Keeps P part 0 row) λ id.
      bind-Keeps part (cell-Keeps P part 1 row) λ reply.
        bind-Keeps part (cell-Keeps P part 2 row) λ publisher.
          bind-Keeps part (cell-Keeps P part 3 row) λ video.
            bind-Keeps part (cell-Keeps P part 4 row)
              λ content. bind-Keeps part (cell-Keeps P part 5 row) λ time. same-Keeps part (ok _)

  send_comment-Keeps : (j : Json) → Keeps part (send_comment P ch j)
  unfolding send_comment
  send_comment-Keeps j =
      bind-Keeps part (str_field-Keeps P part (bytes "id") j)
        λ video_id. list-Keeps _ _ (send_comments_p json) comment_row-Keeps

  vod_row-Keeps : (base : Bytes) (row : List Bytes) → Keeps part (vod_row P base row)
  unfolding vod_row
  vod_row-Keeps base row = bind-Keeps part (cell-Keeps P part 0 row) λ video.
      bind-Keeps part (cell-Keeps P part 2 row) λ suffix.
        bind-Keeps part (cell-Keeps P part 1 row) λ publisher.
          bind-Keeps part (cell-Keeps P part 3 row)
            λ profile. bind-Keeps part (cell-Keeps P part 5 row) λ time. same-Keeps part (ok _)

  send_vod_list-Keeps : (base : Bytes) (j : Json) → Keeps part (send_vod_list P ch base j)
  unfolding send_vod_list
  send_vod_list-Keeps base j = bind-Keeps part (num_field-Keeps P part (bytes "offset") j) λ offset.
      bind-Keeps part (num_field-Keeps P part (bytes "num") j)
        λ num. list-Keeps _ _ (send_vod_list_p json) (vod_row-Keeps base)

  like_row-Keeps : (row : List Bytes) (rows : List (List Bytes)) → Keeps part (like_row P row rows)
  unfolding like_row
  like_row-Keeps row rows = bind-Keeps part (cell-Keeps P part 0 row) λ number.
      bind-Keeps part (cell-Keeps P part 1 row) λ mine.
        bind-Keeps part (want-Keeps P part bad_conversion (mysql.cell_to_int number)) λ like_count.
          bind-Keeps part (want-Keeps P part bad_conversion (mysql.cell_to_bool mine))
            λ if_like. same-Keeps part (ok _)

  send_video_like-Keeps : (j : Json) → Keeps part (send_video_like P ch j)
  unfolding send_video_like
  send_video_like-Keeps j = bind-Keeps part (str_field-Keeps P part (bytes "id") j) λ video_id.
      bind-Keeps part (str_field-Keeps P part (bytes "userId") j) λ user_id.
        bind-Keeps part (query_store-Keeps P part _)
          λ res. answer_rows-Keeps (like_row P) (send_like_info_p json) res like_row-Keeps

  send_follow-Keeps : (j : Json) → Keeps part (send_follow P ch j)
  unfolding send_follow
  send_follow-Keeps j =
      bind-Keeps part (str_field-Keeps P part (bytes "userId") j)
        λ user_id. list-Keeps _ _ (send_follow_info_p json) (one_cell-Keeps _)

  send_fans-Keeps : (j : Json) → Keeps part (send_fans P ch j)
  unfolding send_fans
  send_fans-Keeps j =
      bind-Keeps part (str_field-Keeps P part (bytes "userId") j)
        λ user_id. list-Keeps _ _ (send_fans_info_p json) (one_cell-Keeps _)

  send_live_list-Keeps : Keeps part (send_live_list P ch)
  unfolding send_live_list get_live_list
  send_live_list-Keeps =
      bind-Keeps part {m = get_live_list P} (record { kept = λ w. refl }) λ m. send_packet-Keeps _

  send_nick_name-Keeps : (j : Json) → Keeps part (send_nick_name P ch j)
  unfolding send_nick_name
  send_nick_name-Keeps j = bind-Keeps part (str_field-Keeps P part (bytes "userId") j) λ user_id.
      bind-Keeps part (query_store-Keeps P part _) λ res.
        answer_rows-Keeps _ (send_nick_name_info_p json) res
          (λ row rows. one_cell-Keeps (to_json_nick_name_info json user_id) row)

  send_user_video-Keeps : (j : Json) → Keeps part (send_user_video P ch j)
  unfolding send_user_video
  send_user_video-Keeps j =
      bind-Keeps part (str_field-Keeps P part (bytes "userId") j)
        λ user_id. list-Keeps _ _ (send_user_video_info_p json user_id) (one_cell-Keeps _)

  send_user_video_like-Keeps : (j : Json) → Keeps part (send_user_video_like P ch j)
  unfolding send_user_video_like
  send_user_video_like-Keeps j =
      bind-Keeps part (str_field-Keeps P part (bytes "userId") j)
        λ user_id. list-Keeps _ _ (send_user_video_like_info_p json user_id) (one_cell-Keeps _)

  message_row-Keeps : (row : List Bytes) → Keeps part (message_row P row)
  unfolding message_row
  message_row-Keeps row = bind-Keeps part (cell-Keeps P part 0 row) λ sender.
      bind-Keeps part (cell-Keeps P part 1 row) λ receiver.
        bind-Keeps part (cell-Keeps P part 2 row) λ message_type.
          bind-Keeps part (cell-Keeps P part 3 row)
            λ content. bind-Keeps part (cell-Keeps P part 4 row) λ time. same-Keeps part (ok _)

  send_message-Keeps : (j : Json) → Keeps part (send_message P ch j)
  unfolding send_message
  send_message-Keeps j = bind-Keeps part (str_field-Keeps P part (bytes "userId1") j) λ user_id1.
      bind-Keeps part (str_field-Keeps P part (bytes "userId2") j)
        λ user_id2. list-Keeps _ _ (send_message_info_p json) message_row-Keeps

  put_publisher-Keeps :
      (video : Json) (res : Option (List (List Bytes))) → Keeps part (put_publisher P video res)
  unfolding put_publisher
  put_publisher-Keeps video none = done video
  put_publisher-Keeps video (some []) = done video
  put_publisher-Keeps video (some (row ∷ rows)) = one_cell-Keeps _ row

  pub push_videos-Keeps :
      (video videos : Json) (rows : List (List Bytes))
      → Keeps part (push_videos P video videos rows)
  unfolding push_videos
  push_videos-Keeps video videos [] = done videos
  push_videos-Keeps video videos (row ∷ rows) =
      bind-Keeps part (cell-Keeps P part 0 row) λ video_id.
        bind-Keeps part (query_store-Keeps P part _) λ res.
          bind-Keeps part
            (put_publisher-Keeps
              (json.put_field (bytes "videoId") (json.from_string video_id) video) res)
            λ next. push_videos-Keeps next (json.push_back videos next) rows

  module _ (executes : (command : Bytes) → Keeps part (query_execute P command)) where
    answer_pushes-Keeps :
        (user_id : Bytes) (res : Option (List (List Bytes)))
        → Keeps part (answer_pushes P ch user_id res)
    unfolding answer_pushes
    answer_pushes-Keeps user_id none = done tt
    answer_pushes-Keeps user_id (some []) = send_packet-Keeps _
    answer_pushes-Keeps user_id (some (row ∷ rows)) =
        bind-Keeps part (push_videos-Keeps json.null json.null (row ∷ rows)) λ videos.
          bind-Keeps part (send_packet-Keeps (send_video_push_info_p json videos))
            λ sent. then-Keeps part (executes _) (done tt)

    pub send_video_push-Keeps : (j : Json) → Keeps part (send_video_push P ch j)
    unfolding send_video_push
    send_video_push-Keeps j = bind-Keeps part (str_field-Keeps P part (bytes "userId") j) λ user_id.
        bind-Keeps part (query_store-Keeps P part _) λ res. answer_pushes-Keeps user_id res

  pub send-Keeps :
      (base : Bytes) (j : Json) (t : Option InfoType)
      → (t ≡ some video_push → Keeps part (send_video_push P ch j))
      → Keeps part (send P ch base j t)
  unfolding send
  send-Keeps base j (some comment) h = send_comment-Keeps j
  send-Keeps base j (some vod_list) h = send_vod_list-Keeps base j
  send-Keeps base j (some video_like) h = send_video_like-Keeps j
  send-Keeps base j (some follow) h = send_follow-Keeps j
  send-Keeps base j (some fans) h = send_fans-Keeps j
  send-Keeps base j (some live_list) h = send_live_list-Keeps
  send-Keeps base j (some nick_name) h = send_nick_name-Keeps j
  send-Keeps base j (some user_video) h = send_user_video-Keeps j
  send-Keeps base j (some user_video_like) h = send_user_video_like-Keeps j
  send-Keeps base j (some message) h = send_message-Keeps j
  send-Keeps base j (some video_push) h = h refl
  send-Keeps base j _ h = done tt
