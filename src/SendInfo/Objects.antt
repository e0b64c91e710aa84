-- ===== src/SendInfo/Objects.antt =====
-- sendinfocontrol.cpp: the JSON objects that the answers are built of.
use pick_up_the_light_server.Prelude.{Bool}
use pick_up_the_light_server.Prelude.Int.{ℤ}
use pick_up_the_light_server.Text.{Bytes, bytes}
use pick_up_the_light_server.Platform.{JsonLib}

module _ (J : JsonLib) where
  open J use {Json, null, put_field, from_string, from_int, from_bool}

  abbrev put_string : Bytes → Bytes → Json → Json
  put_string key v j = put_field key (from_string v) j

  unfoldable pub to_json_comment_info : Bytes → Bytes → Bytes → Bytes → Bytes → Bytes → Json
  unfolding bytes
  to_json_comment_info id reply_comment_id publisher_id video_id content time =
      put_string (bytes "time") time (
        put_string (bytes "content") content (
          put_string (bytes "videoId") video_id (
            put_string (bytes "publisherId") publisher_id (
              put_string (bytes "replyCommentId") reply_comment_id
                (put_string (bytes "id") id null)))))

  unfoldable pub to_json_vod_list_info : Bytes → Bytes → Bytes → Bytes → Bytes → Json
  unfolding bytes
  to_json_vod_list_info video_id publisher_id url profile time = put_string (bytes "time") time (
      put_string (bytes "profile") profile (
        put_string (bytes "url") url (
          put_string (bytes "publisherId") publisher_id
            (put_string (bytes "videoId") video_id null))))

  unfoldable pub to_json_like_info : ℤ → Bool → Json
  unfolding bytes
  to_json_like_info like_count if_like =
      put_field (bytes "ifLike") (from_bool if_like)
        (put_field (bytes "likeCount") (from_int like_count) null)

  unfoldable pub to_json_follow_info : Bytes → Json
  unfolding bytes
  to_json_follow_info user_id = put_string (bytes "userId") user_id null

  unfoldable pub to_json_fans_info : Bytes → Json
  unfolding bytes
  to_json_fans_info follower_id = put_string (bytes "followerId") follower_id null

  unfoldable pub to_json_live_list_info : Bytes → Bytes → Json
  unfolding bytes
  to_json_live_list_info publisher_id url =
      put_string (bytes "url") url (put_string (bytes "publisherId") publisher_id null)

  unfoldable pub to_json_nick_name_info : Bytes → Bytes → Json
  unfolding bytes
  to_json_nick_name_info user_id name =
      put_string (bytes "nickName") name (put_string (bytes "userId") user_id null)

  unfoldable pub to_json_user_video_info : Bytes → Json
  unfolding bytes
  to_json_user_video_info video_id = put_string (bytes "videoId") video_id null

  unfoldable pub to_json_message_info : Bytes → Bytes → Bytes → Bytes → Bytes → Json
  unfolding bytes
  to_json_message_info send_id receive_id message_type content time =
      put_string (bytes "time") time (
        put_string (bytes "content") content (
          put_string (bytes "messageType") message_type
            (put_string (bytes "receiveId") receive_id (put_string (bytes "sendId") send_id null))))
