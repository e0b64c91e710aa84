-- ===== src/ModifyInfo/Frame.antt =====
-- What the changes of `modify_info` leave alone.
use pick_up_the_light_server.Prelude.{ℕ, ◌≡◌, ◌≢◌, refl, Option, none, some, List, [], ◌∷◌}
use pick_up_the_light_server.Outcome.{ok, parse_error, pure, ◌>>◌}
use pick_up_the_light_server.Text.{Bytes, bytes}
use pick_up_the_light_server.Table.{Table}
use pick_up_the_light_server.Evaluator.{Evaluator}
use pick_up_the_light_server.Protocol.{
  InfoType, comment, video_like, comment_like, follow, live_list, nick_name, video_profile,
  to_info_type,
}
use pick_up_the_light_server.Platform.{Platform, World, Channel, fd_channel, socket_channel}
use pick_up_the_light_server.Platform.Frame.{
  transmit-Keeps, Keeps, bind-Keeps, then-Keeps, same-Keeps, if-Keeps, want-Keeps, str_field-Keeps,
  num_field-Keeps, bool_field-Keeps, cell-Keeps, query_store-Keeps, query_execute-Keeps, Quiet,
  fd_channel-Quiet, socket_channel-Quiet, new_id-Keeps, IsApart,
}
use pick_up_the_light_server.Database.{query_execute}
use pick_up_the_light_server.LiveList as Live
use pick_up_the_light_server.NetPackets.{packet_bytes, send_live_info_p}
use pick_up_the_light_server.ModifyInfo.{
  modify_comment, video_suffix, remove_file, modify_video, modify_video_like, modify_comment_like,
  modify_follow, start_live, modify_live_list, modify_nick_name, modify_video_profile, modify,
  live_url, video_path, delete_video, delete_video_likes, modify_info_on, modify_info,
  modify_info_boost,
}

-- A part of the world that no change but one of the live list can reach.
module _ (P : Platform) {B : Type 0} (part : World P → B) where
  open P use {json}
  open json use {Json}

  module _ (apart : IsApart P part) where
    executes : (command : Bytes) → Keeps part (query_execute P command)
    executes = query_execute-Keeps P part apart.db_free

    command-Keeps : (command : Bytes) → Keeps part (query_execute P command >> pure tt)
    command-Keeps command = then-Keeps part (executes command) (same-Keeps part (ok tt))

    modify_comment-Keeps : (j : Json) → Keeps part (modify_comment P j)
    unfolding modify_comment
    modify_comment-Keeps j = bind-Keeps part (new_id-Keeps P part apart.id_free) λ id.
        bind-Keeps part (str_field-Keeps P part (bytes "replyCommentId") j) λ reply.
          bind-Keeps part (str_field-Keeps P part (bytes "publisherId") j) λ publisher.
            bind-Keeps part (str_field-Keeps P part (bytes "videoId") j) λ video.
              bind-Keeps part (str_field-Keeps P part (bytes "content") j)
                λ content. command-Keeps _

    video_suffix-Keeps : (res : Option (List (List Bytes))) → Keeps part (video_suffix P res)
    unfolding video_suffix
    video_suffix-Keeps none = same-Keeps part (ok [])
    video_suffix-Keeps (some []) = same-Keeps part (ok [])
    video_suffix-Keeps (some (row ∷ rows)) = cell-Keeps P part 0 row

    remove_file-Keeps : (path : Bytes) → Keeps part (remove_file P path)
    unfolding remove_file
    remove_file-Keeps path = record {
      kept = λ w. apart.disk_free w (P.files.remove_file path w.disk).1;
    }

    modify_video-Keeps : (j : Json) → Keeps part (modify_video P j)
    unfolding modify_video
    modify_video-Keeps j = bind-Keeps part (str_field-Keeps P part (bytes "videoId") j) λ video.
        bind-Keeps part (query_store-Keeps P part _) λ res.
          bind-Keeps part (video_suffix-Keeps res) λ suffix.
            bind-Keeps part (remove_file-Keeps (video_path video suffix)) λ removed.
              bind-Keeps part (executes (delete_video video))
                λ deleted. command-Keeps (delete_video_likes video)

    modify_video_like-Keeps : (j : Json) → Keeps part (modify_video_like P j)
    unfolding modify_video_like
    modify_video_like-Keeps j = bind-Keeps part (str_field-Keeps P part (bytes "id") j) λ video.
        bind-Keeps part (str_field-Keeps P part (bytes "userId") j) λ user.
          bind-Keeps part (bool_field-Keeps P part (bytes "ifLike") j) λ if_like. command-Keeps _

    modify_comment_like-Keeps : (j : Json) → Keeps part (modify_comment_like P j)
    unfolding modify_comment_like
    modify_comment_like-Keeps j =
        bind-Keeps part (str_field-Keeps P part (bytes "id") j) λ comment_id.
          bind-Keeps part (str_field-Keeps P part (bytes "userId") j) λ user.
            bind-Keeps part (bool_field-Keeps P part (bytes "ifLike") j) λ if_like. command-Keeps _

    modify_follow-Keeps : (j : Json) → Keeps part (modify_follow P j)
    unfolding modify_follow
    modify_follow-Keeps j = bind-Keeps part (str_field-Keeps P part (bytes "userId") j) λ user.
        bind-Keeps part (str_field-Keeps P part (bytes "followerId") j) λ follower.
          bind-Keeps part (bool_field-Keeps P part (bytes "ifFollow") j)
            λ if_follow. command-Keeps _

    modify_nick_name-Keeps : (j : Json) → Keeps part (modify_nick_name P j)
    unfolding modify_nick_name
    modify_nick_name-Keeps j = bind-Keeps part (str_field-Keeps P part (bytes "userId") j) λ user.
        bind-Keeps part (str_field-Keeps P part (bytes "newNickName") j) λ name. command-Keeps _

    modify_video_profile-Keeps : (j : Json) → Keeps part (modify_video_profile P j)
    unfolding modify_video_profile
    modify_video_profile-Keeps j =
        bind-Keeps part (str_field-Keeps P part (bytes "videoId") j) λ video.
          bind-Keeps part (str_field-Keeps P part (bytes "newProfile") j) λ profile. command-Keeps _

    pub modify-Keeps :
        (ch : Channel P) (j : Json) (t : Option InfoType)
        → (t ≡ some live_list → Keeps part (modify_live_list P ch j))
        → Keeps part (modify P ch j t)
    unfolding modify
    modify-Keeps ch j (some comment) h = modify_comment-Keeps j
    modify-Keeps ch j (some InfoType.video) h = modify_video-Keeps j
    modify-Keeps ch j (some video_like) h = modify_video_like-Keeps j
    modify-Keeps ch j (some comment_like) h = modify_comment_like-Keeps j
    modify-Keeps ch j (some follow) h = modify_follow-Keeps j
    modify-Keeps ch j (some live_list) h = h refl
    modify-Keeps ch j (some nick_name) h = modify_nick_name-Keeps j
    modify-Keeps ch j (some video_profile) h = modify_video_profile-Keeps j
    modify-Keeps ch j _ h = same-Keeps part (ok tt)

-- The live list is written where a stream starts or ends, and an answer is sent where it starts.
module _ (P : Platform) {B : Type 0} (part : World P → B) (ch : Channel P) (quiet : Quiet P part ch)
    (live_free : (w : World P) (m : Table Bytes Bytes)
      → part (record w { live_list = m }) ≡ part w) where
  start_live-Keeps : (user_id : Bytes) → Keeps part (start_live P ch user_id)
  unfolding start_live Live.add
  start_live-Keeps user_id =
      bind-Keeps part {m = Live.add P user_id (live_url user_id)}
        (record { kept = λ w. live_free w _ })
        λ added.
          bind-Keeps part
            (same-Keeps part (
              send_live_info_p P.json (
                P.json.put_field (bytes "url") (P.json.from_string (live_url user_id))
                  P.json.null)))
            λ p. transmit-Keeps P part ch quiet (packet_bytes p)

  modify_live_list-Keeps : (j : P.json.Json) → Keeps part (modify_live_list P ch j)
  unfolding modify_live_list Live.remove
  modify_live_list-Keeps j = bind-Keeps part (str_field-Keeps P part (bytes "userId") j) λ user_id.
      bind-Keeps part (bool_field-Keeps P part (bytes "ifStart") j) λ if_start.
        if-Keeps part if_start {m = start_live P ch user_id} {n = Live.remove P user_id}
          (start_live-Keeps user_id) (record { kept = λ w. live_free w _ })

  pub modify_info_on-Keeps : IsApart P part → (buf : Bytes) → Keeps part (modify_info_on P ch buf)
  unfolding modify_info_on
  modify_info_on-Keeps apart buf =
      bind-Keeps part (want-Keeps P part parse_error (P.json.parse buf)) λ j.
        bind-Keeps part (num_field-Keeps P part (bytes "infotype") j)
          λ n. modify-Keeps P part apart ch j (to_info_type n) (λ h. modify_live_list-Keeps j)

module _ (P : Platform) where
  -- Whatever a client asks to change, and however the call ends: both overloads of `modify_info`
  -- leave the table of connections alone.
  modify_info-evaluator :
      (key : ℕ) (buf : Bytes) (w : World P)
      → ((modify_info P key buf w).1.evaluator ≡ w.evaluator)
        × ((modify_info_boost P key buf w).1.evaluator ≡ w.evaluator)
  unfolding modify_info modify_info_boost
  modify_info-evaluator key buf w =
      let part : World P → Evaluator ℕ = λ v. v.evaluator in
      let apart : IsApart P part = record {
        db_free = λ v d. refl;
        disk_free = λ v d. refl;
        id_free = λ v g. refl;
      } in
      let over_fd = fd_channel-Quiet P part (λ v n. refl) key in
      let over_socket = socket_channel-Quiet P part (λ v n. refl) key in
      let keeps = λ (ch : Channel P) (quiet : Quiet P part ch).
        modify_info_on-Keeps P part ch quiet (λ v m. refl) apart buf in
      ((keeps (fd_channel P key) over_fd).kept w, (keeps (socket_channel P key) over_socket).kept w)

  -- Every kind of change but that of the live list sends nothing, and leaves the live list alone:
  -- the client is told neither of success nor of failure.
  pub modify-silent :
      (ch : Channel P) (j : P.json.Json) (t : Option InfoType) (w : World P)
      → t ≢ some live_list
      → ((modify P ch j t w).1.net ≡ w.net) × ((modify P ch j t w).1.live_list ≡ w.live_list)
  modify-silent ch j t w other =
      let net_apart : IsApart P (λ v. v.net) = record {
        db_free = λ v d. refl;
        disk_free = λ v d. refl;
        id_free = λ v g. refl;
      } in
      let list_apart : IsApart P (λ v. v.live_list) = record {
        db_free = λ v d. refl;
        disk_free = λ v d. refl;
        id_free = λ v g. refl;
      } in
      (
        (modify-Keeps P (λ v. v.net) net_apart ch j t (λ h. absurd (other h))).kept w,
        (modify-Keeps P (λ v. v.live_list) list_apart ch j t (λ h. absurd (other h))).kept w,
      )
