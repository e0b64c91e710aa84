-- ===== src/SendInfo/Push.antt =====
-- The videos that are pushed to a follower.
use pick_up_the_light_server.Prelude.{ℕ, ◌≡◌, refl, sym, ap, ◌∙◌, some, List, ◌∷◌}
use pick_up_the_light_server.Outcome.{ok, pure, bind-returned, returned, ◌>>◌}
use pick_up_the_light_server.Text.{Bytes}
use pick_up_the_light_server.Platform.{Platform, World, fd_channel}
use pick_up_the_light_server.Platform.Frame.{fd_channel-Quiet}
use pick_up_the_light_server.Database.{query_execute}
use pick_up_the_light_server.NetPackets.{send_video_push_info_p}
use pick_up_the_light_server.SendInfo.{push_videos, delete_pushes, send_packet, answer_pushes}
use pick_up_the_light_server.SendInfo.Cases.{send_packet-Keeps, push_videos-Keeps}

module _ (P : Platform) where
  open P use {json, mysql}
  open json use {null, put_field, push_back, from_string}

  deleted :
      (command : Bytes) (w w' : World P)
      → (query_execute P command >> pure tt) w ≡ (ok tt, w')
      → w'.db ≡ (mysql.execute command w.db).1
  unfolding query_execute
  deleted command w w' h = sym (ap (λ v. v.db) (returned h).1)

  -- The pushes of a user that were found are deleted in every call that returns, also where
  -- `my_send` failed or was cut short: the descriptor's overload does not look at its value.
  pub answer_pushes-db :
      (fd : ℕ) (user_id : Bytes) (row : List Bytes) (rows : List (List Bytes)) (w w' : World P)
      → answer_pushes P (fd_channel P fd) user_id (some (row ∷ rows)) w ≡ (ok tt, w')
      → w'.db ≡ (mysql.execute (delete_pushes P user_id) w.db).1
  unfolding answer_pushes
  answer_pushes-db fd user_id row rows w w' h =
      let part : World P → mysql.Db = λ v. v.db in
      let ch = fd_channel P fd in
      let quiet = fd_channel-Quiet P part (λ v n. refl) fd in
      let (videos, w1, e1, h1) = bind-returned (push_videos P null null (row ∷ rows)) _ w h in
      let (sent, w2, e2, h2) =
        bind-returned (send_packet P ch (send_video_push_info_p json videos)) _ w1 h1 in
      let pushed =
        sym (ap (λ r. r.1.db) e1)
        ∙ (push_videos-Keeps P part ch quiet null null (row ∷ rows)).kept w in
      let packed =
        sym (ap (λ r. r.1.db) e2)
        ∙ (send_packet-Keeps P part ch quiet (send_video_push_info_p json videos)).kept w1 in
      deleted (delete_pushes P user_id) w2 w' h2
      ∙ ap (λ d. (mysql.execute (delete_pushes P user_id) d).1) (packed ∙ pushed)
