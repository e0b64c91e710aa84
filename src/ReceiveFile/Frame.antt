-- ===== src/ReceiveFile/Frame.antt =====
-- What the upload of a file leaves alone.
use pick_up_the_light_server.Prelude.{Bool, true, Option, none, some, List, [], ◌∷◌}
use pick_up_the_light_server.Outcome.{ok, type_error, parse_error}
use pick_up_the_light_server.Text.{Bytes, bytes}
use pick_up_the_light_server.Protocol.{FileType, profile_picture}
use pick_up_the_light_server.Platform.{Platform, World, Channel}
use pick_up_the_light_server.Platform.Frame.{
  Keeps, bind-Keeps, same-Keeps, want-Keeps, str_field-Keeps, cell-Keeps, query_store-Keeps,
  query_execute-Keeps, new_id-Keeps, Quiet, transmit-Keeps, IsApart,
}
use pick_up_the_light_server.NetPackets.{packet_bytes, send_video_id_p}
use pick_up_the_light_server.ReceiveFile.{
  file_type, upload_picture, upload_image, upload_preview, upload_video, upload, write_file,
  push_to, push_found, push_video, receive_file_on, insert_push,
}

module _ (P : Platform) {B : Type 0} (part : World P → B) (apart : IsApart P part) (ch : Channel P)
    (quiet : Quiet P part ch) where
  open P use {json}
  open json use {Json}

  upload_picture-Keeps : (quoted : Bool) (msg : Json) → Keeps part (upload_picture P quoted msg)
  unfolding upload_picture
  upload_picture-Keeps quoted msg = bind-Keeps part (str_field-Keeps P part (bytes "id") msg) λ id.
      bind-Keeps part (str_field-Keeps P part (bytes "suffix") msg) λ suffix. same-Keeps part (ok _)

  upload_image-Keeps : (msg : Json) → Keeps part (upload_image P msg)
  unfolding upload_image
  upload_image-Keeps msg = bind-Keeps part (new_id-Keeps P part apart.id_free) λ id.
      bind-Keeps part (str_field-Keeps P part (bytes "suffix") msg) λ suffix.
        bind-Keeps part (str_field-Keeps P part (bytes "sendId") msg) λ send_id.
          bind-Keeps part (str_field-Keeps P part (bytes "receiveId") msg)
            λ receive_id. same-Keeps part (ok _)

  upload_preview-Keeps : (msg : Json) → Keeps part (upload_preview P msg)
  unfolding upload_preview
  upload_preview-Keeps msg = bind-Keeps part (str_field-Keeps P part (bytes "id") msg) λ id.
      bind-Keeps part (str_field-Keeps P part (bytes "suffix") msg) λ suffix. same-Keeps part (ok _)

  upload_video-Keeps : (msg : Json) → Keeps part (upload_video P ch msg)
  unfolding upload_video
  upload_video-Keeps msg = bind-Keeps part (new_id-Keeps P part apart.id_free) λ id.
      bind-Keeps part (str_field-Keeps P part (bytes "suffix") msg) λ suffix.
        bind-Keeps part (str_field-Keeps P part (bytes "id") msg) λ publisher.
          bind-Keeps part (str_field-Keeps P part (bytes "profile") msg) λ profile.
            bind-Keeps part (same-Keeps part (send_video_id_p json id)) λ p.
              bind-Keeps part (transmit-Keeps P part ch quiet (packet_bytes p))
                λ told. same-Keeps part (ok _)

  upload-Keeps :
      (quoted : Bool) (msg : Json) (t : Option FileType) → Keeps part (upload P ch quoted msg t)
  unfolding upload
  upload-Keeps quoted msg (some profile_picture) = upload_picture-Keeps quoted msg
  upload-Keeps quoted msg (some FileType.chat_img) = upload_image-Keeps msg
  upload-Keeps quoted msg (some FileType.video_preview_img) = upload_preview-Keeps msg
  upload-Keeps quoted msg (some FileType.video) = upload_video-Keeps msg
  upload-Keeps quoted msg none = same-Keeps part (ok _)

  push_to-Keeps :
      (video_id : Bytes) (rows : List (List Bytes)) → Keeps part (push_to P video_id rows)
  unfolding push_to
  push_to-Keeps video_id [] = same-Keeps part (ok tt)
  push_to-Keeps video_id (row ∷ rows) = bind-Keeps part (cell-Keeps P part 0 row) λ follower.
      bind-Keeps part (query_execute-Keeps P part apart.db_free (insert_push follower video_id))
        λ pushed. push_to-Keeps video_id rows

  push_found-Keeps :
      (video_id : Bytes) (res : Option (List (List Bytes))) → Keeps part (push_found P video_id res)
  unfolding push_found
  push_found-Keeps video_id none = same-Keeps part (ok tt)
  push_found-Keeps video_id (some rows) = push_to-Keeps video_id rows

  push_video-Keeps :
      (video_id : Bytes) (msg : Json) (t : Option FileType)
      → Keeps part (push_video P video_id msg t)
  unfolding push_video
  push_video-Keeps video_id msg (some FileType.video) =
      bind-Keeps part (str_field-Keeps P part (bytes "id") msg)
        λ user_id. bind-Keeps part (query_store-Keeps P part _) λ res. push_found-Keeps video_id res
  push_video-Keeps video_id msg _ = same-Keeps part (ok tt)

  pub receive_file_on-Keeps :
      (quoted : Bool) (info content : Bytes) → Keeps part (receive_file_on P ch quoted info content)
  unfolding receive_file_on write_file
  receive_file_on-Keeps quoted info content =
      bind-Keeps part (want-Keeps P part parse_error (json.parse info)) λ msg.
        bind-Keeps part (want-Keeps P part type_error (json.field (bytes "filetype") msg)) λ v.
          bind-Keeps part (upload-Keeps quoted msg (file_type json v)) λ u.
            bind-Keeps part {m = write_file P u.filepath content}
              (record {
                kept = λ w. apart.disk_free w (P.files.write_file u.filepath content w.disk);
              })
              λ written.
                bind-Keeps part (query_execute-Keeps P part apart.db_free u.command) λ known.
                  bind-Keeps part (push_video-Keeps u.video_id msg (file_type json v))
                    λ pushed. same-Keeps part (ok true)
