-- ===== src/SendFile/Frame.antt =====
-- What the download of a file leaves alone: whatever the channel's sends leave alone.
use pick_up_the_light_server.Prelude.{ℕ, refl, Option, none, some, List, [], ◌∷◌, ◌++◌, false, ◌==◌}
use pick_up_the_light_server.Outcome.{ok, type_error, parse_error, gets}
use pick_up_the_light_server.Text.{Bytes, bytes}
use pick_up_the_light_server.Protocol.{FileType, profile_picture}
use pick_up_the_light_server.Platform.{Platform, World, Channel}
use pick_up_the_light_server.Platform.Frame.{
  Keeps, bind-Keeps, then-Keeps, same-Keeps, if-Keeps, want-Keeps, str_field-Keeps, cell-Keeps,
  query_store-Keeps, Quiet, transmit-Keeps,
}
use pick_up_the_light_server.ReceiveFile.{file_type}
use pick_up_the_light_server.SendFile.{
  to_json_pfile_info, to_json_vfile_info, get_file_size, file_header, file_packet, send_content,
  send_sized, send_described, send_pfile, send_vfile, first_cell, two_cells, send_profile_picture,
  send_video, send_chat_img, send_preview, send_typed, send_file_on, is_sent,
}

module _ (P : Platform) {B : Type 0} (part : World P → B) where
  open P use {json}
  open json use {Json}

  first_cell-Keeps : (res : Option (List (List Bytes))) → Keeps part (first_cell P res)
  unfolding first_cell
  first_cell-Keeps none = same-Keeps part (ok [])
  first_cell-Keeps (some []) = same-Keeps part (ok [])
  first_cell-Keeps (some (row ∷ rows)) = cell-Keeps P part 0 row

  two_cells-Keeps : (res : Option (List (List Bytes))) → Keeps part (two_cells P res)
  unfolding two_cells
  two_cells-Keeps none = same-Keeps part (ok ([], []))
  two_cells-Keeps (some []) = same-Keeps part (ok ([], []))
  two_cells-Keeps (some (row ∷ rows)) =
      bind-Keeps part (cell-Keeps P part 0 row)
        λ a. bind-Keeps part (cell-Keeps P part 1 row) λ b. same-Keeps part (ok (a, b))

  module _ (ch : Channel P) (quiet : Quiet P part ch) where
    send_content-Keeps :
        (path : Bytes) (info : Json) (size : ℕ) (content : Option Bytes)
        → Keeps part (send_content P ch path info size content)
    unfolding send_content
    send_content-Keeps path info size none = same-Keeps part (ok false)
    send_content-Keeps path info size (some content) =
        bind-Keeps part (want-Keeps P part type_error (json.dump info)) λ text.
          bind-Keeps part (same-Keeps part (file_packet P size text content))
            λ packet. bind-Keeps part (quiet.sends packet) λ ret. same-Keeps part (ok (is_sent ret))

    send_described-Keeps : (path : Bytes) (info : Json) → Keeps part (send_described P ch path info)
    unfolding send_described send_sized get_file_size
    send_described-Keeps path info =
        bind-Keeps part {m = get_file_size P path} (record { kept = λ w. refl })
          λ size.
            if-Keeps part (size == 0)
              (then-Keeps part (transmit-Keeps P part ch quiet (file_header P 0))
                (same-Keeps part (ok false)))
              (bind-Keeps part {m = gets (λ (w : World P). P.files.read_file path w.disk)}
                (record { kept = λ w. refl }) λ content. send_content-Keeps path info size content)

    send_pfile-Keeps :
        (t : FileType) (path id suffix : Bytes) → Keeps part (send_pfile P ch t path id suffix)
    unfolding send_pfile
    send_pfile-Keeps t path id suffix =
        send_described-Keeps path (to_json_pfile_info json t id suffix)

    send_vfile-Keeps :
        (t : FileType) (path id publisher suffix : Bytes)
        → Keeps part (send_vfile P ch t path id publisher suffix)
    unfolding send_vfile
    send_vfile-Keeps t path id publisher suffix =
        send_described-Keeps path (to_json_vfile_info json t id publisher suffix)

    send_profile_picture-Keeps : (msg : Json) → Keeps part (send_profile_picture P ch msg)
    unfolding send_profile_picture
    send_profile_picture-Keeps msg = bind-Keeps part (str_field-Keeps P part (bytes "id") msg) λ id.
        bind-Keeps part (query_store-Keeps P part _) λ res.
          bind-Keeps part (first_cell-Keeps res) λ suffix.
            send_pfile-Keeps profile_picture
              (bytes "/root/my_test/MyServer/cache/profilePicture/" ++ id ++ suffix) id suffix

    send_video-Keeps : (msg : Json) → Keeps part (send_video P ch msg)
    unfolding send_video
    send_video-Keeps msg = bind-Keeps part (str_field-Keeps P part (bytes "id") msg) λ id.
        bind-Keeps part (query_store-Keeps P part _) λ res.
          bind-Keeps part (two_cells-Keeps res) λ cells.
            send_vfile-Keeps FileType.video (bytes "/opt/nginx-video/" ++ id ++ cells.0) id cells.1
              cells.0

    send_chat_img-Keeps : (msg : Json) → Keeps part (send_chat_img P ch msg)
    unfolding send_chat_img
    send_chat_img-Keeps msg = bind-Keeps part (str_field-Keeps P part (bytes "imgName") msg) λ name.
        bind-Keeps part (str_field-Keeps P part (bytes "id") msg) λ id.
          send_pfile-Keeps FileType.chat_img
            (bytes "/root/my_test/MyServer/cache/chatPicture/" ++ name) id name

    send_preview-Keeps : (msg : Json) → Keeps part (send_preview P ch msg)
    unfolding send_preview
    send_preview-Keeps msg =
        bind-Keeps part (str_field-Keeps P part (bytes "videoId") msg) λ video_id.
          bind-Keeps part (query_store-Keeps P part _) λ res.
            bind-Keeps part (first_cell-Keeps res) λ suffix.
              bind-Keeps part (str_field-Keeps P part (bytes "id") msg) λ id.
                send_pfile-Keeps FileType.video_preview_img
                  (bytes "/root/my_test/MyServer/cache/previewPicture/" ++ video_id ++ suffix) id
                  (video_id ++ suffix)

    send_typed-Keeps : (msg : Json) (t : Option FileType) → Keeps part (send_typed P ch msg t)
    unfolding send_typed
    send_typed-Keeps msg (some profile_picture) =
        then-Keeps part (send_profile_picture-Keeps msg) (same-Keeps part (ok tt))
    send_typed-Keeps msg (some FileType.video) =
        then-Keeps part (send_video-Keeps msg) (same-Keeps part (ok tt))
    send_typed-Keeps msg (some FileType.chat_img) =
        then-Keeps part (send_chat_img-Keeps msg) (same-Keeps part (ok tt))
    send_typed-Keeps msg (some FileType.video_preview_img) =
        then-Keeps part (send_preview-Keeps msg) (same-Keeps part (ok tt))
    send_typed-Keeps msg none = same-Keeps part (ok tt)

    pub send_file_on-Keeps : (buf : Bytes) → Keeps part (send_file_on P ch buf)
    unfolding send_file_on
    send_file_on-Keeps buf = bind-Keeps part (want-Keeps P part parse_error (json.parse buf)) λ msg.
        bind-Keeps part (want-Keeps P part type_error (json.field (bytes "filetype") msg))
          λ v. send_typed-Keeps msg (file_type json v)
