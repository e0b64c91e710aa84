-- ===== src/SendInfo/Frame.antt =====
-- What the answers of the server leave alone.
use pick_up_the_light_server.Prelude.{ℕ, ◌≡◌, ◌≢◌, refl, Option, some}
use pick_up_the_light_server.Outcome.{parse_error}
use pick_up_the_light_server.Text.{Bytes, bytes}
use pick_up_the_light_server.Table.{Table}
use pick_up_the_light_server.Evaluator.{Evaluator}
use pick_up_the_light_server.Snowflake.{IdWorker}
use pick_up_the_light_server.Protocol.{InfoType, video_push, to_info_type}
use pick_up_the_light_server.Platform.{Platform, World, Channel, fd_channel, socket_channel}
use pick_up_the_light_server.Platform.Frame.{
  Keeps, bind-Keeps, want-Keeps, num_field-Keeps, query_execute-Keeps, Quiet, fd_channel-Quiet,
  socket_channel-Quiet,
}
use pick_up_the_light_server.SendInfo.{send, send_info_on, send_info, send_info_boost}
use pick_up_the_light_server.SendInfo.Cases.{send-Keeps, send_video_push-Keeps}

-- All that a question could change besides the network and the database.
abbrev pub Others : Platform → Type 0
Others P = P.files.Disk × Table Bytes Bytes × Evaluator ℕ × IdWorker

abbrev pub others : (P : Platform) → World P → Others P
others P w = (w.disk, w.live_list, w.evaluator, w.id_worker)

module _ (P : Platform) where
  pub send_info_on-Keeps :
      {B : Type 0} (part : World P → B) (ch : Channel P) (base buf : Bytes)
      → Quiet P part ch
      → ((w : World P) (d : P.mysql.Db) → part (record w { db = d }) ≡ part w)
      → Keeps part (send_info_on P ch base buf)
  unfolding send_info_on
  send_info_on-Keeps part ch base buf quiet db_free =
      bind-Keeps part (want-Keeps P part parse_error (P.json.parse buf)) λ j.
        bind-Keeps part (num_field-Keeps P part (bytes "infotype") j) λ n.
          send-Keeps P part ch quiet base j (to_info_type n)
            (λ h. send_video_push-Keeps P part ch quiet (query_execute-Keeps P part db_free) j)

  -- Whatever a client asks, and however the call ends: both overloads of `send_info` leave the
  -- disk, the live list, the table of connections and the id generator alone.
  pub send_info-others :
      (key : ℕ) (buf : Bytes) (w : World P)
      → (others P (send_info P key buf w).1 ≡ others P w)
        × (others P (send_info_boost P key buf w).1 ≡ others P w)
  unfolding send_info send_info_boost
  send_info-others key buf w =
      let over_fd = fd_channel-Quiet P (others P) (λ v n. refl) key in
      let over_socket = socket_channel-Quiet P (others P) (λ v n. refl) key in
      let keeps = λ (ch : Channel P) (base : Bytes) (quiet : Quiet P (others P) ch).
        send_info_on-Keeps (others P) ch base buf quiet (λ v d. refl) in
      (
        (keeps (fd_channel P key) (bytes "http://192.168.156.74/") over_fd).kept w,
        (keeps (socket_channel P key) (bytes "http://127.0.0.1/") over_socket).kept w,
      )

  -- Every kind of question but the one for pushed videos also leaves the database alone.
  pub send-db :
      (key : ℕ) (base : Bytes) (j : P.json.Json) (t : Option InfoType) (w : World P)
      → t ≢ some video_push
      → ((send P (fd_channel P key) base j t w).1.db ≡ w.db)
        × ((send P (socket_channel P key) base j t w).1.db ≡ w.db)
  send-db key base j t w other =
      let part : World P → P.mysql.Db = λ v. v.db in
      let over_fd = fd_channel-Quiet P part (λ v n. refl) key in
      let over_socket = socket_channel-Quiet P part (λ v n. refl) key in
      (
        (send-Keeps P part (fd_channel P key) over_fd base j t (λ h. absurd (other h))).kept w,
        (send-Keeps P part (socket_channel P key) over_socket base j t (λ h. absurd (other h))).kept
            w,
      )
