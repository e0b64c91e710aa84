-- ===== src/SendInfo/Tests.antt =====
-- Theorems on answers at concrete data.
use pick_up_the_light_server.Prelude.{◌≡◌, refl, Option, some, List, [], ◌∷◌, if◌then◌else◌}
use pick_up_the_light_server.Prelude.Int.{pos}
use pick_up_the_light_server.Outcome.{ok}
use pick_up_the_light_server.Text.{Bytes, bytes, ◌==◌}
use pick_up_the_light_server.Protocol.{header_bytes, info_type_code, purpose_code}
use pick_up_the_light_server.Transfer.{my_send}
use pick_up_the_light_server.Platform.{Platform, World, fd_channel}
use pick_up_the_light_server.Platform.Concrete.{
  Value, null, string, number, entry, dump, concrete, quiet_world,
}
use pick_up_the_light_server.Database.{query_execute, query_store}
use pick_up_the_light_server.NetPackets.{packet_bytes, to_packet, send_video_push_info_p}
use pick_up_the_light_server.SendInfo.{
  select_publisher, delete_pushes, push_videos, put_publisher, answer_pushes, send_packet,
  send_info, send_info_boost,
}
use pick_up_the_light_server.SendInfo.Frame.{others, send_info-others}
use pick_up_the_light_server.SendInfo.Push.{answer_pushes-db}

-- The question for the nick name of user 12.
abbrev request : Value
unfolding bytes
request =
    entry (bytes "infotype") (number (pos 8)) (entry (bytes "userId") (string (49 ∷ 50 ∷ [])) null)

-- Video `a` was published by `p`; there is no video `b`.
abbrev answer : Bytes → List Bytes → Option (List (List Bytes))
unfolding ◌==◌ bytes
answer query log =
    if query == bytes "select publisherId from Video where id = a"
    then some (((b'p' ∷ []) ∷ []) ∷ [])
    else some []

abbrev platform : Platform
platform = concrete request answer

abbrev world : World platform
world = quiet_world request answer

send_info-others_example :
    (others platform (send_info platform 7 [] world).1 ≡ others platform world)
    × (others platform (send_info_boost platform 7 [] world).1 ≡ others platform world)
send_info-others_example = send_info-others platform 7 [] world

-- The answer about one pushed video, over a connection in memory.
abbrev pushed : World platform
pushed =
    (answer_pushes platform (fd_channel platform 7) (b'u' ∷ []) (some (((b'a' ∷ []) ∷ []) ∷ []))
      world).1

push_returns :
    answer_pushes platform
      (fd_channel platform 7)
      (b'u' ∷ [])
      (some (((b'a' ∷ []) ∷ []) ∷ []))
      world
    ≡ (ok tt, pushed)
unfolding answer_pushes push_videos put_publisher select_publisher query_store query_execute
    send_packet send_video_push_info_p to_packet packet_bytes fd_channel my_send header_bytes
    info_type_code purpose_code dump bytes ◌==◌
push_returns = refl

answer_pushes-db_example : pushed.db ≡ delete_pushes platform (b'u' ∷ []) ∷ []
answer_pushes-db_example =
    answer_pushes-db platform 7 (b'u' ∷ []) ((b'a' ∷ []) ∷ []) [] world pushed push_returns
